-- ===== src/Http/Content/Actions.antt =====
-- network/http_server/content.c: what a request does to the settings and to the status.
use mathlib.Core.Path.{subst}
use pico_stairway_controller.Base.{
  ℕ, ◌≡◌, ap, sym, inl, inr, if◌then◌else◌, Bool, true, false, List, Option, none, some, Bool-cases,
  codes, same_text, starts_with,
}
use pico_stairway_controller.Types.{ErrCode, Status}
use pico_stairway_controller.Settings.{
  Platform, Memory, FlashRun, settings_default, settings_write, default_settings, is_success,
}
use pico_stairway_controller.Settings.Check.{IsConsistent}
use pico_stairway_controller.Settings.Flash.{stamped-IsConsistent, write_default}
use pico_stairway_controller.Body.{set_settings_json}
use pico_stairway_controller.Body.Laws.{AllOrNone, set_settings_json-AllOrNone}
use pico_stairway_controller.Http.Response.{ContentResponse, Heap}
use pico_stairway_controller.Http.Content.{
  Served, Device, post_action, post_content, answered, with_test_mode,
}
use pico_stairway_controller.Http.Request.{Malloc, handle_request, http_get, http_post}

-- The active settings are consistent.
abbrev pub IsValid : (p : Platform) → Device p → Type 0
IsValid p d = IsConsistent d.memory.global

module _ (p : Platform) where
  pub AllOrNone-IsConsistent :
      (m m' : Memory p) → IsConsistent m.global → AllOrNone p m m' → IsConsistent m'.global
  AllOrNone-IsConsistent m m' c (inl same) = subst (λ t. IsConsistent t.global) (sym same) c
  AllOrNone-IsConsistent m m' c (inr (s, cs, is_stamped)) =
      subst IsConsistent (sym is_stamped) (stamped-IsConsistent p s cs)

  pub settings_default-IsConsistent :
      (run : FlashRun p) (now : ℕ) (restart : Bool) (m : Memory p) (reboot_ts : ℕ)
      → IsConsistent (settings_default p run now restart m reboot_ts).1.global
  unfolding settings_default
  settings_default-IsConsistent run now restart m reboot_ts =
      let w = settings_write p run (record m { global = default_settings p }) in
      elim (Bool-cases (is_success w.0)) [
        | inl fine ↦ rw fine (write_default p run m)
        | inr bad ↦ rw bad (write_default p run m)
      ]

  one_of-IsValid :
      (b : Bool) (d : Device p) (x y : Option (Bool × Device p))
      → IsValid p (answered p d x)
      → IsValid p (answered p d y)
      → IsValid p (answered p d (if b then x else y))
  one_of-IsValid true d x y vx vy = vx
  one_of-IsValid false d x y vx vy = vy

  post_action-IsValid :
      (run : FlashRun p) (now : ℕ) (path body : List ℕ) (d : Device p)
      → IsValid p d
      → IsValid p (answered p d (post_action p run now path body d))
  unfolding post_action
  post_action-IsValid run now path body d v =
      one_of-IsValid (same_text path (codes "/api/settings")) d _ _
        (AllOrNone-IsConsistent d.memory (set_settings_json p run (some body) d.memory).1 v
          (set_settings_json-AllOrNone p run (some body) d.memory))
        (one_of-IsValid (same_text path (codes "/api/test_on")) d _ _ v (
          one_of-IsValid (same_text path (codes "/api/test_off")) d _ _ v (
            one_of-IsValid (same_text path (codes "/api/reset")) d _ _
              (settings_default-IsConsistent run now false d.memory d.reboot_ts)
              (one_of-IsValid (same_text path (codes "/api/restart")) d _ none v v))))

  post_content-IsValid :
      (run : FlashRun p) (now : ℕ) (given : Bool) (path body : List ℕ) (d : Device p)
      (r : ContentResponse) (h : Heap)
      → IsValid p d
      → IsValid p (post_content p run now given path body d r h).1
  unfolding post_content
  post_content-IsValid run now given path body d r h v = post_action-IsValid run now path body d v

  one_of-IsServing :
      (b : Bool) (x y : Served × Device p)
      → IsValid p x.1
      → IsValid p y.1
      → IsValid p (if b then x else y).1
  one_of-IsServing true x y vx vy = vx
  one_of-IsServing false x y vx vy = vy

  -- Whatever a request holds, consistent settings stay consistent.
  pub handle_request-IsValid :
      (index_html gw : List ℕ) (given : Malloc) (run : FlashRun p) (now : ℕ) (header body : List ℕ)
      (d : Device p) (r : ContentResponse) (h : Heap)
      → IsValid p d
      → IsValid p (handle_request p index_html gw given run now header body d r h).1
  unfolding handle_request
  handle_request-IsValid index_html gw given run now header body d r h v =
      one_of-IsServing (starts_with http_get header) _ _ v (
        one_of-IsServing (starts_with http_post header) _ ((ErrCode.param_invalid, r, h), d)
          (post_content-IsValid run now _ _ body d r h v) v)

-- The device's status is this one, but for the test mode.
abbrev pub OnlyTest : (p : Platform) → Status → Device p → Type 0
OnlyTest p st d = (mode : Bool) × (d.status ≡ record st { test_mode = mode })

module _ (p : Platform) (st : Status) where
  one_of-OnlyTest :
      (b : Bool) (d : Device p) (x y : Option (Bool × Device p))
      → OnlyTest p st (answered p d x)
      → OnlyTest p st (answered p d y)
      → OnlyTest p st (answered p d (if b then x else y))
  one_of-OnlyTest true d x y vx vy = vx
  one_of-OnlyTest false d x y vx vy = vy

  switch-OnlyTest :
      (mode : Bool) (d : Device p) → OnlyTest p st d → OnlyTest p st (with_test_mode p d mode)
  switch-OnlyTest mode d v = (mode, ap (λ (t : Status). record t { test_mode = mode }) v.1)

  post_action-OnlyTest :
      (run : FlashRun p) (now : ℕ) (path body : List ℕ) (d : Device p)
      → OnlyTest p st d
      → OnlyTest p st (answered p d (post_action p run now path body d))
  unfolding post_action
  post_action-OnlyTest run now path body d v =
      one_of-OnlyTest (same_text path (codes "/api/settings")) d _ _ v (
        one_of-OnlyTest (same_text path (codes "/api/test_on")) d _ _ (switch-OnlyTest true d v) (
          one_of-OnlyTest (same_text path (codes "/api/test_off")) d _ _ (switch-OnlyTest false d v)
            (one_of-OnlyTest (same_text path (codes "/api/reset")) d _ _ v
              (one_of-OnlyTest (same_text path (codes "/api/restart")) d _ none v v))))

  post_content-OnlyTest :
      (run : FlashRun p) (now : ℕ) (given : Bool) (path body : List ℕ) (d : Device p)
      (r : ContentResponse) (h : Heap)
      → OnlyTest p st d
      → OnlyTest p st (post_content p run now given path body d r h).1
  unfolding post_content
  post_content-OnlyTest run now given path body d r h v = post_action-OnlyTest run now path body d v

  one_of-Serves :
      (b : Bool) (x y : Served × Device p)
      → OnlyTest p st x.1
      → OnlyTest p st y.1
      → OnlyTest p st (if b then x else y).1
  one_of-Serves true x y vx vy = vx
  one_of-Serves false x y vx vy = vy

  -- Whatever a request holds, it changes nothing of the status but the test mode.
  pub handle_request-OnlyTest :
      (index_html gw : List ℕ) (given : Malloc) (run : FlashRun p) (now : ℕ) (header body : List ℕ)
      (d : Device p) (r : ContentResponse) (h : Heap)
      → OnlyTest p st d
      → OnlyTest p st (handle_request p index_html gw given run now header body d r h).1
  unfolding handle_request
  handle_request-OnlyTest index_html gw given run now header body d r h v =
      one_of-Serves (starts_with http_get header) _ _ v (
        one_of-Serves (starts_with http_post header) _ ((ErrCode.param_invalid, r, h), d)
          (post_content-OnlyTest run now _ _ body d r h v) v)
