-- ===== src/Http/Content/Pages.antt =====
-- network/http_server/content.c: the answers of the server, and their blocks.
use pico_stairway_controller.Base.{
  ◌^◌, ℕ, ◌+◌, ◌<◌, ◌≡◌, ◌≢◌, ap, inl, inr, refl, arith, leb, if◌then◌else◌, Bool, true, false,
  List, [], Option, none, some, length, codes, Bool-cases,
}
use pico_stairway_controller.Types.{ErrCode, Settings, Status}
use pico_stairway_controller.Body.Print.Laws.{settings_text, get_settings_json_lem}
use pico_stairway_controller.Settings.{Platform, FlashRun}
use pico_stairway_controller.Http.Response.{
  ContentResponse, no_response, Heap, content_response_free, set_body_copy, set_body_static,
  set_header, set_redirect, set_json_status, content_type_html, content_type_json, json_status_ok,
  json_status_error,
}
use pico_stairway_controller.Http.Response.Owned.{
  IsBalanced, IsComplete, IsServed, HasBody, blocks, free-IsBalanced, put_header-IsServed,
}
use pico_stairway_controller.Http.Content.{
  Given, Served, and_then, or_exit, prepare_json_status, prepare_json_settings, get_page,
  get_content, Device, post_action, post_page, post_content, status_text,
}

-- An error owns nothing.
abbrev pub IsFinal : ℕ → Served → Type 0
IsFinal kept (err, r, h) =
    IsBalanced kept r h
    × ((err ≡ ErrCode.success) → IsComplete r)
    × ((err ≢ ErrCode.success) → r ≡ no_response)

or_exit-IsFinal : (kept : ℕ) (x : Served) → IsServed kept x → IsFinal kept (or_exit x)
unfolding content_response_free
or_exit-IsFinal kept (ErrCode.success, r, h) s = (s.0, s.1, λ ne. absurd (ne refl))
or_exit-IsFinal kept (_, r, h) s =
    (omega (arith, free-IsBalanced kept r h s.0), λ e. ground arith, λ ne. refl)

-- A body without a header yet.
abbrev IsBodied : ℕ → Served → Type 0
IsBodied kept (err, r, h) =
    (r.header ≡ none) × IsBalanced kept r h × ((err ≡ ErrCode.success) → HasBody r)

and_then-IsServed :
    (kept : ℕ) (x : Served) (next : ContentResponse → Heap → Served)
    → IsBodied kept x
    → ((r : ContentResponse) (h : Heap)
        → r.header ≡ none
        → IsBalanced kept r h
        → HasBody r
        → IsServed kept (next r h))
    → IsServed kept (and_then x next)
and_then-IsServed kept (ErrCode.success, r, h) next b k = k r h b.0 b.1 (b.2 refl)
and_then-IsServed kept (_, r, h) next b k = (b.1, λ e. ground arith)

set_body_copy-IsBodied :
    (kept : ℕ) (given : Bool) (dat : List ℕ) (r : ContentResponse) (h : Heap)
    → r ≡ no_response
    → IsBalanced kept r h
    → length dat < 2 ^ 31
    → IsBodied kept (set_body_copy given dat r h)
unfolding set_body_copy
set_body_copy-IsBodied kept true dat r h none_yet b short =
    let e : _ = ap (λ (r : ContentResponse). r.header) none_yet in
    let e' : _ = ap (λ (r : ContentResponse). r.body) none_yet in
    (e, ground (arith, ap blocks e, ap blocks e'), λ ok. (refl, short))
set_body_copy-IsBodied kept false dat r h none_yet b short =
    let e : _ = ap (λ (r : ContentResponse). r.header) none_yet in
    let e' : _ = ap (λ (r : ContentResponse). r.body) none_yet in
    (e, ground (arith, ap blocks e, ap blocks e'), λ ok. ground arith)

header_after :
    (kept : ℕ) (given : Bool) (code : ℕ) (reason content_type : List ℕ) (r : ContentResponse)
    (h : Heap)
    → r.header ≡ none
    → IsBalanced kept r h
    → HasBody r
    → IsServed kept (set_header given code reason content_type r h)
unfolding set_header
header_after kept given code reason content_type r h none_yet b e =
    put_header-IsServed kept given _ _ r h none_yet b e

-- The pages start from an empty response, with every block freed.
module _ (kept : ℕ) (h : Heap) (even : h.allocated ≡ h.freed + kept) where
  static_page :
      (given : Bool) (code : ℕ) (reason content_type dat : List ℕ)
      → length dat < 2 ^ 31
      → IsServed kept
          (set_header given code reason content_type (set_body_static dat no_response) h)
  unfolding set_body_static
  static_page given code reason content_type dat short =
      header_after kept given code reason content_type _ h refl (omega arith) (refl, short)

  redirect_page : (given : Bool) (gw : List ℕ) → IsServed kept (set_redirect given gw no_response h)
  unfolding set_redirect
  redirect_page given gw =
      put_header-IsServed kept given _ _ no_response h refl (omega arith) (refl, omega arith)

  info_page :
      (given : Bool) (st : Status) → IsBodied kept (prepare_json_status given st no_response h)
  unfolding prepare_json_status
  info_page given st = elim (Bool-cases (leb 1024 (length (status_text st)))) [
    | inl long ↦ rw long (refl, omega arith, λ ok. (refl, omega arith))
    | inr short ↦
        rw short
          (set_body_copy-IsBodied kept given _ no_response h refl (omega arith) (ground arith))
  ]

  settings_page :
      (given : Bool) (s : Settings) → IsBodied kept (prepare_json_settings given s no_response h)
  unfolding prepare_json_settings
  settings_page given s = elim (get_settings_json_lem 1024 s (omega arith)) [
    | inl (fits, printed) ↦ rw printed (
        set_body_copy-IsBodied kept given (settings_text s) no_response h refl (omega arith)
          (omega (arith, fits)))
    | inr (long, over) ↦ rw over (refl, omega arith, λ ok. (refl, omega arith))
  ]

  one_of-IsServed :
      (a b c : Bool) (x y z w : Served)
      → IsServed kept x
      → IsServed kept y
      → IsServed kept z
      → IsServed kept w
      → IsServed kept (if a then x else if b then y else if c then z else w)
  one_of-IsServed true b c x y z w hx hy hz hw = hx
  one_of-IsServed false true c x y z w hx hy hz hw = hy
  one_of-IsServed false false true x y z w hx hy hz hw = hz
  one_of-IsServed false false false x y z w hx hy hz hw = hw

  get_page-IsServed :
      (index_html gw : List ℕ) (given : Given) (s : Settings) (st : Status) (path : List ℕ)
      → length index_html < 2 ^ 31
      → IsServed kept (get_page index_html gw given s st path no_response h)
  unfolding get_page
  get_page-IsServed index_html gw given s st path short =
      one_of-IsServed _ _ _ _ _ _ _
        (static_page given.for_header 200 (codes "OK") content_type_html index_html short)
        (and_then-IsServed kept _ (set_header given.for_header 200 (codes "OK") content_type_json)
          (info_page given.for_body st)
          (λ r h' none_yet b e.
            header_after kept given.for_header 200 (codes "OK") content_type_json r h' none_yet b
              e))
        (and_then-IsServed kept _ (set_header given.for_header 200 (codes "OK") content_type_json)
          (settings_page given.for_body s)
          (λ r h' none_yet b e.
            header_after kept given.for_header 200 (codes "OK") content_type_json r h' none_yet b
              e))
        (redirect_page given.for_header gw)

  post_page-IsServed :
      (given : Bool) (p : Platform) (action : Option (Bool × Device p))
      → IsServed kept (post_page p given action no_response h)
  unfolding set_json_status
  post_page-IsServed given p none =
      static_page given 404 (codes "Not Found") content_type_json [] (omega arith)
  post_page-IsServed given p (some (true, d)) =
      static_page given 200 (codes "OK") content_type_json json_status_ok (omega arith)
  post_page-IsServed given p (some (false, d)) =
      static_page given 400 (codes "Bad Request") content_type_json json_status_error (omega arith)

-- Whatever response the connection had, and whatever the heap answers: after a GET request its
-- blocks are freed, and the new response is complete and owns all blocks that are not freed; an
-- error leaves an empty response and no block.
pub get_content-IsFinal :
    (kept : ℕ) (index_html gw : List ℕ) (given : Given) (s : Settings) (st : Status) (path : List ℕ)
    (r : ContentResponse) (h : Heap)
    → length index_html < 2 ^ 31
    → IsBalanced kept r h
    → IsFinal kept (get_content index_html gw given s st path r h)
unfolding get_content content_response_free
get_content-IsFinal kept index_html gw given s st path r h short b =
    let h' : Heap = (content_response_free r h).1 in
    or_exit-IsFinal kept (get_page index_html gw given s st path no_response h')
      (get_page-IsServed kept h' (free-IsBalanced kept r h b) index_html gw given s st path short)

-- The same holds after a POST request.
pub post_content-IsFinal :
    (kept : ℕ) (p : Platform) (run : FlashRun p) (now : ℕ) (given : Bool) (path body : List ℕ)
    (d : Device p) (r : ContentResponse) (h : Heap)
    → IsBalanced kept r h
    → IsFinal kept (post_content p run now given path body d r h).0
unfolding post_content content_response_free
post_content-IsFinal kept p run now given path body d r h b =
    let h' : Heap = (content_response_free r h).1 in
    or_exit-IsFinal kept (post_page p given (post_action p run now path body d) no_response h') (
      post_page-IsServed kept h' (free-IsBalanced kept r h b) given p
        (post_action p run now path body d))
