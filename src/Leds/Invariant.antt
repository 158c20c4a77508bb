-- ===== src/Leds/Invariant.antt =====
-- stairway/stairway_leds.c: the lengths of the strip's buffers, and the calls of realloc.
use pico_stairway_controller.Base.{
  ℕ, ◌*◌, ◌<◌, ◌≡◌, ◌≢◌, ◌⊎◌, ◌∙◌, ap, inl, inr, refl, sym, arith, u32, length, get_or, replicate,
  Bool, true, false, Option, none, some, List, ◌++◌, length-set, length-replicate, Bool-cases, ◌==◌,
  ◌!=◌, leb, ==_iff,
}
use pico_stairway_controller.Types.{success, mem_alloc_fail, ErrCode, Settings}
use pico_stairway_controller.Ws2812.{Ws2812}
use pico_stairway_controller.Ws2812
use pico_stairway_controller.Ws2812.Laws.{Sized, set_led_count_blanks, set_led_count_no_memory}
use pico_stairway_controller.Leds.{
  Leds, dark, apply_event, set_state, resize, refresh, refresh_all, refresh_resized,
}
use pico_stairway_controller.Leds.Frame.{refresh_all-IsRefreshed}

-- Both buffers are allocated and have the length that the handle states.
abbrev pub IsWf : Leds → Type 0
IsWf l = Sized l.handler.mem l.handler.led_count × (length l.buf ≡ l.handler.led_count)

pub Sized-words :
    (o : Option (List ℕ)) (n : ℕ) → Sized o n → (mem : List ℕ) × (o ≡ some mem) × (length mem ≡ n)
Sized-words none n h = absurd h
Sized-words (some mem) n h = (mem, refl, h)

-- A LED event keeps the buffers' lengths, whatever index it names.
pub set_state-IsWf : (i t : ℕ) (b : Bool) (l : Leds) → IsWf l → IsWf (set_state i b t l).0
unfolding set_state
set_state-IsWf i t b l h = elim (Bool-cases (leb l.handler.led_count i)) [
  | inl out ↦ rw out h
  | inr inside ↦ rw inside (h.0, length-set l.buf i (apply_event b t (get_or l.buf i dark)) ∙ h.1)
]

-- With its memory given, a change of the length blanks the old strip, and leaves every LED of the
-- new one dark and off.
pub resize_lem :
    (n : ℕ) (l : Leds)
    → IsWf l
    → 0 < n
    → resize true true n l ≡ (
      record l {
        buf = replicate n dark;
        handler = record (l.handler) {
          mem = some (replicate n 0);
          mem_size = u32 (n * 4);
          led_count = n;
          wire = l.handler.wire ++ replicate l.handler.led_count 0;
        };
      },
      success,
    )
unfolding resize
resize_lem n l h pos =
    let (mem, e, sized) = Sized-words l.handler.mem l.handler.led_count h.0 in
    ap (λ (r : Ws2812 × ErrCode). (record l { buf = replicate n dark; handler = r.0 }, r.1))
      (ap (λ (o : Option (List ℕ)). Ws2812.set_led_count true (record (l.handler) { mem = o }) n) e
        ∙ set_led_count_blanks l.handler mem n sized pos)

-- When the second realloc fails, the first one has already cut `buf` to `n` entries, and the
-- index is still checked against the old length.
pub resize_no_memory :
    (n : ℕ) (l : Leds)
    → IsWf l
    → 0 < n
    → ((resize true false n l).1 ≡ mem_alloc_fail)
      × (length (resize true false n l).0.buf ≡ n)
      × ((resize true false n l).0.handler.led_count ≡ l.handler.led_count)
unfolding resize
resize_no_memory n l h pos =
    let (mem, e, sized) = Sized-words l.handler.mem l.handler.led_count h.0 in
    let r : Ws2812.set_led_count false l.handler n ≡ (
      record (l.handler) {
        mem = some (replicate l.handler.led_count 0);
        wire = l.handler.wire ++ replicate l.handler.led_count 0;
      },
      mem_alloc_fail,
    ) =
      ap (λ (o : Option (List ℕ)). Ws2812.set_led_count false (record (l.handler) { mem = o }) n) e
      ∙ set_led_count_no_memory l.handler mem n sized pos in
    (
      ap (λ (p : Ws2812 × ErrCode). p.1) r,
      length-replicate n dark,
      ap (λ (p : Ws2812 × ErrCode). p.0.led_count) r,
    )

resized-IsWf : (n : ℕ) (l : Leds) → IsWf l → 0 < n → IsWf (resize true true n l).0
resized-IsWf n l h pos =
    rw (resize_lem n l h pos) (length-replicate {A = ℕ} n 0, length-replicate n dark)

refresh_all-IsWf :
    (s : Settings) (l : Leds)
    → IsWf l
    → ((refresh_all s l).1 ≡ success)
      × IsWf (refresh_all s l).0
      × ((refresh_all s l).0.handler.led_count ≡ l.handler.led_count)
refresh_all-IsWf s l h =
    let (mem, e, sized) = Sized-words l.handler.mem l.handler.led_count h.0 in
    let (out, runs, r) = refresh_all-IsRefreshed s l mem e h.1 sized in
    rw runs (
      refl,
      (rw r.has_words (r.sized_words ∙ sym r.same_count), r.sized_buf ∙ sym r.same_count),
      r.same_count,
    )

refresh-same :
    (a b : Bool) (s : Settings) (l : Leds)
    → s.led_count ≡ l.handler.led_count
    → refresh a b s l ≡ refresh_all s l
unfolding refresh
refresh-same a b s l e = ground arith

pub refresh-resized :
    (s : Settings) (l : Leds)
    → IsWf l
    → 0 < s.led_count
    → s.led_count ≢ l.handler.led_count
    → refresh true true s l ≡ refresh_all s (resize true true s.led_count l).0
unfolding refresh refresh_resized
refresh-resized s l h pos ne =
    let differs : (s.led_count != l.handler.led_count) ≡ true = ground arith in
    rw (differs, resize_lem s.led_count l h pos) refl

-- With the memory for a change of the length given, a refresh of a well-formed strip succeeds,
-- takes over the length of the settings, and leaves both buffers with that length.
pub granted-IsWf :
    (s : Settings) (l : Leds)
    → IsWf l
    → 0 < s.led_count
    → ((refresh true true s l).1 ≡ success)
      × IsWf (refresh true true s l).0
      × ((refresh true true s l).0.handler.led_count ≡ s.led_count)
granted-IsWf s l h pos = elim (Bool-cases (s.led_count == l.handler.led_count)) [
  | inl same ↦
      let e : s.led_count ≡ l.handler.led_count = (==_iff _ _).0 same in
      let (ok, wf, count) = refresh_all-IsWf s l h in
      rw (refresh-same true true s l e) (ok, wf, count ∙ sym e)
  | inr other ↦
      let (ok, wf, count) =
        refresh_all-IsWf s (resize true true s.led_count l).0 (resized-IsWf s.led_count l h pos) in
      rw (refresh-resized s l h pos (λ e. ground arith)) (
        ok,
        wf,
        count ∙ ap (λ (r : Leds × ErrCode). r.0.handler.led_count) (resize_lem s.led_count l h pos),
      )
]

-- How a refresh can end, in the order of the theorem's comment below.
abbrev pub RefreshEnds : Bool → Bool → Settings → Leds → Leds × ErrCode → Type 0
RefreshEnds a b s l (out, err) =
    ((err ≡ success) × IsWf out × (out.handler.led_count ≡ s.led_count))
    ⊎ ((s.led_count ≢ l.handler.led_count) × (a ≡ false) × (err ≡ mem_alloc_fail) × (out ≡ l))
    ⊎ ((s.led_count ≢ l.handler.led_count)
        × (b ≡ false)
        × (err ≡ mem_alloc_fail)
        × (length out.buf ≡ s.led_count)
        × (out.handler.led_count ≡ l.handler.led_count))
