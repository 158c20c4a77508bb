-- ===== src/Leds/Frame.antt =====
-- stairway/stairway_leds.c: one call of stairway_leds_refresh at an unchanged length.
use pico_stairway_controller.Base.{
  ℕ, zero, suc, ◌+◌, ◌<◌, ◌≤◌, ◌≡◌, ◌⊎◌, ◌∙◌, ap, inl, inr, refl, sym, arith, length, get_or, set,
  Bool, true, false, ◌||◌, some, List, ◌++◌, length-set, get_or-set_self, get_or-set_ne, Bool-cases,
  ◌==◌, ==_iff,
}
use pico_stairway_controller.Types.{success, ErrCode, Settings}
use pico_stairway_controller.Ws2812.{Ws2812, color_word, frame_from}
use pico_stairway_controller.Ws2812.Laws.{set_color_lem, refresh_lem}
use pico_stairway_controller.Leds.{
  LedState, Leds, dark, fade, refresh_from, send_updated, refresh_all,
}

-- The word of the colour (v, v, v).
abbrev pub gray : ℕ → ℕ
gray v = color_word v v v

module _ (s : Settings) where
  abbrev pub faded : Leds → ℕ → LedState
  faded l j = (fade s l.emergency_state l.handler.led_count j (get_or l.buf j dark)).0

  abbrev changes : Leds → ℕ → Bool
  changes l j = (fade s l.emergency_state l.handler.led_count j (get_or l.buf j dark)).1

  -- One round of the loop.
  abbrev round : Leds → List ℕ → ℕ → Leds
  round l mem i = record l {
    buf = set l.buf i (faded l i);
    handler = record (l.handler) { mem = some (set mem i (gray (faded l i).led_value)) };
  }

  refresh_from-suc :
      (left i : ℕ) (updated : Bool) (l : Leds) (mem : List ℕ)
      → l.handler.mem ≡ some mem
      → i < l.handler.led_count
      → refresh_from s (suc left) i updated l
        ≡ refresh_from s left (i + 1) (changes l i || updated) (round l mem i)
  unfolding refresh_from
  refresh_from-suc left i updated l mem e lt =
      let v = (faded l i).led_value in ap branch (set_color_lem l.handler mem i v v v e lt)
    where
      branch : Ws2812 × ErrCode → Leds × Bool × ErrCode
      branch r =
          let l' = record l { buf = set l.buf i (faded l i); handler = r.0 } in
          elim (r.1) [
            | success ↦ refresh_from s left (i + 1) (changes l i || updated) l'
            | other ↦ (l', changes l i || updated, other)
          ]

  -- The loop from `i` on: the LEDs from `i` to the end are faded and painted, the others, the
  -- length, the emergencies and the wire are as they were.
  pub record IsLoop (i : ℕ) (l : Leds) (mem : List ℕ) (out : Leds) : Type 0 where
    pub words : List ℕ
    pub same_count : out.handler.led_count ≡ l.handler.led_count
    pub same_emergency : out.emergency_state ≡ l.emergency_state
    pub same_wire : out.handler.wire ≡ l.handler.wire
    pub has_words : out.handler.mem ≡ some words
    pub sized_words : length words ≡ length mem
    pub sized_buf : length out.buf ≡ length l.buf
    pub fades_above : (j : ℕ) → i ≤ j → j < l.handler.led_count → get_or out.buf j dark ≡ faded l j
    pub paints_above :
        (j : ℕ) → i ≤ j → j < l.handler.led_count → get_or words j 0 ≡ gray (faded l j).led_value
    pub buf_below : (j : ℕ) → j < i → get_or out.buf j dark ≡ get_or l.buf j dark
    pub words_below : (j : ℕ) → j < i → get_or words j 0 ≡ get_or mem j 0

  IsLoop-round :
      (i : ℕ) (l : Leds) (mem : List ℕ) (out : Leds)
      → i < length l.buf
      → i < length mem
      → IsLoop (i + 1) (round l mem i) (set mem i (gray (faded l i).led_value)) out
      → IsLoop i l mem out
  IsLoop-round i l mem out in_buf in_mem r = record {
    words = r.words;
    same_count = r.same_count;
    same_emergency = r.same_emergency;
    same_wire = r.same_wire;
    has_words = r.has_words;
    sized_words = r.sized_words ∙ length-set mem i _;
    sized_buf = r.sized_buf ∙ length-set l.buf i _;
    fades_above = λ j le lt. elim (Bool-cases (i == j)) [
      | inl same ↦
          rw (← (==_iff i j).0 same)
            (r.buf_below i (omega arith) ∙ get_or-set_self l.buf i (faded l i) dark in_buf)
      | inr other ↦
          r.fades_above j (ground arith) lt
          ∙ ap (λ (d : LedState). (fade s l.emergency_state l.handler.led_count j d).0)
              (get_or-set_ne l.buf i j (faded l i) dark (λ e. ground arith))
    ];
    paints_above = λ j le lt. elim (Bool-cases (i == j)) [
      | inl same ↦ rw (← (==_iff i j).0 same) (
          r.words_below i (omega arith)
          ∙ get_or-set_self mem i (gray (faded l i).led_value) 0 in_mem)
      | inr other ↦
          r.paints_above j (ground arith) lt
          ∙ ap
              (λ (d : LedState).
                gray (fade s l.emergency_state l.handler.led_count j d).0.led_value)
              (get_or-set_ne l.buf i j (faded l i) dark (λ e. ground arith))
    ];
    buf_below = λ j lt.
        r.buf_below j (omega arith) ∙ get_or-set_ne l.buf i j (faded l i) dark (omega arith);
    words_below = λ j lt.
        r.words_below j (omega arith)
        ∙ get_or-set_ne mem i j (gray (faded l i).led_value) 0 (omega arith);
  }

  -- leds_updated is still false only if no LED from `i` on changes.
  abbrev IsQuiet : ℕ → Leds → Bool → Bool → Type 0
  IsQuiet i l updated u =
      u ≡ false
      → (updated ≡ false) × ((j : ℕ) → i ≤ j → j < l.handler.led_count → changes l j ≡ false)

  IsQuiet-round :
      (i : ℕ) (l : Leds) (mem : List ℕ) (updated u : Bool)
      → IsQuiet (i + 1) (round l mem i) (changes l i || updated) u
      → IsQuiet i l updated u
  IsQuiet-round i l mem updated u later q =
      let (both, above) = later q in
      (
        ground arith,
        λ j le lt. elim (Bool-cases (i == j)) [
          | inl same ↦ rw (← (==_iff i j).0 same) (ground arith)
          | inr other ↦
              ap (λ (d : LedState). (fade s l.emergency_state l.handler.led_count j d).1)
                (sym (get_or-set_ne l.buf i j (faded l i) dark (λ e. ground arith)))
              ∙ above j (ground arith) lt
        ],
      )

  -- The whole loop ends without an error, having done its work; `updated` is set or kept.
  loop :
      (left i : ℕ) (updated : Bool) (l : Leds) (mem : List ℕ)
      → l.handler.mem ≡ some mem
      → i + left ≡ l.handler.led_count
      → length l.buf ≡ l.handler.led_count
      → length mem ≡ l.handler.led_count
      → (out : Leds) × (u : Bool) × (refresh_from s left i updated l ≡ (out, u, success))
        × IsLoop i l mem out
        × IsQuiet i l updated u
  loop zero i updated l mem e k sb sm = (
    l,
    updated,
    unfold refresh_from in refl,
    record {
      words = mem;
      same_count = refl;
      same_emergency = refl;
      same_wire = refl;
      has_words = e;
      sized_words = refl;
      sized_buf = refl;
      fades_above = λ j le lt. absurd (omega arith);
      paints_above = λ j le lt. absurd (omega arith);
      buf_below = λ j lt. refl;
      words_below = λ j lt. refl;
    },
    λ q. (q, λ j le lt. absurd (omega arith)),
  )
  loop (suc left) i updated l mem e k sb sm =
      let (out, u, runs, done, quiet) =
        loop left (i + 1) (changes l i || updated) (round l mem i)
          (set mem i (gray (faded l i).led_value)) refl (omega arith)
          (length-set l.buf i (faded l i) ∙ sb)
          (length-set mem i (gray (faded l i).led_value) ∙ sm) in
      (
        out,
        u,
        refresh_from-suc left i updated l mem e (omega arith) ∙ runs,
        IsLoop-round i l mem out (omega arith) (omega arith) done,
        IsQuiet-round i l mem updated u quiet,
      )

  -- The strip after a refresh of `l`: each LED is faded by one round, the memory of the strip
  -- holds the grey of its value, and a frame with that memory was sent unless no LED changed.
  pub record IsRefreshed (l out : Leds) : Type 0 where
    pub words : List ℕ
    pub same_count : out.handler.led_count ≡ l.handler.led_count
    pub same_emergency : out.emergency_state ≡ l.emergency_state
    pub has_words : out.handler.mem ≡ some words
    pub sized_words : length words ≡ l.handler.led_count
    pub sized_buf : length out.buf ≡ l.handler.led_count
    pub fades : (j : ℕ) → j < l.handler.led_count → get_or out.buf j dark ≡ faded l j
    pub paints : (j : ℕ) → j < l.handler.led_count → get_or words j 0 ≡ gray (faded l j).led_value
    pub sends :
        (out.handler.wire ≡ l.handler.wire ++ frame_from l.handler.led_count 0 words)
        ⊎ ((out.handler.wire ≡ l.handler.wire)
            × ((j : ℕ) → j < l.handler.led_count → changes l j ≡ false))

  sent :
      (out : Leds) (words : List ℕ)
      → out.handler.mem ≡ some words
      → send_updated (out, true, success) ≡ (
        record out {
          handler = record (out.handler) {
            wire = out.handler.wire ++ frame_from out.handler.led_count 0 words;
          };
        },
        success,
      )
  unfolding send_updated
  sent out words e =
      ap (λ (r : Ws2812 × ErrCode). (record out { handler = r.0 }, r.1))
        (refresh_lem out.handler words e)

  -- If the colour words and the LEDs are as many as the handle states, a refresh succeeds and
  -- keeps these lengths: it fades each LED once and paints its new value, and it sends the frame
  -- of all words, or no LED has changed and it sends nothing.
  pub refresh_all-IsRefreshed :
      (l : Leds) (mem : List ℕ)
      → l.handler.mem ≡ some mem
      → length l.buf ≡ l.handler.led_count
      → length mem ≡ l.handler.led_count
      → (out : Leds) × (refresh_all s l ≡ (out, success)) × IsRefreshed l out
  unfolding refresh_all
  refresh_all-IsRefreshed l mem e sb sm =
      let (out, u, runs, done, quiet) =
        loop l.handler.led_count 0 false l mem e (omega arith) sb sm in
      elim (Bool-cases u) [
        | inl updated ↦ (
          record out {
            handler = record (out.handler) {
              wire = out.handler.wire ++ frame_from out.handler.led_count 0 done.words;
            };
          },
          ap send_updated (runs ∙ ap (λ (b : Bool). (out, b, success)) updated)
              ∙ sent out done.words done.has_words,
          record {
            words = done.words;
            same_count = done.same_count;
            same_emergency = done.same_emergency;
            has_words = done.has_words;
            sized_words = done.sized_words ∙ sm;
            sized_buf = done.sized_buf ∙ sb;
            fades = λ j lt. done.fades_above j (omega arith) lt;
            paints = λ j lt. done.paints_above j (omega arith) lt;
            sends = inl (rw (done.same_wire, done.same_count) refl);
          },
        )
        | inr same ↦ (
          out,
          ap send_updated (runs ∙ ap (λ (b : Bool). (out, b, success)) same)
              ∙ unfold send_updated in refl,
          record {
            words = done.words;
            same_count = done.same_count;
            same_emergency = done.same_emergency;
            has_words = done.has_words;
            sized_words = done.sized_words ∙ sm;
            sized_buf = done.sized_buf ∙ sb;
            fades = λ j lt. done.fades_above j (omega arith) lt;
            paints = λ j lt. done.paints_above j (omega arith) lt;
            sends = inr (done.same_wire, λ j lt. (quiet same).1 j (omega arith) lt);
          },
        )
      ]
