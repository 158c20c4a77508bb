-- ===== src/Ws2812/Laws.antt =====
-- ws2812_pio/ws2812.c: the strip's memory and the handle, and the frame that clears the strip.
use pico_stairway_controller.Base.{
  ℕ, zero, suc, ◌+◌, ◌*◌, ◌<◌, ◌≤◌, ◌≡◌, ◌∙◌, ap, inl, inr, refl, arith, u32, length, get_or, set,
  replicate, true, false, Option, none, some, List, ◌++◌, length-set, length-replicate, get_or_ext,
  get_or-set_self, get_or-set_ne, get_or-replicate, Bool-cases, ◌==◌, ==_iff, sym,
}
use pico_stairway_controller.Types.{success, mem_alloc_fail}
use pico_stairway_controller.Ws2812.{
  Ws2812, color_word, set_color, refresh, frame_from, clear, clear_from, set_led_count,
}

-- `mem` is allocated, with `led_count` words.
abbrev pub Sized : Option (List ℕ) → ℕ → Type 0
Sized none n = ⊥
Sized (some mem) n = length mem ≡ n

abbrev pub IsReady : Ws2812 → Type 0
IsReady h = Sized h.mem h.led_count

pub set_color-IsReady : (h : Ws2812) (i r g b : ℕ) → IsReady h → IsReady (set_color h i r g b).0
unfolding set_color
set_color-IsReady h i r g b w = go h.mem refl w
  where
    go :
        (mem : Option (List ℕ))
        → h.mem ≡ mem
        → Sized mem h.led_count
        → IsReady (set_color h i r g b).0
    go none e w = absurd w
    go (some mem) e w = rw e (ground (arith, length-set mem i (color_word r g b)))

-- What the loop of `clear` leaves in memory.
clear_words : ℕ → ℕ → List ℕ → List ℕ
clear_words zero i mem = mem
clear_words (suc left) i mem = clear_words left (i + 1) (set mem i 0)

length-clear_words : (left i : ℕ) (mem : List ℕ) → length (clear_words left i mem) ≡ length mem
unfolding clear_words
length-clear_words zero i mem = refl
length-clear_words (suc left) i mem =
    length-clear_words left (i + 1) (set mem i 0) ∙ length-set mem i 0

clear_words_below :
    (left i j : ℕ) (mem : List ℕ) → j < i → get_or (clear_words left i mem) j 0 ≡ get_or mem j 0
unfolding clear_words
clear_words_below zero i j mem h = refl
clear_words_below (suc left) i j mem h =
    clear_words_below left (i + 1) j (set mem i 0) (omega arith)
    ∙ get_or-set_ne mem i j 0 0 (omega arith)

clear_words_inside :
    (left i j : ℕ) (mem : List ℕ)
    → i + left ≡ length mem
    → i ≤ j
    → j < length mem
    → get_or (clear_words left i mem) j 0 ≡ 0
unfolding clear_words
clear_words_inside zero i j mem e h lt = absurd (omega arith)
clear_words_inside (suc left) i j mem e h lt = elim (Bool-cases (i == j)) [
  | inl same ↦
      let i≡j : i ≡ j = (==_iff i j).0 same in
      rw (← i≡j) (
        clear_words_below left (i + 1) i (set mem i 0) (omega arith)
        ∙ get_or-set_self mem i 0 0 (omega arith))
  | inr other ↦
      clear_words_inside left (i + 1) j (set mem i 0) (omega (arith, length-set mem i 0))
        (ground arith) (omega (arith, length-set mem i 0))
]

clear_words-all : (n : ℕ) (mem : List ℕ) → length mem ≡ n → clear_words n 0 mem ≡ replicate n 0
clear_words-all n mem e =
    get_or_ext 0 (clear_words n 0 mem) (replicate n 0)
      (length-clear_words n 0 mem ∙ e ∙ sym (length-replicate n 0))
      λ j lt.
        clear_words_inside n 0 j mem (omega arith) (omega arith)
          (omega (arith, length-clear_words n 0 mem))
        ∙ sym (get_or-replicate n j 0)

clear_from_lem :
    (left i : ℕ) (h : Ws2812) (mem : List ℕ)
    → i + left ≡ h.led_count
    → clear_from left i (record h { mem = some mem })
      ≡ record h { mem = some (clear_words left i mem) }
unfolding clear_from clear_words
clear_from_lem zero i h mem e = refl
clear_from_lem (suc left) i h mem e =
    ap (clear_from left (i + 1)) writes ∙ clear_from_lem left (i + 1) h (set mem i 0) (omega arith)
  where
    writes :
        (set_color (record h { mem = some mem }) i 0 0 0).0 ≡ record h { mem = some (set mem i 0) }
    writes = unfold set_color in ground arith

frame_from-replicate : (left i n : ℕ) → frame_from left i (replicate n 0) ≡ replicate left 0
unfolding frame_from
frame_from-replicate zero i n = refl
frame_from-replicate (suc left) i n =
    rw (get_or-replicate {A = ℕ} n i 0) (rw (frame_from-replicate left (i + 1) n))

-- Clearing blanks the memory and sends one frame that is dark for every LED.
pub clear_lem :
    (h : Ws2812) (mem : List ℕ)
    → length mem ≡ h.led_count
    → (clear (record h { mem = some mem })).0
      ≡ record h { mem = some (replicate h.led_count 0); wire = h.wire ++ replicate h.led_count 0 }
unfolding clear refresh
clear_lem h mem e =
    rw
      (
        clear_from_lem h.led_count 0 h mem (omega arith),
        clear_words-all h.led_count mem e,
        frame_from-replicate h.led_count 0 h.led_count,
      )
      refl

-- A change of the length switches the whole old strip off first: one dark word for each of the
-- old LEDs is sent, and the new memory is dark and has the new length.
pub set_led_count_blanks :
    (h : Ws2812) (mem : List ℕ) (n : ℕ)
    → length mem ≡ h.led_count
    → 0 < n
    → set_led_count true (record h { mem = some mem }) n ≡ (
      record h {
        mem = some (replicate n 0);
        mem_size = u32 (n * 4);
        led_count = n;
        wire = h.wire ++ replicate h.led_count 0;
      },
      success,
    )
unfolding set_led_count
set_led_count_blanks h mem n e pos = rw (pos_ne, clear_lem h mem e) refl
  where
    pos_ne : (n == 0) ≡ false
    pos_ne = ground arith

-- When the memory is not given, the old strip is dark too, and its length is unchanged.
pub set_led_count_no_memory :
    (h : Ws2812) (mem : List ℕ) (n : ℕ)
    → length mem ≡ h.led_count
    → 0 < n
    → set_led_count false (record h { mem = some mem }) n ≡ (
      record h { mem = some (replicate h.led_count 0); wire = h.wire ++ replicate h.led_count 0 },
      mem_alloc_fail,
    )
unfolding set_led_count
set_led_count_no_memory h mem n e pos = rw (pos_ne, clear_lem h mem e) refl
  where
    pos_ne : (n == 0) ≡ false
    pos_ne = ground arith

pub set_color_lem :
    (h : Ws2812) (mem : List ℕ) (i r g b : ℕ)
    → h.mem ≡ some mem
    → i < h.led_count
    → set_color h i r g b ≡ (record h { mem = some (set mem i (color_word r g b)) }, success)
unfolding set_color
set_color_lem h mem i r g b e lt = ground arith

pub refresh_lem :
    (h : Ws2812) (mem : List ℕ)
    → h.mem ≡ some mem
    → refresh h ≡ (record h { wire = h.wire ++ frame_from h.led_count 0 mem }, success)
unfolding refresh
refresh_lem h mem e = ground arith
