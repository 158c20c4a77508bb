-- ===== src/Ws2812.antt =====
-- ws2812_pio/ws2812.c: the driver of the LED strip.
--
-- The PIO block (claiming a state machine, the FIFO, the program) is the chip's: `wire` is the
-- list of the words handed to pio_sm_put_blocking, oldest first, and whether a state machine was
-- claimed or the heap gave memory are arguments. A handle is never NULL here: every caller
-- passes the address of a static variable, so the NULL guards do not fire.
pub mod Laws
use pico_stairway_controller.Base.{
  ℕ, zero, suc, ◌+◌, ◌*◌, ◌^◌, u32, ltb, leb, ◌==◌, not, if◌then◌else◌, Bool, true, false, Option,
  none, some, List, [], ◌∷◌, ◌++◌, get_or, set, replicate,
}
use pico_stairway_controller.Types.{ErrCode, success, param_invalid, mem_alloc_fail, need_init}

-- Ws2812_Header, with the words sent so far beside it. `mem` is `none` for NULL.
pub record Ws2812 : Type 0 where
  pub pin : ℕ
  pub led_count : ℕ  -- uint32_t
  pub mem : Option (List ℕ)  -- uint32_t[]
  pub mem_size : ℕ  -- uint32_t
  pub wire : List ℕ

-- memset(h, 0, sizeof(*h)).
abbrev zeroed : Ws2812 → Ws2812
zeroed h = record h { pin = 0; led_count = 0; mem = none; mem_size = 0 }

-- The three fields do not overlap, as r, g and b are bytes: `|` is a sum.
abbrev pub color_word : ℕ → ℕ → ℕ → ℕ
color_word r g b = g * 2 ^ 16 + r * 2 ^ 8 + b

unfoldable pub set_color : Ws2812 → ℕ → ℕ → ℕ → ℕ → Ws2812 × ErrCode
set_color h index r g b = elim (h.mem) [
  | none ↦ (h, need_init)
  | some mem ↦
      if leb h.led_count index
      then (h, param_invalid)
      else (record h { mem = some (set mem index (color_word r g b)) }, success)
]

-- mem[i] << 8 for i from `i`, with `left` rounds to go.
pub frame_from : ℕ → ℕ → List ℕ → List ℕ
frame_from zero i mem = []
frame_from (suc left) i mem = u32 (get_or mem i 0 * 2 ^ 8) ∷ frame_from left (i + 1) mem

unfoldable pub refresh : Ws2812 → Ws2812 × ErrCode
refresh h = elim (h.mem) [
  | none ↦ (h, need_init)
  | some mem ↦ (record h { wire = h.wire ++ frame_from h.led_count 0 mem }, success)
]

-- The loop of ws2812_clear; set_color's error code is dropped, as in the source.
pub clear_from : ℕ → ℕ → Ws2812 → Ws2812
clear_from zero i h = h
clear_from (suc left) i h = clear_from left (i + 1) (set_color h i 0 0 0).0

unfoldable pub clear : Ws2812 → Ws2812 × ErrCode
clear h = ((refresh (clear_from h.led_count 0 h)).0, success)

-- `reallocated`: realloc did not return NULL.
unfoldable pub set_led_count : Bool → Ws2812 → ℕ → Ws2812 × ErrCode
set_led_count reallocated h led_count = elim (h.mem) [
  | none ↦ (h, need_init)
  | some mem ↦
      if led_count == 0
      then (h, param_invalid)
      else let h = (clear h).0 in
        if not reallocated then (h, mem_alloc_fail) else (
          record h {
            mem = some (replicate led_count 0);
            mem_size = u32 (led_count * 4);
            led_count = led_count;
          },
          success,
        )
]

-- `gpios` is NUM_BANK0_GPIOS, `claimed` the result of claiming a state machine.
unfoldable pub init : ℕ → Bool → Bool → ℕ → ℕ → Ws2812 → Ws2812 × ErrCode
init gpios claimed allocated pin led_count h =
    if leb gpios pin
    then (h, param_invalid)
    else if not claimed
    then (h, param_invalid)
    else if not allocated
    then (zeroed h, mem_alloc_fail)
    else (
      (clear (record h {
        pin = pin;
        led_count = led_count;
        mem_size = u32 (led_count * 4);
        mem = some (replicate led_count 0);
      })).0,
      success,
    )

unfoldable pub deinit : Ws2812 → Ws2812 × ErrCode
deinit h = (zeroed h, success)
