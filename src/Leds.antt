-- ===== src/Leds.antt =====
-- stairway/stairway_leds.c: the state of each LED, its fading, and the emergency light.
--
-- `buf` is [] while the pointer is NULL. What the heap answers is an argument. The settings
-- pointer is the one shared Settings value: each operation that reads it takes it as an argument.
pub mod Frame
pub mod Fade
pub mod Order
pub mod Invariant
use pico_stairway_controller.Base.{
  ℕ, zero, suc, ◌+◌, ◌-◌, ◌*◌, u32, ltb, leb, ◌==◌, ◌!=◌, not, ◌&&◌, ◌||◌, if◌then◌else◌, Bool,
  true, false, List, [], ◌∷◌, length, get_or, set, replicate,
}
use pico_stairway_controller.Types.{
  ErrCode, success, param_invalid, mem_alloc_fail, Side, up, down, PerSide, set_side, Settings,
}
use pico_stairway_controller.Ws2812.{Ws2812}
use pico_stairway_controller.Ws2812

pub record LedState : Type 0 where
  pub led_value : ℕ  -- uint8_t
  pub state : Bool
  pub ts : ℕ  -- uint64_t

pub record Leds : Type 0 where
  pub handler : Ws2812
  pub buf : List LedState
  pub emergency_state : PerSide Bool

-- An entry after memset(buf, 0, ...).
abbrev pub dark : LedState
dark = record { led_value = 0; state = false; ts = 0 }

-- `allocated`: malloc of `buf` gave memory; the other arguments are those of Ws2812.init.
unfoldable pub init : ℕ → Bool → Bool → Bool → Settings → ℕ → Leds → Leds × ErrCode
init gpios claimed strip_allocated allocated s pin l =
    let (handler, err) = Ws2812.init gpios claimed strip_allocated pin s.led_count l.handler in
    elim err [
      | success ↦
          if not allocated
          then (record l { handler = (Ws2812.deinit handler).0; buf = [] }, mem_alloc_fail)
          else (record l { handler = handler; buf = replicate s.led_count dark }, success)
      | other ↦ (record l { handler = handler }, other)
    ]

unfoldable pub deinit : Leds → Leds × ErrCode
deinit l = (record l { handler = (Ws2812.deinit l.handler).0; buf = [] }, success)

-- A `Side` is below EMERGENCY_MAX, so the guard of the source does not fire.
unfoldable pub emergency_leds : Side → Bool → Leds → Leds × ErrCode
emergency_leds i state l =
    (record l { emergency_state = set_side l.emergency_state i state }, success)

-- An event takes effect only if it is newer than the last one of this LED.
unfoldable pub apply_event : Bool → ℕ → LedState → LedState
apply_event state event_ts led =
    if ltb led.ts event_ts then record led { state = state; ts = event_ts } else led

unfoldable pub set_state : ℕ → Bool → ℕ → Leds → Leds × ErrCode
set_state index state event_ts l = if leb l.handler.led_count index then (l, param_invalid) else (
  record l { buf = set l.buf index (apply_event state event_ts (get_or l.buf index dark)) },
  success,
)

-- `reallocated`: the realloc of `buf`; `strip_reallocated`: that of ws2812_set_led_count.
unfoldable pub resize : Bool → Bool → ℕ → Leds → Leds × ErrCode
resize reallocated strip_reallocated led_count l =
    if not reallocated
    then (l, mem_alloc_fail)
    else let (handler, err) = Ws2812.set_led_count strip_reallocated l.handler led_count in
      (record l { handler = handler; buf = replicate led_count dark }, err)

-- The LED is switched on and not yet at its full value, or an emergency covers it.
unfoldable pub raising : Settings → PerSide Bool → ℕ → ℕ → LedState → Bool
raising s emergency led_count i led =
    (led.state && (led.led_value != s.led_on_value))
    || (emergency.of_down && ltb i s.emergency_cnt.of_down)
    || (emergency.of_up && leb led_count (u32 (i + s.emergency_cnt.of_up)))

-- The sums and differences of two bytes fit the int16_t; `value - step < off` is stated without
-- the negative number.
unfoldable pub raise : Settings → ℕ → ℕ
raise s value =
    if ltb s.led_on_value (value + s.led_on_step) then s.led_on_value else value + s.led_on_step

unfoldable pub lower : Settings → ℕ → ℕ
lower s value =
    if ltb value (s.led_off_value + s.led_off_step) then s.led_off_value else value - s.led_off_step

-- One LED in the loop of stairway_leds_refresh, and whether it sets leds_updated.
unfoldable pub fade : Settings → PerSide Bool → ℕ → ℕ → LedState → LedState × Bool
fade s emergency led_count i led =
    if raising s emergency led_count i led
    then (record led { led_value = raise s led.led_value }, true)
    else if not led.state && (led.led_value != s.led_off_value)
    then (record led { led_value = lower s led.led_value }, true)
    else (led, false)

-- The loop from LED `i`, with `left` rounds to go: the error of ws2812_set_color leaves it.
pub refresh_from : Settings → ℕ → ℕ → Bool → Leds → Leds × Bool × ErrCode
refresh_from s zero i updated l = (l, updated, success)
refresh_from s (suc left) i updated l =
    let (led, changed) = fade s l.emergency_state l.handler.led_count i (get_or l.buf i dark) in
    let v = led.led_value in
    let (handler, err) = Ws2812.set_color l.handler i v v v in
    let l = record l { buf = set l.buf i led; handler = handler } in
    elim err [
      | success ↦ refresh_from s left (i + 1) (changed || updated) l
      | other ↦ (l, changed || updated, other)
    ]

-- What stairway_leds_refresh does after its loop: send the frame if an LED changed.
pub send_updated : Leds × Bool × ErrCode → Leds × ErrCode
send_updated (l, true, success) =
    let (handler, err) = Ws2812.refresh l.handler in (record l { handler = handler }, err)
send_updated (l, updated, err) = (l, err)

-- stairway_leds_refresh once the length is that of the settings.
unfoldable pub refresh_all : Settings → Leds → Leds × ErrCode
refresh_all s l = send_updated (refresh_from s l.handler.led_count 0 false l)

-- RETURN_IF_ERROR on the resize.
pub refresh_resized : Settings → Leds × ErrCode → Leds × ErrCode
refresh_resized s (l, success) = refresh_all s l
refresh_resized s (l, err) = (l, err)

unfoldable pub refresh : Bool → Bool → Settings → Leds → Leds × ErrCode
refresh reallocated strip_reallocated s l =
    if s.led_count != l.handler.led_count
    then refresh_resized s (resize reallocated strip_reallocated s.led_count l)
    else refresh_all s l
