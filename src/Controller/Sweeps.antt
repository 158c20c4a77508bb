-- ===== src/Controller/Sweeps.antt =====
-- main.c: the four runs over the strip, which switch one LED more at each tick of the lights.
pub mod Run
pub mod Complete
use pico_stairway_controller.Base.{
  ℕ, zero, suc, ◌+◌, ◌-◌, ltb, leb, ◌==◌, ◌!=◌, not, ◌&&◌, if◌then◌else◌, Bool, true, false,
}
use pico_stairway_controller.Types.{Side, up, down, at_side, Settings}
use pico_stairway_controller.Leds.{Leds, set_state}
use pico_stairway_controller.Controller.{Controller, Sweep}

-- The LED of count `cnt`: from the first LED on, or from the last LED on. `cnt` is below
-- led_count wherever this is used, so nothing wraps.
abbrev pub Position : Type 0
Position = ℕ → ℕ → ℕ

abbrev pub from_first : Position
from_first led_count cnt = cnt

abbrev pub from_last : Position
from_last led_count cnt = led_count - cnt - 1

module _ (pos : Position) (state : Bool) where
  -- stairway_leds_set_state at the run's LED; cnt++.
  unfoldable pub advance : ℕ → Sweep → Leds → Sweep × Leds
  advance led_count w l =
      (record w { cnt = w.cnt + 1 }, (set_state (pos led_count w.cnt) state w.ts l).0)

  -- The inner `for` of the runs that switch on: the emergency LEDs are lit at once, but for the
  -- last LED of the strip.
  unfoldable pub fill : ℕ → ℕ → ℕ → Sweep → Leds → Sweep × Leds
  fill zero emergency_cnt led_count w l = (w, l)
  fill (suc fuel) emergency_cnt led_count w l =
      let (w', l') = advance led_count w l in
      let rest = fill fuel emergency_cnt led_count w' l' in
      if ltb w.cnt emergency_cnt && ltb w.cnt (led_count - 1) then rest else (w, l)

  -- One tick of a run; `filled` is whether it has the inner loop, which led_count rounds end.
  unfoldable pub tick : Bool → ℕ → ℕ → Sweep → Leds → Sweep × Leds
  tick filled emergency_cnt led_count w l =
      if not w.on
      then (w, l)
      else if ltb w.cnt led_count
      then (let (w', l') = if filled then fill led_count emergency_cnt led_count w l else (w, l) in
          advance led_count w' l')
      else (record w { cnt = 0; on = false }, l)

unfoldable pub tick_on_up : Settings → Sweep → Leds → Sweep × Leds
tick_on_up s = tick from_last true s.use_emergency s.emergency_cnt.of_up s.led_count

unfoldable pub tick_off_up : Settings → Sweep → Leds → Sweep × Leds
tick_off_up s = tick from_first false false 0 s.led_count

unfoldable pub tick_on_down : Settings → Sweep → Leds → Sweep × Leds
tick_on_down s = tick from_first true s.use_emergency s.emergency_cnt.of_down s.led_count

unfoldable pub tick_off_down : Settings → Sweep → Leds → Sweep × Leds
tick_off_down s = tick from_last false false 0 s.led_count

-- The four runs of one tick, in the order of the source.
unfoldable pub sweeps : Settings → Controller → Controller
sweeps s c =
    let (on_up, l) = tick_on_up s c.on_up c.leds in
    let (off_up, l) = tick_off_up s c.off_up l in
    let (on_down, l) = tick_on_down s c.on_down l in
    let (off_down, l) = tick_off_down s c.off_down l in
    record c { on_up = on_up; off_up = off_up; on_down = on_down; off_down = off_down; leds = l }
