-- ===== src/Controller/Loop.antt =====
-- main.c: one iteration of the main loop, from the sensors on.
pub mod Stages
pub mod Steps
pub mod Passage
pub mod Counted
pub mod Ends
pub mod Entry
pub mod Exit
use pico_stairway_controller.Base.{
  ℕ, zero, suc, ◌+◌, sub64, ltb, ◌==◌, ◌!=◌, not, ◌&&◌, ◌||◌, if◌then◌else◌, Bool, true, false,
}
use mathlib.Core.Bool.{xor}
use pico_stairway_controller.Types.{StairwaySensorsGet, Settings, Status}
use pico_stairway_controller.Leds.{Leds, set_state, refresh}
use pico_stairway_controller.Controller.{
  Controller, Readings, test_stamp, refresh_elapsed, refresh_stamp, error_elapsed, error_stamp,
  error_off_elapsed,
}
use pico_stairway_controller.Controller.Sense.{sense, light_block}
use pico_stairway_controller.Controller.Detect.{detect}
use pico_stairway_controller.Controller.People.{people_changed, people_timeout}
use pico_stairway_controller.Controller.Emergency.{emergency, emergency_end}
use pico_stairway_controller.Controller.Sweeps.{sweeps}

-- if ((ts - prev_ts) > leds_time_interval) { ... }
unfoldable pub leds_tick : Settings → ℕ → Controller → Controller
leds_tick s ts c =
    if ltb s.leds_time_interval (sub64 ts c.prev_ts)
    then sweeps s (emergency_end (record c { prev_ts = ts }))
    else c

-- A change of the test mode switches every LED, from LED `i` on with `left` to go.
unfoldable pub test_from : ℕ → ℕ → Bool → Readings → Leds → Leds
test_from zero i mode now l = l
test_from (suc left) i mode now l =
    test_from left (i + 1) mode now (set_state i mode (now (test_stamp i)) l).0

unfoldable pub test_mode_changed : Settings → Readings → Controller → Controller
test_mode_changed s now c =
    if xor c.test_mode c.status.test_mode
    then record c {
      leds = test_from s.led_count 0 c.status.test_mode now c.leds;
      test_mode = c.status.test_mode;
    }
    else c

-- The two Booleans are what the heap answers if the number of LEDs has changed.
unfoldable pub leds_refresh : Bool → Bool → Settings → Readings → Controller → Controller
leds_refresh reallocated strip_reallocated s now c =
    if ltb 2 (sub64 (now refresh_elapsed) c.rdt)
    then record c {
      rdt = now refresh_stamp;
      leds = (refresh reallocated strip_reallocated s c.leds).0;
    }
    else c

-- `ap` is net_ap_get_state(): the LED of the board shows it, and flashes on an error.
unfoldable pub error_light : Bool → Readings → Controller → Controller
error_light ap now c =
    if c.error_led_state && ltb 1000 (sub64 (now error_elapsed) c.led_error_ts)
    then record c { led_error_ts = now error_stamp; error_led = not ap }
    else if ltb 500 (sub64 (now error_off_elapsed) c.led_error_ts)
    then record c { error_led = ap }
    else c

abbrev pub on_status : (Status → Status) → Controller → Controller
on_status f c = record c { status = f c.status }

-- What an iteration takes from outside: the time, the light sensor's answer, the distance
-- sensors' values, and whether the access point runs.
pub record Input : Type 0 where
  pub ts : ℕ
  pub now : Readings
  pub light_state : Bool
  pub light_value : ℕ
  pub sensors : StairwaySensorsGet
  pub ap_state : Bool
  pub reallocated : Bool
  pub strip_reallocated : Bool

unfoldable pub iterate : Settings → Input → Controller → Controller
iterate s x c =
    let c =
      on_status (λ st. record st { light_state = x.light_state; light_value = x.light_value }) c in
    let c = sense x.now x.ts x.sensors c in
    let c = on_status (λ st. detect s x.now x.sensors (light_block s st)) c in
    let c = people_timeout s x.now (people_changed s x.now c) in
    let c = leds_tick s x.ts (emergency s x.now x.ts c) in
    let c = leds_refresh x.reallocated x.strip_reallocated s x.now (test_mode_changed s x.now c) in
    error_light x.ap_state x.now c
