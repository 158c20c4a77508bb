-- ===== src/Controller/Emergency.antt =====
-- main.c: the emergency light at the end of the stairs whose first sensor stays active.
pub mod Laws
use pico_stairway_controller.Base.{
  ℕ, ltb, leb, ◌==◌, ◌!=◌, not, ◌&&◌, ◌||◌, if◌then◌else◌, sub64, Bool, true, false,
}
use pico_stairway_controller.Types.{
  Side, up, down, PerSide, at_side, set_side, at_sensor, first_sensor, DetectorState, idle,
  first_lock, second_lock, inc, dec, Status, Settings,
}
use pico_stairway_controller.Leds.{emergency_leds}
use pico_stairway_controller.Controller.{Controller, Readings, block_stamp}

abbrev pub emergency_confirm_ms : ℕ
emergency_confirm_ms = 150

abbrev pub is_second_lock : DetectorState → Bool
is_second_lock second_lock = true
is_second_lock _ = false

-- detector_block_ts of one detector: the last time it was seen in SECOND_LOCK.
unfoldable pub block_one : Readings → Side → Controller → Controller
block_one now i c =
    if is_second_lock (at_side c.status.detector i).state
    then record c { detector_block_ts = set_side c.detector_block_ts i (now (block_stamp i)) }
    else c

-- emergency_map: the first sensor and the detector of the same end.
abbrev pub emergency_current : Controller → Side → Bool
emergency_current c i = (at_sensor c.status.sensor_state (first_sensor i)).current

-- emergency_sensor_on_ts[i]: since when the sensor has been active, 0 while it is not.
unfoldable pub active_since : ℕ → Bool → ℕ → ℕ
active_since ts current on_ts = if not current then 0 else if on_ts == 0 then ts else on_ts

-- The condition of the second `if`, `on_ts` being the entry written just before.
unfoldable pub emergency_due : Settings → ℕ → Side → ℕ → Controller → Bool
emergency_due s ts i on_ts c =
    not c.status.block_by_light
    && s.use_emergency
    && not (at_side c.emergency_on i)
    && leb emergency_confirm_ms (sub64 ts on_ts)
    && ltb s.emergency_block_ms (sub64 ts (at_side c.detector_block_ts i))

unfoldable pub emergency_one : Settings → ℕ → Side → Controller → Controller
unfolding active_since emergency_due
emergency_one s ts i c =
    let current = emergency_current c i in
    let on_ts = active_since ts current (at_side c.emergency_sensor_on_ts i) in
    let c' = record c { emergency_sensor_on_ts = set_side c.emergency_sensor_on_ts i on_ts } in
    if current && emergency_due s ts i on_ts c
    then record c' {
      emergency_on = set_side c.emergency_on i true;
      leds = (emergency_leds i true c.leds).0;
    }
    else c'

unfoldable pub emergency : Settings → Readings → ℕ → Controller → Controller
emergency s now ts c =
    emergency_one s ts down (emergency_one s ts up (block_one now down (block_one now up c)))

-- At the pace of the lights, an emergency ends once its sensor is inactive.
unfoldable pub emergency_end_one : Side → Controller → Controller
emergency_end_one i c =
    if at_side c.emergency_on i && not (emergency_current c i)
    then record c {
      emergency_on = set_side c.emergency_on i false;
      leds = (emergency_leds i false c.leds).0;
    }
    else c

unfoldable pub emergency_end : Controller → Controller
emergency_end c = emergency_end_one down (emergency_end_one up c)
