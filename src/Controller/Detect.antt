-- ===== src/Controller/Detect.antt =====
-- main.c: the two detectors, each a state machine over the two sensors of its end of the stairs.
pub mod Graph
use pico_stairway_controller.Base.{
  ℕ, zero, suc, ◌+◌, ◌-◌, ◌<◌, ◌≤◌, ◌≡◌, refl, arith, sub64, ltb, ◌==◌, not, ◌&&◌, ◌||◌,
  if◌then◌else◌, Bool, true, false,
}
use pico_stairway_controller.Types.{
  Side, up, down, PerSide, at_side, set_side, PerSensor, at_sensor, first_sensor, second_sensor,
  DetectorState, idle, first_lock, second_lock, inc, dec, Detector, Status, StairwaySensorsGet,
  Settings,
}
use pico_stairway_controller.Controller.{
  Readings, detector_blocked, detector_elapsed, detector_stamp,
}

-- status.detector[i] = {state, now}.
abbrev pub put_detector : Status → Side → DetectorState → ℕ → Status
put_detector st i state now = record st {
  detector = set_side st.detector i (record { state = state; ts = now });
}

module _ (s : Settings) (now : Readings) (i : Side) (st : Status) where
  abbrev pub first_current : Bool
  first_current = (at_sensor st.sensor_state (first_sensor i)).current

  abbrev pub second_current : Bool
  second_current = (at_sensor st.sensor_state (second_sensor i)).current

  abbrev pub settled : Bool
  settled = ltb s.sensor_debouce_time (sub64 (now (detector_elapsed i)) (at_side st.detector i).ts)

  -- The cases of the switch.
  unfoldable pub detect_idle : Status
  detect_idle =
      if first_current
      then put_detector st i first_lock (now (detector_stamp i))
      else if second_current
      then put_detector st i second_lock (now (detector_stamp i))
      else st

  unfoldable pub detect_first_lock : Status
  detect_first_lock =
      if not first_current && settled
      then put_detector st i idle (now (detector_stamp i))
      else if second_current
      then record (put_detector st i inc (now (detector_stamp i))) {
        people_count = st.people_count + 1;
        people_ts = now (detector_stamp i);
      }
      else st

  unfoldable pub detect_second_lock : Status
  detect_second_lock =
      if not second_current && settled
      then put_detector st i idle (now (detector_stamp i))
      else if first_current
      then (if st.people_count == 0
          then put_detector st i dec (now (detector_stamp i))
          else record (put_detector st i dec (now (detector_stamp i))) {
            people_count = st.people_count - 1;
            people_ts = now (detector_stamp i);
          })
      else st

  unfoldable pub detect_passed : Status
  detect_passed =
      if not first_current && not second_current && settled
      then put_detector st i idle (now (detector_stamp i))
      else st

  unfoldable pub detect_switch : DetectorState → Status
  unfolding detect_idle detect_first_lock detect_second_lock detect_passed
  detect_switch idle = detect_idle
  detect_switch first_lock = detect_first_lock
  detect_switch second_lock = detect_second_lock
  detect_switch inc = detect_passed
  detect_switch dec = detect_passed

-- The body of the loop over the detectors.
unfoldable pub detect_one : Settings → Readings → StairwaySensorsGet → Side → Status → Status
unfolding detect_switch
detect_one s now g i st =
    if st.block_by_light
    then put_detector st i idle (now (detector_blocked i))
    else if at_sensor g.error (first_sensor i) || at_sensor g.error (second_sensor i)
    then st
    else detect_switch s now i st (at_side st.detector i).state

unfoldable pub detect : Settings → Readings → StairwaySensorsGet → Status → Status
detect s now g st = detect_one s now g down (detect_one s now g up st)
