-- ===== src/Controller/People.antt =====
-- main.c: a change of the number of people starts a run of the lights, and nobody passing for
-- leds_off_timeout ends the stay of those still counted.
pub mod Laws
pub mod Dark
use pico_stairway_controller.Base.{
  ℕ, ltb, leb, ◌==◌, ◌!=◌, not, ◌&&◌, ◌||◌, if◌then◌else◌, sub64, Bool, true, false,
}
use pico_stairway_controller.Types.{
  Side, up, down, DetectorState, idle, first_lock, second_lock, inc, dec, Status, Settings,
}
use pico_stairway_controller.Controller.{
  Controller, Sweep, Readings, led_on_stamp, led_off_stamp, timeout_elapsed, timeout_stamp,
}

abbrev pub is_inc : DetectorState → Bool
is_inc inc = true
is_inc _ = false

abbrev pub is_dec : DetectorState → Bool
is_dec dec = true
is_dec _ = false

-- if (cnt != led_count) { on = true; ts = get_time_ms(); }
unfoldable pub request : ℕ → ℕ → Sweep → Sweep
request led_count now w = if w.cnt != led_count then record w { on = true; ts = now } else w

-- The count has grown: the detector that counted starts its run.
unfoldable pub people_entered : Settings → Readings → Controller → Controller
unfolding request
people_entered s now c =
    let up_inc = is_inc (c.status.detector.of_up.state) in
    let down_inc = is_inc (c.status.detector.of_down.state) in
    record c {
      last_det = if down_inc then down else if up_inc then up else c.last_det;
      on_up = if up_inc then request s.led_count (now (led_on_stamp up)) c.on_up else c.on_up;
      on_down =
          if down_inc then request s.led_count (now (led_on_stamp down)) c.on_down else c.on_down;
    }

-- The count has fallen: when the last person leaves, the detector that counted starts its run.
unfoldable pub people_left : Settings → Readings → Controller → Controller
unfolding request
people_left s now c =
    let nobody = c.status.people_count == 0 in
    record c {
      off_up =
          if is_dec (c.status.detector.of_up.state) && nobody
          then request s.led_count (now (led_off_stamp up)) c.off_up
          else c.off_up;
      off_down =
          if is_dec (c.status.detector.of_down.state) && nobody
          then request s.led_count (now (led_off_stamp down)) c.off_down
          else c.off_down;
    }

-- prev_people_count = people_count.
abbrev pub people_seen : Controller → Controller
people_seen c = record c {
  status = record (c.status) { prev_people_count = c.status.people_count };
}

unfoldable pub people_changed : Settings → Readings → Controller → Controller
unfolding people_entered people_left
people_changed s now c =
    if ltb c.status.prev_people_count c.status.people_count
    then people_seen (people_entered s now c)
    else if ltb c.status.people_count c.status.prev_people_count
    then people_seen (people_left s now c)
    else c

abbrev pub start : ℕ → Sweep → Sweep
start now w = record w { on = true; ts = now }

-- None of the four runs is under way, and the last passage was too long ago.
unfoldable pub timeout_due : Settings → Readings → Controller → Bool
timeout_due s now c =
    ltb 0 c.status.people_count
    && not c.on_up.on
    && not c.on_down.on
    && not c.off_up.on
    && not c.off_down.on
    && ltb s.leds_off_timeout (sub64 (now timeout_elapsed) c.status.people_ts)

abbrev pub is_up : Side → Bool
is_up up = true
is_up down = false

unfoldable pub people_timeout : Settings → Readings → Controller → Controller
unfolding timeout_due
people_timeout s now c =
    if timeout_due s now c
    then record c {
      status = record (c.status) { prev_people_count = 0; people_count = 0 };
      off_down = if is_up c.last_det then start (now timeout_stamp) c.off_down else c.off_down;
      off_up = if is_up c.last_det then c.off_up else start (now timeout_stamp) c.off_up;
    }
    else c
