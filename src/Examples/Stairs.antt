-- ===== src/Examples/Stairs.antt =====
-- The detectors, the emergency light and the count on concrete inputs.
use pico_stairway_controller.Base.{
  ℕ, ◌+◌, ◌-◌, ◌≤◌, ◌≡◌, ◌⊎◌, refl, arith, true, false, [], ◌∷◌, sub64,
}
use pico_stairway_controller.Types.{up, down, idle, second_lock, inc, dec, Status}
use pico_stairway_controller.Controller.{Controller, Readings}
use pico_stairway_controller.Controller.Detect.{
  first_current, second_current, settled, detect_one, detect, detect_switch, detect_idle,
  detect_first_lock,
}
use pico_stairway_controller.Controller.Sense.{sense, sense_one, sensor_update, light_block}
use pico_stairway_controller.Controller.Detect.Graph.{
  Edge, Counts, state_of, detect_one-Edge, detect_one-Counts,
}
use mathlib.Core.Bool.{xor}
use pico_stairway_controller.Controller.Sweeps.{sweeps, tick_on_up, tick}
use pico_stairway_controller.Controller.Loop.{
  iterate, leds_tick, test_mode_changed, leds_refresh, error_light,
}
use pico_stairway_controller.Controller.Loop.Steps.{Step, after, first_seen, second_seen}
use pico_stairway_controller.Controller.Loop.Passage.{
  Passage, Explained, after-Explained, people_count-Passage,
}
use pico_stairway_controller.Controller.People.{
  request, people_changed, people_timeout, timeout_due, people_entered, people_left,
}
use pico_stairway_controller.Controller.People.Dark.{IsDark, sweeps_times, people_timeout-IsDark}
use pico_stairway_controller.Controller.Emergency.{
  emergency_one, emergency, active_since, block_one, emergency_end, emergency_end_one,
}
use pico_stairway_controller.Controller.Emergency.Laws.{since, ActiveAfter, emergency_on-confirmed}
use pico_stairway_controller.Controller.Loop.Entry.{entry-counted}
use pico_stairway_controller.Controller.Loop.Exit.{exit-counted}
use pico_stairway_controller.Examples.{step_at}
use pico_stairway_controller.Examples.{small, start, seen, entry}

counted : (after start entry).status.people_count ≡ 1
unfolding after iterate sense sense_one sensor_update light_block detect detect_one detect_switch
    detect_idle detect_first_lock people_changed people_timeout timeout_due people_entered
    people_left request emergency emergency_one block_one leds_tick test_mode_changed leds_refresh
    error_light sub64 xor sweeps emergency_end emergency_end_one tick_on_up tick
counted = refl

people_count-Passage_example :
    Passage (first_seen up) (second_seen up) entry
    ⊎ Passage (first_seen down) (second_seen down) entry
people_count-Passage_example =
    people_count-Passage start entry (refl, refl) (omega (arith, counted))

after-Explained_example : Explained up entry (state_of (after start entry).status up)
after-Explained_example = after-Explained start entry up (refl, refl)

abbrev now : Readings
now site = 5000

-- The first sensor at the upper end is active.
abbrev touched : Status
touched = record (start.status) {
  sensor_state = record (start.status.sensor_state) {
    of_up_first = record { current = true; trigger = true; ts = 5000 };
  };
}

detect_one-Edge_example :
    ((touched.block_by_light ≡ true)
      × (state_of (detect_one small now (seen true false) up touched) up ≡ idle))
    ⊎ ((touched.block_by_light ≡ false)
        × Edge
            (first_current small now up touched)
            (second_current small now up touched)
            (settled small now up touched)
            (state_of touched up)
            (state_of (detect_one small now (seen true false) up touched) up))
detect_one-Edge_example = detect_one-Edge small now (seen true false) up touched

detect_one-Counts_example :
    Counts small now up touched (detect_one small now (seen true false) up touched)
detect_one-Counts_example = detect_one-Counts small now (seen true false) up touched

-- One person is on the stairs.
abbrev one_in : Controller
one_in = record start {
  status = record (start.status) { people_count = 1; prev_people_count = 1; people_ts = 1000 };
}

abbrev late : Readings
late site = 30000

people_timeout-IsDark_example :
    IsDark 1 30000 (sweeps_times 4 small (people_timeout small late one_in))
people_timeout-IsDark_example =
    people_timeout-IsDark small late one_in (refl, refl, refl, refl) (refl, refl) refl refl 1
      (omega arith) (omega arith) (omega arith) (omega arith) (omega arith)

-- Somebody has just come in, or just left, at the upper end.
abbrev entering : Controller
entering = record start {
  status = record (start.status) {
    people_count = 1;
    detector = record (start.status.detector) { of_up = record { state = inc; ts = 5000 } };
  };
}

abbrev leaving : Controller
leaving = record start {
  status = record (start.status) {
    prev_people_count = 1;
    detector = record (start.status.detector) { of_up = record { state = dec; ts = 5000 } };
  };
}

-- The first sensor at the upper end has been active since 1000.
abbrev standing : Controller
standing = record start {
  status = touched;
  emergency_sensor_on_ts = record { of_up = 1000; of_down = 0 };
}

emergency_on-confirmed_example :
    (true ≡ true)
    × (false ≡ false)
    × ((t : ℕ) × (t + 150 ≤ 5000) × ActiveAfter t ((5000, true) ∷ (1000, true) ∷ []))
unfolding since active_since emergency_one sub64
emergency_on-confirmed_example =
    emergency_on-confirmed small 5000 up standing ((1000, true) ∷ [])
      (omega arith, (omega arith, tt), (omega arith, tt, tt)) (omega arith) refl refl refl

-- A stamp of the block that is recent, and one that is later than `ts`.
abbrev blocked : Controller
blocked = record standing { detector_block_ts = record { of_up = 4500; of_down = 0 } }

abbrev locked : Controller
locked = record standing {
  status = record touched {
    detector = record (start.status.detector) { of_up = record { state = second_lock; ts = 900 } };
  };
}

abbrev next_ms : Readings
next_ms site = 5001

-- In front of the upper end's first sensor, then between the two.
abbrev at_first : Step
at_first = step_at 5000 true false

abbrev at_both : Step
at_both = step_at 5100 true true

entry-counted_example :
    (state_of (after start (at_both ∷ at_first ∷ [])).status up ≡ inc)
    × ((after start (at_both ∷ at_first ∷ [])).status.people_count
        ≡ (after start (at_first ∷ [])).status.people_count + 1)
entry-counted_example =
    entry-counted up start at_both at_first [] refl (((refl, refl, refl), refl, refl), tt)
      ((refl, refl, refl), refl, refl) (refl, refl) (omega arith, omega arith, omega arith)

abbrev at_second : Step
at_second = step_at 5000 false true

exit-counted_example :
    (state_of (after start (at_both ∷ at_second ∷ [])).status up ≡ dec)
    × ((after start (at_both ∷ at_second ∷ [])).status.people_count
        ≡ (after start (at_second ∷ [])).status.people_count - 1)
exit-counted_example =
    exit-counted up start at_both at_second [] refl (((refl, refl, refl), refl, refl), tt)
      ((refl, refl, refl), refl, refl) (refl, refl) (omega arith, omega arith, omega arith)
