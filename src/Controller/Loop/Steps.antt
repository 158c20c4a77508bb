-- ===== src/Controller/Loop/Steps.antt =====
-- main.c: iterations of the main loop one after the other, and what a detector meets in one.
use pico_stairway_controller.Base.{◌≤◌, ◌≡◌, ◌∙◌, ap, Bool, List, [], ◌∷◌}
use pico_stairway_controller.Types.{
  Side, up, down, at_side, at_sensor, first_sensor, second_sensor, Settings, Status, PerSensor,
  SensorState,
}
use pico_stairway_controller.Controller.{Controller}
use pico_stairway_controller.Controller.Sense.{sense, light_block}
use pico_stairway_controller.Controller.Detect.{detect, detect_one}
use pico_stairway_controller.Controller.Detect.Graph.{detect_one_frame}
use pico_stairway_controller.Controller.Loop.{Input, iterate, on_status}
use pico_stairway_controller.Controller.Loop.Stages.{
  active, sense-current, sense_frame, light_block_frame, detected, iterate-detected,
}

-- The iterations so far, the newest first, each with the settings it ran under.
abbrev pub Step : Type 0
Step = Settings × Input

unfoldable pub after : Controller → List Step → Controller
after c [] = c
after c (x ∷ xs) = iterate x.0 x.1 (after c xs)

-- The controller after these iterations, between which its test mode may be switched.
pub data Run (c : Controller) : List Step → Controller → Type 0 where
  start : Run c [] c
  iterated :
      {xs : List Step} {b : Controller} (x : Step) → Run c xs b → Run c (x ∷ xs) (iterate x.0 x.1 b)
  switched :
      {xs : List Step} {b : Controller} (mode : Bool)
      → Run c xs b
      → Run c xs (record b { status = record (b.status) { test_mode = mode } })

pub after-Run : (c : Controller) (xs : List Step) → Run c xs (after c xs)
unfolding after
after-Run c [] = start
after-Run c (x ∷ xs) = iterated x (after-Run c xs)

abbrev pub first_seen : Side → Step → Bool
first_seen i x = active (x.1).sensors (first_sensor i)

abbrev pub second_seen : Side → Step → Bool
second_seen i x = active (x.1).sensors (second_sensor i)

-- What the detector of one end meets in an iteration: its own state from before, and the
-- sensors' values.
pub record Meets (x : Step) (i : Side) (c : Controller) (st : Status) : Type 0 where
  pub own_state : at_side st.detector i ≡ at_side c.status.detector i
  pub sees_first : (at_sensor st.sensor_state (first_sensor i)).current ≡ first_seen i x
  pub sees_second : (at_sensor st.sensor_state (second_sensor i)).current ≡ second_seen i x

-- The statuses that the two detectors of an iteration start from.
abbrev pub before_up : Step → Controller → Status
before_up x c =
    let st = record (c.status) {
      light_state = (x.1).light_state;
      light_value = (x.1).light_value;
    } in
    light_block x.0 (sense (x.1).now (x.1).ts (x.1).sensors (record c { status = st })).status

abbrev pub before_down : Step → Controller → Status
before_down x c = detect_one x.0 (x.1).now (x.1).sensors up (before_up x c)

unfoldable pub lit : Step → Controller → Controller
lit x c =
    on_status (λ st. record st { light_state = (x.1).light_state; light_value = (x.1).light_value })
      c

pub before_up-Meets : (x : Step) (i : Side) (c : Controller) → Meets x i c (before_up x c)
unfolding lit
before_up-Meets x i c =
    let after_sense = sense (x.1).now (x.1).ts (x.1).sensors (lit x c) in
    let (same_detector, _, same_sensors) = light_block_frame x.0 after_sense.status in
    let (kept, _) = sense_frame (x.1).now (x.1).ts (x.1).sensors (lit x c) in
    record {
      own_state = ap (λ d. at_side d i) (same_detector ∙ kept);
      sees_first =
          ap (λ (a : PerSensor SensorState). (at_sensor a (first_sensor i)).current) same_sensors
          ∙ sense-current (x.1).now (x.1).ts (x.1).sensors (first_sensor i) (lit x c);
      sees_second =
          ap (λ (a : PerSensor SensorState). (at_sensor a (second_sensor i)).current) same_sensors
          ∙ sense-current (x.1).now (x.1).ts (x.1).sensors (second_sensor i) (lit x c);
    }

pub before_down-Meets : (x : Step) (c : Controller) → Meets x down c (before_down x c)
before_down-Meets x c =
    let m = before_up-Meets x down c in
    let (other_same, sensors_same, _, _) =
      detect_one_frame x.0 (x.1).now (x.1).sensors up (before_up x c) in
    record {
      own_state = other_same ∙ m.own_state;
      sees_first =
          ap (λ (a : PerSensor SensorState). (at_sensor a (first_sensor down)).current) sensors_same
          ∙ m.sees_first;
      sees_second =
          ap (λ (a : PerSensor SensorState). (at_sensor a (second_sensor down)).current)
            sensors_same
          ∙ m.sees_second;
    }

abbrev pub detected_down : Step → Controller → Status
detected_down x c = detect_one x.0 (x.1).now (x.1).sensors down (before_down x c)

-- The detectors and the count after an iteration, in terms of its detector loop.
pub iterate_lem :
    (x : Step) (c : Controller)
    → ((iterate x.0 x.1 c).status.detector ≡ (detected_down x c).detector)
      × ((iterate x.0 x.1 c).status.people_count ≤ (detected_down x c).people_count)
unfolding detected detect
iterate_lem x c = let k = iterate-detected x.0 x.1 c in (k.detectors, k.no_more)
