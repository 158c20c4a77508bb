-- ===== src/Controller/Loop/Stages.antt =====
-- main.c: the detectors and the count in the stages of an iteration.
use pico_stairway_controller.Base.{ℕ, ◌≤◌, ◌≡◌, ◌∙◌, refl, arith, Bool, false, if◌then◌else◌}
use pico_stairway_controller.Types.{
  Side, up, down, StairwaySensorType, up_first, up_second, down_first, down_second, at_sensor,
  Settings, Status, StairwaySensorsGet,
}
use pico_stairway_controller.Controller.{Controller, Readings}
use pico_stairway_controller.Controller.Sense.{sense, sense_one, sensor_update, light_block}
use pico_stairway_controller.Controller.Detect.{detect}
use pico_stairway_controller.Controller.People.{people_changed, people_timeout}
use pico_stairway_controller.Controller.Emergency.{
  emergency, emergency_one, block_one, emergency_end, emergency_end_one,
}
use pico_stairway_controller.Controller.Sweeps.{sweeps}
use pico_stairway_controller.Controller.Loop.{
  Input, iterate, on_status, leds_tick, test_mode_changed, leds_refresh, error_light,
}

-- A sensor counts as active if it answers without an error and sees something in its range.
abbrev pub active : StairwaySensorsGet → StairwaySensorType → Bool
active g i = if at_sensor g.error i then false else at_sensor g.state i

pub sense-current :
    (now : Readings) (ts : ℕ) (g : StairwaySensorsGet) (i : StairwaySensorType) (c : Controller)
    → (at_sensor (sense now ts g c).status.sensor_state i).current ≡ active g i
unfolding sense sense_one sensor_update
sense-current now ts g up_first c = refl
sense-current now ts g up_second c = refl
sense-current now ts g down_first c = refl
sense-current now ts g down_second c = refl

pub sense_frame :
    (now : Readings) (ts : ℕ) (g : StairwaySensorsGet) (c : Controller)
    → ((sense now ts g c).status.detector ≡ c.status.detector)
      × ((sense now ts g c).status.people_count ≡ c.status.people_count)
unfolding sense sense_one
sense_frame now ts g c = (refl, refl)

pub light_block_frame :
    (s : Settings) (st : Status)
    → ((light_block s st).detector ≡ st.detector)
      × ((light_block s st).people_count ≡ st.people_count)
      × ((light_block s st).sensor_state ≡ st.sensor_state)
unfolding light_block
light_block_frame s st = ground arith

-- The detectors are the same, and nobody is added.
pub record Keeps (c c' : Controller) : Type 0 where
  pub detectors : c'.status.detector ≡ c.status.detector
  pub no_more : c'.status.people_count ≤ c.status.people_count

Keeps-trans : {c c' c'' : Controller} → Keeps c c' → Keeps c' c'' → Keeps c c''
Keeps-trans h k = record { detectors = k.detectors ∙ h.detectors; no_more = omega arith }

people_changed-Keeps :
    (s : Settings) (now : Readings) (c : Controller) → Keeps c (people_changed s now c)
unfolding people_changed
people_changed-Keeps s now c = ground arith

people_timeout-Keeps :
    (s : Settings) (now : Readings) (c : Controller) → Keeps c (people_timeout s now c)
unfolding people_timeout
people_timeout-Keeps s now c = ground arith

block_one-Keeps : (now : Readings) (i : Side) (c : Controller) → Keeps c (block_one now i c)
unfolding block_one
block_one-Keeps now i c = ground arith

emergency_one-Keeps :
    (s : Settings) (ts : ℕ) (i : Side) (c : Controller) → Keeps c (emergency_one s ts i c)
unfolding emergency_one
emergency_one-Keeps s ts i c = ground arith

emergency-Keeps :
    (s : Settings) (now : Readings) (ts : ℕ) (c : Controller) → Keeps c (emergency s now ts c)
unfolding emergency
emergency-Keeps s now ts c =
    let c1 = block_one now up c in
    let c2 = block_one now down c1 in
    let c3 = emergency_one s ts up c2 in
    Keeps-trans (block_one-Keeps now up c) (
      Keeps-trans (block_one-Keeps now down c1)
        (Keeps-trans (emergency_one-Keeps s ts up c2) (emergency_one-Keeps s ts down c3)))

emergency_end_one-Keeps : (i : Side) (c : Controller) → Keeps c (emergency_end_one i c)
unfolding emergency_end_one
emergency_end_one-Keeps i c = ground arith

sweeps-Keeps : (s : Settings) (c : Controller) → Keeps c (sweeps s c)
unfolding sweeps
sweeps-Keeps s c = record { detectors = refl; no_more = omega arith }

leds_tick-Keeps : (s : Settings) (ts : ℕ) (c : Controller) → Keeps c (leds_tick s ts c)
unfolding leds_tick emergency_end
leds_tick-Keeps s ts c =
    let c1 = record c { prev_ts = ts } in
    let c2 = emergency_end_one up c1 in
    let c3 = emergency_end_one down c2 in
    ground
      (arith, emergency_end_one-Keeps up c1, emergency_end_one-Keeps down c2, sweeps-Keeps s c3)

test_mode_changed-Keeps :
    (s : Settings) (now : Readings) (c : Controller) → Keeps c (test_mode_changed s now c)
unfolding test_mode_changed
test_mode_changed-Keeps s now c = ground arith

leds_refresh-Keeps :
    (a b : Bool) (s : Settings) (now : Readings) (c : Controller)
    → Keeps c (leds_refresh a b s now c)
unfolding leds_refresh
leds_refresh-Keeps a b s now c = ground arith

error_light-Keeps :
    (ap_state : Bool) (now : Readings) (c : Controller) → Keeps c (error_light ap_state now c)
unfolding error_light
error_light-Keeps ap_state now c = ground arith

-- The status after the detectors of an iteration.
unfoldable pub detected : Settings → Input → Controller → Status
detected s x c =
    let c =
      on_status (λ st. record st { light_state = x.light_state; light_value = x.light_value }) c in
    detect s x.now x.sensors (light_block s (sense x.now x.ts x.sensors c).status)

-- After an iteration the detectors are as its detector loop left them, and the count is at most
-- the count that it left.
pub iterate-detected :
    (s : Settings) (x : Input) (c : Controller)
    → Keeps (record c { status = detected s x c }) (iterate s x c)
unfolding iterate detected
iterate-detected s x c =
    let c0 =
      on_status (λ st. record st { light_state = x.light_state; light_value = x.light_value }) c in
    let c1 = sense x.now x.ts x.sensors c0 in
    let c2 = on_status (λ st. detect s x.now x.sensors (light_block s st)) c1 in
    let c3 = people_changed s x.now c2 in
    let c4 = people_timeout s x.now c3 in
    let c5 = emergency s x.now x.ts c4 in
    let c6 = leds_tick s x.ts c5 in
    let c7 = test_mode_changed s x.now c6 in
    let c8 = leds_refresh x.reallocated x.strip_reallocated s x.now c7 in
    let k = Keeps-trans (people_changed-Keeps s x.now c2) (
      Keeps-trans (people_timeout-Keeps s x.now c3) (
        Keeps-trans (emergency-Keeps s x.now x.ts c4) (
          Keeps-trans (leds_tick-Keeps s x.ts c5) (
            Keeps-trans (test_mode_changed-Keeps s x.now c6) (
              Keeps-trans (leds_refresh-Keeps x.reallocated x.strip_reallocated s x.now c7)
                (error_light-Keeps x.ap_state x.now c8)))))) in
    record { detectors = k.detectors; no_more = k.no_more }
