-- ===== src/Controller/Loop/Counted.antt =====
-- main.c: the count at the end of an iteration, and the detectors.
use pico_stairway_controller.Base.{
  Bool, ℕ, ◌+◌, ◌<◌, ◌≤◌, ◌^◌, ◌≡◌, ◌⊎◌, ◌∙◌, ap, refl, inl, inr, arith,
}
use pico_stairway_controller.Types.{Side, up, down, Settings, Status}
use pico_stairway_controller.Controller.{Controller, Readings, timeout_elapsed}
use pico_stairway_controller.Controller.Sense.{sense, light_block}
use pico_stairway_controller.Controller.Detect.{detect}
use pico_stairway_controller.Controller.People.{people_changed, people_timeout}
use pico_stairway_controller.Controller.People.Laws.{people_timeout_waits}
use pico_stairway_controller.Controller.Emergency.{
  emergency, emergency_one, block_one, emergency_end, emergency_end_one,
}
use pico_stairway_controller.Controller.Sweeps.{sweeps}
use pico_stairway_controller.Controller.Loop.{
  Input, iterate, on_status, leds_tick, test_mode_changed, leds_refresh, error_light,
}
use pico_stairway_controller.Controller.Loop.Steps.{Step, detected_down}

block_one-status :
    (now : Readings) (i : Side) (c : Controller) → (block_one now i c).status ≡ c.status
unfolding block_one
block_one-status now i c = ground arith

emergency_one-status :
    (s : Settings) (ts : ℕ) (i : Side) (c : Controller) → (emergency_one s ts i c).status ≡ c.status
unfolding emergency_one
emergency_one-status s ts i c = ground arith

emergency-status :
    (s : Settings) (now : Readings) (ts : ℕ) (c : Controller)
    → (emergency s now ts c).status ≡ c.status
unfolding emergency
emergency-status s now ts c =
    let c2 = block_one now down (block_one now up c) in
    emergency_one-status s ts down (emergency_one s ts up c2)
    ∙ emergency_one-status s ts up c2
    ∙ block_one-status now down (block_one now up c)
    ∙ block_one-status now up c

emergency_end_one-status : (i : Side) (c : Controller) → (emergency_end_one i c).status ≡ c.status
unfolding emergency_end_one
emergency_end_one-status i c = ground arith

sweeps-status : (s : Settings) (c : Controller) → (sweeps s c).status ≡ c.status
unfolding sweeps
sweeps-status s c = refl

leds_tick-status : (s : Settings) (ts : ℕ) (c : Controller) → (leds_tick s ts c).status ≡ c.status
unfolding leds_tick emergency_end
leds_tick-status s ts c =
    let c1 = record c { prev_ts = ts } in
    let c2 = emergency_end_one up c1 in
    ground (
      arith,
      emergency_end_one-status up c1,
      emergency_end_one-status down c2,
      sweeps-status s (emergency_end_one down c2),
    )

test_mode_changed-status :
    (s : Settings) (now : Readings) (c : Controller) → (test_mode_changed s now c).status ≡ c.status
unfolding test_mode_changed
test_mode_changed-status s now c = ground arith

leds_refresh-status :
    (a b : Bool) (s : Settings) (now : Readings) (c : Controller)
    → (leds_refresh a b s now c).status ≡ c.status
unfolding leds_refresh
leds_refresh-status a b s now c = ground arith

error_light-status :
    (ap_state : Bool) (now : Readings) (c : Controller)
    → (error_light ap_state now c).status ≡ c.status
unfolding error_light
error_light-status ap_state now c = ground arith

-- What is behind the timeout leaves the status alone.
later_stages-status :
    (s : Settings) (x : Input) (c : Controller)
    → let c5 = leds_tick s x.ts (emergency s x.now x.ts c) in
      let c7 =
        leds_refresh x.reallocated x.strip_reallocated s x.now (test_mode_changed s x.now c5) in
      (error_light x.ap_state x.now c7).status ≡ c.status
later_stages-status s x c =
    let c4 = emergency s x.now x.ts c in
    let c5 = leds_tick s x.ts c4 in
    let c6 = test_mode_changed s x.now c5 in
    let c7 = leds_refresh x.reallocated x.strip_reallocated s x.now c6 in
    error_light-status x.ap_state x.now c7
    ∙ leds_refresh-status x.reallocated x.strip_reallocated s x.now c6
    ∙ test_mode_changed-status s x.now c5
    ∙ leds_tick-status s x.ts c4
    ∙ emergency-status s x.now x.ts c

people_changed_lem :
    (s : Settings) (now : Readings) (c : Controller)
    → let c' = people_changed s now c in
      (c'.status.people_count ≡ c.status.people_count) × (c'.status.people_ts ≡ c.status.people_ts)
unfolding people_changed
people_changed_lem s now c = ground arith

-- In the iteration the clock goes on by no more than leds_off_timeout from the time `t` on.
abbrev pub IsSoon : ℕ → Step → Type 0
IsSoon t x =
    (t ≤ (x.1).now timeout_elapsed)
    × ((x.1).now timeout_elapsed ≤ t + (x.0).leds_off_timeout)
    × ((x.1).now timeout_elapsed < 2 ^ 64)

-- Soon after the last passage, or with nobody there, the count is the one that the detectors left.
pub iterate-people_count :
    (x : Step) (c : Controller)
    → ((detected_down x c).people_count ≡ 0) ⊎ IsSoon (detected_down x c).people_ts x
    → (iterate x.0 x.1 c).status.people_count ≡ (detected_down x c).people_count
unfolding iterate detect
iterate-people_count x c soon =
    let s = x.0 in
    let c2 : Controller = record c { status = detected_down x c } in
    let c2' =
      on_status (λ st. detect s (x.1).now (x.1).sensors (light_block s st))
        (sense (x.1).now (x.1).ts (x.1).sensors (
          on_status
            (λ st. record st { light_state = (x.1).light_state; light_value = (x.1).light_value })
            c)) in
    let c3 = people_changed s (x.1).now c2' in
    let (count, stamp) = people_changed_lem s (x.1).now c2' in
    let waits : people_timeout s (x.1).now c3 ≡ c3 = elim soon [
      | inl nobody ↦ people_timeout_waits s (x.1).now c3 (inl (count ∙ nobody))
      | inr soon ↦
          people_timeout_waits s (x.1).now c3 (inr (inr (omega arith, omega arith, soon.2)))
    ] in
    ap (λ (st : Status). st.people_count)
      (later_stages-status s x.1 (people_timeout s (x.1).now c3))
    ∙ ap (λ (c : Controller). c.status.people_count) waits
    ∙ count
