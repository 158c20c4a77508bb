-- ===== src/Firmware/Strip.antt =====
-- main.c: the strip's buffers in the stages of an iteration.
use pico_stairway_controller.Base.{
  ℕ, zero, suc, ◌+◌, ◌-◌, ◌<◌, ◌≡◌, sym, arith, inl, inr, Bool-cases, ltb, ◌&&◌, if◌then◌else◌,
  Bool, true, false,
}
use mathlib.Core.Path.{subst}
use pico_stairway_controller.Types.{Settings, Side, up, down}
use pico_stairway_controller.Leds.{Leds, emergency_leds}
use pico_stairway_controller.Leds.Invariant.{IsWf, set_state-IsWf, granted-IsWf}
use pico_stairway_controller.Controller.{Controller, Readings, Sweep, test_stamp}
use pico_stairway_controller.Controller.Sense.{sense, sense_one}
use pico_stairway_controller.Controller.People.{people_changed, people_timeout}
use pico_stairway_controller.Controller.Emergency.{
  emergency, emergency_one, block_one, emergency_end, emergency_end_one,
}
use pico_stairway_controller.Controller.Sweeps.{
  Position, advance, fill, tick, tick_on_up, tick_off_up, tick_on_down, tick_off_down, sweeps,
}
use pico_stairway_controller.Controller.Loop.{
  Input, iterate, leds_tick, test_from, test_mode_changed, leds_refresh, error_light,
}

-- The controller's strip.
abbrev pub HasStrip : Controller → Type 0
HasStrip c = IsWf c.leds

one_of-HasStrip :
    (b : Bool) (x y : Controller) → HasStrip x → HasStrip y → HasStrip (if b then x else y)
one_of-HasStrip true x y hx hy = hx
one_of-HasStrip false x y hx hy = hy

people_changed-HasStrip :
    (s : Settings) (now : Readings) (c : Controller)
    → HasStrip c
    → HasStrip (people_changed s now c)
unfolding people_changed
people_changed-HasStrip s now c h =
    one_of-HasStrip (ltb c.status.prev_people_count c.status.people_count) _ _ h
      (one_of-HasStrip (ltb c.status.people_count c.status.prev_people_count) _ c h h)

people_timeout-HasStrip :
    (s : Settings) (now : Readings) (c : Controller)
    → HasStrip c
    → HasStrip (people_timeout s now c)
unfolding people_timeout
people_timeout-HasStrip s now c h = one_of-HasStrip _ _ c h h

block_one-HasStrip :
    (now : Readings) (i : Side) (c : Controller) → HasStrip c → HasStrip (block_one now i c)
unfolding block_one
block_one-HasStrip now i c h = one_of-HasStrip _ _ c h h

emergency_one-HasStrip :
    (s : Settings) (ts : ℕ) (i : Side) (c : Controller)
    → HasStrip c
    → HasStrip (emergency_one s ts i c)
unfolding emergency_one emergency_leds
emergency_one-HasStrip s ts i c h = one_of-HasStrip _ _ _ h h

emergency-HasStrip :
    (s : Settings) (now : Readings) (ts : ℕ) (c : Controller)
    → HasStrip c
    → HasStrip (emergency s now ts c)
unfolding emergency
emergency-HasStrip s now ts c h = emergency_one-HasStrip s ts down _ (
    emergency_one-HasStrip s ts up _
      (block_one-HasStrip now down _ (block_one-HasStrip now up c h)))

emergency_end_one-HasStrip :
    (i : Side) (c : Controller) → HasStrip c → HasStrip (emergency_end_one i c)
unfolding emergency_end_one emergency_leds
emergency_end_one-HasStrip i c h = one_of-HasStrip _ _ c h h

-- A run only switches LEDs.
module _ (pos : Position) (state : Bool) where
  advance-IsWf :
      (led_count : ℕ) (w : Sweep) (l : Leds) → IsWf l → IsWf (advance pos state led_count w l).1
  unfolding advance
  advance-IsWf led_count w l h = set_state-IsWf (pos led_count w.cnt) w.ts state l h

  fill-IsWf :
      (fuel emergency_cnt led_count : ℕ) (w : Sweep) (l : Leds)
      → IsWf l
      → IsWf (fill pos state fuel emergency_cnt led_count w l).1
  unfolding fill advance
  fill-IsWf zero emergency_cnt led_count w l h = h
  fill-IsWf (suc fuel) emergency_cnt led_count w l h =
      let (w', l') = advance pos state led_count w l in
      elim (Bool-cases (ltb w.cnt emergency_cnt && ltb w.cnt (led_count - 1))) [
        | inl more ↦
            rw more (fill-IsWf fuel emergency_cnt led_count w' l' (advance-IsWf led_count w l h))
        | inr done ↦ rw done h
      ]

  tick-IsWf :
      (filled : Bool) (emergency_cnt led_count : ℕ) (w : Sweep) (l : Leds)
      → IsWf l
      → IsWf (tick pos state filled emergency_cnt led_count w l).1
  unfolding tick
  tick-IsWf filled emergency_cnt led_count w l h = elim (Bool-cases w.on) [
    | inr off ↦ simp off h
    | inl on ↦ elim (Bool-cases (ltb w.cnt led_count)) [
      | inr at_end ↦ simp (on, at_end) h
      | inl before ↦ simp (on, before) (ticked filled)
    ]
  ]
    where
      ticked :
          (filled : Bool)
          → IsWf
              (let (w', l') =
                  if filled then fill pos state led_count emergency_cnt led_count w l else (w, l) in
                advance pos state led_count w' l').1
      ticked true =
          let (w', l') = fill pos state led_count emergency_cnt led_count w l in
          advance-IsWf led_count w' l' (fill-IsWf led_count emergency_cnt led_count w l h)
      ticked false = advance-IsWf led_count w l h

sweeps-HasStrip : (s : Settings) (c : Controller) → HasStrip c → HasStrip (sweeps s c)
unfolding sweeps tick_on_up tick_off_up tick_on_down tick_off_down
sweeps-HasStrip s c h =
    let (_, l1) = tick_on_up s c.on_up c.leds in
    let (_, l2) = tick_off_up s c.off_up l1 in
    let (_, l3) = tick_on_down s c.on_down l2 in
    tick-IsWf _ _ _ _ _ c.off_down l3 (
      tick-IsWf _ _ _ _ _ c.on_down l2
        (tick-IsWf _ _ _ _ _ c.off_up l1 (tick-IsWf _ _ _ _ _ c.on_up c.leds h)))

leds_tick-HasStrip :
    (s : Settings) (ts : ℕ) (c : Controller) → HasStrip c → HasStrip (leds_tick s ts c)
unfolding leds_tick emergency_end
leds_tick-HasStrip s ts c h =
    one_of-HasStrip _ _ c
      (sweeps-HasStrip s _ (emergency_end_one-HasStrip down _ (emergency_end_one-HasStrip up _ h)))
      h

test_from-IsWf :
    (left_ i : ℕ) (mode : Bool) (now : Readings) (l : Leds)
    → IsWf l
    → IsWf (test_from left_ i mode now l)
unfolding test_from
test_from-IsWf zero i mode now l h = h
test_from-IsWf (suc left_) i mode now l h =
    test_from-IsWf left_ (i + 1) mode now _ (set_state-IsWf i (now (test_stamp i)) mode l h)

test_mode_changed-HasStrip :
    (s : Settings) (now : Readings) (c : Controller)
    → HasStrip c
    → HasStrip (test_mode_changed s now c)
unfolding test_mode_changed
test_mode_changed-HasStrip s now c h =
    one_of-HasStrip _ _ c (test_from-IsWf s.led_count 0 c.status.test_mode now c.leds h) h

leds_refresh-HasStrip :
    (s : Settings) (now : Readings) (c : Controller)
    → 0 < s.led_count
    → HasStrip c
    → HasStrip (leds_refresh true true s now c)
unfolding leds_refresh
leds_refresh-HasStrip s now c pos h = one_of-HasStrip _ _ c (granted-IsWf s c.leds h pos).1 h

error_light-leds :
    (on : Bool) (now : Readings) (c : Controller) → (error_light on now c).leds ≡ c.leds
unfolding error_light
error_light-leds on now c = ground arith

-- An iteration that gets its memory, with at least one LED in the settings, keeps both buffers of
-- the strip allocated with the length that the handle states.
pub iterate-HasStrip :
    (s : Settings) (x : Input) (c : Controller)
    → x.reallocated ≡ true
    → x.strip_reallocated ≡ true
    → 0 < s.led_count
    → HasStrip c
    → HasStrip (iterate s x c)
unfolding iterate sense sense_one
iterate-HasStrip s x c given given' pos h =
    rw (given, given')
      (subst IsWf (sym (error_light-leds x.ap_state x.now _)) (
        leds_refresh-HasStrip s x.now _ pos (
          test_mode_changed-HasStrip s x.now _ (
            leds_tick-HasStrip s x.ts _ (
              emergency-HasStrip s x.now x.ts _
                (people_timeout-HasStrip s x.now _ (people_changed-HasStrip s x.now _ h)))))))
