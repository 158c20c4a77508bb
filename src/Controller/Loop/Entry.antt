-- ===== src/Controller/Loop/Entry.antt =====
-- main.c: the iterations of the main loop in which somebody comes in.
use mathlib.Core.Path.{subst}
use pico_stairway_controller.Base.{
  ◌+◌, ◌≡◌, ◌⊎◌, ◌∙◌, ap, sym, inl, inr, arith, true, false, List, [], ◌∷◌,
}
use pico_stairway_controller.Types.{Side, up, down, idle, first_lock, inc, Status}
use pico_stairway_controller.Controller.{Controller, detector_stamp}
use pico_stairway_controller.Controller.Detect.{
  first_current, second_current, detect_one, detect_switch,
}
use pico_stairway_controller.Controller.Detect.Graph.{state_of, other}
use pico_stairway_controller.Controller.Loop.{iterate}
use pico_stairway_controller.Controller.Loop.Counted.{IsSoon, iterate-people_count}
use pico_stairway_controller.Controller.Loop.Steps.{
  Step, after, first_seen, second_seen, detected_down,
}
use pico_stairway_controller.Controller.Loop.Ends.{
  IsClear, IsFree, before, before-Meets, before-IsFree, iterate-state, AtBoth, IsQuiet,
  before_up-people_count, before_other-quiet,
}

locks :
    (x : Step) (i : Side) (st : Status)
    → IsFree x i st
    → state_of st i ≡ idle
    → first_current x.0 (x.1).now i st ≡ true
    → state_of (detect_one x.0 (x.1).now (x.1).sensors i st) i ≡ first_lock
unfolding detect_one detect_switch
locks x up st free is_idle first =
    let a = free.unblocked in let b = free.first_works in let c = free.second_works in ground arith
locks x down st free is_idle first =
    let a = free.unblocked in let b = free.first_works in let c = free.second_works in ground arith

holds :
    (x : Step) (i : Side) (st : Status)
    → IsFree x i st
    → state_of st i ≡ first_lock
    → first_current x.0 (x.1).now i st ≡ true
    → second_current x.0 (x.1).now i st ≡ false
    → state_of (detect_one x.0 (x.1).now (x.1).sensors i st) i ≡ first_lock
unfolding detect_one detect_switch
holds x up st free lock first second =
    let a = free.unblocked in let b = free.first_works in let c = free.second_works in ground arith
holds x down st free lock first second =
    let a = free.unblocked in let b = free.first_works in let c = free.second_works in ground arith

enters :
    (x : Step) (i : Side) (st : Status)
    → IsFree x i st
    → state_of st i ≡ first_lock
    → first_current x.0 (x.1).now i st ≡ true
    → second_current x.0 (x.1).now i st ≡ true
    → let out = detect_one x.0 (x.1).now (x.1).sensors i st in
      (state_of out i ≡ inc)
      × (out.people_count ≡ st.people_count + 1)
      × (out.people_ts ≡ (x.1).now (detector_stamp i))
unfolding detect_one detect_switch
enters x up st free lock first second =
    let a = free.unblocked in let b = free.first_works in let c = free.second_works in ground arith
enters x down st free lock first second =
    let a = free.unblocked in let b = free.first_works in let c = free.second_works in ground arith

-- Only the first sensor of the end is active.
abbrev pub AtFirst : Side → Step → Type 0
AtFirst i x = IsClear i x × (first_seen i x ≡ true) × (second_seen i x ≡ false)

iterate-locks :
    (i : Side) (x : Step) (c : Controller)
    → AtFirst i x
    → (state_of c.status i ≡ idle) ⊎ (state_of c.status i ≡ first_lock)
    → state_of (iterate x.0 x.1 c).status i ≡ first_lock
iterate-locks i x c at before_it =
    let m = before-Meets i x c in
    let own : state_of (before i x c) i ≡ state_of c.status i = ap (λ d. d.state) m.own_state in
    let free = before-IsFree i x c at.0 in
    iterate-state i x c ∙ elim before_it [
      | inl is_idle ↦ locks x i (before i x c) free (own ∙ is_idle) (m.sees_first ∙ at.1)
      | inr locked ↦
          holds x i (before i x c) free (own ∙ locked) (m.sees_first ∙ at.1) (m.sees_second ∙ at.2)
    ]

iterate-enters :
    (i : Side) (x : Step) (c : Controller)
    → AtBoth i x
    → state_of c.status i ≡ first_lock
    → let out = detect_one x.0 (x.1).now (x.1).sensors i (before i x c) in
      (state_of (iterate x.0 x.1 c).status i ≡ inc)
      × (out.people_count ≡ (before i x c).people_count + 1)
      × (out.people_ts ≡ (x.1).now (detector_stamp i))
iterate-enters i x c at locked =
    let m = before-Meets i x c in
    let (state, count, stamp) =
      enters x i (before i x c) (before-IsFree i x c at.0) (ap (λ d. d.state) m.own_state ∙ locked)
        (m.sees_first ∙ at.1) (m.sees_second ∙ at.2) in
    (iterate-state i x c ∙ state, count, stamp)

abbrev pub AllAtFirst : Side → List Step → Type 0
AllAtFirst i [] = Unit
AllAtFirst i (x ∷ xs) = AtFirst i x × AllAtFirst i xs

after-locks :
    (i : Side) (x : Step) (xs : List Step) (c : Controller)
    → AllAtFirst i (x ∷ xs)
    → state_of c.status i ≡ idle
    → state_of (after c (x ∷ xs)).status i ≡ first_lock
unfolding after
after-locks i x [] c at is_idle = iterate-locks i x c at.0 (inl is_idle)
after-locks i x (y ∷ ys) c at is_idle =
    iterate-locks i x (after c (y ∷ ys)) at.0 (inr (after-locks i y ys c at.1 is_idle))

-- The detectors count one more, with the time of this iteration.
detected-entered :
    (i : Side) (x : Step) (c : Controller)
    → AtBoth i x
    → IsQuiet (other i) x
    → state_of c.status i ≡ first_lock
    → ((detected_down x c).people_count ≡ c.status.people_count + 1)
      × ((detected_down x c).people_ts ≡ (x.1).now (detector_stamp i))
detected-entered up x c at quiet locked =
    let (_, count, stamp) = iterate-enters up x c at locked in
    let (still, kept) = before_other-quiet down x c quiet in
    let start = before_up-people_count x c in (omega arith, kept ∙ stamp)
detected-entered down x c at quiet locked =
    let (_, count, stamp) = iterate-enters down x c at locked in
    let (still, kept) = before_other-quiet up x c quiet in
    let start = before_up-people_count x c in (omega arith, stamp)

-- Somebody who comes in is counted: from an idle detector on, if the first sensor of its end is
-- active alone for one iteration or more, then in the next one both are, nothing is active at the
-- other end, daylight does not block the stairs, the sensors answer, and the clock goes on by no
-- more than leds_off_timeout in that iteration, then the detector is in INC and one person more is
-- counted.
pub entry-counted :
    (i : Side) (c : Controller) (z x : Step) (xs : List Step)
    → state_of c.status i ≡ idle
    → AllAtFirst i (x ∷ xs)
    → AtBoth i z
    → IsQuiet (other i) z
    → IsSoon ((z.1).now (detector_stamp i)) z
    → (state_of (after c (z ∷ x ∷ xs)).status i ≡ inc)
      × ((after c (z ∷ x ∷ xs)).status.people_count ≡ (after c (x ∷ xs)).status.people_count + 1)
unfolding after
entry-counted i c z x xs is_idle first both quiet soon =
    let b = after c (x ∷ xs) in
    let locked = after-locks i x xs c first is_idle in
    let (count, stamp) = detected-entered i z b both quiet locked in
    (
      (iterate-enters i z b both locked).0,
      iterate-people_count z b (inr (subst (λ t. IsSoon t z) (sym stamp) soon)) ∙ count,
    )
