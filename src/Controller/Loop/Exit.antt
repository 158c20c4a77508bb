-- ===== src/Controller/Loop/Exit.antt =====
-- main.c: the iterations of the main loop in which somebody goes out.
use mathlib.Core.Path.{subst}
use pico_stairway_controller.Base.{
  ◌-◌, ◌≡◌, ◌⊎◌, ◌∙◌, ap, sym, inl, inr, arith, true, false, List, [], ◌∷◌,
}
use pico_stairway_controller.Types.{Side, up, down, idle, second_lock, dec, Status}
use pico_stairway_controller.Controller.{Controller, detector_stamp}
use pico_stairway_controller.Controller.Detect.{
  first_current, second_current, detect_one, detect_switch,
}
use pico_stairway_controller.Controller.Detect.Graph.{state_of, other}
use pico_stairway_controller.Controller.Loop.{iterate}
use pico_stairway_controller.Controller.Loop.Counted.{IsSoon, iterate-people_count}
use pico_stairway_controller.Controller.Loop.Steps.{
  Step, after, first_seen, second_seen, detected_down,
}
use pico_stairway_controller.Controller.Loop.Ends.{
  IsClear, IsFree, before, before-Meets, before-IsFree, iterate-state, AtBoth, IsQuiet,
  before_up-people_count, before_other-quiet,
}

locks :
    (x : Step) (i : Side) (st : Status)
    → IsFree x i st
    → (state_of st i ≡ idle) ⊎ (state_of st i ≡ second_lock)
    → first_current x.0 (x.1).now i st ≡ false
    → second_current x.0 (x.1).now i st ≡ true
    → state_of (detect_one x.0 (x.1).now (x.1).sensors i st) i ≡ second_lock
unfolding detect_one detect_switch
locks x up st free before_it first second =
    let a = free.unblocked in let b = free.first_works in let c = free.second_works in ground arith
locks x down st free before_it first second =
    let a = free.unblocked in let b = free.first_works in let c = free.second_works in ground arith

leaves :
    (x : Step) (i : Side) (st : Status)
    → IsFree x i st
    → state_of st i ≡ second_lock
    → first_current x.0 (x.1).now i st ≡ true
    → second_current x.0 (x.1).now i st ≡ true
    → let out = detect_one x.0 (x.1).now (x.1).sensors i st in
      (state_of out i ≡ dec)
      × (out.people_count ≡ st.people_count - 1)
      × ((out.people_count ≡ 0) ⊎ (out.people_ts ≡ (x.1).now (detector_stamp i)))
unfolding detect_one detect_switch
leaves x up st free lock first second =
    let a = free.unblocked in let b = free.first_works in let c = free.second_works in ground arith
leaves x down st free lock first second =
    let a = free.unblocked in let b = free.first_works in let c = free.second_works in ground arith

-- Only the second sensor of the end is active.
abbrev pub AtSecond : Side → Step → Type 0
AtSecond i x = IsClear i x × (first_seen i x ≡ false) × (second_seen i x ≡ true)

abbrev pub AllAtSecond : Side → List Step → Type 0
AllAtSecond i [] = Unit
AllAtSecond i (x ∷ xs) = AtSecond i x × AllAtSecond i xs

iterate-locks :
    (i : Side) (x : Step) (c : Controller)
    → AtSecond i x
    → (state_of c.status i ≡ idle) ⊎ (state_of c.status i ≡ second_lock)
    → state_of (iterate x.0 x.1 c).status i ≡ second_lock
iterate-locks i x c at before_it =
    let m = before-Meets i x c in
    iterate-state i x c
    ∙ locks x i (before i x c) (before-IsFree i x c at.0)
        (subst (λ d. (d ≡ idle) ⊎ (d ≡ second_lock)) (sym (ap (λ d. d.state) m.own_state))
          before_it)
        (m.sees_first ∙ at.1) (m.sees_second ∙ at.2)

after-locks :
    (i : Side) (x : Step) (xs : List Step) (c : Controller)
    → AllAtSecond i (x ∷ xs)
    → state_of c.status i ≡ idle
    → state_of (after c (x ∷ xs)).status i ≡ second_lock
unfolding after
after-locks i x [] c at is_idle = iterate-locks i x c at.0 (inl is_idle)
after-locks i x (y ∷ ys) c at is_idle =
    iterate-locks i x (after c (y ∷ ys)) at.0 (inr (after-locks i y ys c at.1 is_idle))

iterate-leaves :
    (i : Side) (x : Step) (c : Controller)
    → AtBoth i x
    → state_of c.status i ≡ second_lock
    → let out = detect_one x.0 (x.1).now (x.1).sensors i (before i x c) in
      (state_of (iterate x.0 x.1 c).status i ≡ dec)
      × (out.people_count ≡ (before i x c).people_count - 1)
      × ((out.people_count ≡ 0) ⊎ (out.people_ts ≡ (x.1).now (detector_stamp i)))
iterate-leaves i x c at locked =
    let m = before-Meets i x c in
    let (state, count, stamp) =
      leaves x i (before i x c) (before-IsFree i x c at.0) (ap (λ d. d.state) m.own_state ∙ locked)
        (m.sees_first ∙ at.1) (m.sees_second ∙ at.2) in
    (iterate-state i x c ∙ state, count, stamp)

-- The detectors count one less, with the time of this iteration if anybody is left.
detected-left :
    (i : Side) (x : Step) (c : Controller)
    → AtBoth i x
    → IsQuiet (other i) x
    → state_of c.status i ≡ second_lock
    → ((detected_down x c).people_count ≡ c.status.people_count - 1)
      × (((detected_down x c).people_count ≡ 0)
          ⊎ ((detected_down x c).people_ts ≡ (x.1).now (detector_stamp i)))
detected-left up x c at quiet locked =
    let (_, count, stamp) = iterate-leaves up x c at locked in
    let (still, kept) = before_other-quiet down x c quiet in
    let start = before_up-people_count x c in
    (omega arith, elim stamp [ inl nobody ↦ inl (still ∙ nobody) | inr t ↦ inr (kept ∙ t) ])
detected-left down x c at quiet locked =
    let (_, count, stamp) = iterate-leaves down x c at locked in
    let (still, kept) = before_other-quiet up x c quiet in
    let start = before_up-people_count x c in (omega arith, stamp)

-- Somebody who goes out is no longer counted: from an idle detector on, if the second sensor of
-- its end is active alone for one iteration or more, then in the next one both are, nothing is
-- active at the other end, daylight does not block the stairs, the sensors answer, and the clock
-- goes on by no more than leds_off_timeout in that iteration, then the detector is in DEC and one
-- person less is counted, or still nobody.
pub exit-counted :
    (i : Side) (c : Controller) (z x : Step) (xs : List Step)
    → state_of c.status i ≡ idle
    → AllAtSecond i (x ∷ xs)
    → AtBoth i z
    → IsQuiet (other i) z
    → IsSoon ((z.1).now (detector_stamp i)) z
    → (state_of (after c (z ∷ x ∷ xs)).status i ≡ dec)
      × ((after c (z ∷ x ∷ xs)).status.people_count ≡ (after c (x ∷ xs)).status.people_count - 1)
unfolding after
exit-counted i c z x xs is_idle second both quiet soon =
    let b = after c (x ∷ xs) in
    let locked = after-locks i x xs c second is_idle in
    let (count, stamp) = detected-left i z b both quiet locked in
    let waits : ((detected_down z b).people_count ≡ 0) ⊎ IsSoon (detected_down z b).people_ts z =
      elim stamp [ inl nobody ↦ inl nobody | inr t ↦ inr (subst (λ t. IsSoon t z) (sym t) soon) ] in
    ((iterate-leaves i z b both locked).0, iterate-people_count z b waits ∙ count)
