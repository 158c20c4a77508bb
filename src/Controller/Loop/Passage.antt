-- ===== src/Controller/Loop/Passage.antt =====
-- main.c: the detectors, the count and the sensors over any number of iterations of the main loop,
-- under settings that may change between them.
use mathlib.Core.Path.{subst}
use pico_stairway_controller.Base.{
  ◌<◌, ◌≤◌, ◌≡◌, ◌⊎◌, ◌∙◌, ap, sym, inl, inr, arith, Bool, true, List, [], ◌∷◌,
}
use pico_stairway_controller.Types.{
  Side, up, down, DetectorState, idle, first_lock, second_lock, inc, dec, Status,
}
use pico_stairway_controller.Controller.{Controller}
use pico_stairway_controller.Controller.Sense.{sense}
use pico_stairway_controller.Controller.Detect.{detect_one}
use pico_stairway_controller.Controller.Detect.Graph.{
  Edge, stay, lock_first, lock_second, unlock_first, unlock_second, enter, leave, clear_inc,
  clear_dec, state_of, Counts, same, entered, left, detect_one-Edge, detect_one-Counts,
  detect_one_frame,
}
use pico_stairway_controller.Controller.Loop.{iterate}
use pico_stairway_controller.Controller.Loop.Stages.{sense_frame, light_block_frame}
use pico_stairway_controller.Controller.Loop.Steps.{
  Step, after, Run, after-Run, first_seen, second_seen, Meets, before_up, before_down, lit,
  before_up-Meets, before_down-Meets, detected_down, iterate_lem, start, iterated, switched,
}

-- Some iteration showed `p`.
abbrev pub Seen : (Step → Bool) → List Step → Type 0
Seen p [] = ⊥
Seen p (x ∷ xs) = (p x ≡ true) ⊎ Seen p xs

-- Some iteration showed `q`, and an earlier one `p`.
abbrev pub Passage : (Step → Bool) → (Step → Bool) → List Step → Type 0
Passage p q [] = ⊥
Passage p q (x ∷ xs) = ((q x ≡ true) × Seen p xs) ⊎ Passage p q xs

abbrev pub Explained : Side → List Step → DetectorState → Type 0
Explained i xs idle = Unit
Explained i xs first_lock = Seen (first_seen i) xs
Explained i xs second_lock = Seen (second_seen i) xs
Explained i xs inc = Passage (first_seen i) (second_seen i) xs
Explained i xs dec = Passage (second_seen i) (first_seen i) xs

Explained-later :
    (i : Side) (x : Step) (xs : List Step) (d : DetectorState)
    → Explained i xs d
    → Explained i (x ∷ xs) d
Explained-later i x xs idle h = tt
Explained-later i x xs first_lock h = inr h
Explained-later i x xs second_lock h = inr h
Explained-later i x xs inc h = inr h
Explained-later i x xs dec h = inr h

Edge-Explained :
    (i : Side) (x : Step) (xs : List Step) {f g settled : Bool} {d d' : DetectorState}
    → Edge f g settled d d'
    → f ≡ first_seen i x
    → g ≡ second_seen i x
    → Explained i xs d
    → Explained i (x ∷ xs) d'
Edge-Explained i x xs {d = d} stay ef eg h = Explained-later i x xs d h
Edge-Explained i x xs (lock_first on) ef eg h = inl (sym ef ∙ on)
Edge-Explained i x xs (lock_second off on) ef eg h = inl (sym eg ∙ on)
Edge-Explained i x xs (unlock_first off t) ef eg h = tt
Edge-Explained i x xs (unlock_second off t) ef eg h = tt
Edge-Explained i x xs (enter on) ef eg h = inl (sym eg ∙ on, h)
Edge-Explained i x xs (leave on) ef eg h = inl (sym ef ∙ on, h)
Edge-Explained i x xs (clear_inc a b t) ef eg h = tt
Edge-Explained i x xs (clear_dec a b t) ef eg h = tt

one-Explained :
    (x : Step) (xs : List Step) (i : Side) (c : Controller) (st : Status)
    → Meets x i c st
    → Explained i xs (state_of c.status i)
    → Explained i (x ∷ xs) (state_of (detect_one x.0 (x.1).now (x.1).sensors i st) i)
one-Explained x xs i c st m h = elim (detect_one-Edge x.0 (x.1).now (x.1).sensors i st) [
  | inl blocked ↦ rw (blocked.1) tt
  | inr free ↦
      Edge-Explained i x xs free.1 m.sees_first m.sees_second
        (subst (λ d. Explained i xs d.state) (sym m.own_state) h)
]

-- Both detectors are idle at the start.
abbrev pub IsIdle : Controller → Type 0
IsIdle c = (state_of c.status up ≡ idle) × (state_of c.status down ≡ idle)

Run-Explained :
    (c b : Controller) (xs : List Step) (i : Side)
    → Run c xs b
    → IsIdle c
    → Explained i xs (state_of b.status i)
Run-Explained c b xs up start h = rw h.0 tt
Run-Explained c b xs down start h = rw h.1 tt
Run-Explained c b xs up (switched mode r) h = Run-Explained c _ xs up r h
Run-Explained c b xs down (switched mode r) h = Run-Explained c _ xs down r h
Run-Explained c _ _ up (iterated {xs = xs} {b = b} x r) h =
    let up_done =
      one-Explained x xs up b (before_up x b) (before_up-Meets x up b)
        (Run-Explained c b xs up r h) in
    let (kept, _, _, _) = detect_one_frame x.0 (x.1).now (x.1).sensors down (before_down x b) in
    subst (λ d. Explained up (x ∷ xs) d.state) (sym (ap (λ d. d.of_up) (iterate_lem x b).0 ∙ kept))
      up_done
Run-Explained c _ _ down (iterated {xs = xs} {b = b} x r) h =
    let down_done =
      one-Explained x xs down b (before_down x b) (before_down-Meets x b)
        (Run-Explained c b xs down r h) in
    subst (λ d. Explained down (x ∷ xs) d.state) (sym (ap (λ d. d.of_down) (iterate_lem x b).0))
      down_done

-- From idle detectors on, after any iterations: a detector in FIRST_LOCK has seen its first
-- sensor active, one in SECOND_LOCK its second; one in INC has seen the first active in an
-- earlier iteration than the second, and one in DEC the second before the first.
pub after-Explained :
    (c : Controller) (xs : List Step) (i : Side)
    → IsIdle c
    → Explained i xs (state_of (after c xs).status i)
after-Explained c xs i h = Run-Explained c (after c xs) xs i (after-Run c xs) h

-- One detector raises the count only if its passage is complete.
one-counts :
    (x : Step) (xs : List Step) (i : Side) (c : Controller) (st : Status)
    → Meets x i c st
    → Explained i xs (state_of c.status i)
    → ((detect_one x.0 (x.1).now (x.1).sensors i st).people_count ≤ st.people_count)
      ⊎ Passage (first_seen i) (second_seen i) (x ∷ xs)
one-counts x xs i c st m h = go (detect_one-Counts x.0 (x.1).now (x.1).sensors i st)
  where
    go :
        Counts x.0 (x.1).now i st (detect_one x.0 (x.1).now (x.1).sensors i st)
        → ((detect_one x.0 (x.1).now (x.1).sensors i st).people_count ≤ st.people_count)
          ⊎ Passage (first_seen i) (second_seen i) (x ∷ xs)
    go (same e t) = inl (omega arith)
    go (left a b d e t) = inl (omega arith)
    go (entered a b d e t) = inr (
        inl (
          sym m.sees_second ∙ b,
          subst (Explained i xs) (sym (ap (λ d. d.state) m.own_state) ∙ a) h,
        ))

-- Nobody more is counted, or somebody has passed one of the ends inwards.
abbrev CountExplained : Controller → Controller → List Step → Type 0
CountExplained c b xs =
    (b.status.people_count ≤ c.status.people_count)
    ⊎ (Passage (first_seen up) (second_seen up) xs
        ⊎ Passage (first_seen down) (second_seen down) xs)

-- One iteration more, by what its two detectors do.
iterate-CountExplained :
    (c b : Controller) (x : Step) (xs : List Step)
    → (iterate x.0 x.1 b).status.people_count ≤ (detected_down x b).people_count
    → (before_up x b).people_count ≡ b.status.people_count
    → ((before_down x b).people_count ≤ (before_up x b).people_count)
      ⊎ Passage (first_seen up) (second_seen up) (x ∷ xs)
    → ((detected_down x b).people_count ≤ (before_down x b).people_count)
      ⊎ Passage (first_seen down) (second_seen down) (x ∷ xs)
    → CountExplained c b xs
    → CountExplained c (iterate x.0 x.1 b) (x ∷ xs)
iterate-CountExplained c b x xs le e (inr p) _ _ = inr (inl p)
iterate-CountExplained c b x xs le e (inl a) (inr p) _ = inr (inr p)
iterate-CountExplained c b x xs le e (inl a) (inl d) (inr (inl p)) = inr (inl (inr p))
iterate-CountExplained c b x xs le e (inl a) (inl d) (inr (inr p)) = inr (inr (inr p))
iterate-CountExplained c b x xs le e (inl a) (inl d) (inl k) = inl (omega arith)

Run-CountExplained :
    (c b : Controller) (xs : List Step) → Run c xs b → IsIdle c → CountExplained c b xs
unfolding lit
Run-CountExplained c b xs start h = inl (omega arith)
Run-CountExplained c b xs (switched mode r) h = Run-CountExplained c _ xs r h
Run-CountExplained c _ _ (iterated {xs = xs} {b = b} x r) h =
    let (_, count, _) =
      light_block_frame x.0 (sense (x.1).now (x.1).ts (x.1).sensors (lit x b)).status in
    let (_, count') = sense_frame (x.1).now (x.1).ts (x.1).sensors (lit x b) in
    iterate-CountExplained c b x xs (iterate_lem x b).1 (count ∙ count')
      (one-counts x xs up b (before_up x b) (before_up-Meets x up b) (Run-Explained c b xs up r h))
      (one-counts x xs down b (before_down x b) (before_down-Meets x b)
        (Run-Explained c b xs down r h))
      (Run-CountExplained c b xs r h)

-- If more people are counted after a run, somebody has come in at one of the ends.
pub Run-Passage :
    (c b : Controller) (xs : List Step)
    → Run c xs b
    → IsIdle c
    → c.status.people_count < b.status.people_count
    → Passage (first_seen up) (second_seen up) xs ⊎ Passage (first_seen down) (second_seen down) xs
Run-Passage c b xs r h more = elim (Run-CountExplained c b xs r h) [
  | inl no_more ↦ absurd (omega arith)
  | inr passed ↦ passed
]

-- From idle detectors on, if more people are counted after some iterations than before them,
-- someone has come in: at one end of the stairs the first sensor was active in one iteration, and
-- the second one in a later one.
pub people_count-Passage :
    (c : Controller) (xs : List Step)
    → IsIdle c
    → c.status.people_count < (after c xs).status.people_count
    → Passage (first_seen up) (second_seen up) xs ⊎ Passage (first_seen down) (second_seen down) xs
people_count-Passage c xs h more = Run-Passage c (after c xs) xs (after-Run c xs) h more
