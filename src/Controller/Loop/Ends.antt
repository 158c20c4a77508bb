-- ===== src/Controller/Loop/Ends.antt =====
-- main.c: the detector of one end of the stairs in an iteration of the main loop.
use pico_stairway_controller.Base.{ℕ, ◌≡◌, ◌∙◌, ap, refl, arith, ◌&&◌, true, false}
use pico_stairway_controller.Types.{
  Side, up, down, at_sensor, first_sensor, second_sensor, Settings, Status, StairwaySensorsGet,
}
use pico_stairway_controller.Controller.{Controller, Readings}
use pico_stairway_controller.Controller.Sense.{sense, sense_one, light_block}
use pico_stairway_controller.Controller.Detect.{first_current, second_current, detect_one}
use pico_stairway_controller.Controller.Detect.Graph.{
  state_of, Counts, same, entered, left, detect_one-Counts, detect_one_frame,
}
use pico_stairway_controller.Controller.Loop.{iterate}
use pico_stairway_controller.Controller.Loop.Stages.{sense_frame, light_block_frame}
use pico_stairway_controller.Controller.Loop.Steps.{
  Step, first_seen, second_seen, Meets, before_up, before_down, before_up-Meets, before_down-Meets,
  iterate_lem, lit,
}

-- The sensors of the end answer without an error, and daylight does not block the stairs.
abbrev pub IsClear : Side → Step → Type 0
IsClear i x =
    (((x.1).light_state && (x.0).use_light_sensor) ≡ false)
    × (at_sensor (x.1).sensors.error (first_sensor i) ≡ false)
    × (at_sensor (x.1).sensors.error (second_sensor i) ≡ false)

-- What one detector meets that is neither blocked nor faulty.
pub record IsFree (x : Step) (i : Side) (st : Status) : Type 0 where
  pub unblocked : st.block_by_light ≡ false
  pub first_works : at_sensor (x.1).sensors.error (first_sensor i) ≡ false
  pub second_works : at_sensor (x.1).sensors.error (second_sensor i) ≡ false

-- The status that the detector of an end starts from.
abbrev pub before : Side → Step → Controller → Status
before up x c = before_up x c
before down x c = before_down x c

pub before-Meets : (i : Side) (x : Step) (c : Controller) → Meets x i c (before i x c)
before-Meets up x c = before_up-Meets x up c
before-Meets down x c = before_down-Meets x c

light_block-unblocked :
    (s : Settings) (st : Status)
    → (st.light_state && s.use_light_sensor) ≡ false
    → (light_block s st).block_by_light ≡ false
unfolding light_block
light_block-unblocked s st dark = ground arith

sense-light_state :
    (now : Readings) (ts : ℕ) (g : StairwaySensorsGet) (c : Controller)
    → (sense now ts g c).status.light_state ≡ c.status.light_state
unfolding sense sense_one
sense-light_state now ts g c = refl

before_up-unblocked :
    (x : Step) (c : Controller)
    → ((x.1).light_state && (x.0).use_light_sensor) ≡ false
    → (before_up x c).block_by_light ≡ false
before_up-unblocked x c dark = light_block-unblocked x.0 _ (
    ap (λ b. b && (x.0).use_light_sensor) (sense-light_state (x.1).now (x.1).ts (x.1).sensors _)
    ∙ dark)

pub before-IsFree : (i : Side) (x : Step) (c : Controller) → IsClear i x → IsFree x i (before i x c)
before-IsFree up x c clear = record {
  unblocked = before_up-unblocked x c clear.0;
  first_works = clear.1;
  second_works = clear.2;
}
before-IsFree down x c clear =
    let (_, _, kept, _) = detect_one_frame x.0 (x.1).now (x.1).sensors up (before_up x c) in
    record {
      unblocked = kept ∙ before_up-unblocked x c clear.0;
      first_works = clear.1;
      second_works = clear.2;
    }

pub iterate-state :
    (i : Side) (x : Step) (c : Controller)
    → state_of (iterate x.0 x.1 c).status i
      ≡ state_of (detect_one x.0 (x.1).now (x.1).sensors i (before i x c)) i
iterate-state up x c =
    let (kept, _, _, _) = detect_one_frame x.0 (x.1).now (x.1).sensors down (before_down x c) in
    ap (λ d. (d.of_up).state) (iterate_lem x c).0 ∙ ap (λ d. d.state) kept
iterate-state down x c = ap (λ d. (d.of_down).state) (iterate_lem x c).0

-- Both sensors of the end are active.
abbrev pub AtBoth : Side → Step → Type 0
AtBoth i x = IsClear i x × (first_seen i x ≡ true) × (second_seen i x ≡ true)

-- Nothing is active at the end.
abbrev pub IsQuiet : Side → Step → Type 0
IsQuiet i x = (first_seen i x ≡ false) × (second_seen i x ≡ false)

quiet-same :
    (x : Step) (i : Side) (st : Status)
    → first_current x.0 (x.1).now i st ≡ false
    → second_current x.0 (x.1).now i st ≡ false
    → let out = detect_one x.0 (x.1).now (x.1).sensors i st in
      (out.people_count ≡ st.people_count) × (out.people_ts ≡ st.people_ts)
quiet-same x i st first second = by_counts (detect_one-Counts x.0 (x.1).now (x.1).sensors i st)
  where
    by_counts :
        Counts x.0 (x.1).now i st (detect_one x.0 (x.1).now (x.1).sensors i st)
        → let out = detect_one x.0 (x.1).now (x.1).sensors i st in
          (out.people_count ≡ st.people_count) × (out.people_ts ≡ st.people_ts)
    by_counts (same count stamp) = (count, stamp)
    by_counts (entered a b d e t) = absurd (ground arith)
    by_counts (left a b d e t) = absurd (ground arith)

pub before_up-people_count :
    (x : Step) (c : Controller) → (before_up x c).people_count ≡ c.status.people_count
unfolding lit
before_up-people_count x c =
    let after_sense = sense (x.1).now (x.1).ts (x.1).sensors (lit x c) in
    let (_, count, _) = light_block_frame x.0 after_sense.status in
    count ∙ (sense_frame (x.1).now (x.1).ts (x.1).sensors (lit x c)).1

pub before_other-quiet :
    (i : Side) (x : Step) (c : Controller)
    → IsQuiet i x
    → let out = detect_one x.0 (x.1).now (x.1).sensors i (before i x c) in
      (out.people_count ≡ (before i x c).people_count) × (out.people_ts ≡ (before i x c).people_ts)
before_other-quiet i x c quiet =
    let m = before-Meets i x c in
    quiet-same x i (before i x c) (m.sees_first ∙ quiet.0) (m.sees_second ∙ quiet.1)
