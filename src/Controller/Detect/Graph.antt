-- ===== src/Controller/Detect/Graph.antt =====
-- main.c: the transition diagram of one detector, and the count beside it.
use pico_stairway_controller.Base.{
  ◌+◌, ◌≡◌, ◌⊎◌, inl, inr, refl, arith, Bool, true, false, if◌then◌else◌,
}
use pico_stairway_controller.Types.{
  Side, up, down, at_side, DetectorState, idle, first_lock, second_lock, inc, dec, Status,
  StairwaySensorsGet, Settings,
}
use pico_stairway_controller.Controller.{Readings, detector_stamp, detector_blocked}
use pico_stairway_controller.Controller.Detect.{
  first_current, second_current, settled, put_detector, detect_one, detect_switch,
}

-- The diagram: what the two sensors must show, and whether the detector has been in its state
-- for longer than the debounce time. `stay` is an iteration without a change.
pub data Edge (first second settled : Bool) : DetectorState → DetectorState → Type 0 where
  stay : {d : DetectorState} → Edge first second settled d d
  lock_first : first ≡ true → Edge first second settled idle first_lock
  lock_second : first ≡ false → second ≡ true → Edge first second settled idle second_lock
  unlock_first : first ≡ false → settled ≡ true → Edge first second settled first_lock idle
  unlock_second : second ≡ false → settled ≡ true → Edge first second settled second_lock idle
  enter : second ≡ true → Edge first second settled first_lock inc
  leave : first ≡ true → Edge first second settled second_lock dec
  clear_inc : first ≡ false → second ≡ false → settled ≡ true → Edge first second settled inc idle
  clear_dec : first ≡ false → second ≡ false → settled ≡ true → Edge first second settled dec idle

abbrev pub state_of : Status → Side → DetectorState
state_of st i = (at_side st.detector i).state

-- The other detector.
abbrev pub other : Side → Side
other up = down
other down = up

ruleset edges =
    (stay, lock_first, lock_second, unlock_first, unlock_second, enter, leave, clear_inc, clear_dec)

module _ (s : Settings) (now : Readings) where
  detect_switch-Edge :
      (i : Side) (st : Status) (d : DetectorState)
      → state_of st i ≡ d
      → Edge
          (first_current s now i st)
          (second_current s now i st)
          (settled s now i st)
          d
          (state_of (detect_switch s now i st d) i)
  unfolding detect_switch
  detect_switch-Edge up st idle e = grind (arith, edges)
  detect_switch-Edge up st _ e = grind (arith, edges)
  detect_switch-Edge down st idle e = grind (arith, edges)
  detect_switch-Edge down st _ e = grind (arith, edges)

  -- The body of detect_one, by its two tests.
  abbrev body : Side → Status → Bool → Bool → Status
  body i st blocked faulty =
      if blocked
      then put_detector st i idle (now (detector_blocked i))
      else if faulty
      then st
      else detect_switch s now i st (at_side st.detector i).state

  block-Edge :
      (i : Side) (st : Status) (blocked faulty : Bool)
      → st.block_by_light ≡ blocked
      → ((st.block_by_light ≡ true) × (state_of (body i st blocked faulty) i ≡ idle))
        ⊎ ((st.block_by_light ≡ false)
            × Edge
                (first_current s now i st)
                (second_current s now i st)
                (settled s now i st)
                (state_of st i)
                (state_of (body i st blocked faulty) i))
  block-Edge up st true faulty e = inl (e, refl)
  block-Edge down st true faulty e = inl (e, refl)
  block-Edge i st false true e = inr (e, stay)
  block-Edge i st false false e = inr (e, detect_switch-Edge i st (state_of st i) refl)

  -- Not blocked by light, a detector moves along an edge of the diagram; blocked, it is idle.
  pub detect_one-Edge :
      (g : StairwaySensorsGet) (i : Side) (st : Status)
      → ((st.block_by_light ≡ true) × (state_of (detect_one s now g i st) i ≡ idle))
        ⊎ ((st.block_by_light ≡ false)
            × Edge
                (first_current s now i st)
                (second_current s now i st)
                (settled s now i st)
                (state_of st i)
                (state_of (detect_one s now g i st) i))
  unfolding detect_one
  detect_one-Edge g up st = block-Edge up st st.block_by_light _ refl
  detect_one-Edge g down st = block-Edge down st st.block_by_light _ refl

  -- What the switch does to the count.
  pub data Counts (i : Side) (st out : Status) : Type 0 where
    same : out.people_count ≡ st.people_count → out.people_ts ≡ st.people_ts → Counts i st out
    entered :
        state_of st i ≡ first_lock
        → second_current s now i st ≡ true
        → state_of out i ≡ inc
        → out.people_count ≡ st.people_count + 1
        → out.people_ts ≡ now (detector_stamp i)
        → Counts i st out
    left :
        state_of st i ≡ second_lock
        → first_current s now i st ≡ true
        → state_of out i ≡ dec
        → st.people_count ≡ out.people_count + 1
        → out.people_ts ≡ now (detector_stamp i)
        → Counts i st out

  detect_switch-Counts :
      (i : Side) (st : Status) (d : DetectorState)
      → state_of st i ≡ d
      → Counts i st (detect_switch s now i st d)
  unfolding detect_switch
  detect_switch-Counts up st idle e = grind (arith, same, entered, left)
  detect_switch-Counts up st _ e = grind (arith, same, entered, left)
  detect_switch-Counts down st idle e = grind (arith, same, entered, left)
  detect_switch-Counts down st _ e = grind (arith, same, entered, left)

  block-Counts :
      (i : Side) (st : Status) (blocked faulty : Bool) → Counts i st (body i st blocked faulty)
  block-Counts i st true faulty = same refl refl
  block-Counts i st false true = same refl refl
  block-Counts i st false false = detect_switch-Counts i st (state_of st i) refl

  -- A body of the detector loop raises the count only on the way from FIRST_LOCK to INC, with
  -- the second sensor active, lowers it only on the way from SECOND_LOCK to DEC, with the first
  -- one active, by one person at a time; it stamps the change, and changes the stamp only then.
  pub detect_one-Counts :
      (g : StairwaySensorsGet) (i : Side) (st : Status) → Counts i st (detect_one s now g i st)
  unfolding detect_one
  detect_one-Counts g i st = block-Counts i st st.block_by_light _

  -- The other detector, and all that is not the detectors' or the count's, are left alone.
  pub detect_one_frame :
      (g : StairwaySensorsGet) (i : Side) (st : Status)
      → (at_side (detect_one s now g i st).detector (other i) ≡ at_side st.detector (other i))
        × ((detect_one s now g i st).sensor_state ≡ st.sensor_state)
        × ((detect_one s now g i st).block_by_light ≡ st.block_by_light)
        × ((detect_one s now g i st).prev_people_count ≡ st.prev_people_count)
  unfolding detect_one
  detect_one_frame g up st = ground arith
  detect_one_frame g down st = ground arith
