-- ===== src/Controller/Emergency/Laws.antt =====
-- main.c: the two times of the emergency light, its confirmation and the block before it.
use mathlib.Core.Path.{subst}
use pico_stairway_controller.Base.{
  ℕ, ◌+◌, ◌^◌, ◌<◌, ◌≤◌, ◌≡◌, ◌≢◌, ◌⊎◌, ◌∙◌, ap, sym, inl, inr, arith, Bool, true, false, sub64,
  sub64_exact, sub64_wraps, List, [], ◌∷◌,
}
use pico_stairway_controller.Types.{
  Side, up, down, at_side, second_lock, Settings, Status, PerSide, at_sensor, up_first,
}
use pico_stairway_controller.Controller.{Controller, Readings, block_stamp}
use pico_stairway_controller.Controller.Emergency.{
  active_since, emergency_current, emergency_one, emergency, block_one, emergency_confirm_ms,
}

-- One iteration's time and whether the sensor was active, the newest first.
abbrev pub Sample : Type 0
Sample = ℕ × Bool

-- emergency_sensor_on_ts after these iterations.
unfoldable pub since : List Sample → ℕ
since [] = 0
since ((ts, current) ∷ xs) = active_since ts current (since xs)

-- Times do not fall, and are not 0.
abbrev pub NotAfter : ℕ → List Sample → Type 0
NotAfter t [] = Unit
NotAfter t ((ts, current) ∷ xs) = (ts ≤ t) × NotAfter t xs

abbrev pub IsOrdered : List Sample → Type 0
IsOrdered [] = Unit
IsOrdered ((ts, current) ∷ xs) = (0 < ts) × NotAfter ts xs × IsOrdered xs

-- Every sample later than `t` found the sensor active.
abbrev pub ActiveAfter : ℕ → List Sample → Type 0
ActiveAfter t [] = Unit
ActiveAfter t ((ts, current) ∷ xs) = (t < ts → current ≡ true) × ActiveAfter t xs

NotAfter-ActiveAfter : (t : ℕ) (xs : List Sample) → NotAfter t xs → ActiveAfter t xs
NotAfter-ActiveAfter t [] h = tt
NotAfter-ActiveAfter t ((ts, current) ∷ xs) h =
    (λ lt. absurd (omega arith), NotAfter-ActiveAfter t xs h.1)

active_since-cases :
    (ts : ℕ) (current : Bool) (on_ts : ℕ)
    → ((current ≡ false) × (active_since ts current on_ts ≡ 0))
      ⊎ (((current ≡ true) × (on_ts ≡ 0) × (active_since ts current on_ts ≡ ts))
          ⊎ ((current ≡ true) × (on_ts ≢ 0) × (active_since ts current on_ts ≡ on_ts)))
unfolding active_since
active_since-cases ts current on_ts = ground arith

since-ActiveAfter : (xs : List Sample) → IsOrdered xs → since xs ≢ 0 → ActiveAfter (since xs) xs
unfolding since
since-ActiveAfter [] o ne = tt
since-ActiveAfter ((ts, current) ∷ xs) o ne = elim (active_since-cases ts current (since xs)) [
  | inl off ↦ absurd (ne off.1)
  | inr (inl new) ↦
      subst (λ t. ActiveAfter t ((ts, current) ∷ xs)) (sym new.2)
        (λ lt. new.0, NotAfter-ActiveAfter ts xs o.1)
  | inr (inr old) ↦
      subst (λ t. ActiveAfter t ((ts, current) ∷ xs)) (sym old.2)
        (λ lt. old.0, since-ActiveAfter xs o.2 old.1)
]

-- The latest sample's time bounds the stamp.
since-le : (xs : List Sample) (t : ℕ) → NotAfter t xs → since xs ≤ t
unfolding since
since-le [] t h = omega arith
since-le ((ts, current) ∷ xs) t h =
    omega (arith, since-le xs t h.1, active_since-cases ts current (since xs))

abbrev on_ts : ℕ → Side → Controller → ℕ
on_ts ts i c = active_since ts (emergency_current c i) (at_side c.emergency_sensor_on_ts i)

turned_on :
    (s : Settings) (ts : ℕ) (i : Side) (c : Controller)
    → at_side c.emergency_on i ≡ false
    → at_side (emergency_one s ts i c).emergency_on i ≡ true
    → (emergency_current c i ≡ true)
      × (c.status.block_by_light ≡ false)
      × (s.use_emergency ≡ true)
      × (150 ≤ sub64 ts (on_ts ts i c))
      × (s.emergency_block_ms < sub64 ts (at_side c.detector_block_ts i))
unfolding emergency_one
turned_on s ts up c off on = ground arith
turned_on s ts down c off on = ground arith

-- An emergency light comes on only if emergencies are enabled, no daylight blocks the stairs, and
-- the first sensor of its end was active in every iteration of the last 150 ms and for longer.
pub emergency_on-confirmed :
    (s : Settings) (ts : ℕ) (i : Side) (c : Controller) (xs : List Sample)
    → IsOrdered ((ts, emergency_current c i) ∷ xs)
    → ts < 2 ^ 64
    → at_side c.emergency_sensor_on_ts i ≡ since xs
    → at_side c.emergency_on i ≡ false
    → at_side (emergency_one s ts i c).emergency_on i ≡ true
    → (s.use_emergency ≡ true)
      × (c.status.block_by_light ≡ false)
      × ((t : ℕ) × (t + emergency_confirm_ms ≤ ts)
          × ActiveAfter t ((ts, emergency_current c i) ∷ xs))
unfolding since
emergency_on-confirmed s ts i c xs o fits e off on =
    let (current, free, enabled, long, _) = turned_on s ts i c off on in
    let here : on_ts ts i c ≡ since ((ts, emergency_current c i) ∷ xs) =
      ap (active_since ts (emergency_current c i)) e in
    let low : on_ts ts i c ≤ ts =
      rw here (since-le ((ts, emergency_current c i) ∷ xs) ts (omega arith, o.1)) in
    let exact = sub64_exact ts (on_ts ts i c) low fits in
    let cases =
      active_since-cases ts (emergency_current c i) (at_side c.emergency_sensor_on_ts i) in
    let nonzero : on_ts ts i c ≢ 0 = λ z. elim cases [
      | inl no_sensor ↦ cc
      | inr (inl new) ↦ omega arith
      | inr (inr old) ↦ old.1 (sym old.2 ∙ z)
    ] in
    (
      enabled,
      free,
      (
        on_ts ts i c,
        omega arith,
        subst (λ t. ActiveAfter t ((ts, emergency_current c i) ∷ xs)) (sym here)
            (since-ActiveAfter ((ts, emergency_current c i) ∷ xs) o (λ z. nonzero (here ∙ z))),
      ),
    )

-- While the stamp of the block is not later than the iteration's time and not older than
-- emergency_block_ms, no emergency light comes on at that end.
pub emergency_one-blocked :
    (s : Settings) (ts : ℕ) (i : Side) (c : Controller)
    → ts < 2 ^ 64
    → at_side c.detector_block_ts i ≤ ts
    → ts ≤ at_side c.detector_block_ts i + s.emergency_block_ms
    → at_side (emergency_one s ts i c).emergency_on i ≡ at_side c.emergency_on i
unfolding emergency_one
emergency_one-blocked s ts up c fits low high =
    ground (arith, sub64_exact ts c.detector_block_ts.of_up low fits)
emergency_one-blocked s ts down c fits low high =
    ground (arith, sub64_exact ts c.detector_block_ts.of_down low fits)

emergency_one_down-keeps :
    (s : Settings) (ts : ℕ) (c : Controller)
    → (emergency_one s ts down c).emergency_on.of_up ≡ c.emergency_on.of_up
unfolding emergency_one
emergency_one_down-keeps s ts c = ground arith

block_one_up :
    (now : Readings) (c : Controller)
    → (c.status.detector.of_up).state ≡ second_lock
    → (block_one now up c).detector_block_ts.of_up ≡ now (block_stamp up)
unfolding block_one
block_one_up now c lock = ground arith

-- What the upper end's emergency reads is left alone by the stamping of a block, but the stamp.
block_one_frame :
    (now : Readings) (i : Side) (c : Controller)
    → ((block_one now i c).status ≡ c.status)
      × ((block_one now i c).emergency_sensor_on_ts ≡ c.emergency_sensor_on_ts)
unfolding block_one
block_one_frame now i c = ground arith

block_one_down-keeps :
    (now : Readings) (c : Controller)
    → (block_one now down c).detector_block_ts.of_up ≡ c.detector_block_ts.of_up
unfolding block_one
block_one_down-keeps now c = ground arith

turn_on_up :
    (s : Settings) (ts : ℕ) (c : Controller)
    → emergency_current c up ≡ true
    → c.status.block_by_light ≡ false
    → s.use_emergency ≡ true
    → c.emergency_sensor_on_ts.of_up ≢ 0
    → 150 ≤ sub64 ts c.emergency_sensor_on_ts.of_up
    → s.emergency_block_ms < sub64 ts c.detector_block_ts.of_up
    → (emergency_one s ts up c).emergency_on.of_up ≡ true
unfolding emergency_one
turn_on_up s ts c current free enabled nz long wrapped = ground arith

-- The block is stamped with a reading of the clock that is later than `ts`. If a millisecond has
-- passed between the two, the difference wraps, and the emergency light at the upper end comes on
-- although its detector is in SECOND_LOCK in this very iteration, whatever emergency_block_ms is.
pub emergency-unblocked :
    (s : Settings) (now : Readings) (ts : ℕ) (c : Controller)
    → (c.status.detector.of_up).state ≡ second_lock
    → emergency_current c up ≡ true
    → c.status.block_by_light ≡ false
    → s.use_emergency ≡ true
    → s.emergency_block_ms < 2 ^ 32
    → c.emergency_sensor_on_ts.of_up ≢ 0
    → c.emergency_sensor_on_ts.of_up + emergency_confirm_ms ≤ ts
    → ts < now (block_stamp up)
    → now (block_stamp up) < ts + 2 ^ 32
    → ts < 2 ^ 63
    → (emergency s now ts c).emergency_on.of_up ≡ true
unfolding emergency
emergency-unblocked s now ts c lock current free enabled small nz long later near fits =
    let c1 = block_one now up c in
    let c2 = block_one now down c1 in
    let (same1, since1) = block_one_frame now up c in
    let (same2, since2) = block_one_frame now down c1 in
    let stamped = block_one_down-keeps now c1 ∙ block_one_up now c lock in
    let status = same2 ∙ same1 in
    let since_same = ap (λ (p : PerSide ℕ). p.of_up) (since2 ∙ since1) in
    emergency_one_down-keeps s ts (emergency_one s ts up c2)
    ∙ turn_on_up s ts c2
        (ap (λ (st : Status). (at_sensor st.sensor_state up_first).current) status ∙ current)
        (ap (λ (st : Status). st.block_by_light) status ∙ free) enabled
        (λ z. nz (sym since_same ∙ z))
        (omega (
          arith,
          ap (sub64 ts) since_same,
          sub64_exact ts c.emergency_sensor_on_ts.of_up (omega arith) (omega arith),
        ))
        (omega
          (arith, ap (sub64 ts) stamped, sub64_wraps ts (now (block_stamp up)) later (omega arith)))
