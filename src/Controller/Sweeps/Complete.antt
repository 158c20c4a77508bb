-- ===== src/Controller/Sweeps/Complete.antt =====
-- main.c: one run over the strip, from its start on.
use mathlib.Core.Path.{subst}
use pico_stairway_controller.Base.{
  ℕ, zero, suc, ◌+◌, ◌<◌, ◌≡◌, ◌∙◌, ap, sym, inl, inr, refl, arith, Bool, true, false, ltb, length,
  Bool-cases, if◌then◌else◌,
}
use pico_stairway_controller.Types.{Settings}
use pico_stairway_controller.Leds.{Leds, apply_event}
use pico_stairway_controller.Controller.{Sweep}
use pico_stairway_controller.Controller.Sweeps.{
  Position, from_first, from_last, advance, fill, tick, tick_on_up, tick_off_up, tick_on_down,
  tick_off_down,
}
use pico_stairway_controller.Controller.Sweeps.Run.{
  IsPosition, from_first-IsPosition, from_last-IsPosition, led_at, IsRun, IsFarther, advance-IsRun,
  fill-IsRun,
}

-- `k` ticks one after the other.
unfoldable pub ticks : (Sweep → Leds → Sweep × Leds) → ℕ → Sweep → Leds → Sweep × Leds
ticks f zero w l = (w, l)
ticks f (suc k) w l = let (w', l') = f w l in ticks f k w' l'

-- From the strip `l0`, every LED below `n` has got the event, and the run has ended.
pub record IsComplete (state : Bool) (ts n : ℕ) (l0 : Leds) (out : Sweep × Leds) : Type 0 where
  pub ended : out.0.on ≡ false
  pub rewound : out.0.cnt ≡ 0
  pub switched : (j : ℕ) → j < n → led_at out.1 j ≡ apply_event state ts (led_at l0 j)

module _ (pos : Position) (state filled : Bool) (emergency_cnt n : ℕ) (p : IsPosition pos n) where
  abbrev step : Sweep → Leds → Sweep × Leds
  step = tick pos state filled emergency_cnt n

  -- The run before the last advance of a tick.
  abbrev before : Bool → Sweep → Leds → Sweep × Leds
  before b w l = if b then fill pos state n emergency_cnt n w l else (w, l)

  filled-IsRun :
      (b : Bool) (l0 : Leds) (w : Sweep) (l : Leds)
      → w.cnt < n
      → IsRun pos state n p w.ts l0 w.cnt l
      → IsFarther pos state n p w (before b w l).0
        × IsRun pos state n p w.ts l0 (before b w l).0.cnt (before b w l).1
  filled-IsRun true l0 w l lt r = fill-IsRun pos state n p n emergency_cnt l0 w l lt r
  filled-IsRun false l0 w l lt r =
      (record { same_on = refl; same_ts = refl; farther = omega arith; below = lt }, r)

  step_open :
      (w : Sweep) (l : Leds)
      → w.on ≡ true
      → w.cnt < n
      → step w l ≡ advance pos state n (before filled w l).0 (before filled w l).1
  unfolding tick
  step_open w l on lt = ground arith

  advance_lem :
      (l0 : Leds) (w w' : Sweep) (l' : Leds)
      → w.on ≡ true
      → IsFarther pos state n p w w'
      → IsRun pos state n p w.ts l0 w'.cnt l'
      → ((advance pos state n w' l').0.on ≡ true)
        × ((advance pos state n w' l').0.ts ≡ w.ts)
        × (w.cnt < (advance pos state n w' l').0.cnt)
        × IsRun pos state n p w.ts l0
            (advance pos state n w' l').0.cnt
            (advance pos state n w' l').1
  advance_lem l0 w w' l' on f run =
      let moved =
        advance-IsRun pos state n p l0 w' l' f.below
          (subst (λ t. IsRun pos state n p t l0 w'.cnt l') (sym f.same_ts) run) in
      unfold advance in
      (
        f.same_on ∙ on,
        f.same_ts,
        omega (arith, f.farther),
        subst (λ t. IsRun pos state n p t l0 (w'.cnt + 1) (advance pos state n w' l').1) f.same_ts
            moved,
      )

  step-IsRun :
      (l0 : Leds) (w : Sweep) (l : Leds)
      → w.on ≡ true
      → w.cnt < n
      → IsRun pos state n p w.ts l0 w.cnt l
      → ((step w l).0.on ≡ true)
        × ((step w l).0.ts ≡ w.ts)
        × (w.cnt < (step w l).0.cnt)
        × IsRun pos state n p w.ts l0 (step w l).0.cnt (step w l).1
  step-IsRun l0 w l on lt r = rw (step_open w l on lt) (
      let (f, run) = filled-IsRun filled l0 w l lt r in
      advance_lem l0 w (before filled w l).0 (before filled w l).1 on f run)

  step_end :
      (w : Sweep) (l : Leds)
      → w.on ≡ true
      → w.cnt ≡ n
      → step w l ≡ (record w { cnt = 0; on = false }, l)
  unfolding tick
  step_end w l on e = ground arith

  step_off : (w : Sweep) (l : Leds) → w.on ≡ false → step w l ≡ (w, l)
  unfolding tick
  step_off w l off = ground arith

  ticks_off : (k : ℕ) (w : Sweep) (l : Leds) → w.on ≡ false → ticks step k w l ≡ (w, l)
  unfolding ticks
  ticks_off zero w l off = refl
  ticks_off (suc k) w l off =
      ap (λ (r : Sweep × Leds). ticks step k r.0 r.1) (step_off w l off) ∙ ticks_off k w l off

  IsRun-IsComplete :
      (l0 : Leds) (w : Sweep) (l : Leds)
      → IsRun pos state n p w.ts l0 n l
      → IsComplete state w.ts n l0 (record w { cnt = 0; on = false }, l)
  IsRun-IsComplete l0 w l r = record {
    ended = refl;
    rewound = refl;
    switched = λ j h.
        ap (led_at l) (sym (p.twice j h))
        ∙ r.done (pos n j) (p.below j h)
        ∙ ap (λ (i : ℕ). apply_event state w.ts (led_at l0 i)) (p.twice j h);
  }

  ticks-IsComplete :
      (k : ℕ) (l0 : Leds) (w : Sweep) (l : Leds)
      → n < k + w.cnt
      → w.on ≡ true
      → IsRun pos state n p w.ts l0 w.cnt l
      → IsComplete state w.ts n l0 (ticks step k w l)
  unfolding ticks
  ticks-IsComplete zero l0 w l enough on r = absurd (omega (arith, r.counted))
  ticks-IsComplete (suc k) l0 w l enough on r = elim (Bool-cases (ltb w.cnt n)) [
    | inl more ↦
        let (on', ts', farther, r') = step-IsRun l0 w l on (ground arith) r in
        let w' = (step w l).0 in
        subst (λ t. IsComplete state t n l0 (ticks step k w' (step w l).1)) ts'
          (ticks-IsComplete k l0 w' (step w l).1 (omega arith) on'
            (subst (λ t. IsRun pos state n p t l0 w'.cnt (step w l).1) (sym ts') r'))
    | inr last ↦
        let e : w.cnt ≡ n = ground (arith, r.counted) in
        let finished = IsRun-IsComplete l0 w l (subst (λ c. IsRun pos state n p w.ts l0 c l) e r) in
        subst (IsComplete state w.ts n l0)
          (sym (
            ap (λ (q : Sweep × Leds). ticks step k q.0 q.1) (step_end w l on e)
            ∙ ticks_off k (record w { cnt = 0; on = false }) l refl))
          finished
  ]

start-IsRun :
    (pos : Position) (state : Bool) (n : ℕ) (p : IsPosition pos n) (ts : ℕ) (l : Leds)
    → l.handler.led_count ≡ n
    → length l.buf ≡ n
    → IsRun pos state n p ts l 0 l
start-IsRun pos state n p ts l long sized = record {
  counted = omega arith;
  long = long;
  sized = sized;
  done = λ c h. absurd (omega arith);
  waiting = λ c h k. refl;
}

module _ (s : Settings) (w : Sweep) (l : Leds) (on : w.on ≡ true) (rewound : w.cnt ≡ 0)
    (long : l.handler.led_count ≡ s.led_count) (sized : length l.buf ≡ s.led_count) where
  run-IsComplete :
      (pos : Position) (state filled : Bool) (emergency_cnt : ℕ) (p : IsPosition pos s.led_count)
      → IsComplete state w.ts s.led_count l
          (ticks (tick pos state filled emergency_cnt s.led_count) (s.led_count + 1) w l)
  run-IsComplete pos state filled emergency_cnt p =
      ticks-IsComplete pos state filled emergency_cnt s.led_count p (s.led_count + 1) l w l
        (omega arith) on
        (subst (λ c. IsRun pos state s.led_count p w.ts l c l) (sym rewound)
          (start-IsRun pos state s.led_count p w.ts l long sized))

  -- On a strip of led_count LEDs, a run that was started from its first LED ends within led_count + 1 ticks, having given its
  -- event to every LED of the strip: "on" for the runs after somebody came in, with the emergency
  -- LEDs or without them, and "off" for the runs after the last one left.
  pub runs-IsComplete :
      IsComplete true w.ts s.led_count l (ticks (tick_on_up s) (s.led_count + 1) w l)
      × IsComplete true w.ts s.led_count l (ticks (tick_on_down s) (s.led_count + 1) w l)
      × IsComplete false w.ts s.led_count l (ticks (tick_off_up s) (s.led_count + 1) w l)
      × IsComplete false w.ts s.led_count l (ticks (tick_off_down s) (s.led_count + 1) w l)
  unfolding tick_on_up tick_on_down tick_off_up tick_off_down
  runs-IsComplete = (
    run-IsComplete from_last true s.use_emergency s.emergency_cnt.of_up
        (from_last-IsPosition s.led_count),
    run-IsComplete from_first true s.use_emergency s.emergency_cnt.of_down
        (from_first-IsPosition s.led_count),
    run-IsComplete from_first false false 0 (from_first-IsPosition s.led_count),
    run-IsComplete from_last false false 0 (from_last-IsPosition s.led_count),
  )
