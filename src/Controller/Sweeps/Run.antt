-- ===== src/Controller/Sweeps/Run.antt =====
-- main.c: one run over the strip, and the LEDs behind it.
use pico_stairway_controller.Base.{
  ℕ, zero, suc, ◌+◌, ◌-◌, ◌<◌, ◌≤◌, ◌≡◌, ◌≢◌, ◌∙◌, ap, sym, inl, inr, refl, arith, Bool, true,
  false, ltb, ◌&&◌, length, get_or, set, length-set, get_or-set_self, get_or-set_ne, Bool-cases,
  ◌==◌, ==_iff, if◌then◌else◌,
}
use pico_stairway_controller.Leds.{Leds, LedState, dark, apply_event, set_state}
use pico_stairway_controller.Controller.{Sweep}
use pico_stairway_controller.Controller.Sweeps.{Position, from_first, from_last, advance, fill}

-- The positions of the counts below `n` are the LEDs below `n`, each once.
pub record IsPosition (pos : Position) (n : ℕ) : Type 0 where
  pub below : (c : ℕ) → c < n → pos n c < n
  pub twice : (c : ℕ) → c < n → pos n (pos n c) ≡ c

pub from_first-IsPosition : (n : ℕ) → IsPosition from_first n
from_first-IsPosition n = record { below = λ c h. h; twice = λ c h. refl }

pub from_last-IsPosition : (n : ℕ) → IsPosition from_last n
from_last-IsPosition n = record { below = λ c h. omega arith; twice = λ c h. omega arith }

abbrev pub led_at : Leds → ℕ → LedState
led_at l i = get_or l.buf i dark

module _ (pos : Position) (state : Bool) (n : ℕ) (p : IsPosition pos n) where
  pos_ne : (c d : ℕ) → c < n → d < n → c ≢ d → pos n c ≢ pos n d
  pos_ne c d hc hd ne e = ne (sym (p.twice c hc) ∙ ap (pos n) e ∙ p.twice d hd)

  -- From the strip `l0`, the run with stamp `ts` has come to the count `cnt` on the strip `l`.
  pub record IsRun (ts : ℕ) (l0 : Leds) (cnt : ℕ) (l : Leds) : Type 0 where
    pub counted : cnt ≤ n
    pub long : l.handler.led_count ≡ n
    pub sized : length l.buf ≡ n
    pub done : (c : ℕ) → c < cnt → led_at l (pos n c) ≡ apply_event state ts (led_at l0 (pos n c))
    pub waiting : (c : ℕ) → cnt ≤ c → c < n → led_at l (pos n c) ≡ led_at l0 (pos n c)

  set_state_open :
      (i ts : ℕ) (l : Leds)
      → i < l.handler.led_count
      → (set_state i state ts l).0
        ≡ record l { buf = set l.buf i (apply_event state ts (led_at l i)) }
  unfolding set_state
  set_state_open i ts l h = ground arith

  pub advance-IsRun :
      (l0 : Leds) (w : Sweep) (l : Leds)
      → w.cnt < n
      → IsRun w.ts l0 w.cnt l
      → IsRun w.ts l0 (w.cnt + 1) (advance pos state n w l).1
  unfolding advance
  advance-IsRun l0 w l lt r =
      let i = pos n w.cnt in
      let v = apply_event state w.ts (led_at l i) in
      let in_range : i < n = p.below w.cnt lt in
      rw (set_state_open i w.ts l (omega arith)) (record {
        counted = omega arith;
        long = r.long;
        sized = length-set l.buf i v ∙ r.sized;
        done = λ c h. elim (Bool-cases (w.cnt == c)) [
          | inl here ↦ rw (← (==_iff w.cnt c).0 here) (
              get_or-set_self l.buf i v dark (omega arith)
              ∙ ap (apply_event state w.ts) (r.waiting w.cnt (omega arith) lt))
          | inr there ↦
              get_or-set_ne l.buf i (pos n c) v dark
                (pos_ne w.cnt c lt (omega arith) (λ e. ground arith))
              ∙ r.done c (ground arith)
        ];
        waiting = λ c h k.
            get_or-set_ne l.buf i (pos n c) v dark (pos_ne w.cnt c lt k (omega arith))
            ∙ r.waiting c (omega arith) k;
      })

  -- The run after some ticks of its inner loop: farther, with the same stamp, still on.
  pub record IsFarther (w w' : Sweep) : Type 0 where
    pub same_on : w'.on ≡ w.on
    pub same_ts : w'.ts ≡ w.ts
    pub farther : w.cnt ≤ w'.cnt
    pub below : w'.cnt < n

  pub fill-IsRun :
      (fuel emergency_cnt : ℕ) (l0 : Leds) (w : Sweep) (l : Leds)
      → w.cnt < n
      → IsRun w.ts l0 w.cnt l
      → IsFarther w (fill pos state fuel emergency_cnt n w l).0
        × IsRun w.ts l0
            (fill pos state fuel emergency_cnt n w l).0.cnt
            (fill pos state fuel emergency_cnt n w l).1
  unfolding fill advance
  fill-IsRun zero emergency_cnt l0 w l lt r =
      (record { same_on = refl; same_ts = refl; farther = omega arith; below = lt }, r)
  fill-IsRun (suc fuel) emergency_cnt l0 w l lt r =
      go (ltb w.cnt emergency_cnt && ltb w.cnt (n - 1)) (λ e. ground arith)
        (λ more. fill-IsRun fuel emergency_cnt l0 w1 l1 more (advance-IsRun l0 w l lt r))
    where
      w1 : Sweep
      w1 = record w { cnt = w.cnt + 1 }

      l1 : Leds
      l1 = (advance pos state n w l).1

      rest : Sweep × Leds
      rest = fill pos state fuel emergency_cnt n w1 l1

      go :
          (test : Bool)
          → (test ≡ true → w.cnt + 1 < n)
          → (w.cnt + 1 < n → IsFarther w1 rest.0 × IsRun w.ts l0 rest.0.cnt rest.1)
          → IsFarther w (if test then rest else (w, l)).0
            × IsRun w.ts l0 (if test then rest else (w, l)).0.cnt (if test then rest else (w, l)).1
      go false room ih =
          (record { same_on = refl; same_ts = refl; farther = omega arith; below = lt }, r)
      go true room ih =
          let (f, run) = ih (room refl) in
          (
            record {
              same_on = f.same_on;
              same_ts = f.same_ts;
              farther = omega (arith, f.farther);
              below = f.below;
            },
            run,
          )

  -- The inner loop has run to its end: its test fails on the result, so `n` rounds are enough.
  pub fill_done :
      (fuel emergency_cnt : ℕ) (w : Sweep) (l : Leds)
      → n ≤ fuel + w.cnt
      → let cnt = (fill pos state fuel emergency_cnt n w l).0.cnt in
        (ltb cnt emergency_cnt && ltb cnt (n - 1)) ≡ false
  unfolding fill advance
  fill_done zero emergency_cnt w l h = ground arith
  fill_done (suc fuel) emergency_cnt w l h = ground (
    arith,
    fill_done fuel emergency_cnt (record w { cnt = w.cnt + 1 }) (advance pos state n w l).1
        (omega arith),
  )
