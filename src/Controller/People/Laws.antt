-- ===== src/Controller/People/Laws.antt =====
-- main.c: the count of people and the four runs.
use pico_stairway_controller.Base.{
  ℕ, zero, suc, ◌+◌, ◌^◌, ◌<◌, ◌≤◌, ◌≡◌, ◌≢◌, ◌⊎◌, ◌∙◌, inl, inr, refl, arith, true, false, ◌||◌,
  sub64_exact, Bool-cases,
}
use pico_stairway_controller.Types.{up, down, inc, dec, Settings}
use pico_stairway_controller.Leds.{Leds}
use pico_stairway_controller.Leds.Order.{set_state-led_at_ne}
use pico_stairway_controller.Controller.{
  Controller, Sweep, Readings, led_on_stamp, led_off_stamp, timeout_elapsed,
}
use pico_stairway_controller.Controller.People.{request, people_changed, people_timeout}
use pico_stairway_controller.Controller.Sweeps.{tick, tick_off_up, advance}
use pico_stairway_controller.Controller.Sweeps.Run.{led_at}
use pico_stairway_controller.Controller.Sweeps.Complete.{ticks}

-- The run is under way with the stamp `t`, at the count that it had.
abbrev pub IsStarted : ℕ → Sweep → Sweep → Type 0
IsStarted t w w' = (w'.on ≡ true) × (w'.ts ≡ t) × (w'.cnt ≡ w.cnt)

abbrev pub NoneRuns : Controller → Type 0
NoneRuns c =
    (c.on_up.on ≡ false) × (c.on_down.on ≡ false) × (c.off_up.on ≡ false) × (c.off_down.on ≡ false)

-- Before leds_off_timeout has passed, or while a run is under way, or with nobody counted, the
-- timeout does nothing.
pub people_timeout_waits :
    (s : Settings) (now : Readings) (c : Controller)
    → (c.status.people_count ≡ 0)
      ⊎ (((c.on_up.on || c.on_down.on || c.off_up.on || c.off_down.on) ≡ true)
          ⊎ ((c.status.people_ts ≤ now timeout_elapsed)
              × (now timeout_elapsed ≤ c.status.people_ts + s.leds_off_timeout)
              × (now timeout_elapsed < 2 ^ 64)))
    → people_timeout s now c ≡ c
unfolding people_timeout
people_timeout_waits s now c (inl nobody) = ground arith
people_timeout_waits s now c (inr (inl running)) = ground arith
people_timeout_waits s now c (inr (inr (early, soon, fits))) =
    ground (arith, sub64_exact (now timeout_elapsed) c.status.people_ts early fits)

-- When the count has grown, each detector that is in INC starts the run that switches the lights
-- on from its end, unless that run has just reached its end; no run that switches off is started.
pub people_changed-entered :
    (s : Settings) (now : Readings) (c : Controller)
    → c.status.prev_people_count < c.status.people_count
    → let c' = people_changed s now c in
      ((c.status.detector.of_up).state ≡ inc
        → c.on_up.cnt ≢ s.led_count
        → IsStarted (now (led_on_stamp up)) c.on_up c'.on_up)
      × ((c.status.detector.of_down).state ≡ inc
          → c.on_down.cnt ≢ s.led_count
          → IsStarted (now (led_on_stamp down)) c.on_down c'.on_down)
      × (c'.off_up ≡ c.off_up)
      × (c'.off_down ≡ c.off_down)
      × (c'.status.prev_people_count ≡ c.status.people_count)
unfolding people_changed
people_changed-entered s now c more =
    (λ i ne. ground arith, λ i ne. ground arith, ground arith, ground arith, ground arith)

-- When the count has fallen, a run that switches the lights off is started only if nobody is
-- left, by a detector in DEC; the runs that switch on are left alone.
pub people_changed-left :
    (s : Settings) (now : Readings) (c : Controller)
    → c.status.people_count < c.status.prev_people_count
    → let c' = people_changed s now c in
      (c.status.people_count ≡ 0
        → (c.status.detector.of_up).state ≡ dec
        → c.off_up.cnt ≢ s.led_count
        → IsStarted (now (led_off_stamp up)) c.off_up c'.off_up)
      × (c.status.people_count ≡ 0
          → (c.status.detector.of_down).state ≡ dec
          → c.off_down.cnt ≢ s.led_count
          → IsStarted (now (led_off_stamp down)) c.off_down c'.off_down)
      × (c.status.people_count ≢ 0 → (c'.off_up ≡ c.off_up) × (c'.off_down ≡ c.off_down))
      × (c'.on_up ≡ c.on_up)
      × (c'.on_down ≡ c.on_down)
unfolding people_changed
people_changed-left s now c fewer =
    (λ z d ne. ground arith, λ z d ne. ground arith, λ nz. ground arith, ground arith, ground arith)

-- The LED `j` is behind the run, if it is under way.
abbrev Behind : ℕ → Sweep → Type 0
Behind j w = w.on ≡ true → j < w.cnt

tick-Behind :
    (s : Settings) (j : ℕ) (w : Sweep) (l : Leds)
    → Behind j w
    → Behind j (tick_off_up s w l).0 × (led_at (tick_off_up s w l).1 j ≡ led_at l j)
unfolding tick_off_up tick advance
tick-Behind s j w l h = elim (Bool-cases w.on) [
  | inl on ↦
      let before : j < w.cnt = h on in
      (λ on'. ground arith, ground (arith, set_state-led_at_ne w.cnt j w.ts false l (omega arith)))
  | inr off ↦ (λ on'. ground arith, ground arith)
]

ticks-Behind :
    (s : Settings) (k j : ℕ) (w : Sweep) (l : Leds)
    → Behind j w
    → led_at (ticks (tick_off_up s) k w l).1 j ≡ led_at l j
unfolding ticks
ticks-Behind s zero j w l h = refl
ticks-Behind s (suc k) j w l h =
    let (behind, same) = tick-Behind s j w l h in
    ticks-Behind s k j (tick_off_up s w l).0 (tick_off_up s w l).1 behind ∙ same

-- A run that is requested again before its end goes on from its count: however many ticks
-- follow, the LEDs behind it never get the new event. Those that somebody lit meanwhile stay lit.
pub request_behind :
    (s : Settings) (k j now : ℕ) (w : Sweep) (l : Leds)
    → j < w.cnt
    → led_at (ticks (tick_off_up s) k (request s.led_count now w) l).1 j ≡ led_at l j
unfolding request
request_behind s k j now w l behind =
    ticks-Behind s k j (request s.led_count now w) l (λ on. ground arith)
