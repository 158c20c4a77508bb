-- ===== src/Controller/People/Dark.antt =====
-- main.c: the strip after the timeout, through the runs that follow it.
use pico_stairway_controller.Base.{
  ℕ, zero, suc, ◌+◌, ◌^◌, ◌<◌, ◌≡◌, refl, arith, true, false, length, sub64_exact, if◌then◌else◌,
}
use pico_stairway_controller.Types.{Side, up, down, Settings}
use pico_stairway_controller.Leds.{LedState, apply_event}
use pico_stairway_controller.Controller.{
  Controller, Sweep, Readings, timeout_elapsed, timeout_stamp,
}
use pico_stairway_controller.Controller.People.{people_timeout, timeout_due, start, is_up}
use pico_stairway_controller.Controller.People.Laws.{NoneRuns}
use pico_stairway_controller.Controller.Sweeps.{
  tick, tick_on_up, tick_off_up, tick_on_down, tick_off_down, sweeps,
}
use pico_stairway_controller.Controller.Sweeps.Run.{led_at}
use pico_stairway_controller.Controller.Sweeps.Complete.{ticks, runs-IsComplete}

-- The four runs, `k` ticks one after the other.
pub sweeps_times : ℕ → Settings → Controller → Controller
sweeps_times zero s c = c
sweeps_times (suc k) s c = sweeps_times k s (sweeps s c)

-- At the most the run that switches off from the lower end is under way.
abbrev OnlyDown : Controller → Type 0
OnlyDown c = (c.on_up.on ≡ false) × (c.on_down.on ≡ false) × (c.off_up.on ≡ false)

abbrev OnlyUp : Controller → Type 0
OnlyUp c = (c.on_up.on ≡ false) × (c.on_down.on ≡ false) × (c.off_down.on ≡ false)

sweeps_down :
    (s : Settings) (c : Controller)
    → OnlyDown c
    → let (w, l) = tick_off_down s c.off_down c.leds in
      sweeps s c ≡ record c { off_down = w; leds = l }
unfolding sweeps tick_on_up tick_off_up tick_on_down tick
sweeps_down s c only = rw (only.0, only.1, only.2) refl

sweeps_up :
    (s : Settings) (c : Controller)
    → OnlyUp c
    → let (w, l) = tick_off_up s c.off_up c.leds in sweeps s c ≡ record c { off_up = w; leds = l }
unfolding sweeps tick_on_up tick_on_down tick_off_down tick
sweeps_up s c only = rw (only.0, only.1, only.2) refl

sweeps_times-down :
    (k : ℕ) (s : Settings) (c : Controller)
    → OnlyDown c
    → let (w, l) = ticks (tick_off_down s) k c.off_down c.leds in
      sweeps_times k s c ≡ record c { off_down = w; leds = l }
unfolding ticks sweeps_times
sweeps_times-down zero s c only = refl
sweeps_times-down (suc k) s c only =
    let (w, l) = tick_off_down s c.off_down c.leds in
    rw (sweeps_down s c only) (sweeps_times-down k s (record c { off_down = w; leds = l }) only)

sweeps_times-up :
    (k : ℕ) (s : Settings) (c : Controller)
    → OnlyUp c
    → let (w, l) = ticks (tick_off_up s) k c.off_up c.leds in
      sweeps_times k s c ≡ record c { off_up = w; leds = l }
unfolding ticks sweeps_times
sweeps_times-up zero s c only = refl
sweeps_times-up (suc k) s c only =
    let (w, l) = tick_off_up s c.off_up c.leds in
    rw (sweeps_up s c only) (sweeps_times-up k s (record c { off_up = w; leds = l }) only)

apply_event_newer :
    (t : ℕ) (led : LedState)
    → led.ts < t
    → ((apply_event false t led).state ≡ false) × ((apply_event false t led).ts ≡ t)
unfolding apply_event
apply_event_newer t led older = (ground arith, ground arith)

is_due :
    (s : Settings) (now : Readings) (c : Controller)
    → 0 < c.status.people_count
    → NoneRuns c
    → c.status.people_ts + s.leds_off_timeout < now timeout_elapsed
    → now timeout_elapsed < 2 ^ 64
    → timeout_due s now c ≡ true
unfolding timeout_due
is_due s now c some_in none late fits =
    ground (arith, sub64_exact (now timeout_elapsed) c.status.people_ts (omega arith) fits)

-- Nobody is counted, no run is under way, and the LED `j` is switched off with the stamp `t`.
abbrev pub IsDark : ℕ → ℕ → Controller → Type 0
IsDark j t c =
    (c.status.people_count ≡ 0)
    × NoneRuns c
    × ((led_at c.leds j).state ≡ false)
    × ((led_at c.leds j).ts ≡ t)

-- The run from one end, as the timeout starts it.
module _ (s : Settings) (now : Readings) (c : Controller) (none : NoneRuns c)
    (rewound : (c.off_up.cnt ≡ 0) × (c.off_down.cnt ≡ 0))
    (long : c.leds.handler.led_count ≡ s.led_count) (sized : length c.leds.buf ≡ s.led_count)
    (j : ℕ) (inside : j < s.led_count) (older : (led_at c.leds j).ts < now timeout_stamp) where
  abbrev timed_out : Controller
  timed_out = record c { status = record (c.status) { prev_people_count = 0; people_count = 0 } }

  started_down : IsDark j (now timeout_stamp) (
      sweeps_times
        (s.led_count + 1)
        s
        (record timed_out { off_down = start (now timeout_stamp) c.off_down }))
  started_down =
      let w : Sweep = start (now timeout_stamp) c.off_down in
      let run = (runs-IsComplete s w c.leds refl rewound.1 long sized).3 in
      let newer = apply_event_newer (now timeout_stamp) (led_at c.leds j) older in
      rw
        (
          sweeps_times-down (s.led_count + 1) s (record timed_out { off_down = w })
              (none.0, none.1, none.2),
          run.switched j inside,
        )
        (refl, (none.0, none.1, none.2, run.ended), newer.0, newer.1)

  started_up : IsDark j (now timeout_stamp) (
      sweeps_times
        (s.led_count + 1)
        s
        (record timed_out { off_up = start (now timeout_stamp) c.off_up }))
  started_up =
      let w : Sweep = start (now timeout_stamp) c.off_up in
      let run = (runs-IsComplete s w c.leds refl rewound.0 long sized).2 in
      let newer = apply_event_newer (now timeout_stamp) (led_at c.leds j) older in
      rw
        (
          sweeps_times-up (s.led_count + 1) s (record timed_out { off_up = w })
              (none.0, none.1, none.3),
          run.switched j inside,
        )
        (refl, (none.0, none.1, run.ended, none.3), newer.0, newer.1)

  -- Where somebody is counted, no run is under way, those that switch off stand at their first
  -- LED, the strip has the length of the settings, and the clock is below 2 ^ 64: once nobody has
  -- passed for longer than leds_off_timeout, the timeout and the led_count + 1 ticks of the runs
  -- after it leave nobody counted, no run under way, and each LED off, with the timeout's stamp,
  -- whose last event is older than that stamp.
  pub people_timeout-IsDark :
      0 < c.status.people_count
      → c.status.people_ts + s.leds_off_timeout < now timeout_elapsed
      → now timeout_elapsed < 2 ^ 64
      → IsDark j (now timeout_stamp) (sweeps_times (s.led_count + 1) s (people_timeout s now c))
  unfolding people_timeout
  people_timeout-IsDark some_in late fits =
      rw (is_due s now c some_in none late fits) (from_end c.last_det)
    where
      from_end :
          (last : Side)
          → IsDark j (now timeout_stamp) (
              sweeps_times (s.led_count + 1) s (record timed_out {
                off_down = if is_up last then start (now timeout_stamp) c.off_down else c.off_down;
                off_up = if is_up last then c.off_up else start (now timeout_stamp) c.off_up;
              }))
      from_end up = started_down
      from_end down = started_up
