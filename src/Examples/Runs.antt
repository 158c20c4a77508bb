-- ===== src/Examples/Runs.antt =====
-- The runs over the strip on concrete inputs.
use pico_stairway_controller.Base.{ℕ, ◌%◌, ◌^◌, ◌≡◌, refl, arith, Bool, true, false, List, [], ◌∷◌}
use pico_stairway_controller.Controller.{Sweep, ButtonState}
use pico_stairway_controller.Controller.Sweeps.{
  tick_on_up, tick_on_down, tick_off_up, tick_off_down,
}
use pico_stairway_controller.Controller.Sweeps.Complete.{ticks, IsComplete, runs-IsComplete}
use pico_stairway_controller.Clock.{
  booted, get_time_ms, IsReadAt, booted-IsReadAt, get_time_ms-tracks,
}
use pico_stairway_controller.Examples.{small, three}

abbrev run_on : Sweep
run_on = record { on = true; ts = 7; cnt = 0 }

runs-IsComplete_example :
    IsComplete true 7 3 three (ticks (tick_on_up small) 4 run_on three)
    × IsComplete true 7 3 three (ticks (tick_on_down small) 4 run_on three)
    × IsComplete false 7 3 three (ticks (tick_off_up small) 4 run_on three)
    × IsComplete false 7 3 three (ticks (tick_off_down small) 4 run_on three)
runs-IsComplete_example = runs-IsComplete small run_on three refl refl refl refl

abbrev midway : Sweep
midway = record { on = true; ts = 7; cnt = 2 }

abbrev released : ButtonState
released = record { prev_ts = 0; debounce = 0; state = false }

abbrev held : List (ℕ × Bool)
held = (600, true) ∷ (1200, true) ∷ (1800, true) ∷ (2400, true) ∷ (3000, true) ∷ []

get_time_ms-tracks_example :
    IsReadAt (get_time_ms (5000 % 2 ^ 32) booted).0 5000
    × ((get_time_ms (5000 % 2 ^ 32) booted).1 ≡ 5000 % 2 ^ 64)
get_time_ms-tracks_example =
    get_time_ms-tracks booted 0 5000 booted-IsReadAt (omega arith) (omega arith)
