-- ===== src/Examples/Strip.antt =====
-- The LEDs on concrete inputs.
use pico_stairway_controller.Base.{◌≡◌, inl, inr, refl, arith, true, false, [], ◌∷◌, get_or}
use pico_stairway_controller.Types.{Settings, ErrCode}
use pico_stairway_controller.Leds.{Leds, dark, refresh_all}
use pico_stairway_controller.Leds.Frame.{IsRefreshed, refresh_all-IsRefreshed}
use pico_stairway_controller.Leds.Order.{Event, set_states, set_states-newest}
use pico_stairway_controller.Examples.{small, three}

abbrev on_1 : Event
on_1 = record { index = 1; state = true; ts = 20 }

abbrev off_1 : Event
off_1 = record { index = 1; state = false; ts = 10 }

abbrev off_2 : Event
off_2 = record { index = 2; state = false; ts = 30 }

set_states-newest_example :
    ((get_or (set_states (off_2 ∷ on_1 ∷ off_1 ∷ []) three).buf 1 dark).state ≡ true)
    × ((get_or (set_states (off_2 ∷ on_1 ∷ off_1 ∷ []) three).buf 1 dark).ts ≡ 20)
set_states-newest_example =
    set_states-newest (off_2 ∷ []) (off_1 ∷ []) on_1 three (omega arith, omega arith)
      (inl (omega arith), tt) (inr (omega arith), tt) (omega arith)

refresh_all-IsRefreshed_example :
    (out : Leds) × (refresh_all small three ≡ (out, ErrCode.success)) × IsRefreshed small three out
refresh_all-IsRefreshed_example =
    refresh_all-IsRefreshed small three (0 ∷ 0 ∷ 0 ∷ []) refl refl refl

abbrev shorter : Settings
shorter = record small { led_count = 2 }
