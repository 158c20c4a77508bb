-- ===== src/Controller/Button.antt =====
-- main.c: the reboot request, and the debounced BOOTSEL button that switches the access point.
use pico_stairway_controller.Base.{
  ℕ, suc, ◌+◌, ◌<◌, ◌≤◌, ◌≡◌, refl, arith, u64, sub64, ltb, leb, ◌!=◌, not, ◌&&◌, if◌then◌else◌,
  Bool, true, false, List, [], ◌∷◌, length, Bool-cases, inl, inr,
}
use pico_stairway_controller.Controller.{ButtonState}

-- The new reboot_ts.
unfoldable pub reboot_request : ℕ → ℕ → ℕ
reboot_request now delay_ms = u64 (now + delay_ms)

-- Whether this iteration calls watchdog_reboot.
unfoldable pub reboot_due : ℕ → ℕ → Bool
reboot_due reboot_ts ts = (reboot_ts != 0) && leb reboot_ts ts

abbrev pub button_poll_period : ℕ
button_poll_period = 500

abbrev pub button_debounce_cnt : ℕ
button_debounce_cnt = 3

-- `pressed` is get_bootsel_button(), read only when the poll is due; the result says whether the
-- press event is raised.
unfoldable pub button_poll : ℕ → Bool → ButtonState → ButtonState × Bool
button_poll ts pressed b =
    if ltb button_poll_period (sub64 ts b.prev_ts)
    then (if pressed
        then (if ltb b.debounce button_debounce_cnt
            then (record b { prev_ts = ts; debounce = b.debounce + 1 }, false)
            else if not b.state
            then (record { prev_ts = ts; state = true; debounce = 0 }, true)
            else (record b { prev_ts = ts }, false))
        else (record { prev_ts = ts; debounce = 0; state = false }, false))
    else (b, false)

-- The events of a run of polls: one reading of the button for each poll that is due.
abbrev pub Sample : Type 0
Sample = ℕ × Bool

pub count_presses : List Sample → ButtonState → ℕ
count_presses [] b = 0
count_presses ((ts, pressed) ∷ rest) b =
    let (b', event) = button_poll ts pressed b in
    if event then suc (count_presses rest b') else count_presses rest b'

-- Every poll is due and finds the button pressed.
abbrev pub AllPressed : ℕ → List Sample → Type 0
AllPressed prev [] = Unit
AllPressed prev ((ts, pressed) ∷ rest) =
    (button_poll_period < sub64 ts prev) × (pressed ≡ true) × AllPressed ts rest

count_presses_held :
    (samples : List Sample) (b : ButtonState)
    → AllPressed b.prev_ts samples
    → b.state ≡ true
    → count_presses samples b ≡ 0
unfolding count_presses button_poll
count_presses_held [] b all held = refl
count_presses_held ((ts, pressed) ∷ rest) b all held = elim (Bool-cases (ltb b.debounce 3)) [
  | inl low ↦ ground (
    arith,
    count_presses_held rest (record b { prev_ts = ts; debounce = b.debounce + 1 }) all.2 held,
  )
  | inr high ↦ ground (arith, count_presses_held rest (record b { prev_ts = ts }) all.2 held)
]

-- While the button is held, the press is reported once, at the fourth due poll: not before, and
-- never again until it is released.
pub count_presses_lem :
    (samples : List Sample) (b : ButtonState)
    → AllPressed b.prev_ts samples
    → b.state ≡ false
    → b.debounce ≤ button_debounce_cnt
    → count_presses samples b
      ≡ (if ltb button_debounce_cnt (length samples + b.debounce) then 1 else 0)
unfolding count_presses button_poll
count_presses_lem [] b all up few = ground arith
count_presses_lem ((ts, pressed) ∷ rest) b all up few = elim (Bool-cases (ltb b.debounce 3)) [
  | inl low ↦ ground (
    arith,
    count_presses_lem rest (record b { prev_ts = ts; debounce = b.debounce + 1 }) all.2 up
        (ground arith),
  )
  | inr high ↦ ground (
    arith,
    count_presses_held rest (record { prev_ts = ts; debounce = 0; state = true }) all.2 refl,
  )
]
