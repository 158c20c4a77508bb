-- ===== src/Leds/Fade.antt =====
-- stairway/stairway_leds.c: the fading of one LED in stairway_leds_refresh.
use pico_stairway_controller.Base.{
  ℕ, zero, suc, ◌+◌, ◌-◌, ◌*◌, ◌<◌, ◌≤◌, ◌≡◌, ◌⊎◌, ◌∙◌, ap, inl, inr, arith, Bool, true, false, u32,
}
use pico_stairway_controller.Types.{Settings, PerSide}
use pico_stairway_controller.Leds.{LedState, fade, raising, raise, lower}

-- `n` rounds of the refresh loop for the LED at `i`, under settings and emergencies that stay.
pub fades : ℕ → Settings → PerSide Bool → ℕ → ℕ → LedState → LedState
fades zero s em led_count i led = led
fades (suc n) s em led_count i led = fades n s em led_count i (fade s em led_count i led).0

fade_lit :
    (s : Settings) (em : PerSide Bool) (led_count i : ℕ) (led : LedState)
    → led.state ≡ true
    → ((fade s em led_count i led).0.state ≡ true)
      × ((fade s em led_count i led).0.ts ≡ led.ts)
      × (((fade s em led_count i led).0.led_value ≡ raise s led.led_value)
          ⊎ ((led.led_value ≡ s.led_on_value)
              × ((fade s em led_count i led).0.led_value ≡ s.led_on_value)))
unfolding fade raising
fade_lit s em led_count i led lit = ground arith

raise_at_top : (s : Settings) (v : ℕ) → s.led_on_value ≤ v → raise s v ≡ s.led_on_value
unfolding raise
raise_at_top s v h = ground arith

raise_cases :
    (s : Settings) (v : ℕ)
    → (raise s v ≡ s.led_on_value)
      ⊎ ((raise s v ≡ v + s.led_on_step) × (v + s.led_on_step ≤ s.led_on_value))
unfolding raise
raise_cases s v = ground arith

fade_lit-closer :
    (n : ℕ) (s : Settings) (em : PerSide Bool) (led_count i : ℕ) (led : LedState)
    → led.state ≡ true
    → s.led_on_value ≤ led.led_value + suc (suc n) * s.led_on_step
    → s.led_on_value ≤ (fade s em led_count i led).0.led_value + suc n * s.led_on_step
fade_lit-closer n s em led_count i led lit enough = elim ((fade_lit s em led_count i led lit).2) [
  | inl e ↦ elim (raise_cases s led.led_value) [ inl top ↦ omega arith | inr more ↦ omega arith ]
  | inr e ↦ omega arith
]

-- A lit LED is at led_on_value after n + 1 rounds, if n + 1 steps lead there from its value;
-- it stays lit, and its time stamp is unchanged.
pub fades-on :
    (n : ℕ) (s : Settings) (em : PerSide Bool) (led_count i : ℕ) (led : LedState)
    → led.state ≡ true
    → s.led_on_value ≤ led.led_value + suc n * s.led_on_step
    → fades (suc n) s em led_count i led
      ≡ record { led_value = s.led_on_value; state = true; ts = led.ts }
unfolding fades
fades-on zero s em led_count i led lit enough =
    ground (arith, fade_lit s em led_count i led lit, raise_cases s led.led_value)
fades-on (suc n) s em led_count i led lit enough =
    let (lit', same_ts, _) = fade_lit s em led_count i led lit in
    fades-on n s em led_count i (fade s em led_count i led).0 lit'
      (fade_lit-closer n s em led_count i led lit enough)
    ∙ ap (λ (t : ℕ). record { led_value = s.led_on_value; state = true; ts = t }) same_ts

-- No emergency covers the LED.
abbrev pub Uncovered : Settings → PerSide Bool → ℕ → ℕ → Type 0
Uncovered s em led_count i =
    ((em.of_down ≡ false) ⊎ (s.emergency_cnt.of_down ≤ i))
    × ((em.of_up ≡ false) ⊎ (u32 (i + s.emergency_cnt.of_up) < led_count))

fade_unlit :
    (s : Settings) (em : PerSide Bool) (led_count i : ℕ) (led : LedState)
    → led.state ≡ false
    → Uncovered s em led_count i
    → ((fade s em led_count i led).0.state ≡ false)
      × ((fade s em led_count i led).0.ts ≡ led.ts)
      × (((fade s em led_count i led).0.led_value ≡ lower s led.led_value)
          ⊎ ((led.led_value ≡ s.led_off_value)
              × ((fade s em led_count i led).0.led_value ≡ s.led_off_value)))
unfolding fade raising
fade_unlit s em led_count i led unlit clear = ground arith

lower_cases :
    (s : Settings) (v : ℕ)
    → (lower s v ≡ s.led_off_value)
      ⊎ ((lower s v ≡ v - s.led_off_step) × (s.led_off_value + s.led_off_step ≤ v))
unfolding lower
lower_cases s v = ground arith

lower-closer :
    (n : ℕ) (s : Settings) (v : ℕ)
    → v ≤ s.led_off_value + suc (suc n) * s.led_off_step
    → lower s v ≤ s.led_off_value + suc n * s.led_off_step
lower-closer n s v enough = elim (lower_cases s v) [ inl e ↦ omega arith | inr e ↦ omega arith ]

fade_unlit-closer :
    (n : ℕ) (s : Settings) (em : PerSide Bool) (led_count i : ℕ) (led : LedState)
    → led.state ≡ false
    → Uncovered s em led_count i
    → led.led_value ≤ s.led_off_value + suc (suc n) * s.led_off_step
    → (fade s em led_count i led).0.led_value ≤ s.led_off_value + suc n * s.led_off_step
fade_unlit-closer n s em led_count i led unlit clear enough =
    elim ((fade_unlit s em led_count i led unlit clear).2) [
      | inl e ↦ omega (arith, lower-closer n s led.led_value enough)
      | inr e ↦ omega arith
    ]

-- An unlit LED that no emergency covers is at led_off_value after n + 1 rounds, if n + 1 steps
-- lead there from its value; it stays unlit, and its time stamp is unchanged.
pub fades-off :
    (n : ℕ) (s : Settings) (em : PerSide Bool) (led_count i : ℕ) (led : LedState)
    → led.state ≡ false
    → Uncovered s em led_count i
    → led.led_value ≤ s.led_off_value + suc n * s.led_off_step
    → fades (suc n) s em led_count i led
      ≡ record { led_value = s.led_off_value; state = false; ts = led.ts }
unfolding fades
fades-off zero s em led_count i led unlit clear enough =
    ground (arith, fade_unlit s em led_count i led unlit clear, lower_cases s led.led_value)
fades-off (suc n) s em led_count i led unlit clear enough =
    let (unlit', same_ts, _) = fade_unlit s em led_count i led unlit clear in
    fades-off n s em led_count i (fade s em led_count i led).0 unlit' clear
      (fade_unlit-closer n s em led_count i led unlit clear enough)
    ∙ ap (λ (t : ℕ). record { led_value = s.led_off_value; state = false; ts = t }) same_ts

-- The value of an LED stays in the byte, whatever the settings do between two rounds.
pub fade-lt :
    (s : Settings) (em : PerSide Bool) (led_count i : ℕ) (led : LedState)
    → s.led_on_value < 256
    → s.led_off_value < 256
    → led.led_value < 256
    → (fade s em led_count i led).0.led_value < 256
unfolding fade raise lower
fade-lt s em led_count i led on_byte off_byte byte = ground arith
