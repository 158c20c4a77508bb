-- ===== src/Light/Laws.antt =====
-- light_sensor/light_sensor.c: the filter, its samples and the two thresholds.
use pico_stairway_controller.Base.{
  ℕ, zero, suc, ◌+◌, ◌<◌, ◌≤◌, ◌≡◌, ◌⊎◌, inl, inr, refl, arith, Bool, true, false, List, [], ◌∷◌,
}
use pico_stairway_controller.Types.{Settings}
use pico_stairway_controller.Light.{
  LightSensor, filter, sample, voltage, compare_thresholds, light_sensor_get_data, int32_max,
}

filter-within :
    (adc f lo hi : ℕ)
    → lo ≤ adc
    → adc ≤ hi
    → lo ≤ f
    → f ≤ hi
    → (lo ≤ filter adc f) × (filter adc f ≤ hi)
unfolding filter
filter-within adc f lo hi a b c d = ground arith

-- The samples of a run, each with its time.
unfoldable pub run : List (ℕ × ℕ) → LightSensor → LightSensor
run [] l = l
run ((ts, adc) ∷ rest) l = run rest (sample ts adc l)

abbrev pub AllWithin : ℕ → ℕ → List (ℕ × ℕ) → Type 0
AllWithin lo hi [] = Unit
AllWithin lo hi ((ts, adc) ∷ rest) = (lo ≤ adc) × (adc ≤ hi) × AllWithin lo hi rest

-- Before the first sample, or within the range.
abbrev pub IsWithin : ℕ → ℕ → LightSensor → Type 0
IsWithin lo hi l = (l.filtered_adc ≡ int32_max) ⊎ ((lo ≤ l.filtered_adc) × (l.filtered_adc ≤ hi))

sample-within :
    (lo hi ts adc : ℕ) (l : LightSensor)
    → hi < 4096
    → lo ≤ adc
    → adc ≤ hi
    → IsWithin lo hi l
    → (lo ≤ (sample ts adc l).filtered_adc) × ((sample ts adc l).filtered_adc ≤ hi)
unfolding sample
sample-within lo hi ts adc l top a b (inl first) = ground arith
sample-within lo hi ts adc l top a b (inr (c, d)) =
    ground (arith, filter-within adc l.filtered_adc lo hi a b c d)

-- While every sample of the 12-bit converter lies in a range, so does the filtered value.
pub run-IsWithin :
    (lo hi : ℕ) (samples : List (ℕ × ℕ)) (l : LightSensor)
    → hi < 4096
    → AllWithin lo hi samples
    → IsWithin lo hi l
    → IsWithin lo hi (run samples l)
unfolding run
run-IsWithin lo hi [] l top all h = h
run-IsWithin lo hi ((ts, adc) ∷ rest) l top all h =
    run-IsWithin lo hi rest (sample ts adc l) top all.2
      (inr (sample-within lo hi ts adc l top all.0 all.1 h))

-- `n` samples of a constant light.
unfoldable pub filters : ℕ → ℕ → ℕ → ℕ
filters zero adc f = f
filters (suc n) adc f = filters n adc (filter adc f)

abbrev pub IsNear : ℕ → ℕ → ℕ → Type 0
IsNear d a b = (a ≤ b + d) × (b ≤ a + d)

filter-nearer : (d adc f : ℕ) → IsNear (suc (d + 31)) adc f → IsNear (d + 31) adc (filter adc f)
unfolding filter
filter-nearer d adc f h = ground arith

filter_rests : (adc f : ℕ) → IsNear 31 adc f → filter adc f ≡ f
unfolding filter
filter_rests adc f h = ground arith

-- Under a constant light the filtered value comes within 31 of the sample after as many samples
-- as it was farther away than that, and there it rests: the last 31 steps are lost in rounding.
pub filters-IsNear :
    (n adc f : ℕ)
    → IsNear (n + 31) adc f
    → IsNear 31 adc (filters n adc f) × (filter adc (filters n adc f) ≡ filters n adc f)
unfolding filters
filters-IsNear zero adc f h = (omega arith, filter_rests adc f (omega arith))
filters-IsNear (suc n) adc f h =
    filters-IsNear n adc (filter adc f) (filter-nearer n adc f (omega arith))

voltage-lt : (f : ℕ) → f ≤ 4095 → voltage f < 3300
unfolding voltage
voltage-lt f h = omega arith

sample-trigger : (ts adc : ℕ) (l : LightSensor) → (sample ts adc l).trigger ≡ l.trigger
unfolding sample
sample-trigger ts adc l = ground arith

compare_thresholds_lem :
    (s : Settings) (v : ℕ) (t before : Bool)
    → t ≡ before
    → s.light_sensor_night_value ≤ s.light_sensor_day_value
    → ((s.light_sensor_day_value < v) × (compare_thresholds s v t ≡ true))
      ⊎ (((v < s.light_sensor_night_value) × (compare_thresholds s v t ≡ false))
          ⊎ ((s.light_sensor_night_value ≤ v)
              × (v ≤ s.light_sensor_day_value)
              × (compare_thresholds s v t ≡ before)))
unfolding compare_thresholds
compare_thresholds_lem s v t before e order = ground arith

-- With the thresholds in order, the reported state is day above the day value, night below the
-- night value, and the last one in between; the reported voltage is that of the filtered value,
-- and below 3300 mV.
pub light_sensor_get_data_lem :
    (s : Settings) (ts adc : ℕ) (l : LightSensor)
    → s.light_sensor_night_value ≤ s.light_sensor_day_value
    → adc < 4096
    → IsWithin 0 4095 l
    → let (l', state, raw) = light_sensor_get_data s ts adc l in
      (raw < 3300)
      × (raw ≡ voltage (sample ts adc l).filtered_adc)
      × (l'.trigger ≡ state)
      × (((s.light_sensor_day_value < raw) × (state ≡ true))
          ⊎ (((raw < s.light_sensor_night_value) × (state ≡ false))
              ⊎ ((s.light_sensor_night_value ≤ raw)
                  × (raw ≤ s.light_sensor_day_value)
                  × (state ≡ l.trigger))))
unfolding light_sensor_get_data
light_sensor_get_data_lem s ts adc l order small within =
    let b : _ = sample-within 0 4095 ts adc l (omega arith) (omega arith) (omega arith) within in
    let v : ℕ = voltage (sample ts adc l).filtered_adc in
    (
      voltage-lt (sample ts adc l).filtered_adc b.1,
      refl,
      refl,
      compare_thresholds_lem s v (sample ts adc l).trigger l.trigger (sample-trigger ts adc l)
          order,
    )
