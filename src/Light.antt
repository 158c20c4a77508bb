-- ===== src/Light.antt =====
-- light_sensor/light_sensor.c: the filtered light value and its two thresholds.
--
-- `adc` is what adc_read() returns, 12 bits. filtered_adc is an int32_t that is INT32_MAX before
-- the first sample and between 0 and 4095 after it.
pub mod Laws
use pico_stairway_controller.Base.{
  ℕ, ◌+◌, ◌-◌, ◌*◌, ◌/◌, ◌^◌, ltb, leb, ◌==◌, ◌||◌, sub64, if◌then◌else◌, Bool, true, false,
}
use pico_stairway_controller.Types.{Settings, ErrCode}

abbrev pub int32_max : ℕ
int32_max = 2 ^ 31 - 1

abbrev pub filter_n : ℕ
filter_n = 32

abbrev pub sample_period_ms : ℕ
sample_period_ms = 10

pub record LightSensor : Type 0 where
  pub filtered_adc : ℕ  -- int32_t
  pub trigger : Bool
  pub sample_ts : ℕ  -- uint64_t

-- filtered_adc += (adc - filtered_adc) / FILTER_N, the division rounding towards 0.
unfoldable pub filter : ℕ → ℕ → ℕ
filter adc filtered =
    if leb filtered adc
    then filtered + (adc - filtered) / filter_n
    else filtered - (filtered - adc) / filter_n

unfoldable pub sample : ℕ → ℕ → LightSensor → LightSensor
unfolding filter
sample ts adc l =
    if (l.filtered_adc == int32_max) || leb sample_period_ms (sub64 ts l.sample_ts)
    then record l {
      sample_ts = ts;
      filtered_adc = if l.filtered_adc == int32_max then adc else filter adc l.filtered_adc;
    }
    else l

-- In millivolts; the product is below 2 ^ 31.
unfoldable pub voltage : ℕ → ℕ
voltage filtered = 3300 * filtered / 2 ^ 12

unfoldable pub compare_thresholds : Settings → ℕ → Bool → Bool
compare_thresholds s v trigger =
    if ltb s.light_sensor_day_value v
    then true
    else if ltb v s.light_sensor_night_value
    then false
    else trigger

-- light_sensor_get_data: the new state, *state and *raw.
unfoldable pub light_sensor_get_data : Settings → ℕ → ℕ → LightSensor → LightSensor × Bool × ℕ
light_sensor_get_data s ts adc l =
    let l = sample ts adc l in
    let v = voltage l.filtered_adc in
    let t = compare_thresholds s v l.trigger in (record l { trigger = t }, t, v)

-- light_sensor_init, for the five inputs of adc_gpio.
unfoldable pub light_sensor_init : ℕ → ErrCode
light_sensor_init pin = if leb 5 pin then ErrCode.param_invalid else ErrCode.success
