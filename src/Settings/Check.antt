-- ===== src/Settings/Check.antt =====
-- settings/settings.c: settings_validate, and the ranges of the fields.
use pico_stairway_controller.Base.{◌≤◌, ◌↔◌, ◌≡◌, arith, refl}
use pico_stairway_controller.Types.{Settings, ErrCode}
use pico_stairway_controller.Settings.{
  settings_validate, strnlen, Platform, default_settings, padding,
}

-- The ranges of settings that the rest of the program may rely on.
pub record IsConsistent (s : Settings) : Type 0 where
  pub leds : (1 ≤ s.led_count) × (s.led_count ≤ 1000)
  pub emergency_fits :
      (s.emergency_cnt.of_up ≤ s.led_count) × (s.emergency_cnt.of_down ≤ s.led_count)
  pub steps : (1 ≤ s.led_on_step) × (1 ≤ s.led_off_step)
  pub light : s.light_sensor_night_value ≤ s.light_sensor_day_value
  pub ssid_len : (1 ≤ strnlen s.ssid) × (strnlen s.ssid ≤ 32)
  pub pass_len : (8 ≤ strnlen s.pass) × (strnlen s.pass ≤ 63)

accepted : (s : Settings) → settings_validate s ≡ ErrCode.success → IsConsistent s
unfolding settings_validate
accepted s h = record {
  leds = ground arith;
  emergency_fits = ground arith;
  steps = ground arith;
  light = ground arith;
  ssid_len = ground arith;
  pass_len = ground arith;
}

complete : (s : Settings) → IsConsistent s → settings_validate s ≡ ErrCode.success
unfolding settings_validate
complete s c =
    let a : _ = c.leds in
    let b : _ = c.emergency_fits in
    let d : _ = c.steps in
    let e : _ = c.light in let f : _ = c.ssid_len in let g : _ = c.pass_len in ground arith

-- settings_validate accepts the settings whose LED count, emergency counts, steps, thresholds and
-- string lengths are in range, and no others.
pub settings_validate_iff :
    (s : Settings) → (settings_validate s ≡ ErrCode.success) ↔ IsConsistent s
settings_validate_iff s = (accepted s, complete s)

pub default_settings-accepted :
    (p : Platform) → settings_validate (default_settings p) ≡ ErrCode.success
unfolding settings_validate strnlen padding
default_settings-accepted p = refl
