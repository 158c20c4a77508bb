-- ===== src/Settings/Fields.antt =====
-- settings/api/settings_api.h: the widths of the fields, in a form that arithmetic reads.
use pico_stairway_controller.Base.{◌<◌, ◌^◌, ◌≡◌, arith, length}
use pico_stairway_controller.Types.{Settings}
use pico_stairway_controller.Settings.Flash.{IsStruct, AllBytes}

abbrev pub NumbersFit : Settings → Type 0
NumbersFit s =
    (s.magic < 2 ^ 32)
    × (s.version < 2 ^ 16)
    × (s.size < 2 ^ 16)
    × (s.light_sensor_day_value < 2 ^ 32)
    × (s.light_sensor_night_value < 2 ^ 32)
    × (s.dist_trigger.of_up_first < 2 ^ 16)
    × (s.dist_trigger.of_up_second < 2 ^ 16)
    × (s.dist_trigger.of_down_first < 2 ^ 16)
    × (s.dist_trigger.of_down_second < 2 ^ 16)
    × (s.sensor_debouce_time < 2 ^ 32)
    × (s.leds_time_interval < 2 ^ 32)
    × (s.leds_off_timeout < 2 ^ 32)
    × (s.led_on_value < 2 ^ 8)
    × (s.led_off_value < 2 ^ 8)
    × (s.led_on_step < 2 ^ 8)
    × (s.led_off_step < 2 ^ 8)
    × (s.led_count < 2 ^ 32)
    × (s.emergency_block_ms < 2 ^ 32)
    × (s.emergency_cnt.of_up < 2 ^ 32)
    × (s.emergency_cnt.of_down < 2 ^ 32)
    × (s.crc < 2 ^ 32)

abbrev pub ArraysFit : Settings → Type 0
ArraysFit s = (length s.ssid ≡ 33) × AllBytes s.ssid × (length s.pass ≡ 64) × AllBytes s.pass

pub numbers_fit : (s : Settings) → IsStruct s → NumbersFit s
numbers_fit s i =
    let a : _ = i.magic_fits in
    let b : _ = i.version_fits in
    let c : _ = i.size_fits in
    let d : _ = i.day_fits in
    let e : _ = i.night_fits in
    let f : _ = i.up_trigger_fits in
    let g : _ = i.down_trigger_fits in
    let h : _ = i.debounce_fits in
    let j : _ = i.interval_fits in
    let k : _ = i.timeout_fits in
    let l : _ = i.on_value_fits in
    let m : _ = i.off_value_fits in
    let n : _ = i.on_step_fits in
    let o : _ = i.off_step_fits in
    let q : _ = i.count_fits in
    let r : _ = i.block_fits in
    let t : _ = i.emergency_cnt_fits in let u : _ = i.crc_fits in omega arith

pub arrays_fit : (s : Settings) → IsStruct s → ArraysFit s
arrays_fit s i = (i.ssid_is_array.0, i.ssid_is_array.1, i.pass_is_array.0, i.pass_is_array.1)

pub fit-IsStruct : (s : Settings) → NumbersFit s → ArraysFit s → IsStruct s
fit-IsStruct s n a = record {
  magic_fits = n.0;
  version_fits = n.1;
  size_fits = n.2;
  day_fits = n.3;
  night_fits = n.4;
  up_trigger_fits = (n.5, n.6);
  down_trigger_fits = (n.7, n.8);
  debounce_fits = n.9;
  interval_fits = n.10;
  timeout_fits = n.11;
  on_value_fits = n.12;
  off_value_fits = n.13;
  on_step_fits = n.14;
  off_step_fits = n.15;
  count_fits = n.16;
  block_fits = n.17;
  emergency_cnt_fits = (n.18, n.19);
  ssid_is_array = (a.0, a.1);
  pass_is_array = (a.2, a.3);
  crc_fits = n.20;
}
