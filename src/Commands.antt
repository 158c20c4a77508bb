-- ===== src/Commands.antt =====
-- commands/commands.c: the console's commands that read and change the settings.
--
-- The console splits a line into tokens: the arguments of a command are that list. printf is the
-- text that it prints; a C string is the list of its characters before the terminating 0.
pub mod Laws
pub mod Typed
pub mod Report
use pico_stairway_controller.Base.{
  ℕ, zero, suc, ◌+◌, ◌-◌, ◌^◌, leb, ltb, ◌==◌, ◌!=◌, not, if◌then◌else◌, Bool, true, false, List,
  [], ◌∷◌, ◌++◌, some, length, codes, c_string,
}
use pico_stairway_controller.Types.{ErrCode, Settings, PerSide, PerSensor}
use pico_stairway_controller.Json.{Result, ok, error, ◌>>=◌}
use pico_stairway_controller.Numbers.{parse_uint, print_uint}
use pico_stairway_controller.Settings.{
  Platform, Memory, FlashRun, settings_validate, settings_apply, settings_write, settings_default,
  is_success,
}
use pico_stairway_controller.Body.{Field, number, flag, text, strcpy}

-- A command with its setting; the help text is left out.
pub record SettingCommand : Type 0 where
  pub name : List ℕ
  pub label : List ℕ
  pub field : Field

abbrev pub setting_commands : List SettingCommand
setting_commands =
    record {
      name = codes "light_state";
      label = codes "Light sensor";
      field = flag (λ s. s.use_light_sensor) (λ v s. record s { use_light_sensor = v });
    }
    ∷ record {
      name = codes "light_day";
      label = codes "Day light value";
      field =
          number (2 ^ 32 - 1) (λ s. s.light_sensor_day_value)
            (λ v s. record s { light_sensor_day_value = v });
    }
    ∷ record {
      name = codes "light_night";
      label = codes "Night light value";
      field =
          number (2 ^ 32 - 1) (λ s. s.light_sensor_night_value)
            (λ v s. record s { light_sensor_night_value = v });
    }
    ∷ record {
      name = codes "dist_up_first";
      label = codes "Sensor UP FIRST trigger value";
      field =
          number (2 ^ 16 - 1) (λ s. s.dist_trigger.of_up_first)
            (λ v s. record s { dist_trigger = record (s.dist_trigger) { of_up_first = v } });
    }
    ∷ record {
      name = codes "dist_up_second";
      label = codes "Sensor UP SECOND trigger value";
      field =
          number (2 ^ 16 - 1) (λ s. s.dist_trigger.of_up_second)
            (λ v s. record s { dist_trigger = record (s.dist_trigger) { of_up_second = v } });
    }
    ∷ record {
      name = codes "dist_down_first";
      label = codes "Sensor DOWN FIRST trigger value";
      field =
          number (2 ^ 16 - 1) (λ s. s.dist_trigger.of_down_first)
            (λ v s. record s { dist_trigger = record (s.dist_trigger) { of_down_first = v } });
    }
    ∷ record {
      name = codes "dist_down_second";
      label = codes "Sensor DOWN SECOND trigger value";
      field =
          number (2 ^ 16 - 1) (λ s. s.dist_trigger.of_down_second)
            (λ v s. record s { dist_trigger = record (s.dist_trigger) { of_down_second = v } });
    }
    ∷ record {
      name = codes "sens_debouce";
      label = codes "Sensor debounce time, ms";
      field =
          number (2 ^ 32 - 1) (λ s. s.sensor_debouce_time)
            (λ v s. record s { sensor_debouce_time = v });
    }
    ∷ record {
      name = codes "sens_up_swap";
      label = codes "Swap UP sensor";
      field = flag (λ s. s.sensor_up_swap) (λ v s. record s { sensor_up_swap = v });
    }
    ∷ record {
      name = codes "sens_down_swap";
      label = codes "Swap DOWN sensor";
      field = flag (λ s. s.sensor_down_swap) (λ v s. record s { sensor_down_swap = v });
    }
    ∷ record {
      name = codes "leds_count";
      label = codes "Leds count";
      field = number (2 ^ 32 - 1) (λ s. s.led_count) (λ v s. record s { led_count = v });
    }
    ∷ record {
      name = codes "leds_time_interval";
      label = codes "Leds On/Off time interval, ms";
      field =
          number (2 ^ 32 - 1) (λ s. s.leds_time_interval)
            (λ v s. record s { leds_time_interval = v });
    }
    ∷ record {
      name = codes "leds_off_timeout";
      label = codes "Leds Off timeout, ms";
      field =
          number (2 ^ 32 - 1) (λ s. s.leds_off_timeout) (λ v s. record s { leds_off_timeout = v });
    }
    ∷ record {
      name = codes "leds_on_value";
      label = codes "Leds On value";
      field = number (2 ^ 8 - 1) (λ s. s.led_on_value) (λ v s. record s { led_on_value = v });
    }
    ∷ record {
      name = codes "leds_off_value";
      label = codes "Leds Off value";
      field = number (2 ^ 8 - 1) (λ s. s.led_off_value) (λ v s. record s { led_off_value = v });
    }
    ∷ record {
      name = codes "leds_on_step";
      label = codes "Leds On step";
      field = number (2 ^ 8 - 1) (λ s. s.led_on_step) (λ v s. record s { led_on_step = v });
    }
    ∷ record {
      name = codes "leds_off_step";
      label = codes "Leds Off step";
      field = number (2 ^ 8 - 1) (λ s. s.led_off_step) (λ v s. record s { led_off_step = v });
    }
    ∷ record {
      name = codes "em_state";
      label = codes "Emergency leds";
      field = flag (λ s. s.use_emergency) (λ v s. record s { use_emergency = v });
    }
    ∷ record {
      name = codes "em_block_time";
      label = codes "Emergency blocking time, ms";
      field =
          number (2 ^ 32 - 1) (λ s. s.emergency_block_ms)
            (λ v s. record s { emergency_block_ms = v });
    }
    ∷ record {
      name = codes "em_up_cnt";
      label = codes "Emergency UP leds count";
      field =
          number (2 ^ 32 - 1) (λ s. s.emergency_cnt.of_up)
            (λ v s. record s { emergency_cnt = record (s.emergency_cnt) { of_up = v } });
    }
    ∷ record {
      name = codes "em_down_cnt";
      label = codes "Emergency DOWN leds count";
      field =
          number (2 ^ 32 - 1) (λ s. s.emergency_cnt.of_down)
            (λ v s. record s { emergency_cnt = record (s.emergency_cnt) { of_down = v } });
    }
    ∷ record {
      name = codes "ssid";
      label = codes "WiFi SSID";
      field = text 33 false (λ s. s.ssid) (λ v s. record s { ssid = strcpy s.ssid v });
    }
    ∷ record {
      name = codes "pass";
      label = codes "WiFi PASS";
      field = text 64 true (λ s. s.pass) (λ v s. record s { pass = strcpy s.pass v });
    }
    ∷ []

-- "%s: %s\n".
abbrev pub line : List ℕ → List ℕ → List ℕ
line label value = label ++ (codes ": " ++ (value ++ 10 ∷ []))

abbrev pub yes_or_no : Bool → List ℕ
yes_or_no true = codes "yes"
yes_or_no false = codes "no"

abbrev pub on_or_off : Bool → List ℕ
on_or_off true = codes "on"
on_or_off false = codes "off"

abbrev pub value_text : Field → Settings → List ℕ
value_text (number max read write) s = print_uint 9 (read s) []
value_text (flag read write) s = yes_or_no (read s)
value_text (text size secret read write) s = if secret then codes "********" else c_string (read s)

unfoldable pub print_setting : SettingCommand → Settings → List ℕ
print_setting cmd s = line cmd.label (value_text cmd.field s)

abbrev pub invalid_argument : List ℕ
invalid_argument = codes "Invalid argument" ++ 10 ∷ []

abbrev pub need_restart : Field → List ℕ
need_restart (text size secret read write) =
    codes "Need to restart device to apply new WiFi settings" ++ 10 ∷ []
need_restart _ = []

-- TO_EXIT_IF_COND_(embeddedCliGetTokenCount(args) != 1, ERR_PARAM_INVALID).
abbrev pub only_token : List (List ℕ) → Result (List ℕ)
only_token (arg ∷ []) = ok arg
only_token _ = error ErrCode.param_invalid

-- The switch over the type.
unfoldable pub parse_argument : Field → Settings → List ℕ → Result Settings
parse_argument (number max read write) s arg = parse_uint arg max >>= λ val. ok (write val s)
parse_argument (flag read write) s arg = parse_uint arg 1 >>= λ val. ok (write (val != 0) s)
parse_argument (text size secret read write) s arg =
    if leb size (length arg) then error ErrCode.param_invalid else ok (write arg s)

module _ (p : Platform) where
  -- What is printed after settings_apply, with what it left.
  abbrev pub report_setting : SettingCommand → ErrCode × Memory p → List ℕ × Memory p
  report_setting cmd (ErrCode.success, m) =
      (print_setting cmd m.global ++ need_restart cmd.field, m)
  report_setting cmd (_, m) = (invalid_argument, m)

  abbrev pub apply_setting :
      FlashRun p → SettingCommand → Memory p → Result Settings → List ℕ × Memory p
  apply_setting run cmd m (error e) = (invalid_argument, m)
  apply_setting run cmd m (ok s) =
      if not (is_success (settings_validate s))
      then (invalid_argument, m)
      else report_setting cmd (settings_apply p run (some s) m)

  unfoldable pub set_setting :
      FlashRun p → SettingCommand → List (List ℕ) → Memory p → List ℕ × Memory p
  set_setting run cmd args m =
      apply_setting run cmd m (only_token args >>= parse_argument cmd.field m.global)

  -- settings_default(true), with what it prints behind a successful write, and reboot_ts.
  unfoldable pub set_default : FlashRun p → ℕ → Memory p → ℕ → List ℕ × Memory p × ℕ
  set_default run now m reboot_ts =
      let (err, m, reboot_ts) = settings_default p run now true m reboot_ts in
      ((if is_success err then codes "Device will reboot!" ++ 10 ∷ [] else []), m, reboot_ts)

  abbrev pub report_wifi : ErrCode × Memory p → List ℕ × Memory p
  report_wifi (ErrCode.success, m) =
      (codes "WiFi AP: " ++ (on_or_off m.global.ap_state ++ 10 ∷ []), m)
  report_wifi (_, m) = (invalid_argument, m)

  abbrev pub write_wifi : FlashRun p → Memory p → Result ℕ → List ℕ × Memory p
  write_wifi run m (error e) = (invalid_argument, m)
  write_wifi run m (ok val) =
      report_wifi
        (settings_write p run (record m { global = record (m.global) { ap_state = val != 0 } }))

  unfoldable pub set_wifi_state : FlashRun p → List (List ℕ) → Memory p → List ℕ × Memory p
  set_wifi_state run args m = write_wifi run m (only_token args >>= λ arg. parse_uint arg 1)
