-- ===== src/Commands/Report.antt =====
-- commands/commands.c: what the command `status` prints.
use pico_stairway_controller.Base.{ℕ, if◌then◌else◌, Bool, List, [], ◌∷◌, ◌++◌, codes, c_string}
use pico_stairway_controller.Types.{Settings, Status, PerSensor}
use pico_stairway_controller.Numbers.{print_uint}
use pico_stairway_controller.Commands.{line, yes_or_no}

abbrev pub enabled_or_disabled : Bool → List ℕ
enabled_or_disabled enabled = if enabled then codes "Enabled" else codes "Disabled"

-- "\t%s: %s\n".
abbrev pub row : List ℕ → List ℕ → List ℕ
row label value = 9 ∷ line label value

abbrev pub count : ℕ → List ℕ
count n = print_uint 9 n []

abbrev pub with_unit : ℕ → List ℕ → List ℕ
with_unit n unit = print_uint 9 n (32 ∷ unit)

abbrev pub light_report : Settings → Status → List ℕ
light_report s st =
    line (codes "Light sensor") (enabled_or_disabled s.use_light_sensor)
    ++ (row (codes "Current state") (if st.light_state then codes "Day" else codes "Night")
        ++ (row (codes "Current light") (count st.light_value)
            ++ (row (codes "Day value") (count s.light_sensor_day_value)
                ++ row (codes "Night value") (count s.light_sensor_night_value))))

abbrev pub trigger_report : PerSensor ℕ → List ℕ
trigger_report triggers =
    row (codes "Trigger UP FIRST") (with_unit triggers.of_up_first (codes "mm"))
    ++ (row (codes "Trigger UP SECOND") (with_unit triggers.of_up_second (codes "mm"))
        ++ (row (codes "Trigger DOWN FIRST") (with_unit triggers.of_down_first (codes "mm"))
            ++ row (codes "Trigger DOWN SECOND") (with_unit triggers.of_down_second (codes "mm"))))

abbrev pub sensor_report : Settings → List ℕ
sensor_report s =
    codes "Sensors:"
    ++ 10
      ∷ (trigger_report s.dist_trigger
          ++ (row (codes "Debounce time") (with_unit s.sensor_debouce_time (codes "ms"))
              ++ (row (codes "Swap UP") (yes_or_no s.sensor_up_swap)
                  ++ row (codes "Swap DOWN") (yes_or_no s.sensor_down_swap))))

abbrev pub led_report : Settings → List ℕ
led_report s =
    codes "Leds:"
    ++ 10
      ∷ (row (codes "Leds count") (count s.led_count)
          ++ (row (codes "On/off interval") (with_unit s.leds_time_interval (codes "ms"))
              ++ (row (codes "Off timeout") (with_unit s.leds_off_timeout (codes "ms"))
                  ++ (row (codes "On value") (count s.led_on_value)
                      ++ (row (codes "On step") (count s.led_on_step)
                          ++ (row (codes "Off value") (count s.led_off_value)
                              ++ row (codes "Off step") (count s.led_off_step)))))))

abbrev pub emergency_report : Settings → List ℕ
emergency_report s =
    line (codes "Emergency leds") (enabled_or_disabled s.use_emergency)
    ++ (row (codes "Emergency up count") (count s.emergency_cnt.of_up)
        ++ (row (codes "Emergency down leds count") (count s.emergency_cnt.of_down)
            ++ row (codes "Emergency block") (with_unit s.emergency_block_ms (codes "ms"))))

-- `started` is net_ap_get_state(); people_count is not negative.
unfoldable pub get_status : Bool → Settings → Status → List ℕ
get_status started s st =
    line (codes "People detected") (count st.people_count)
    ++ (light_report s st
        ++ (sensor_report s
            ++ (led_report s
                ++ (emergency_report s
                    ++ (line (codes "WiFi AP")
                          (if started then codes "Started" else codes "Stopped")
                        ++ row (codes "SSID") (c_string s.ssid))))))
