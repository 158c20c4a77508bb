-- ===== src/Body.antt =====
-- network/http_server/settings.c: the settings that a JSON body sets, all of them or none.
--
-- A C string is the list of its characters before the terminating 0.
pub mod Search
pub mod Laws
pub mod Print
pub mod Places
pub mod Restore
pub mod Typed
use pico_stairway_controller.Base.{
  ℕ, zero, suc, ◌+◌, ◌-◌, ◌^◌, leb, ltb, ◌==◌, ◌&&◌, ◌||◌, not, if◌then◌else◌, Bool, true, false,
  List, [], ◌∷◌, ◌++◌, Option, none, some, length, drop, codes,
}
use pico_stairway_controller.Types.{Settings, ErrCode, PerSide, PerSensor}
use pico_stairway_controller.Json.{Result, ok, error, json_parse_string}
use pico_stairway_controller.Numbers.{json_parse_uint}
use pico_stairway_controller.Body.Search.{json_find_value, json_parse_bool}
use pico_stairway_controller.Settings.{Platform, Memory, FlashRun, settings_apply}

-- The type of a setting, with its field's value and the assignment to it.
pub data Field : Type 0 where
  number : ℕ → (Settings → ℕ) → (ℕ → Settings → Settings) → Field
  flag : (Settings → Bool) → (Bool → Settings → Settings) → Field
  text : ℕ → Bool → (Settings → List ℕ) → (List ℕ → Settings → Settings) → Field

-- strcpy into a char array: what stood behind the terminating 0 stays.
abbrev pub strcpy : List ℕ → List ℕ → List ℕ
strcpy field str = str ++ 0 ∷ drop (length str + 1) field

abbrev pub settings_map : List (List ℕ × Field)
settings_map =
    (
      codes "use_light_sensor",
      flag (λ s. s.use_light_sensor) (λ v s. record s { use_light_sensor = v }),
    )
    ∷ (
      codes "light_sensor_day",
      number (2 ^ 32 - 1) (λ s. s.light_sensor_day_value)
          (λ v s. record s { light_sensor_day_value = v }),
    )
    ∷ (
      codes "light_sensor_night",
      number (2 ^ 32 - 1) (λ s. s.light_sensor_night_value)
          (λ v s. record s { light_sensor_night_value = v }),
    )
    ∷ (
      codes "dist_trigger_down_first",
      number (2 ^ 16 - 1) (λ s. s.dist_trigger.of_down_first)
          (λ v s. record s { dist_trigger = record (s.dist_trigger) { of_down_first = v } }),
    )
    ∷ (
      codes "dist_trigger_down_second",
      number (2 ^ 16 - 1) (λ s. s.dist_trigger.of_down_second)
          (λ v s. record s { dist_trigger = record (s.dist_trigger) { of_down_second = v } }),
    )
    ∷ (
      codes "sensor_down_swap",
      flag (λ s. s.sensor_down_swap) (λ v s. record s { sensor_down_swap = v }),
    )
    ∷ (
      codes "dist_trigger_up_first",
      number (2 ^ 16 - 1) (λ s. s.dist_trigger.of_up_first)
          (λ v s. record s { dist_trigger = record (s.dist_trigger) { of_up_first = v } }),
    )
    ∷ (
      codes "dist_trigger_up_second",
      number (2 ^ 16 - 1) (λ s. s.dist_trigger.of_up_second)
          (λ v s. record s { dist_trigger = record (s.dist_trigger) { of_up_second = v } }),
    )
    ∷ (
      codes "sensor_up_swap",
      flag (λ s. s.sensor_up_swap) (λ v s. record s { sensor_up_swap = v }),
    )
    ∷ (
      codes "sensor_debouce_time",
      number (2 ^ 32 - 1) (λ s. s.sensor_debouce_time)
          (λ v s. record s { sensor_debouce_time = v }),
    )
    ∷ (
      codes "led_count",
      number (2 ^ 32 - 1) (λ s. s.led_count) (λ v s. record s { led_count = v }),
    )
    ∷ (
      codes "leds_time_interval",
      number (2 ^ 32 - 1) (λ s. s.leds_time_interval) (λ v s. record s { leds_time_interval = v }),
    )
    ∷ (
      codes "leds_off_timeout",
      number (2 ^ 32 - 1) (λ s. s.leds_off_timeout) (λ v s. record s { leds_off_timeout = v }),
    )
    ∷ (
      codes "led_on_value",
      number (2 ^ 8 - 1) (λ s. s.led_on_value) (λ v s. record s { led_on_value = v }),
    )
    ∷ (
      codes "led_off_value",
      number (2 ^ 8 - 1) (λ s. s.led_off_value) (λ v s. record s { led_off_value = v }),
    )
    ∷ (
      codes "led_on_step",
      number (2 ^ 8 - 1) (λ s. s.led_on_step) (λ v s. record s { led_on_step = v }),
    )
    ∷ (
      codes "led_off_step",
      number (2 ^ 8 - 1) (λ s. s.led_off_step) (λ v s. record s { led_off_step = v }),
    )
    ∷ (codes "use_emergency", flag (λ s. s.use_emergency) (λ v s. record s { use_emergency = v }))
    ∷ (
      codes "emergency_cnt_down",
      number (2 ^ 32 - 1) (λ s. s.emergency_cnt.of_down)
          (λ v s. record s { emergency_cnt = record (s.emergency_cnt) { of_down = v } }),
    )
    ∷ (
      codes "emergency_cnt_up",
      number (2 ^ 32 - 1) (λ s. s.emergency_cnt.of_up)
          (λ v s. record s { emergency_cnt = record (s.emergency_cnt) { of_up = v } }),
    )
    ∷ (
      codes "emergency_block_ms",
      number (2 ^ 32 - 1) (λ s. s.emergency_block_ms) (λ v s. record s { emergency_block_ms = v }),
    )
    ∷ (codes "wifi_ssid", text 33 false (λ s. s.ssid) (λ v s. record s { ssid = strcpy s.ssid v }))
    ∷ (codes "wifi_pass", text 64 true (λ s. s.pass) (λ v s. record s { pass = strcpy s.pass v }))
    ∷ []

abbrev pub assign {ℓ} :
    {A : Type ℓ} → (A → Settings → Settings) → Settings → Result A → Result Settings
assign write s (ok v) = ok (write v s)
assign write s (error e) = error e

abbrev pub is_empty : List ℕ → Bool
is_empty [] = true
is_empty (c ∷ cs) = false

-- An empty value of a secret setting keeps the current one.
abbrev pub assign_text :
    Bool → (List ℕ → Settings → Settings) → Settings → Result (List ℕ) → Result Settings
assign_text secret write s (ok v) = if secret && is_empty v then ok s else ok (write v s)
assign_text secret write s (error e) = error e

-- The switch over the type, on the value that was found.
unfoldable pub set_field : Field → List ℕ → Settings → Result Settings
set_field (number max read write) val s = assign write s (json_parse_uint val max)
set_field (flag read write) val s = assign write s (json_parse_bool val)
set_field (text max_len secret read write) val s =
    assign_text secret write s (json_parse_string val max_len)

unfoldable pub set_fields : List (List ℕ × Field) → List ℕ → Result Settings → Result Settings
set_fields entries json (error e) = error e
set_fields [] json (ok s) = ok s
set_fields ((name, field) ∷ rest) json (ok s) = elim (json_find_value json name) [
  | none ↦ set_fields rest json (ok s)
  | some val ↦ set_fields rest json (set_field field val s)
]

module _ (p : Platform) where
  pub apply_parsed : FlashRun p → Memory p → Result Settings → ErrCode × Memory p
  apply_parsed run m (ok s) = settings_apply p run (some s) m
  apply_parsed run m (error e) = (e, m)

  -- NULL is `none`.
  unfoldable pub set_settings_json : FlashRun p → Option (List ℕ) → Memory p → ErrCode × Memory p
  set_settings_json run none m = (ErrCode.param_is_null, m)
  set_settings_json run (some json) m =
      apply_parsed run m (set_fields settings_map json (ok m.global))
