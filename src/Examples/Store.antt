-- ===== src/Examples/Store.antt =====
-- The settings in flash, on a platform whose page is the record itself.
use native.Mathlib.Decide.{ℕ_discrete}
use pico_stairway_controller.Base.{
  strstr, starts_with, codes, ℕ, List, none, ◌≡◌, ◌↔◌, ◌⊎◌, refl, arith, Bool, true, false, some,
  [], ◌∷◌, u8,
}
use pico_stairway_controller.Types.{Settings, ErrCode}
use pico_stairway_controller.Settings.{
  Platform, Memory, FlashRun, stamped, default_settings, settings_validate, settings_init,
  settings_apply, strnlen, padding,
}
use pico_stairway_controller.Settings.Check.{IsConsistent, settings_validate_iff}
use pico_stairway_controller.Settings.Flash.{
  IsFaithful, IsStruct, settings_apply-init, settings_apply_lem, settings_apply-works,
}
use pico_stairway_controller.Body.Search.{json_find_value, skip_spaces, after_colon}
use pico_stairway_controller.Body.Laws.{AllOrNone}
use pico_stairway_controller.Body.Print.{get_settings_json}
use pico_stairway_controller.Body.Print.Laws.{settings_text}
use pico_stairway_controller.Body.Print.Bound.{get_settings_json_fits}
use pico_stairway_controller.Json.{ok}
use pico_stairway_controller.Commands.{SettingCommand, set_setting}
use pico_stairway_controller.Commands.Laws.{set_setting-AllOrNone}
use pico_stairway_controller.Body.{number}
use pico_stairway_controller.Examples.{small}

pub settings_discrete : (a b : Settings) → Dec (a ≡ b)
settings_discrete = hlevel (ℕ_discrete)

abbrev answer : {A : Type 0} → Dec A → Bool
answer (yes a) = true
answer (no n) = false

answer_iff : {A : Type 0} (d : Dec A) → (answer d ≡ true) ↔ A
answer_iff (yes a) = (λ e. a, λ b. refl)
answer_iff (no n) = (λ e. ground arith, λ b. absurd (n b))

-- The page is the record, and the CRC is over some of its bytes.
abbrev pub platform : Platform
platform = record {
  Page = Settings;
  same = λ a b. answer (settings_discrete a b);
  to_page = λ s. s;
  from_page = λ s. s;
  before_crc = λ s. u8 s.led_count ∷ s.led_on_value ∷ s.led_off_value ∷ s.led_on_step ∷ [];
  sizeof_settings = 168;
}

pub platform-IsFaithful : IsFaithful platform
platform-IsFaithful = record {
  same_iff = λ a b. answer_iff (settings_discrete a b);
  from_to = λ s i. refl;
  crc_apart = λ s c. refl;
  size_small = omega arith;
}

abbrev pub chosen : Settings
chosen = record (default_settings platform) { led_count = 30 }

pub chosen-IsConsistent : IsConsistent chosen
unfolding strnlen padding
chosen-IsConsistent = record {
  leds = omega arith;
  emergency_fits = omega arith;
  steps = omega arith;
  light = omega arith;
  ssid_len = omega arith;
  pass_len = omega arith;
}

pub chosen-IsStruct : IsStruct chosen
unfolding padding
chosen-IsStruct = record {
  magic_fits = omega arith;
  version_fits = omega arith;
  size_fits = omega arith;
  day_fits = omega arith;
  night_fits = omega arith;
  up_trigger_fits = omega arith;
  down_trigger_fits = omega arith;
  debounce_fits = omega arith;
  interval_fits = omega arith;
  timeout_fits = omega arith;
  on_value_fits = omega arith;
  off_value_fits = omega arith;
  on_step_fits = omega arith;
  off_step_fits = omega arith;
  count_fits = omega arith;
  block_fits = omega arith;
  emergency_cnt_fits = omega arith;
  ssid_is_array = omega arith;
  pass_is_array = omega arith;
  crc_fits = omega arith;
}

-- Erased flash, then flash that holds the chosen settings.
abbrev pub works : FlashRun platform
works = record {
  erase_ok = true;
  erased = small;
  program_ok = true;
  programmed = stamped platform chosen;
}

abbrev pub memory : Memory platform
memory = record { global = default_settings platform; flash = small }

settings_validate_iff_example : (settings_validate chosen ≡ ErrCode.success) ↔ IsConsistent chosen
settings_validate_iff_example = settings_validate_iff chosen

chosen_applies : (settings_apply platform works (some chosen) memory).0 ≡ ErrCode.success
chosen_applies =
    settings_apply-works platform works chosen memory platform-IsFaithful chosen-IsConsistent refl
      refl refl

settings_apply-init_example :
    let flash = (settings_apply platform works (some chosen) memory).1.flash in
    settings_init platform works (record { global = small; flash = flash })
    ≡ (ErrCode.success, record { global = stamped platform chosen; flash = flash })
settings_apply-init_example =
    settings_apply-init platform works works chosen small memory platform-IsFaithful chosen-IsStruct
      chosen_applies

settings_apply_lem_example :
    ((¬ IsConsistent chosen)
      × (settings_apply platform works (some chosen) memory ≡ (ErrCode.param_invalid, memory)))
    ⊎ (IsConsistent chosen
        × ((settings_apply platform works (some chosen) memory).1.global ≡ stamped platform chosen))
settings_apply_lem_example = settings_apply_lem platform works chosen memory

-- {"led_count": 30}
abbrev pub body : List ℕ
body = codes "{\"led_count\": 30}"

-- {"x":"led_count","led_count":30}: the value of "x" hides the key.
hidden_key :
    json_find_value (codes "{\"x\":\"led_count\",\"led_count\":30}") (codes "led_count") ≡ none
unfolding json_find_value strstr starts_with skip_spaces after_colon
hidden_key = refl

get_settings_json_fits_example : get_settings_json 1024 chosen ≡ ok (settings_text chosen)
get_settings_json_fits_example = get_settings_json_fits chosen chosen-IsStruct

abbrev pub leds_count : SettingCommand
leds_count = record {
  name = codes "leds_count";
  label = codes "Leds count";
  field = number 4294967295 (λ s. s.led_count) (λ v s. record s { led_count = v });
}

set_setting-AllOrNone_example :
    AllOrNone platform memory (set_setting platform works leds_count (codes "30" ∷ []) memory).1
set_setting-AllOrNone_example =
    set_setting-AllOrNone platform works leds_count (codes "30" ∷ []) memory
