-- ===== src/Examples/Printed.antt =====
-- The settings sent back as they were printed, and settings that keep their types.
use pico_stairway_controller.Base.{ap, ◌∙◌, ◌≡◌, refl, arith, [], ◌∷◌, some, codes, inl, inr}
use pico_stairway_controller.Settings.{Memory, stamped, settings_apply}
use pico_stairway_controller.Settings.Flash.{IsStruct, AllBytes}
use pico_stairway_controller.Types.{ErrCode}
use pico_stairway_controller.Json.{ok}
use pico_stairway_controller.Settings.{settings_init, padding}
use pico_stairway_controller.Settings.Flash.{settings_apply-works}
use pico_stairway_controller.Settings.Fields.{fit-IsStruct}
use pico_stairway_controller.Body.Print.{get_settings_json}
use pico_stairway_controller.Body.Restore.Restart.{set_settings_json-settings_init}
use pico_stairway_controller.Body.{set_settings_json}
use pico_stairway_controller.Examples.{small}
use pico_stairway_controller.Body.Print.Laws.{settings_text}
use pico_stairway_controller.Body.Print.Bound.{get_settings_json_fits}
use pico_stairway_controller.Body.Restore.Whole.{restored, set_settings_json-get_settings_json}
use pico_stairway_controller.Body.Typed.Whole.{set_settings_json-IsStruct}
use pico_stairway_controller.Commands.{set_setting, setting_commands}
use pico_stairway_controller.Commands.Typed.{IsOneOf, set_setting-IsStruct}
use pico_stairway_controller.Examples.Store.{
  platform, platform-IsFaithful, works, memory, chosen, chosen-IsStruct, chosen-IsConsistent, body,
  leds_count,
}

set_settings_json-get_settings_json_example :
    set_settings_json platform works (some (settings_text chosen)) memory
    ≡ settings_apply platform works (some (restored chosen memory.global)) memory
set_settings_json-get_settings_json_example =
    set_settings_json-get_settings_json platform works 1024 chosen (settings_text chosen) memory
      chosen-IsStruct chosen-IsConsistent (get_settings_json_fits chosen chosen-IsStruct)

abbrev chosen_memory : Memory platform
chosen_memory = record memory { global = chosen }

body-AllBytes : AllBytes body
body-AllBytes = omega arith

set_settings_json-IsStruct_example :
    IsStruct (set_settings_json platform works (some body) chosen_memory).1.global
set_settings_json-IsStruct_example =
    set_settings_json-IsStruct platform platform-IsFaithful works body chosen_memory body-AllBytes
      chosen-IsStruct

leds_count-IsOneOf : IsOneOf leds_count setting_commands
leds_count-IsOneOf = inr (inr (inr (inr (inr (inr (inr (inr (inr (inr (inl refl))))))))))

set_setting-IsStruct_example :
    IsStruct (set_setting platform works leds_count (codes "30" ∷ []) chosen_memory).1.global
set_setting-IsStruct_example =
    set_setting-IsStruct platform platform-IsFaithful works leds_count (codes "30" ∷ [])
      chosen_memory leds_count-IsOneOf (omega arith) chosen-IsStruct

-- The chosen settings, printed and sent to a device with the default ones.
printed : get_settings_json 1024 chosen ≡ ok (settings_text chosen)
printed = get_settings_json_fits chosen chosen-IsStruct

chosen-restored : restored chosen memory.global ≡ chosen
unfolding padding
chosen-restored = refl

chosen_accepted :
    (set_settings_json platform works (some (settings_text chosen)) memory).0 ≡ ErrCode.success
chosen_accepted =
    ap (λ r. r.0)
      (set_settings_json-get_settings_json platform works 1024 chosen (settings_text chosen) memory
        chosen-IsStruct chosen-IsConsistent printed)
    ∙ ap (λ s. (settings_apply platform works (some s) memory).0) chosen-restored
    ∙ settings_apply-works platform works chosen memory platform-IsFaithful chosen-IsConsistent refl
        refl refl

default_settings-IsStruct : IsStruct memory.global
unfolding padding
default_settings-IsStruct =
    fit-IsStruct memory.global (omega arith) (refl, omega arith, refl, omega arith)

set_settings_json-settings_init_example :
    let flash = (set_settings_json platform works (some (settings_text chosen)) memory).1.flash in
    settings_init platform works (record { global = small; flash = flash }) ≡ (
      ErrCode.success,
      record { global = stamped platform (restored chosen memory.global); flash = flash },
    )
set_settings_json-settings_init_example =
    set_settings_json-settings_init platform works works 1024 chosen small (settings_text chosen)
      memory platform-IsFaithful chosen-IsStruct chosen-IsConsistent default_settings-IsStruct
      printed chosen_accepted
