-- ===== src/Commands/Laws.antt =====
-- commands/commands.c: the consistency of the settings around the commands.
use pico_stairway_controller.Base.{ℕ, ◌≡◌, ap, inl, inr, refl, List, some, Bool-cases}
use pico_stairway_controller.Types.{Settings, ErrCode}
use pico_stairway_controller.Json.{Result, ok, error}
use pico_stairway_controller.Settings.{
  Platform, Memory, FlashRun, settings_apply, settings_validate, is_success,
}
use pico_stairway_controller.Settings.Flash.{settings_apply_lem}
use pico_stairway_controller.Body.Laws.{AllOrNone}
use pico_stairway_controller.Commands.{SettingCommand, report_setting, apply_setting, set_setting}

module _ (p : Platform) where
  pub report_setting_lem :
      (cmd : SettingCommand) (x : ErrCode × Memory p) → (report_setting p cmd x).1 ≡ x.1
  report_setting_lem cmd (ErrCode.success, m) = refl
  report_setting_lem cmd (_, m) = refl

  apply_setting-AllOrNone :
      (run : FlashRun p) (cmd : SettingCommand) (m : Memory p) (r : Result Settings)
      → AllOrNone p m (apply_setting p run cmd m r).1
  apply_setting-AllOrNone run cmd m (error e) = inl refl
  apply_setting-AllOrNone run cmd m (ok s) = elim (Bool-cases (is_success (settings_validate s))) [
    | inr refused ↦ rw refused (inl refl)
    | inl fine ↦
        rw (fine, report_setting_lem cmd (settings_apply p run (some s) m))
          (elim (settings_apply_lem p run s m) [
            | inl refused ↦ inl (ap (λ r. r.1) refused.1)
            | inr applied ↦ inr (s, applied.0, applied.1)
          ])
  ]

  -- Whatever is typed behind a setting's command, and whatever the flash does: afterwards nothing has
  -- changed, or the active settings are consistent ones, stamped with the header.
  pub set_setting-AllOrNone :
      (run : FlashRun p) (cmd : SettingCommand) (args : List (List ℕ)) (m : Memory p)
      → AllOrNone p m (set_setting p run cmd args m).1
  unfolding set_setting
  set_setting-AllOrNone run cmd args m = apply_setting-AllOrNone run cmd m _
