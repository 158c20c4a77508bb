-- ===== src/Body/Laws.antt =====
-- network/http_server/settings.c: the consistency of the settings around set_settings_json.
use pico_stairway_controller.Base.{ℕ, ◌≡◌, ◌⊎◌, inl, inr, ap, refl, Option, none, some, List}
use pico_stairway_controller.Types.{Settings}
use pico_stairway_controller.Json.{Result, ok, error}
use pico_stairway_controller.Settings.{Platform, Memory, FlashRun, stamped}
use pico_stairway_controller.Settings.Check.{IsConsistent}
use pico_stairway_controller.Settings.Flash.{settings_apply_lem}
use pico_stairway_controller.Body.{apply_parsed, set_settings_json}

module _ (p : Platform) where
  -- Nothing has changed, or the active settings are consistent ones under the header.
  abbrev pub AllOrNone : Memory p → Memory p → Type 0
  AllOrNone m m' = (m' ≡ m) ⊎ ((s : Settings) × IsConsistent s × (m'.global ≡ stamped p s))

  apply_parsed-AllOrNone :
      (run : FlashRun p) (m : Memory p) (r : Result Settings)
      → AllOrNone m (apply_parsed p run m r).1
  unfolding apply_parsed
  apply_parsed-AllOrNone run m (error e) = inl refl
  apply_parsed-AllOrNone run m (ok s) = elim (settings_apply_lem p run s m) [
    | inl refused ↦ inl (ap (λ r. r.1) refused.1)
    | inr applied ↦ inr (s, applied.0, applied.1)
  ]

  -- Whatever the body is, and whatever the flash does: afterwards nothing has changed, neither in
  -- memory nor in flash, or the active settings are consistent ones, stamped with the header.
  pub set_settings_json-AllOrNone :
      (run : FlashRun p) (json : Option (List ℕ)) (m : Memory p)
      → AllOrNone m (set_settings_json p run json m).1
  unfolding set_settings_json
  set_settings_json-AllOrNone run none m = inl refl
  set_settings_json-AllOrNone run (some json) m = apply_parsed-AllOrNone run m _
