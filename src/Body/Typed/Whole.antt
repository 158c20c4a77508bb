-- ===== src/Body/Typed/Whole.antt =====
-- network/http_server/settings.c: the types of the C struct, and the table of the settings.
use mathlib.Core.Path.{subst}
use pico_stairway_controller.Base.{ap, sym, inl, inr, ℕ, List, some}
use pico_stairway_controller.Types.{Settings}
use pico_stairway_controller.Json.{Result, ok, error}
use pico_stairway_controller.Settings.{Platform, Memory, FlashRun, settings_apply}
use pico_stairway_controller.Settings.Flash.{
  IsFaithful, IsStruct, AllBytes, stamped-IsStruct, settings_apply_lem,
}
use pico_stairway_controller.Body.{settings_map, apply_parsed, set_fields, set_settings_json}
use pico_stairway_controller.Body.Typed.{settings_map-AllKeepStruct}
use pico_stairway_controller.Body.Typed.Values.{IsTyped, set_fields-IsTyped}

module _ (p : Platform) (f : IsFaithful p) where
  pub settings_apply-IsStruct :
      (run : FlashRun p) (s : Settings) (m : Memory p)
      → IsStruct s
      → IsStruct m.global
      → IsStruct (settings_apply p run (some s) m).1.global
  settings_apply-IsStruct run s m new old = elim (settings_apply_lem p run s m) [
    | inl refused ↦ subst IsStruct (sym (ap (λ r. r.1.global) refused.1)) old
    | inr applied ↦ subst IsStruct (sym applied.1) (stamped-IsStruct p f s new)
  ]

  apply_parsed-IsStruct :
      (run : FlashRun p) (m : Memory p) (r : Result Settings)
      → IsTyped r
      → IsStruct m.global
      → IsStruct (apply_parsed p run m r).1.global
  unfolding apply_parsed
  apply_parsed-IsStruct run m (error e) new old = old
  apply_parsed-IsStruct run m (ok s) new old = settings_apply-IsStruct run s m new old

  -- Whatever bytes the body holds, no number that it sets is wider than its field and no string
  -- longer than its array: settings that are a value of the C struct stay one.
  pub set_settings_json-IsStruct :
      (run : FlashRun p) (json : List ℕ) (m : Memory p)
      → AllBytes json
      → IsStruct m.global
      → IsStruct (set_settings_json p run (some json) m).1.global
  unfolding set_settings_json
  set_settings_json-IsStruct run json m bytes i =
      apply_parsed-IsStruct run m (set_fields settings_map json (ok m.global))
        (set_fields-IsTyped settings_map json (ok m.global) settings_map-AllKeepStruct bytes i) i
