-- ===== src/Body/Restore/Restart.antt =====
-- network/http_server/settings.c and settings/settings.c: the settings of one device in the flash
-- of another one.
use pico_stairway_controller.Base.{
  ℕ, zero, suc, ◌≤◌, ◌≡◌, ◌∙◌, ap, sym, arith, List, [], ◌∷◌, some, length, c_string,
}
use pico_stairway_controller.Types.{Settings, ErrCode}
use pico_stairway_controller.Json.{ok}
use pico_stairway_controller.Settings.{Platform, Memory, FlashRun, strnlen, settings_init, stamped}
use pico_stairway_controller.Settings.Check.{IsConsistent}
use pico_stairway_controller.Settings.Flash.{IsFaithful, IsStruct, AllBytes, settings_apply-init}
use pico_stairway_controller.Settings.Fields.{numbers_fit, arrays_fit, fit-IsStruct}
use pico_stairway_controller.Body.{set_settings_json}
use pico_stairway_controller.Body.Print.{get_settings_json}
use pico_stairway_controller.Body.Typed.{ssid-KeepsStruct}
use pico_stairway_controller.Body.Restore.Whole.{
  restored, length-c_string, set_settings_json-get_settings_json,
}

c_string-AllBytes : (str : List ℕ) → AllBytes str → AllBytes (c_string str)
c_string-AllBytes [] h = tt
c_string-AllBytes (zero ∷ rest) h = tt
c_string-AllBytes (suc c ∷ rest) h = (h.0, c_string-AllBytes rest h.1)

restored-IsStruct :
    (s m : Settings) → IsStruct s → IsStruct m → strnlen s.ssid ≤ 32 → IsStruct (restored s m)
restored-IsStruct s m i j short =
    let arrays = arrays_fit s i in
    let kept = arrays_fit m j in
    let mixed : Settings = record s {
      magic = m.magic;
      version = m.version;
      size = m.size;
      ssid = m.ssid;
      pass = m.pass;
      ap_state = m.ap_state;
      crc = m.crc;
    } in
    let numbers = numbers_fit s i in
    let header = numbers_fit m j in
    let mixed-IsStruct : IsStruct mixed = fit-IsStruct mixed (omega arith) kept in
    let len : length (c_string s.ssid) ≡ strnlen s.ssid = length-c_string s.ssid in
    ssid-KeepsStruct (c_string s.ssid) mixed (omega arith) (c_string-AllBytes s.ssid arrays.1)
      mixed-IsStruct

module _ (p : Platform) where
  -- The settings that one device prints and another one takes over successfully are, but for the
  -- password and the state of the access point, which stay the other's own, its active settings
  -- after a restart, and the restart writes nothing.
  pub set_settings_json-settings_init :
      (run run' : FlashRun p) (size : ℕ) (s boot : Settings) (json : List ℕ) (m : Memory p)
      → IsFaithful p
      → IsStruct s
      → IsConsistent s
      → IsStruct m.global
      → get_settings_json size s ≡ ok json
      → (set_settings_json p run (some json) m).0 ≡ ErrCode.success
      → let flash = (set_settings_json p run (some json) m).1.flash in
        settings_init p run' (record { global = boot; flash = flash })
        ≡ (ErrCode.success, record { global = stamped p (restored s m.global); flash = flash })
  set_settings_json-settings_init run run' size s boot json m f i c j printed accepted =
      let e : _ = set_settings_json-get_settings_json p run size s json m i c printed in
      let len : _ = c.ssid_len in
      let typed = restored-IsStruct s m.global i j (omega arith) in
      rw e (
        settings_apply-init p run run' (restored s m.global) boot m f typed
          (ap (λ r. r.0) (sym e) ∙ accepted))
