-- ===== src/Body/Restore/Whole.antt =====
-- network/http_server/settings.c: set_settings_json on a text that get_settings_json has printed.
use pico_stairway_controller.Base.{
  ℕ, zero, suc, ◌+◌, ◌<◌, ◌≤◌, ◌≡◌, ◌∙◌, ap, sym, refl, arith, true, List, [], ◌∷◌, ◌++◌, some,
  length, drop, take, codes, c_string, inl, inr,
}
use pico_stairway_controller.Types.{Settings, ErrCode}
use pico_stairway_controller.Json.{ok, error}
use pico_stairway_controller.Settings.{Platform, Memory, FlashRun, strnlen, settings_apply, stamped}
use pico_stairway_controller.Settings.Check.{IsConsistent}
use pico_stairway_controller.Settings.Flash.{IsStruct, settings_apply_lem}
use pico_stairway_controller.Body.{
  strcpy, set_fields, settings_map, apply_parsed, set_settings_json,
}
use pico_stairway_controller.Body.Places.{clash, passes}
use pico_stairway_controller.Body.Print.{get_settings_json}
use pico_stairway_controller.Body.Print.Laws.{
  append_assoc, fields_text, settings_text, get_settings_json_lem,
}
use pico_stairway_controller.Body.Restore.{
  Entries, Skips, FitsAll, restore, restore_field, all_pass, all_pass-Skips, is_readable,
  set_fields-plain,
}
use pico_stairway_controller.Body.Restore.Texts.{text_entries, set_fields-texts}

-- All settings of `s` but the password, over the settings `m`, of which the password, the state of
-- the access point and the header stay.
abbrev pub restored : Settings → Settings → Settings
restored s m = record s {
  magic = m.magic;
  version = m.version;
  size = m.size;
  ssid = strcpy m.ssid (c_string s.ssid);
  pass = m.pass;
  ap_state = m.ap_state;
  crc = m.crc;
}

abbrev plain_entries : Entries
plain_entries = take 21 settings_map

pub length-c_string : (str : List ℕ) → length (c_string str) ≡ strnlen str
unfolding strnlen
length-c_string [] = refl
length-c_string (zero ∷ rest) = refl
length-c_string (suc c ∷ rest) = omega (arith, length-c_string rest)

numbers-FitsAll : (s : Settings) → IsStruct s → FitsAll plain_entries s
numbers-FitsAll s i =
    let day = i.day_fits in
    let night = i.night_fits in
    let up_trigger = i.up_trigger_fits in
    let down_trigger = i.down_trigger_fits in
    let debounce = i.debounce_fits in
    let interval = i.interval_fits in
    let timeout = i.timeout_fits in
    let on_value = i.on_value_fits in
    let off_value = i.off_value_fits in
    let on_step = i.on_step_fits in
    let off_step = i.off_step_fits in
    let leds = i.count_fits in
    let block = i.block_fits in
    let cnt = i.emergency_cnt_fits in
    (
      tt,
      (
        (omega arith, omega arith),
        (
          (omega arith, omega arith),
          (
            (omega arith, omega arith),
            (
              (omega arith, omega arith),
              (
                tt,
                (
                  (omega arith, omega arith),
                  (
                    (omega arith, omega arith),
                    (
                      tt,
                      (
                        (omega arith, omega arith),
                        (
                          (omega arith, omega arith),
                          (
                            (omega arith, omega arith),
                            (
                              (omega arith, omega arith),
                              (
                                (omega arith, omega arith),
                                (
                                  (omega arith, omega arith),
                                  (
                                    (omega arith, omega arith),
                                    (
                                      (omega arith, omega arith),
                                      (
                                        tt,
                                        (
                                          (omega arith, omega arith),
                                          (
                                            (omega arith, omega arith),
                                            ((omega arith, omega arith), tt),
                                          ),
                                        ),
                                      ),
                                    ),
                                  ),
                                ),
                              ),
                            ),
                          ),
                        ),
                      ),
                    ),
                  ),
                ),
              ),
            ),
          ),
        ),
      ),
    )

table-is_readable : is_readable plain_entries text_entries ≡ true
unfolding is_readable all_pass passes clash
table-is_readable = refl

brace-Skips : Skips (codes "{") settings_map
brace-Skips = all_pass-Skips (codes "{") settings_map (unfold all_pass passes clash in refl)

set_fields-settings_text :
    (s m : Settings)
    → IsStruct s
    → strnlen s.ssid ≤ 32
    → set_fields settings_map (settings_text s) (ok m) ≡ ok (restored s m)
set_fields-settings_text s m i short =
    let len : length (c_string s.ssid) ≡ strnlen s.ssid = length-c_string s.ssid in
    let whole : settings_text s ≡ codes "{" ++ (fields_text settings_map s ++ codes "}") =
      unfold settings_text in append_assoc (codes "{") (fields_text settings_map s) (codes "}") in
    ap (λ t. set_fields settings_map t (ok m)) whole
    ∙ set_fields-plain s (codes "}") _ _ plain_entries table-is_readable (numbers-FitsAll s i)
        (λ front m. set_fields-texts s front m (omega arith)) (codes "{") m brace-Skips
    ∙ (unfold restore restore_field in refl)

ok-out : {a b : List ℕ} → ok a ≡ ok b → a ≡ b
ok-out e = cc

ok-error : {a : List ℕ} {e : ErrCode} → ok a ≡ error e → ⊥
ok-error e = cc

printed-settings_text :
    (size : ℕ) (s : Settings) (json : List ℕ)
    → get_settings_json size s ≡ ok json
    → json ≡ settings_text s
printed-settings_text zero s json printed =
    let e : get_settings_json 0 s ≡ error ErrCode.param_invalid =
      unfold get_settings_json in refl in
    absurd (ok-error (sym printed ∙ e))
printed-settings_text (suc size) s json printed =
    elim (get_settings_json_lem (suc size) s (omega arith)) [
      | inl fits ↦ ok-out (sym printed ∙ fits.1)
      | inr over ↦ absurd (ok-error (sym printed ∙ over.1))
    ]

strcpy-c_string : (str : List ℕ) → strnlen str < length str → strcpy str (c_string str) ≡ str
unfolding strnlen
strcpy-c_string [] h = absurd (omega arith)
strcpy-c_string (zero ∷ rest) h = refl
strcpy-c_string (suc c ∷ rest) h =
    let len : suc (length (c_string rest)) + 1 ≡ suc (length (c_string rest) + 1) = omega arith in
    ap (λ n. suc c ∷ (c_string rest ++ 0 ∷ drop n (suc c ∷ rest))) len
    ∙ ap (λ t. suc c ∷ t) (strcpy-c_string rest (omega arith))

restored-own : (s : Settings) → strnlen s.ssid < length s.ssid → restored s s ≡ s
restored-own s h = ap (λ t. record s { ssid = t }) (strcpy-c_string s.ssid h)

module _ (p : Platform) where
  -- A text that get_settings_json has printed for consistent settings is accepted by
  -- set_settings_json as exactly these settings: it applies them over the active ones, of which the
  -- password, which is not in the text, and the state of the access point stay.
  pub set_settings_json-get_settings_json :
      (run : FlashRun p) (size : ℕ) (s : Settings) (json : List ℕ) (m : Memory p)
      → IsStruct s
      → IsConsistent s
      → get_settings_json size s ≡ ok json
      → set_settings_json p run (some json) m ≡ settings_apply p run (some (restored s m.global)) m
  unfolding set_settings_json apply_parsed
  set_settings_json-get_settings_json run size s json m i c printed =
      let len : _ = c.ssid_len in
      rw (printed-settings_text size s json printed)
        (ap (apply_parsed p run m) (set_fields-settings_text s m.global i (omega arith)))

  -- Sending back the printed text of the active settings, if these are consistent, leaves them as
  -- they are under the header, whatever the flash does.
  pub set_settings_json-own :
      (run : FlashRun p) (size : ℕ) (json : List ℕ) (m : Memory p)
      → IsStruct m.global
      → IsConsistent m.global
      → get_settings_json size m.global ≡ ok json
      → (set_settings_json p run (some json) m).1.global ≡ stamped p m.global
  set_settings_json-own run size json m i c printed =
      let len : _ = c.ssid_len in
      let array : _ = i.ssid_is_array.0 in
      let same : restored m.global m.global ≡ m.global = restored-own m.global (omega arith) in
      let e : _ = set_settings_json-get_settings_json run size m.global json m i c printed in
      ap (λ r. r.1.global) (e ∙ ap (λ s. settings_apply p run (some s) m) same)
      ∙ elim (settings_apply_lem p run m.global m) [
        | inl refused ↦ absurd (refused.0 c)
        | inr applied ↦ applied.1
      ]
