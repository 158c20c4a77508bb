-- ===== src/Body/Restore/Texts.antt =====
-- network/http_server/settings.c: reading the access point's name and password back, the last two
-- entries of a printed text of the settings.
use mathlib.Core.Path.{subst}
use pico_stairway_controller.Base.{
  ℕ, zero, suc, ◌<◌, ◌≡◌, ◌⊎◌, inl, inr, ◌∙◌, ap, sym, refl, arith, ◌==◌, ◌&&◌, ◌||◌, not, Bool,
  true, false, List, [], ◌∷◌, ◌++◌, Option, none, some, length, drop, codes, c_string, starts_with,
  strstr, Bool-cases,
}
use pico_stairway_controller.Types.{Settings}
use pico_stairway_controller.Json.{ok, quote, backslash, parse_from, json_parse_string}
use pico_stairway_controller.Json.Strings.{IsText, escape, parse_from-escape}
use pico_stairway_controller.Body.{text, strcpy, assign_text, set_field, set_fields, settings_map}
use pico_stairway_controller.Body.Search.{skip_spaces, after_colon, json_find_value}
use pico_stairway_controller.Body.Print.{key_text}
use pico_stairway_controller.Body.Print.Laws.{append_assoc, field_text, fields_text}
use pico_stairway_controller.Body.Places.{
  quoted, clash, passes, Passes, passes-Passes, value_at, json_find_value_lem,
  json_find_value-key_text,
}
use pico_stairway_controller.Body.Restore.{Entries, Skips, restore_field, restore, set_fields-found}

-- No quote and no backslash.
unfoldable is_plain_text : List ℕ → Bool
is_plain_text [] = true
is_plain_text (c ∷ cs) = not ((c == quote) || (c == backslash)) && is_plain_text cs

-- A key that ends inside an escaped text ends with the quote behind that text.
key_end :
    (key str rest : List ℕ)
    → is_plain_text key ≡ true
    → starts_with (key ++ 34 ∷ []) (escape str ++ 34 ∷ rest) ≡ true
    → drop (length (key ++ 34 ∷ [])) (escape str ++ 34 ∷ rest) ≡ rest
unfolding is_plain_text starts_with escape
key_end [] [] rest plain h = refl
key_end (k ∷ key) [] rest plain h = absurd (ground arith)
key_end [] (c ∷ str) rest plain h = elim (Bool-cases ((c == quote) || (c == backslash))) [
  | inl special ↦ absurd (ground arith)
  | inr other ↦ absurd (ground arith)
]
key_end (k ∷ key) (c ∷ str) rest plain h = elim (Bool-cases ((c == quote) || (c == backslash))) [
  | inl special ↦ absurd (ground arith)
  | inr other ↦
      let more : starts_with (key ++ 34 ∷ []) (escape str ++ 34 ∷ rest) ≡ true = ground arith in
      rw other (key_end key str rest (ground arith) more)
]

-- The key is not found, or with the value.
abbrev NoneOr : List ℕ → Option (List ℕ) → Type 0
NoneOr val found = (found ≡ none) ⊎ (found ≡ some val)

drop_one :
    (xs : List ℕ) (c : ℕ) (rest : List ℕ)
    → drop (length (34 ∷ xs)) (c ∷ rest) ≡ drop (length xs) rest
drop_one xs c rest = refl

-- If the key begins at the character, it ends at the quote, and no colon follows.
after_here :
    (key str own : List ℕ) (c : ℕ)
    → is_plain_text key ≡ true
    → starts_with (quoted key) (c ∷ (escape str ++ 34 ∷ 44 ∷ own)) ≡ true
    → value_at (quoted key) (some (c ∷ (escape str ++ 34 ∷ 44 ∷ own))) ≡ none
after_here key str own c plain here =
    let more : starts_with (key ++ 34 ∷ []) (escape str ++ 34 ∷ 44 ∷ own) ≡ true =
      unfold starts_with in ground arith in
    ap (λ t. after_colon (skip_spaces t)) (key_end key str (44 ∷ own) plain more)
    ∙ (unfold after_colon skip_spaces in refl)

at-NoneOr :
    (key str own val : List ℕ) (c : ℕ)
    → is_plain_text key ≡ true
    → NoneOr val (value_at (quoted key) (strstr (escape str ++ 34 ∷ 44 ∷ own) (quoted key)))
    → NoneOr val (value_at (quoted key) (strstr (c ∷ (escape str ++ 34 ∷ 44 ∷ own)) (quoted key)))
unfolding strstr
at-NoneOr key str own val c plain later =
    elim (Bool-cases (starts_with (quoted key) (c ∷ (escape str ++ 34 ∷ 44 ∷ own)))) [
      | inl here ↦ rw here (inl (after_here key str own c plain here))
      | inr other ↦ rw other later
    ]

strstr-backslash :
    (rest pat : List ℕ) → strstr (backslash ∷ rest) (34 ∷ pat) ≡ strstr rest (34 ∷ pat)
unfolding strstr starts_with
strstr-backslash rest pat = refl

-- Nowhere in an escaped text does the key stand with a colon behind it.
escape-NoneOr :
    (key own val str : List ℕ)
    → is_plain_text key ≡ true
    → NoneOr val (value_at (quoted key) (strstr (34 ∷ 44 ∷ own) (quoted key)))
    → NoneOr val (value_at (quoted key) (strstr (escape str ++ 34 ∷ 44 ∷ own) (quoted key)))
unfolding escape
escape-NoneOr key own val [] plain end = end
escape-NoneOr key own val (c ∷ str) plain end =
    let later : _ = at-NoneOr key str own val c plain (escape-NoneOr key own val str plain end) in
    elim (Bool-cases ((c == quote) || (c == backslash))) [
      | inl special ↦
          rw special
            (rw (strstr-backslash (c ∷ (escape str ++ 34 ∷ 44 ∷ own)) (key ++ 34 ∷ [])) later)
      | inr other ↦ rw other later
    ]

abbrev pub text_entries : Entries
text_entries = drop 21 settings_map

abbrev empty_value : List ℕ
empty_value = 34 ∷ 34 ∷ 125 ∷ []

abbrev own_pass : List ℕ
own_pass = key_text (codes "wifi_pass") empty_value

-- The last two entries, for the access point's name `ssid`.
abbrev texts_of : List ℕ → List ℕ
texts_of ssid = key_text (codes "wifi_ssid") (34 ∷ (escape ssid ++ 34 ∷ 44 ∷ own_pass))

texts_of_lem : (s : Settings) → fields_text text_entries s ++ 125 ∷ [] ≡ texts_of (c_string s.ssid)
unfolding fields_text field_text
texts_of_lem s =
    ap (λ t. key_text (codes "wifi_ssid") (34 ∷ t))
      (ap (λ t. t ++ 125 ∷ []) (append_assoc (escape (c_string s.ssid)) (34 ∷ 44 ∷ []) _)
        ∙ append_assoc (escape (c_string s.ssid)) _ (125 ∷ []))

pass_found :
    (front ssid : List ℕ)
    → Passes (quoted (codes "wifi_pass")) front
    → NoneOr empty_value (json_find_value (front ++ texts_of ssid) (codes "wifi_pass"))
pass_found front ssid pass =
    let key : List ℕ = codes "wifi_pass" in
    let value : List ℕ = 34 ∷ (escape ssid ++ 34 ∷ 44 ∷ own_pass) in
    let before : Passes (quoted (codes "wifi_pass")) (key_text (codes "wifi_ssid") []) =
      passes-Passes (quoted (codes "wifi_pass")) (key_text (codes "wifi_ssid") [])
        (unfold passes clash in refl) in
    subst (λ o. NoneOr empty_value o)
      (sym (
        json_find_value_lem (front ++ texts_of ssid) (codes "wifi_pass") refl
        ∙ ap (value_at (quoted (codes "wifi_pass"))) (pass (texts_of ssid) ∙ before value)))
      (at-NoneOr (codes "wifi_pass") ssid own_pass empty_value 34 (unfold is_plain_text in refl) (
        escape-NoneOr (codes "wifi_pass") own_pass empty_value ssid (unfold is_plain_text in refl)
          (inr (unfold strstr starts_with skip_spaces after_colon in refl))))

pass_kept :
    (s m : Settings) (json : List ℕ)
    → NoneOr empty_value (json_find_value json (codes "wifi_pass"))
    → set_fields (drop 22 settings_map) json (ok m) ≡ ok m
unfolding set_fields
pass_kept s m json (inl absent) = rw (set_fields, absent) refl
pass_kept s m json (inr there) =
    rw (set_fields, there) (unfold set_field json_parse_string parse_from in refl)

IsText-c_string : (str : List ℕ) → IsText (c_string str)
IsText-c_string [] = tt
IsText-c_string (zero ∷ rest) = tt
IsText-c_string (suc c ∷ rest) = (omega arith, IsText-c_string rest)

json_parse_string-escape :
    (str tail : List ℕ) (size : ℕ)
    → IsText str
    → length str < size
    → json_parse_string (34 ∷ (escape str ++ 34 ∷ tail)) size ≡ ok str
unfolding json_parse_string
json_parse_string-escape str tail size is_text room =
    parse_from-escape str tail size 0 is_text (omega arith)

-- The name is read back, and the password kept.
pub set_fields-texts :
    (s : Settings) (front : List ℕ) (m : Settings)
    → length (c_string s.ssid) < 33
    → Skips front text_entries
    → set_fields text_entries (front ++ (fields_text text_entries s ++ 125 ∷ [])) (ok m)
      ≡ ok (restore text_entries s m)
set_fields-texts s front m room skips =
    let ssid : List ℕ = c_string s.ssid in
    let value : List ℕ = 34 ∷ (escape ssid ++ 34 ∷ 44 ∷ own_pass) in
    let m' : Settings = record m { ssid = strcpy m.ssid ssid } in
    let found : json_find_value (front ++ texts_of ssid) (codes "wifi_ssid") ≡ some value =
      json_find_value-key_text front (codes "wifi_ssid") value refl skips.0
        (unfold skip_spaces in refl) in
    let set : set_field (text 33 false (λ s. s.ssid) (λ v s. record s { ssid = strcpy s.ssid v }))
          value m
        ≡ ok m' =
      unfold set_field in
      ap (assign_text false (λ v s. record s { ssid = strcpy s.ssid v }) m)
        (json_parse_string-escape ssid (44 ∷ own_pass) 33 (IsText-c_string s.ssid) room) in
    ap (λ t. set_fields text_entries (front ++ t) (ok m)) (texts_of_lem s)
    ∙ set_fields-found (codes "wifi_ssid") value (front ++ texts_of ssid) _ (drop 22 settings_map) m
        m' found set
    ∙ pass_kept s m' (front ++ texts_of ssid) (pass_found front ssid skips.1.0)
    ∙ (unfold restore restore_field in refl)
