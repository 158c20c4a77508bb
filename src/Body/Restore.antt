-- ===== src/Body/Restore.antt =====
-- network/http_server/settings.c: reading a printed text of the settings back, entry by entry.
pub mod Texts
pub mod Whole
pub mod Restart
use pico_stairway_controller.Base.{
  ℕ, ◌≤◌, ◌<◌, ◌^◌, ◌≡◌, ◌∙◌, ap, sym, refl, arith, leb, ◌&&◌, not, Bool, true, false, List, [],
  ◌∷◌, ◌++◌, Option, some, length, c_string, starts_with, strstr, codes,
}
use pico_stairway_controller.Types.{Settings}
use pico_stairway_controller.Json.{Result, ok}
use pico_stairway_controller.Numbers.{print_uint}
use pico_stairway_controller.Numbers.Decimal.{json_parse_uint-print_uint}
use pico_stairway_controller.Body.{Field, number, flag, text, assign, set_field, set_fields}
use pico_stairway_controller.Body.Search.{
  json_key_buf_size, skip_spaces, json_find_value, json_parse_bool,
}
use pico_stairway_controller.Body.Print.{key_text, bool_text, separator}
use pico_stairway_controller.Body.Print.Laws.{append_assoc, field_text, fields_text}
use pico_stairway_controller.Body.Places.{
  quoted, clash, passes, Passes, passes-Passes, append-Passes, strstr-print_uint, print_uint-append,
  skip_spaces-print_uint, key_text-append, json_find_value-key_text,
}

abbrev pub Entries : Type 0
Entries = List (List ℕ × Field)

-- What the text of the settings `s` makes of the settings `m`.
unfoldable pub restore_field : Field → Settings → Settings → Settings
restore_field (number max read write) s m = write (read s) m
restore_field (flag read write) s m = write (read s) m
restore_field (text max_len true read write) s m = m
restore_field (text max_len false read write) s m = write (c_string (read s)) m

unfoldable pub restore : Entries → Settings → Settings → Settings
restore [] s m = m
restore ((name, field) ∷ rest) s m = restore rest s (restore_field field s m)

-- The search for each of the keys runs over the text.
abbrev pub Skips : List ℕ → Entries → Type 0
Skips front [] = Unit
Skips front ((name, field) ∷ rest) = Passes (quoted name) front × Skips front rest

unfoldable pub all_pass : List ℕ → Entries → Bool
all_pass front [] = true
all_pass front ((name, field) ∷ rest) = passes (quoted name) front && all_pass front rest

pub all_pass-Skips : (front : List ℕ) (es : Entries) → all_pass front es ≡ true → Skips front es
unfolding all_pass
all_pass-Skips front [] h = tt
all_pass-Skips front ((name, field) ∷ rest) h =
    (passes-Passes (quoted name) front (ground arith), all_pass-Skips front rest (ground arith))

abbrev pub is_plain : Field → Bool
is_plain (number max read write) = true
is_plain (flag read write) = true
is_plain (text max_len secret read write) = false

-- Numbers and Booleans under keys that are short enough and tell the later entries apart.
unfoldable pub is_readable : Entries → Entries → Bool
is_readable [] tail = true
is_readable ((name, field) ∷ rest) tail =
    is_plain field
    && (not (leb json_key_buf_size (length (quoted name)))
        && (all_pass (key_text name []) (rest ++ tail) && is_readable rest tail))

abbrev pub FitsField : Field → Settings → Type 0
FitsField (number max read write) s = (read s ≤ max) × (max < 2 ^ 32)
FitsField (flag read write) s = Unit
FitsField (text max_len secret read write) s = Unit

abbrev pub FitsAll : Entries → Settings → Type 0
FitsAll [] s = Unit
FitsAll ((name, field) ∷ rest) s = FitsField field s × FitsAll rest s

strstr-comma : (rest pat : List ℕ) → strstr (44 ∷ rest) (34 ∷ pat) ≡ strstr rest (34 ∷ pat)
unfolding strstr starts_with
strstr-comma rest pat = refl

bool_text-Passes : (b : Bool) (key : List ℕ) → Passes (quoted key) (bool_text b ++ 44 ∷ [])
bool_text-Passes true key =
    passes-Passes (quoted key) (codes "true" ++ 44 ∷ []) (unfold passes clash in refl)
bool_text-Passes false key =
    passes-Passes (quoted key) (codes "false" ++ 44 ∷ []) (unfold passes clash in refl)

-- The text behind the key of a plain entry.
value_text : Field → Settings → List ℕ → List ℕ
value_text (number max read write) s rest = print_uint 9 (read s) (44 ∷ rest)
value_text (flag read write) s rest = bool_text (read s) ++ 44 ∷ rest
value_text (text max_len secret read write) s rest = []

field_text-plain :
    (name : List ℕ) (field : Field) (s : Settings) (rest : List ℕ)
    → is_plain field ≡ true
    → field_text name field (44 ∷ []) s ++ rest ≡ key_text name (value_text field s rest)
unfolding field_text value_text
field_text-plain name (number max read write) s rest h =
    key_text-append name (print_uint 9 (read s) (44 ∷ [])) rest
    ∙ ap (key_text name) (print_uint-append 9 (read s) (44 ∷ []) rest)
field_text-plain name (flag read write) s rest h =
    key_text-append name (bool_text (read s) ++ 44 ∷ []) rest
    ∙ ap (key_text name) (append_assoc (bool_text (read s)) (44 ∷ []) rest)
field_text-plain name (text max_len secret read write) s rest h = absurd (ground arith)

value_text-Passes :
    (field : Field) (s : Settings) (key rest : List ℕ)
    → is_plain field ≡ true
    → strstr (value_text field s rest) (quoted key) ≡ strstr rest (quoted key)
unfolding value_text
value_text-Passes (number max read write) s key rest h =
    strstr-print_uint 9 (read s) (44 ∷ rest) _ ∙ strstr-comma rest _
value_text-Passes (flag read write) s key rest h =
    ap (λ t. strstr t (quoted key)) (sym (append_assoc (bool_text (read s)) (44 ∷ []) rest))
    ∙ bool_text-Passes (read s) key rest
value_text-Passes (text max_len secret read write) s key rest h = absurd (ground arith)

field_text-Passes :
    (key name : List ℕ) (field : Field) (s : Settings)
    → is_plain field ≡ true
    → Passes (quoted key) (key_text name [])
    → Passes (quoted key) (field_text name field (44 ∷ []) s)
field_text-Passes key name field s plain pass rest =
    ap (λ t. strstr t (quoted key))
      (field_text-plain name field s rest plain ∙ sym (key_text-append name [] _))
    ∙ pass (value_text field s rest)
    ∙ value_text-Passes field s key rest plain

field_text-Skips :
    (name : List ℕ) (field : Field) (s : Settings) (front : List ℕ) (es : Entries)
    → is_plain field ≡ true
    → Skips front es
    → Skips (key_text name []) es
    → Skips (front ++ field_text name field (44 ∷ []) s) es
field_text-Skips name field s front [] plain before here = tt
field_text-Skips name field s front ((key, f) ∷ es) plain before here = (
  append-Passes (quoted key) front (field_text name field (44 ∷ []) s) before.0
      (field_text-Passes key name field s plain here.0),
  field_text-Skips name field s front es plain before.1 here.1,
)

json_parse_bool-bool_text :
    (b : Bool) (rest : List ℕ) → json_parse_bool (bool_text b ++ rest) ≡ ok b
unfolding json_parse_bool starts_with
json_parse_bool-bool_text true rest = refl
json_parse_bool-bool_text false rest = refl

skip_spaces-value_text :
    (field : Field) (s : Settings) (rest : List ℕ)
    → skip_spaces (value_text field s rest) ≡ value_text field s rest
unfolding value_text
skip_spaces-value_text (number max read write) s rest = skip_spaces-print_uint 9 (read s) _
skip_spaces-value_text (flag read write) s rest = skip_spaces-bool_text (read s) (44 ∷ rest)
  where
    skip_spaces-bool_text :
        (b : Bool) (rest : List ℕ) → skip_spaces (bool_text b ++ rest) ≡ bool_text b ++ rest
    skip_spaces-bool_text true rest = unfold skip_spaces in refl
    skip_spaces-bool_text false rest = unfold skip_spaces in refl
skip_spaces-value_text (text max_len secret read write) s rest = unfold skip_spaces in refl

set_field-value_text :
    (field : Field) (s m : Settings) (rest : List ℕ)
    → is_plain field ≡ true
    → FitsField field s
    → set_field field (value_text field s rest) m ≡ ok (restore_field field s m)
unfolding set_field value_text restore_field
set_field-value_text (number max read write) s m rest plain fits =
    ap (assign write m)
      (json_parse_uint-print_uint (read s) max (44 ∷ rest) (omega (arith, fits)) fits.0 refl)
set_field-value_text (flag read write) s m rest plain fits =
    ap (assign write m) (json_parse_bool-bool_text (read s) (44 ∷ rest))
set_field-value_text (text max_len secret read write) s m rest plain fits = absurd (ground arith)

pub set_fields-found :
    (name val json : List ℕ) (field : Field) (rest : Entries) (s s' : Settings)
    → json_find_value json name ≡ some val
    → set_field field val s ≡ ok s'
    → set_fields ((name, field) ∷ rest) json (ok s) ≡ set_fields rest json (ok s')
unfolding set_fields
set_fields-found name val json field rest s s' found set =
    rw (set_fields, found) (ap (set_fields rest json) set)

separator-more :
    (before : Entries) (e : List ℕ × Field) (tail : Entries)
    → separator (before ++ e ∷ tail) ≡ 44 ∷ []
separator-more [] e tail = refl
separator-more (b ∷ before) e tail = refl

-- The plain entries are read back if the entries behind them are.
pub set_fields-plain :
    (s : Settings) (close : List ℕ) (e : List ℕ × Field) (tail before : Entries)
    → is_readable before (e ∷ tail) ≡ true
    → FitsAll before s
    → ((front : List ℕ) (m : Settings)
        → Skips front (e ∷ tail)
        → set_fields (e ∷ tail) (front ++ (fields_text (e ∷ tail) s ++ close)) (ok m)
          ≡ ok (restore (e ∷ tail) s m))
    → (front : List ℕ) (m : Settings) → Skips front (before ++ e ∷ tail)
    → set_fields
        (before ++ e ∷ tail)
        (front ++ (fields_text (before ++ e ∷ tail) s ++ close))
        (ok m)
      ≡ ok (restore (before ++ e ∷ tail) s m)
unfolding is_readable
set_fields-plain s close e tail [] readable fits last front m skips = last front m skips
set_fields-plain s close e tail ((name, field) ∷ rest) readable fits last front m skips =
    let plain : is_plain field ≡ true = ground arith in
    let short : leb json_key_buf_size (length (quoted name)) ≡ false = ground arith in
    let apart : all_pass (key_text name []) (rest ++ e ∷ tail) ≡ true = ground arith in
    let more : is_readable rest (e ∷ tail) ≡ true = ground arith in
    let own : List ℕ = field_text name field (44 ∷ []) s in
    let later : List ℕ = fields_text (rest ++ e ∷ tail) s ++ close in
    let skips' : Skips (front ++ own) (rest ++ e ∷ tail) =
      field_text-Skips name field s front (rest ++ e ∷ tail) plain skips.1
        (all_pass-Skips (key_text name []) (rest ++ e ∷ tail) apart) in
    let whole : front ++ (fields_text ((name, field) ∷ (rest ++ e ∷ tail)) s ++ close)
        ≡ front ++ (own ++ later) =
      unfold fields_text in
      rw (separator-more rest e tail) (ap (λ t. front ++ t) (append_assoc own _ close)) in
    let found : json_find_value (front ++ (own ++ later)) name ≡ some (value_text field s later) =
      ap (λ t. json_find_value (front ++ t) name) (field_text-plain name field s later plain)
      ∙ json_find_value-key_text front name (value_text field s later) short skips.0
          (skip_spaces-value_text field s later) in
    rw whole (
      set_fields-found name (value_text field s later) (front ++ (own ++ later)) field
        (rest ++ e ∷ tail) m (restore_field field s m) found
        (set_field-value_text field s m later plain fits.0)
      ∙ ap (λ t. set_fields (rest ++ e ∷ tail) t (ok (restore_field field s m)))
          (sym (append_assoc front own later))
      ∙ set_fields-plain s close e tail rest more fits.1 last (front ++ own)
          (restore_field field s m) skips'
      ∙ (unfold restore in refl))
