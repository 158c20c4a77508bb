-- ===== src/Body/Print/Laws.antt =====
-- network/http_server/settings.c: the text of get_settings_json, and its length.
use pico_stairway_controller.Base.{
  ℕ, ◌+◌, ◌<◌, ◌≤◌, ◌≡◌, ◌⊎◌, ◌∙◌, ap, sym, inl, inr, refl, arith, if◌then◌else◌, Bool, true, false,
  List, [], ◌∷◌, ◌++◌, length, length-append, codes, c_string, ◌==◌,
}
use pico_stairway_controller.Types.{Settings, ErrCode}
use pico_stairway_controller.Json.{Result, ok, error, ◌>>=◌}
use pico_stairway_controller.Json.Strings.{escape, json_append_string_lem}
use pico_stairway_controller.Numbers.{print_uint}
use pico_stairway_controller.Body.{Field, number, flag, text, settings_map}
use pico_stairway_controller.Body.Print.{
  json_append, append_escaped, key_text, bool_text, append_field, separator, append_fields,
  get_settings_json,
}

-- From the text `buf`, `r` is the text with `str` behind it if that fits, or an overflow.
abbrev pub Appends : ℕ → List ℕ → List ℕ → Result (List ℕ) → Type 0
Appends size buf str r =
    ((length buf + length str < size) × (r ≡ ok (buf ++ str)))
    ⊎ ((size ≤ length buf + length str) × (r ≡ error ErrCode.overflow))

pub append_assoc : (xs ys zs : List ℕ) → (xs ++ ys) ++ zs ≡ xs ++ (ys ++ zs)
append_assoc [] ys zs = refl
append_assoc (x ∷ xs) ys zs = ap (λ t. x ∷ t) (append_assoc xs ys zs)

pub append_nil : (xs : List ℕ) → xs ++ [] ≡ xs
append_nil [] = refl
append_nil (x ∷ xs) = ap (λ t. x ∷ t) (append_nil xs)

Appends-bind :
    (size : ℕ) (buf a b : List ℕ) (r : Result (List ℕ)) (f : List ℕ → Result (List ℕ))
    → Appends size buf a r
    → (length (buf ++ a) < size → Appends size (buf ++ a) b (f (buf ++ a)))
    → Appends size buf (a ++ b) (r >>= f)
Appends-bind size buf a b r f (inl fits) next =
    let len = length-append buf a in
    let len' = length-append a b in
    elim (next (omega arith)) [
      | inl more ↦ inl (
        omega arith,
        ap (λ (t : Result (List ℕ)). t >>= f) fits.1 ∙ more.1 ∙ ap ok (append_assoc buf a b),
      )
      | inr over ↦ inr (omega arith, ap (λ (t : Result (List ℕ)). t >>= f) fits.1 ∙ over.1)
    ]
Appends-bind size buf a b r f (inr over) next =
    let len' = length-append a b in inr (omega arith, ap (λ (t : Result (List ℕ)). t >>= f) over.1)

json_append-Appends :
    (size : ℕ) (buf str : List ℕ) → Appends size buf str (json_append size buf str)
unfolding json_append
json_append-Appends size buf str = ground arith

append_escaped-Appends :
    (size : ℕ) (buf str : List ℕ)
    → length buf < size
    → Appends size buf (escape str) (append_escaped size buf str)
append_escaped-Appends size buf str room =
    elim (json_append_string_lem str size (length buf) room) [
      | inl fits ↦ inl (fits.0, ap (λ (t : Result (List ℕ)). t >>= (λ out. ok (buf ++ out))) fits.1)
      | inr over ↦ inr (over.0, ap (λ (t : Result (List ℕ)). t >>= (λ out. ok (buf ++ out))) over.1)
    ]

-- The text of one setting.
unfoldable pub field_text : List ℕ → Field → List ℕ → Settings → List ℕ
field_text name (number max read write) sep s = key_text name (print_uint 9 (read s) sep)
field_text name (flag read write) sep s = key_text name (bool_text (read s) ++ sep)
field_text name (text max_len secret read write) sep s =
    (key_text name (34 ∷ []) ++ (if secret then [] else escape (c_string (read s)))) ++ (34 ∷ sep)

unfoldable pub fields_text : List (List ℕ × Field) → Settings → List ℕ
fields_text [] s = []
fields_text ((name, field) ∷ rest) s =
    field_text name field (separator rest) s ++ fields_text rest s

secret-Appends :
    (size : ℕ) (secret : Bool) (str buf : List ℕ)
    → length buf < size
    → Appends size buf
        (if secret then [] else escape str)
        (if secret then ok buf else append_escaped size buf str)
secret-Appends size true str buf room = inl (omega arith, ap ok (sym (append_nil buf)))
secret-Appends size false str buf room = append_escaped-Appends size buf str room

append_field-Appends :
    (size : ℕ) (name : List ℕ) (field : Field) (sep : List ℕ) (s : Settings) (buf : List ℕ)
    → Appends size buf (field_text name field sep s) (append_field size name field sep s buf)
unfolding append_field field_text
append_field-Appends size name (number max read write) sep s buf = json_append-Appends size buf _
append_field-Appends size name (flag read write) sep s buf = json_append-Appends size buf _
append_field-Appends size name (text max_len secret read write) sep s buf =
    Appends-bind size buf _ (34 ∷ sep) _ _
      (Appends-bind size buf (key_text name (34 ∷ [])) _ _ _ (json_append-Appends size buf _)
        (λ room. secret-Appends size secret (c_string (read s)) _ room))
      (λ room. json_append-Appends size _ (34 ∷ sep))

append_fields-Appends :
    (size : ℕ) (fields : List (List ℕ × Field)) (s : Settings) (buf : List ℕ)
    → length buf < size
    → Appends size buf (fields_text fields s) (append_fields size fields s buf)
unfolding append_fields fields_text
append_fields-Appends size [] s buf room = inl (omega arith, ap ok (sym (append_nil buf)))
append_fields-Appends size ((name, field) ∷ rest) s buf room =
    Appends-bind size buf _ _ _ _ (append_field-Appends size name field (separator rest) s buf)
      (λ more. append_fields-Appends size rest s _ more)

abbrev close_brace : ℕ → List ℕ → Result (List ℕ)
close_brace size buf = json_append size buf (codes "}")

whole-Appends :
    (size : ℕ) (fields : List (List ℕ × Field)) (s : Settings)
    → 0 < size
    → Appends size []
        ((codes "{" ++ fields_text fields s) ++ codes "}")
        (json_append size [] (codes "{") >>= append_fields size fields s >>= close_brace size)
whole-Appends size fields s pos =
    let start : _ = json_append-Appends size [] (codes "{") in
    Appends-bind size [] (codes "{" ++ fields_text fields s) (codes "}")
      (json_append size [] (codes "{") >>= append_fields size fields s) (close_brace size)
      (Appends-bind size [] (codes "{") (fields_text fields s) (json_append size [] (codes "{"))
        (append_fields size fields s) start
        (λ room. append_fields-Appends size fields s (codes "{") room))
      (λ room. json_append-Appends size (codes "{" ++ fields_text fields s) (codes "}"))

from_empty :
    (size : ℕ) (str : List ℕ) (r : Result (List ℕ))
    → Appends size [] str r
    → ((length str < size) × (r ≡ ok str)) ⊎ ((size ≤ length str) × (r ≡ error ErrCode.overflow))
from_empty size str r (inl h) = inl (omega arith, h.1)
from_empty size str r (inr h) = inr (omega arith, h.1)

-- The whole text.
unfoldable pub settings_text : Settings → List ℕ
settings_text s = (codes "{" ++ fields_text settings_map s) ++ codes "}"

-- get_settings_json prints the text of all settings if it fits the buffer with a 0 behind it, and
-- otherwise reports an overflow; the password is not in the text.
pub get_settings_json_lem :
    (size : ℕ) (s : Settings)
    → 0 < size
    → ((length (settings_text s) < size) × (get_settings_json size s ≡ ok (settings_text s)))
      ⊎ ((size ≤ length (settings_text s)) × (get_settings_json size s ≡ error ErrCode.overflow))
unfolding get_settings_json settings_text
get_settings_json_lem size s pos =
    let nonzero : (size == 0) ≡ false = ground arith in
    rw nonzero (from_empty size _ _ (whole-Appends size settings_map s pos))
