-- ===== src/Body/Print/Bound.antt =====
-- network/http_server/settings.c: the length of the printed settings, and JSON_BUF_SIZE_MAX.
use pico_stairway_controller.Base.{
  ℕ, zero, suc, ◌+◌, ◌*◌, ◌/◌, ◌%◌, ◌≤◌, ◌≡◌, inl, inr, arith, if◌then◌else◌, Bool, true, false,
  List, [], ◌∷◌, ◌++◌, length, length-append, codes, c_string,
}
use pico_stairway_controller.Types.{Settings}
use pico_stairway_controller.Json.{ok}
use pico_stairway_controller.Json.Strings.{escape}
use pico_stairway_controller.Numbers.{print_uint}
use pico_stairway_controller.Settings.Flash.{IsStruct}
use pico_stairway_controller.Body.{Field, number, flag, text, settings_map}
use pico_stairway_controller.Body.Print.{key_text, bool_text, separator, get_settings_json}
use pico_stairway_controller.Body.Print.Laws.{
  field_text, fields_text, settings_text, get_settings_json_lem,
}

abbrev pub json_buf_size_max : ℕ
json_buf_size_max = 1024

length-escape : (str : List ℕ) → length (escape str) ≤ 2 * length str
unfolding escape
length-escape [] = omega arith
length-escape (c ∷ rest) = ground (arith, length-escape rest)

length-c_string : (str : List ℕ) → length (c_string str) ≤ length str
length-c_string [] = omega arith
length-c_string (zero ∷ rest) = omega arith
length-c_string (suc c ∷ rest) = omega (arith, length-c_string rest)

length-print_uint :
    (fuel n : ℕ) (tail : List ℕ) → length (print_uint fuel n tail) ≤ suc fuel + length tail
unfolding print_uint
length-print_uint zero n tail = omega arith
length-print_uint (suc fuel) n tail =
    ground (arith, length-print_uint fuel (n / 10) ((48 + n % 10) ∷ tail))

length-key_text : (name rest : List ℕ) → length (key_text name rest) ≡ length name + length rest + 3
length-key_text name rest = omega (arith, length-append name (34 ∷ 58 ∷ rest))

-- The value of a setting takes at most so many characters, if a char array is not longer than its
-- type says.
abbrev value_bound : Field → ℕ
value_bound (number max read write) = 10
value_bound (flag read write) = 5
value_bound (text max_len secret read write) = 2 * max_len + 2

abbrev IsArray : Settings → Field → Type 0
IsArray s (number max read write) = Unit
IsArray s (flag read write) = Unit
IsArray s (text max_len secret read write) = length (read s) ≤ max_len

length-bool_text : (b : Bool) → length (bool_text b) ≤ 5
length-bool_text true = omega arith
length-bool_text false = omega arith

length-secret :
    (secret : Bool) (str : List ℕ)
    → length (if secret then [] else escape (c_string str)) ≤ 2 * length str
length-secret true str = omega arith
length-secret false str = omega (arith, length-escape (c_string str), length-c_string str)

length-field_text :
    (name : List ℕ) (field : Field) (sep : List ℕ) (s : Settings)
    → IsArray s field
    → length (field_text name field sep s) ≤ length name + 3 + value_bound field + length sep
unfolding field_text
length-field_text name (number max read write) sep s h =
    omega
      (arith, length-key_text name (print_uint 9 (read s) sep), length-print_uint 9 (read s) sep)
length-field_text name (flag read write) sep s h = omega (
  arith,
  length-key_text name (bool_text (read s) ++ sep),
  length-append (bool_text (read s)) sep,
  length-bool_text (read s),
)
length-field_text name (text max_len secret read write) sep s h =
    let body : List ℕ = if secret then [] else escape (c_string (read s)) in
    omega (
      arith,
      length-append (key_text name (34 ∷ []) ++ body) (34 ∷ sep),
      length-append (key_text name (34 ∷ [])) body,
      length-key_text name (34 ∷ []),
      length-secret secret (read s),
    )

abbrev AllArrays : Settings → List (List ℕ × Field) → Type 0
AllArrays s [] = Unit
AllArrays s ((name, field) ∷ rest) = IsArray s field × AllArrays s rest

abbrev text_bound : List (List ℕ × Field) → ℕ
text_bound [] = 0
text_bound ((name, field) ∷ rest) = length name + 4 + value_bound field + text_bound rest

length-separator : (rest : List (List ℕ × Field)) → length (separator rest) ≤ 1
length-separator [] = omega arith
length-separator (f ∷ rest) = omega arith

length-fields_text :
    (fields : List (List ℕ × Field)) (s : Settings)
    → AllArrays s fields
    → length (fields_text fields s) ≤ text_bound fields
unfolding fields_text
length-fields_text [] s h = omega arith
length-fields_text ((name, field) ∷ rest) s h = omega (
  arith,
  length-append (field_text name field (separator rest) s) (fields_text rest s),
  length-field_text name field (separator rest) s h.0,
  length-separator rest,
  length-fields_text rest s h.1,
)

text_bound_lem : text_bound settings_map ≤ 1000
text_bound_lem = omega arith

struct-AllArrays : (s : Settings) → IsStruct s → AllArrays s settings_map
struct-AllArrays s i = grind (arith, i.ssid_is_array, i.pass_is_array)

length-settings_text : (s : Settings) → IsStruct s → length (settings_text s) ≤ 1002
unfolding settings_text
length-settings_text s i = omega (
  arith,
  length-append (codes "{" ++ fields_text settings_map s) (codes "}"),
  length-append (codes "{") (fields_text settings_map s),
  length-fields_text settings_map s (struct-AllArrays s i),
  text_bound_lem,
)

-- For settings that fit the struct, the text has less than 1024 characters, so that
-- get_settings_json with the buffer of the HTTP server never fails.
pub get_settings_json_fits :
    (s : Settings) → IsStruct s → get_settings_json json_buf_size_max s ≡ ok (settings_text s)
get_settings_json_fits s i = elim (get_settings_json_lem json_buf_size_max s (omega arith)) [
  | inl fits ↦ fits.1
  | inr over ↦ absurd (omega (arith, length-settings_text s i))
]
