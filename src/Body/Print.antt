-- ===== src/Body/Print.antt =====
-- network/http_server/settings.c: printing the settings into a buffer.
--
-- The text so far is the buffer's contents before its terminating 0, `pos` its length. On an error
-- the contents of the buffer are given up.
pub mod Laws
pub mod Bound
use pico_stairway_controller.Base.{
  ℕ, ◌+◌, leb, ◌==◌, if◌then◌else◌, Bool, true, false, List, [], ◌∷◌, ◌++◌, length, codes, c_string,
}
use pico_stairway_controller.Types.{Settings, ErrCode}
use pico_stairway_controller.Json.{Result, ok, error, ◌>>=◌, json_append_string}
use pico_stairway_controller.Numbers.{print_uint}
use pico_stairway_controller.Body.{Field, number, flag, text, settings_map}

-- On the formatted text.
unfoldable pub json_append : ℕ → List ℕ → List ℕ → Result (List ℕ)
json_append buf_size buf str =
    if leb buf_size (length buf + length str) then error ErrCode.overflow else ok (buf ++ str)

-- json_append_string at the end of the text so far.
abbrev pub append_escaped : ℕ → List ℕ → List ℕ → Result (List ℕ)
append_escaped buf_size buf str =
    json_append_string buf_size (length buf) str >>= λ out. ok (buf ++ out)

-- "\"%s\":" in front of a text.
abbrev pub key_text : List ℕ → List ℕ → List ℕ
key_text name rest = 34 ∷ (name ++ (34 ∷ 58 ∷ rest))

abbrev pub bool_text : Bool → List ℕ
bool_text true = codes "true"
bool_text false = codes "false"

-- The switch over the type of one setting.
unfoldable pub append_field : ℕ → List ℕ → Field → List ℕ → Settings → List ℕ → Result (List ℕ)
append_field size name (number max read write) sep s buf =
    json_append size buf (key_text name (print_uint 9 (read s) sep))
append_field size name (flag read write) sep s buf =
    json_append size buf (key_text name (bool_text (read s) ++ sep))
append_field size name (text max_len secret read write) sep s buf =
    json_append size buf (key_text name (34 ∷ []))
    >>= (λ buf. if secret then ok buf else append_escaped size buf (c_string (read s)))
    >>= (λ buf. json_append size buf (34 ∷ sep))

-- `sep` of the entry in front of `rest`.
abbrev pub separator : List (List ℕ × Field) → List ℕ
separator [] = []
separator (f ∷ rest) = 44 ∷ []

unfoldable pub append_fields : ℕ → List (List ℕ × Field) → Settings → List ℕ → Result (List ℕ)
append_fields size [] s buf = ok buf
append_fields size ((name, field) ∷ rest) s buf =
    append_field size name field (separator rest) s buf >>= append_fields size rest s

-- A NULL buffer does not occur.
unfoldable pub get_settings_json : ℕ → Settings → Result (List ℕ)
get_settings_json buf_size s =
    if buf_size == 0
    then error ErrCode.param_invalid
    else json_append buf_size [] (codes "{")
      >>= append_fields buf_size settings_map s
      >>= (λ buf. json_append buf_size buf (codes "}"))
