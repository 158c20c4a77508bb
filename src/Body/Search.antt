-- ===== src/Body/Search.antt =====
-- network/http_server/settings.c: the search for a key in the JSON text, and the Booleans.
use pico_stairway_controller.Base.{
  ℕ, leb, ◌==◌, ◌||◌, if◌then◌else◌, Bool, true, false, List, [], ◌∷◌, ◌++◌, Option, none, some,
  length, drop, codes, starts_with, strstr,
}
use pico_stairway_controller.Types.{ErrCode}
use pico_stairway_controller.Json.{Result, ok, error}

abbrev pub json_key_buf_size : ℕ
json_key_buf_size = 48

abbrev pub is_space : ℕ → Bool
is_space c = (c == 32) || (c == 9) || (c == 13) || (c == 10)

unfoldable pub skip_spaces : List ℕ → List ℕ
skip_spaces [] = []
skip_spaces (c ∷ cs) = let more = skip_spaces cs in if is_space c then more else c ∷ cs

unfoldable pub after_colon : List ℕ → Option (List ℕ)
after_colon [] = none
after_colon (c ∷ cs) = if c == 58 then some (skip_spaces cs) else none

unfoldable pub json_find_value : List ℕ → List ℕ → Option (List ℕ)
json_find_value text key =
    let quoted = 34 ∷ key ++ 34 ∷ [] in
    if leb json_key_buf_size (length quoted) then none else elim (strstr text quoted) [
      | none ↦ none
      | some start ↦ after_colon (skip_spaces (drop (length quoted) start))
    ]

-- "true" and "false".
unfoldable pub json_parse_bool : List ℕ → Result Bool
json_parse_bool val =
    if starts_with (codes "true") val
    then ok true
    else if starts_with (codes "false") val
    then ok false
    else error ErrCode.param_invalid
