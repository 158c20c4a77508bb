-- ===== src/Examples/Text.antt =====
-- Strings and numbers of the JSON text and the console on concrete inputs.
use pico_stairway_controller.Base.{ℕ, ◌+◌, ◌<◌, ◌≤◌, ◌≡◌, ◌⊎◌, arith, List, [], ◌∷◌, length}
use pico_stairway_controller.Types.{ErrCode}
use pico_stairway_controller.Json.{ok, error, json_append_string}
use pico_stairway_controller.Json.Strings.{escape, json_append_string_lem}

-- a"b
abbrev quoted : List ℕ
quoted = 97 ∷ 34 ∷ 98 ∷ []

json_append_string_lem_example :
    ((2 + length (escape quoted) < 10) × (json_append_string 10 2 quoted ≡ ok (escape quoted)))
    ⊎ ((10 ≤ 2 + length (escape quoted))
        × (json_append_string 10 2 quoted ≡ error ErrCode.overflow))
json_append_string_lem_example = json_append_string_lem quoted 10 2 (omega arith)

-- 5000000000
abbrev five_billion : List ℕ
five_billion = 53 ∷ 48 ∷ 48 ∷ 48 ∷ 48 ∷ 48 ∷ 48 ∷ 48 ∷ 48 ∷ 48 ∷ []
