-- ===== src/Json.antt =====
-- network/http_server/settings.c: the strings of the JSON text.
--
-- A C string is the list of its characters before the terminating 0; reading at the end of the
-- list reads that 0.
pub mod Strings
use pico_stairway_controller.Base.{
  ℕ, ◌+◌, leb, ◌==◌, ◌||◌, if◌then◌else◌, Bool, true, false, List, [], ◌∷◌,
}
use pico_stairway_controller.Types.{ErrCode}

-- *out, or the error code.
pub data Result {ℓ} (A : Type ℓ) : Type ℓ where
  ok : A → Result A
  error : ErrCode → Result A

infixl 5 ◌>>=◌
abbrev pub ◌>>=◌ {ℓ κ} : {A : Type ℓ} {B : Type κ} → Result A → (A → Result B) → Result B
ok a >>= f = f a
error e >>= f = error e

abbrev pub quote : ℕ
quote = 34

abbrev pub backslash : ℕ
backslash = 92

abbrev pub slash : ℕ
slash = 47

abbrev pub cons : ℕ → Result (List ℕ) → Result (List ℕ)
cons c (ok s) = ok (c ∷ s)
cons c (error e) = error e

-- out[len++] = c, before the rest of the loop.
unfoldable pub put : ℕ → ℕ → ℕ → Result (List ℕ) → Result (List ℕ)
put buf_size len c rest = if leb buf_size (len + 1) then error ErrCode.overflow else cons c rest

-- The loop of json_parse_string; `escaped`: a backslash has just been read.
unfoldable pub parse_from : Bool → ℕ → ℕ → List ℕ → Result (List ℕ)
parse_from escaped buf_size len [] = error ErrCode.param_invalid
parse_from true buf_size len (c ∷ rest) =
    let more = put buf_size len c (parse_from false buf_size (len + 1) rest) in
    if (c == quote) || (c == backslash) || (c == slash) then more else error ErrCode.param_invalid
parse_from false buf_size len (c ∷ rest) =
    let unescaped = parse_from true buf_size len rest in
    let more = put buf_size len c (parse_from false buf_size (len + 1) rest) in
    if c == quote
    then ok []
    else if c == 0
    then error ErrCode.param_invalid
    else if c == backslash
    then unescaped
    else more

unfoldable pub json_parse_string : List ℕ → ℕ → Result (List ℕ)
unfolding parse_from
json_parse_string [] buf_size = error ErrCode.param_invalid
json_parse_string (c ∷ rest) buf_size =
    if c == quote then parse_from false buf_size 0 rest else error ErrCode.param_invalid

-- What is appended to the buffer at `pos`. (On an error the buffer keeps a part of it, which its
-- only caller gives up.)
unfoldable pub json_append_string : ℕ → ℕ → List ℕ → Result (List ℕ)
json_append_string buf_size pos [] = ok []
json_append_string buf_size pos (c ∷ rest) =
    let escaped = json_append_string buf_size (pos + 2) rest in
    let plain = json_append_string buf_size (pos + 1) rest in
    if (c == quote) || (c == backslash)
    then (if leb buf_size (pos + 2)
        then error ErrCode.overflow
        else cons backslash (cons c escaped))
    else if leb buf_size (pos + 1)
    then error ErrCode.overflow
    else cons c plain
