-- ===== src/Numbers.antt =====
-- The numbers in the console's commands (commands/commands.c, parse_uint) and in the JSON text
-- (network/http_server/settings.c, json_parse_uint), and the C library's strtoul and %u.
--
-- Both test the first character before they call strtoul, so that it meets neither spaces nor a
-- sign. `unsigned long` has 32 bits on this chip. A string is the list of its characters before
-- the terminating 0.
pub mod Decimal
use pico_stairway_controller.Base.{
  ℕ, zero, suc, ◌+◌, ◌-◌, ◌*◌, ◌/◌, ◌%◌, ◌^◌, leb, ltb, ◌&&◌, ◌||◌, not, if◌then◌else◌, Bool, true,
  false, List, [], ◌∷◌,
}
use pico_stairway_controller.Types.{ErrCode}
use pico_stairway_controller.Json.{Result, ok, error}

abbrev pub is_digit : ℕ → Bool
is_digit c = leb 48 c && leb c 57

-- The value of the digits in front, and the rest of the string.
unfoldable pub digits : ℕ → List ℕ → ℕ × List ℕ
digits acc [] = (acc, [])
digits acc (c ∷ rest) =
    let more = digits (acc * 10 + (c - 48)) rest in if is_digit c then more else (acc, c ∷ rest)

abbrev pub ulong_max : ℕ
ulong_max = 2 ^ 32 - 1

-- The result, *end, and whether errno is ERANGE.
abbrev pub strtoul_of : ℕ × List ℕ → ℕ × List ℕ × Bool
strtoul_of (v, end) = ((if ltb ulong_max v then ulong_max else v), end, ltb ulong_max v)

unfoldable pub strtoul : List ℕ → ℕ × List ℕ × Bool
strtoul str = strtoul_of (digits 0 str)

abbrev pub is_end : List ℕ → Bool
is_end [] = true
is_end (c ∷ rest) = false

abbrev pub starts_number : List ℕ → Bool
starts_number [] = false
starts_number (c ∷ rest) = is_digit c

-- *out, or the error code.
unfoldable pub parse_uint : List ℕ → ℕ → Result ℕ
parse_uint str max =
    let (val, end, _) = strtoul str in
    if not (starts_number str)
    then error ErrCode.param_invalid
    else if not (is_end end) || ltb max val
    then error ErrCode.param_invalid
    else ok val

-- `end == val` does not hold behind the test of the first character.
unfoldable pub json_parse_uint : List ℕ → ℕ → Result ℕ
json_parse_uint val max =
    let (v, end, out_of_range) = strtoul val in
    if not (starts_number val)
    then error ErrCode.param_invalid
    else if out_of_range || ltb max v
    then error ErrCode.param_invalid
    else ok v

-- %u in front of `tail`: a number below 10 ^ (fuel + 1).
unfoldable pub print_uint : ℕ → ℕ → List ℕ → List ℕ
print_uint zero n tail = (48 + n % 10) ∷ tail
print_uint (suc fuel) n tail =
    let more = print_uint fuel (n / 10) ((48 + n % 10) ∷ tail) in
    if ltb n 10 then (48 + n % 10) ∷ tail else more
