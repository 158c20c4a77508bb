-- ===== src/Numbers/Decimal.antt =====
-- The C library's strtoul and %u: the digits of a number.
use native.Mathlib.Nat.{pow-suc}
use pico_stairway_controller.Base.{
  ℕ, zero, suc, ◌+◌, ◌-◌, ◌*◌, ◌/◌, ◌%◌, ◌^◌, ◌<◌, ◌≤◌, ◌≡◌, ◌∙◌, ap, refl, arith, ltb, true, false,
  List, [], ◌∷◌, Bool-cases, inl, inr,
}
use pico_stairway_controller.Types.{ErrCode}
use pico_stairway_controller.Json.{ok, error}
use pico_stairway_controller.Numbers.{
  is_digit, digits, strtoul, ulong_max, starts_number, parse_uint, json_parse_uint, print_uint,
}

digits-digit :
    (acc d : ℕ) (rest : List ℕ) → d < 10 → digits acc ((48 + d) ∷ rest) ≡ digits (acc * 10 + d) rest
unfolding digits
digits-digit acc d rest h =
    let e : acc * 10 + (48 + d - 48) ≡ acc * 10 + d = omega arith in
    let yes_digit : is_digit (48 + d) ≡ true = ground arith in rw (yes_digit, e) refl

tenth-lt : (n p q : ℕ) → q ≡ p * 10 → n < q → n / 10 < p
tenth-lt n p q e h = omega arith

digits-print_uint :
    (fuel n : ℕ) (tail : List ℕ)
    → n < 10 ^ suc fuel
    → digits 0 (print_uint fuel n tail) ≡ digits n tail
unfolding print_uint
digits-print_uint zero n tail h =
    let small : n < 10 = omega arith in
    let e : 0 * 10 + n % 10 ≡ n = omega arith in
    digits-digit 0 (n % 10) tail (omega arith) ∙ ap (λ (k : ℕ). digits k tail) e
digits-print_uint (suc fuel) n tail h = elim (Bool-cases (ltb n 10)) [
  | inl small ↦
      let lt : n < 10 = ground arith in
      let e : 0 * 10 + n % 10 ≡ n = omega arith in
      rw small (digits-digit 0 (n % 10) tail (omega arith) ∙ ap (λ (k : ℕ). digits k tail) e)
  | inr large ↦
      let less : n / 10 < 10 ^ suc fuel =
        tenth-lt n (10 ^ suc fuel) (10 ^ suc (suc fuel)) (pow-suc 10 (suc fuel)) h in
      let e : n / 10 * 10 + n % 10 ≡ n = omega arith in
      rw large (
        digits-print_uint fuel (n / 10) ((48 + n % 10) ∷ tail) less
        ∙ digits-digit (n / 10) (n % 10) tail (omega arith)
        ∙ ap (λ (k : ℕ). digits k tail) e)
]

print_uint-starts : (fuel n : ℕ) (tail : List ℕ) → starts_number (print_uint fuel n tail) ≡ true
unfolding print_uint
print_uint-starts zero n tail = ground arith
print_uint-starts (suc fuel) n tail = elim (Bool-cases (ltb n 10)) [
  | inl small ↦ rw small (ground arith)
  | inr large ↦ rw large (print_uint-starts fuel (n / 10) ((48 + n % 10) ∷ tail))
]

-- The text ends the number that stands in front of it.
abbrev pub EndsNumber : List ℕ → Type 0
EndsNumber [] = Unit
EndsNumber (c ∷ rest) = is_digit c ≡ false

digits_end : (n : ℕ) (tail : List ℕ) → EndsNumber tail → digits n tail ≡ (n, tail)
unfolding digits
digits_end n [] h = refl
digits_end n (c ∷ rest) h = rw h refl

strtoul-print_uint :
    (fuel n : ℕ) (tail : List ℕ)
    → n < 10 ^ suc fuel
    → n < 2 ^ 32
    → EndsNumber tail
    → strtoul (print_uint fuel n tail) ≡ (n, tail, false)
unfolding strtoul
strtoul-print_uint fuel n tail h fits ends =
    let in_range : ltb ulong_max n ≡ false = ground arith in
    rw (digits-print_uint fuel n tail h ∙ digits_end n tail ends) (rw in_range refl)

-- A 32-bit number that is printed with %u, and followed by no digit, is read back from the JSON
-- text if it is not above the field's maximum.
pub json_parse_uint-print_uint :
    (n max : ℕ) (tail : List ℕ)
    → n < 2 ^ 32
    → n ≤ max
    → EndsNumber tail
    → json_parse_uint (print_uint 9 n tail) max ≡ ok n
unfolding json_parse_uint
json_parse_uint-print_uint n max tail fits low ends =
    let e = strtoul-print_uint 9 n tail (omega arith) fits ends in
    let inside : ltb max n ≡ false = ground arith in
    rw (print_uint-starts 9 n tail, e) (rw inside refl)

-- A number of the console that does not fit 32 bits is taken for the largest one that does.
pub parse_uint_saturates :
    (str : List ℕ) (v : ℕ)
    → starts_number str ≡ true
    → digits 0 str ≡ (v, [])
    → 2 ^ 32 ≤ v
    → parse_uint str ulong_max ≡ ok ulong_max
unfolding parse_uint strtoul
parse_uint_saturates str v starts whole large =
    let over : ltb ulong_max v ≡ true = ground arith in rw (starts, whole) (rw over refl)

-- In the JSON text such a number is refused.
pub json_parse_uint-refuses :
    (str tail : List ℕ) (v max : ℕ)
    → digits 0 str ≡ (v, tail)
    → 2 ^ 32 ≤ v
    → json_parse_uint str max ≡ error ErrCode.param_invalid
unfolding json_parse_uint strtoul
json_parse_uint-refuses str tail v max whole large =
    let over : ltb ulong_max v ≡ true = ground arith in
    elim (Bool-cases (starts_number str)) [
      | inl yes_number ↦ rw (yes_number, whole) (rw over refl)
      | inr none_there ↦ rw none_there refl
    ]
