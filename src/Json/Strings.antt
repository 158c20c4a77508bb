-- ===== src/Json/Strings.antt =====
-- network/http_server/settings.c: the two directions of a JSON string, and its place in the buffer.
use pico_stairway_controller.Base.{
  ℕ, ◌+◌, ◌<◌, ◌≤◌, ◌≡◌, ◌≢◌, ◌∙◌, ◌⊎◌, inl, inr, ap, sym, refl, arith, leb, ◌==◌, ◌||◌,
  if◌then◌else◌, true, false, List, [], ◌∷◌, ◌++◌, length, Bool-cases,
}
use pico_stairway_controller.Types.{ErrCode}
use pico_stairway_controller.Json.{
  ok, error, quote, backslash, cons, put, parse_from, json_parse_string, json_append_string,
}

-- No character is the terminating 0.
abbrev pub IsText : List ℕ → Type 0
IsText [] = Unit
IsText (c ∷ rest) = (c ≢ 0) × IsText rest

-- The escaped text.
unfoldable pub escape : List ℕ → List ℕ
escape [] = []
escape (c ∷ rest) =
    if (c == quote) || (c == backslash) then backslash ∷ c ∷ escape rest else c ∷ escape rest

-- json_append_string appends the escaped text exactly if it fits the buffer with a 0 behind it;
-- otherwise it reports an overflow.
pub json_append_string_lem :
    (str : List ℕ) (size pos : ℕ)
    → pos < size
    → ((pos + length (escape str) < size) × (json_append_string size pos str ≡ ok (escape str)))
      ⊎ ((size ≤ pos + length (escape str))
          × (json_append_string size pos str ≡ error ErrCode.overflow))
unfolding json_append_string escape
json_append_string_lem [] size pos room = inl (omega arith, refl)
json_append_string_lem (c ∷ rest) size pos room =
    elim (Bool-cases ((c == quote) || (c == backslash))) [
      | inl special ↦ elim (Bool-cases (leb size (pos + 2))) [
        | inl full ↦ rw (special, full) (inr (ground arith, refl))
        | inr free ↦
            rw (special, free)
              (elim (json_append_string_lem rest size (pos + 2) (ground arith)) [
                | inl fits ↦ inl (omega (arith, fits.0), ap (λ r. cons backslash (cons c r)) fits.1)
                | inr long ↦ inr (omega (arith, long.0), ap (λ r. cons backslash (cons c r)) long.1)
              ])
      ]
      | inr plain ↦ elim (Bool-cases (leb size (pos + 1))) [
        | inl full ↦ rw (plain, full) (inr (ground arith, refl))
        | inr free ↦
            rw (plain, free)
              (elim (json_append_string_lem rest size (pos + 1) (ground arith)) [
                | inl fits ↦ inl (omega (arith, fits.0), ap (cons c) fits.1)
                | inr long ↦ inr (omega (arith, long.0), ap (cons c) long.1)
              ])
      ]
    ]

ok-out : {a b : List ℕ} → ok a ≡ ok b → a ≡ b
ok-out e = cc

ok-error : {a : List ℕ} {e : ErrCode} → ok a ≢ error e
ok-error p = cc

put-cons : (size len c : ℕ) (s : List ℕ) → len + 1 < size → put size len c (ok s) ≡ ok (c ∷ s)
unfolding put
put-cons size len c s h = ground arith

parse-special :
    (size len c : ℕ) (rest : List ℕ)
    → ((c == quote) || (c == backslash)) ≡ true
    → parse_from false size len (backslash ∷ c ∷ rest)
      ≡ put size len c (parse_from false size (len + 1) rest)
unfolding parse_from
parse-special size len c rest special = ground arith

parse-plain :
    (size len c : ℕ) (rest : List ℕ)
    → c ≢ 0
    → ((c == quote) || (c == backslash)) ≡ false
    → parse_from false size len (c ∷ rest) ≡ put size len c (parse_from false size (len + 1) rest)
unfolding parse_from
parse-plain size len c rest ne plain = ground arith

pub parse_from-escape :
    (str tail : List ℕ) (size len : ℕ)
    → IsText str
    → len + length str < size
    → parse_from false size len (escape str ++ quote ∷ tail) ≡ ok str
unfolding escape
parse_from-escape [] tail size len text room = unfold parse_from in refl
parse_from-escape (c ∷ rest) tail size len text room =
    let ih = parse_from-escape rest tail size (len + 1) text.1 (omega arith) in
    let end = ap (put size len c) ih ∙ put-cons size len c rest (omega arith) in
    elim (Bool-cases ((c == quote) || (c == backslash))) [
      | inl special ↦
          rw special (parse-special size len c (escape rest ++ quote ∷ tail) special ∙ end)
      | inr plain ↦
          rw plain (parse-plain size len c (escape rest ++ quote ∷ tail) text.0 plain ∙ end)
    ]

-- A text that json_append_string prints is read back by json_parse_string between quotes, with
-- whatever follows them, if the buffer it is read into has room for it and its 0.
pub json_parse_string-append_string :
    (str out tail : List ℕ) (size pos buf_size : ℕ)
    → IsText str
    → pos < size
    → json_append_string size pos str ≡ ok out
    → length str < buf_size
    → json_parse_string (quote ∷ out ++ quote ∷ tail) buf_size ≡ ok str
unfolding json_parse_string
json_parse_string-append_string str out tail size pos buf_size text start printed room =
    elim (json_append_string_lem str size pos start) [
      | inl fits ↦
          let same : out ≡ escape str = ok-out (sym printed ∙ fits.1) in
          rw same (parse_from-escape str tail buf_size 0 text (omega arith))
      | inr long ↦ absurd (ok-error (sym printed ∙ long.1))
    ]
