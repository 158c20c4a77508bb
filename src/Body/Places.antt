-- ===== src/Body/Places.antt =====
-- network/http_server/settings.c: where json_find_value finds a key in a printed text.
use pico_stairway_controller.Base.{
  ℕ, zero, suc, ◌+◌, ◌/◌, ◌%◌, ◌≡◌, ◌∙◌, ap, sym, refl, arith, leb, ltb, ◌==◌, ◌&&◌, if◌then◌else◌,
  Bool, true, false, List, [], ◌∷◌, ◌++◌, Option, none, some, length, drop, Bool-cases, inl, inr,
  starts_with, strstr,
}
use pico_stairway_controller.Numbers.{print_uint}
use pico_stairway_controller.Body.Search.{
  json_key_buf_size, skip_spaces, after_colon, json_find_value,
}
use pico_stairway_controller.Body.Print.{key_text}
use pico_stairway_controller.Body.Print.Laws.{append_assoc}

abbrev pub quoted : List ℕ → List ℕ
quoted key = 34 ∷ (key ++ (34 ∷ []))

-- The texts differ where both have a character.
unfoldable pub clash : List ℕ → List ℕ → Bool
clash [] text = false
clash (p ∷ ps) [] = false
clash (p ∷ ps) (c ∷ cs) = let more = clash ps cs in if p == c then more else true

clash-starts_with :
    (pat front rest : List ℕ) → clash pat front ≡ true → starts_with pat (front ++ rest) ≡ false
unfolding clash starts_with
clash-starts_with [] front rest h = absurd (ground arith)
clash-starts_with (p ∷ ps) [] rest h = absurd (ground arith)
clash-starts_with (p ∷ ps) (c ∷ cs) rest h = elim (Bool-cases (p == c)) [
  | inl same ↦
      let more : clash ps cs ≡ true = ground arith in
      rw (same, clash-starts_with ps cs rest more) refl
  | inr other ↦ rw other refl
]

-- The pattern differs from the text at each of its places.
unfoldable pub passes : List ℕ → List ℕ → Bool
passes pat [] = true
passes pat (c ∷ cs) = clash pat (c ∷ cs) && passes pat cs

-- The search for the pattern runs over the text.
abbrev pub Passes : List ℕ → List ℕ → Type 0
Passes pat front = (rest : List ℕ) → strstr (front ++ rest) pat ≡ strstr rest pat

pub passes-Passes : (pat front : List ℕ) → passes pat front ≡ true → Passes pat front
unfolding passes strstr
passes-Passes pat [] h rest = refl
passes-Passes pat (c ∷ cs) h rest =
    let here : clash pat (c ∷ cs) ≡ true = ground arith in
    let more : passes pat cs ≡ true = ground arith in
    rw (clash-starts_with pat (c ∷ cs) rest here) (passes-Passes pat cs more rest)

pub append-Passes : (pat a b : List ℕ) → Passes pat a → Passes pat b → Passes pat (a ++ b)
append-Passes pat a b pa pb rest = rw (append_assoc a b rest) (pa (b ++ rest) ∙ pb rest)

strstr-digit :
    (d : ℕ) (rest pat : List ℕ) → strstr ((48 + d) ∷ rest) (34 ∷ pat) ≡ strstr rest (34 ∷ pat)
unfolding strstr starts_with
strstr-digit d rest pat = let other : (34 == (48 + d)) ≡ false = ground arith in rw other refl

-- No key begins inside a number.
pub strstr-print_uint :
    (fuel n : ℕ) (rest pat : List ℕ)
    → strstr (print_uint fuel n rest) (34 ∷ pat) ≡ strstr rest (34 ∷ pat)
unfolding print_uint
strstr-print_uint zero n rest pat = strstr-digit (n % 10) rest pat
strstr-print_uint (suc fuel) n rest pat = elim (Bool-cases (ltb n 10)) [
  | inl small ↦ rw small (strstr-digit (n % 10) rest pat)
  | inr large ↦
      rw large (
        strstr-print_uint fuel (n / 10) ((48 + n % 10) ∷ rest) pat ∙ strstr-digit (n % 10) rest pat)
]

pub print_uint-append :
    (fuel n : ℕ) (a b : List ℕ) → print_uint fuel n a ++ b ≡ print_uint fuel n (a ++ b)
unfolding print_uint
print_uint-append zero n a b = refl
print_uint-append (suc fuel) n a b = elim (Bool-cases (ltb n 10)) [
  | inl small ↦ rw small refl
  | inr large ↦ rw large (print_uint-append fuel (n / 10) ((48 + n % 10) ∷ a) b)
]

pub skip_spaces-print_uint :
    (fuel n : ℕ) (rest : List ℕ) → skip_spaces (print_uint fuel n rest) ≡ print_uint fuel n rest
unfolding print_uint
skip_spaces-print_uint zero n rest = skip_spaces-digit (n % 10) rest
  where
    skip_spaces-digit : (d : ℕ) (rest : List ℕ) → skip_spaces ((48 + d) ∷ rest) ≡ (48 + d) ∷ rest
    skip_spaces-digit d rest = unfold skip_spaces in ground arith
skip_spaces-print_uint (suc fuel) n rest = elim (Bool-cases (ltb n 10)) [
  | inl small ↦ rw small (unfold skip_spaces in ground arith)
  | inr large ↦ rw large (skip_spaces-print_uint fuel (n / 10) ((48 + n % 10) ∷ rest))
]

pub key_text-append : (name a b : List ℕ) → key_text name a ++ b ≡ key_text name (a ++ b)
key_text-append name a b = ap (λ t. 34 ∷ t) (append_assoc name (34 ∷ 58 ∷ a) b)

starts_with-append : (a b : List ℕ) → starts_with a (a ++ b) ≡ true
unfolding starts_with
starts_with-append [] b = refl
starts_with-append (x ∷ a) b =
    let same : (x == x) ≡ true = ground arith in rw (same, starts_with-append a b) refl

drop-append : (a b : List ℕ) → drop (length a) (a ++ b) ≡ b
drop-append [] b = refl
drop-append (x ∷ a) b = drop-append a b

strstr-here : (a b : List ℕ) → strstr (a ++ b) a ≡ some (a ++ b)
unfolding strstr
strstr-here [] [] = unfold starts_with in refl
strstr-here [] (c ∷ b) = unfold starts_with in refl
strstr-here (x ∷ a) b = rw (starts_with-append (x ∷ a) b) refl

key_text-quoted : (name v : List ℕ) → key_text name v ≡ quoted name ++ 58 ∷ v
key_text-quoted name v = ap (λ t. 34 ∷ t) (sym (append_assoc name (34 ∷ []) (58 ∷ v)))

-- What stands behind the place that the search has found.
abbrev pub value_at : List ℕ → Option (List ℕ) → Option (List ℕ)
value_at pat none = none
value_at pat (some start) = after_colon (skip_spaces (drop (length pat) start))

pub json_find_value_lem :
    (text name : List ℕ)
    → leb json_key_buf_size (length (quoted name)) ≡ false
    → json_find_value text name ≡ value_at (quoted name) (strstr text (quoted name))
unfolding json_find_value
json_find_value_lem text name fits =
    rw fits (elim (strstr text (quoted name)) [ none ↦ refl | some start ↦ refl ])

-- A key is found behind a text that the search for it runs over.
pub json_find_value-key_text :
    (front name v : List ℕ)
    → leb json_key_buf_size (length (quoted name)) ≡ false
    → Passes (quoted name) front
    → skip_spaces v ≡ v
    → json_find_value (front ++ key_text name v) name ≡ some v
json_find_value-key_text front name v fits pass solid =
    json_find_value_lem (front ++ key_text name v) name fits
    ∙ ap (value_at (quoted name)) (
        pass (key_text name v)
        ∙ ap (λ t. strstr t (quoted name)) (key_text-quoted name v)
        ∙ strstr-here (quoted name) (58 ∷ v))
    ∙ ap (λ t. after_colon (skip_spaces t)) (drop-append (quoted name) (58 ∷ v))
    ∙ (unfold after_colon skip_spaces in ap some solid)
