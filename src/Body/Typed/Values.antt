-- ===== src/Body/Typed/Values.antt =====
-- network/http_server/settings.c: the types of the C struct, and the parsers of a value.
use pico_stairway_controller.Base.{
  ℕ, ◌+◌, ◌<◌, ◌≤◌, ◌≡◌, refl, arith, leb, ltb, ◌==◌, ◌||◌, not, if◌then◌else◌, Bool, true, false,
  List, [], ◌∷◌, ◌++◌, Option, none, some, length, drop, Bool-cases, inl, inr, starts_with, strstr,
}
use pico_stairway_controller.Types.{ErrCode, Settings}
use pico_stairway_controller.Json.{
  Result, ok, error, quote, backslash, slash, cons, put, parse_from, json_parse_string,
}
use pico_stairway_controller.Numbers.{strtoul, starts_number, json_parse_uint}
use pico_stairway_controller.Settings.Flash.{IsStruct, AllBytes}
use pico_stairway_controller.Body.{
  Field, number, flag, text, assign, assign_text, set_field, set_fields,
}
use pico_stairway_controller.Body.Search.{
  json_key_buf_size, is_space, skip_spaces, after_colon, json_find_value,
}
use pico_stairway_controller.Body.Typed.{KeepsStruct, AllKeepStruct, AllBytes-drop}

abbrev pub IsBelow : ℕ → Result ℕ → Type 0
IsBelow max (ok v) = v ≤ max
IsBelow max (error e) = Unit

pub guard-IsBelow :
    (max v : ℕ) (a b c : Bool)
    → c ≡ ltb max v
    → IsBelow max (
        if a
        then error ErrCode.param_invalid
        else if b || c
        then error ErrCode.param_invalid
        else ok v)
guard-IsBelow max v true b c e = tt
guard-IsBelow max v false true c e = tt
guard-IsBelow max v false false true e = tt
guard-IsBelow max v false false false e = ground arith

pub json_parse_uint-IsBelow : (val : List ℕ) (max : ℕ) → IsBelow max (json_parse_uint val max)
unfolding json_parse_uint
json_parse_uint-IsBelow val max =
    guard-IsBelow max (strtoul val).0 (not (starts_number val)) (strtoul val).2 _ refl

-- A string behind `len` characters leaves room for its 0, and its characters are bytes.
abbrev pub Reads : ℕ → ℕ → Result (List ℕ) → Type 0
Reads size len (ok s) = (len + length s < size) × AllBytes s
Reads size len (error e) = Unit

one_of-Reads :
    (size len : ℕ) (b : Bool) (x y : Result (List ℕ))
    → Reads size len x
    → Reads size len y
    → Reads size len (if b then x else y)
one_of-Reads size len true x y hx hy = hx
one_of-Reads size len false x y hx hy = hy

cons-Reads :
    (size len c : ℕ) (r : Result (List ℕ))
    → c < 256
    → Reads size (len + 1) r
    → Reads size len (cons c r)
cons-Reads size len c (ok s) byte h = (omega (arith, h.0), (byte, h.1))
cons-Reads size len c (error e) byte h = tt

put-Reads :
    (size len c : ℕ) (r : Result (List ℕ))
    → c < 256
    → (len + 1 < size → Reads size (len + 1) r)
    → Reads size len (put size len c r)
unfolding put
put-Reads size len c r byte h = elim (Bool-cases (leb size (len + 1))) [
  | inl full ↦ rw full tt
  | inr room ↦ rw room (cons-Reads size len c r byte (h (ground arith)))
]

parse_from-Reads :
    (escaped : Bool) (size len : ℕ) (str : List ℕ)
    → len < size
    → AllBytes str
    → Reads size len (parse_from escaped size len str)
unfolding parse_from
parse_from-Reads true size len [] room bytes = tt
parse_from-Reads false size len [] room bytes = tt
parse_from-Reads true size len (c ∷ rest) room bytes =
    one_of-Reads size len ((c == quote) || (c == backslash) || (c == slash)) _ _
      (put-Reads size len c _ bytes.0
        (λ more. parse_from-Reads false size (len + 1) rest more bytes.1))
      tt
parse_from-Reads false size len (c ∷ rest) room bytes =
    one_of-Reads size len (c == quote) _ _ (omega arith, tt)
      (one_of-Reads size len (c == 0) _ _ tt (
        one_of-Reads size len (c == backslash) _ _
          (parse_from-Reads true size len rest room bytes.1)
          (put-Reads size len c _ bytes.0
            (λ more. parse_from-Reads false size (len + 1) rest more bytes.1))))

pub json_parse_string-Reads :
    (val : List ℕ) (size : ℕ) → 0 < size → AllBytes val → Reads size 0 (json_parse_string val size)
unfolding json_parse_string
json_parse_string-Reads [] size room bytes = tt
json_parse_string-Reads (c ∷ rest) size room bytes =
    one_of-Reads size 0 (c == quote) _ _ (parse_from-Reads false size 0 rest room bytes.1) tt

-- What is found in a text of bytes is one.
abbrev pub FoundBytes : Option (List ℕ) → Type 0
FoundBytes none = Unit
FoundBytes (some val) = AllBytes val

one_of-FoundBytes :
    (b : Bool) (x y : Option (List ℕ))
    → FoundBytes x
    → FoundBytes y
    → FoundBytes (if b then x else y)
one_of-FoundBytes true x y hx hy = hx
one_of-FoundBytes false x y hx hy = hy

skip_spaces-AllBytes : (str : List ℕ) → AllBytes str → AllBytes (skip_spaces str)
unfolding skip_spaces
skip_spaces-AllBytes [] bytes = tt
skip_spaces-AllBytes (c ∷ rest) bytes = elim (Bool-cases (is_space c)) [
  | inl space ↦ rw space (skip_spaces-AllBytes rest bytes.1)
  | inr other ↦ rw other bytes
]

after_colon-FoundBytes : (str : List ℕ) → AllBytes str → FoundBytes (after_colon str)
unfolding after_colon
after_colon-FoundBytes [] bytes = tt
after_colon-FoundBytes (c ∷ rest) bytes =
    one_of-FoundBytes (c == 58) _ _ (skip_spaces-AllBytes rest bytes.1) tt

strstr-FoundBytes : (str pat : List ℕ) → AllBytes str → FoundBytes (strstr str pat)
unfolding strstr
strstr-FoundBytes [] pat bytes = one_of-FoundBytes (starts_with pat []) _ _ tt tt
strstr-FoundBytes (c ∷ rest) pat bytes =
    one_of-FoundBytes (starts_with pat (c ∷ rest)) _ _ bytes (strstr-FoundBytes rest pat bytes.1)

json_find_value-FoundBytes :
    (str key : List ℕ) → AllBytes str → FoundBytes (json_find_value str key)
unfolding json_find_value
json_find_value-FoundBytes str key bytes =
    one_of-FoundBytes (leb json_key_buf_size (length (34 ∷ (key ++ 34 ∷ [])))) _ _ tt
      (behind (strstr str (34 ∷ (key ++ 34 ∷ []))) (strstr-FoundBytes str _ bytes))
  where
    behind :
        (found : Option (List ℕ))
        → FoundBytes found
        → FoundBytes (elim found [
          | none ↦ none
          | some start ↦ after_colon (skip_spaces (drop (length (34 ∷ (key ++ 34 ∷ []))) start))
        ])
    behind none h = tt
    behind (some start) h =
        after_colon-FoundBytes (skip_spaces (drop (length (34 ∷ (key ++ 34 ∷ []))) start)) (
          skip_spaces-AllBytes (drop (length (34 ∷ (key ++ 34 ∷ []))) start)
            (AllBytes-drop (length (34 ∷ (key ++ 34 ∷ []))) start h))

-- The settings that a body has set so far, unless it was refused.
abbrev pub IsTyped : Result Settings → Type 0
IsTyped (ok s) = IsStruct s
IsTyped (error e) = Unit

assign-IsTyped :
    (max : ℕ) (write : ℕ → Settings → Settings) (s : Settings) (r : Result ℕ)
    → ((v : ℕ) → v ≤ max → IsStruct (write v s))
    → IsBelow max r
    → IsTyped (assign write s r)
assign-IsTyped max write s (ok v) keeps h = keeps v h
assign-IsTyped max write s (error e) keeps h = tt

assign_flag-IsTyped :
    (write : Bool → Settings → Settings) (s : Settings) (r : Result Bool)
    → ((v : Bool) → IsStruct (write v s))
    → IsTyped (assign write s r)
assign_flag-IsTyped write s (ok v) keeps = keeps v
assign_flag-IsTyped write s (error e) keeps = tt

assign_text-IsTyped :
    (size : ℕ) (secret : Bool) (write : List ℕ → Settings → Settings) (s : Settings)
    (r : Result (List ℕ))
    → IsStruct s
    → ((v : List ℕ) → length v < size → AllBytes v → IsStruct (write v s))
    → Reads size 0 r
    → IsTyped (assign_text secret write s r)
assign_text-IsTyped size true write s (ok []) i keeps h = i
assign_text-IsTyped size true write s (ok (c ∷ v)) i keeps h =
    keeps (c ∷ v) (omega (arith, h.0)) h.1
assign_text-IsTyped size false write s (ok v) i keeps h = keeps v (omega (arith, h.0)) h.1
assign_text-IsTyped size secret write s (error e) i keeps h = tt

set_field-IsTyped :
    (field : Field) (val : List ℕ) (s : Settings)
    → KeepsStruct field
    → AllBytes val
    → IsStruct s
    → IsTyped (set_field field val s)
unfolding set_field
set_field-IsTyped (number max read write) val s keeps bytes i =
    assign-IsTyped max write s _ (λ v le. keeps v s le i) (json_parse_uint-IsBelow val max)
set_field-IsTyped (flag read write) val s keeps bytes i =
    assign_flag-IsTyped write s _ (λ v. keeps v s i)
set_field-IsTyped (text size secret read write) val s keeps bytes i =
    assign_text-IsTyped size secret write s _ i (λ v short all. keeps.1 v s short all i)
      (json_parse_string-Reads val size keeps.0 bytes)

pub set_fields-IsTyped :
    (entries : List (List ℕ × Field)) (json : List ℕ) (r : Result Settings)
    → AllKeepStruct entries
    → AllBytes json
    → IsTyped r
    → IsTyped (set_fields entries json r)
unfolding set_fields
set_fields-IsTyped entries json (error e) keep bytes i = tt
set_fields-IsTyped [] json (ok s) keep bytes i = i
set_fields-IsTyped ((name, field) ∷ rest) json (ok s) keep bytes i =
    by_value (λ r. set_fields-IsTyped rest json r keep.1 bytes) (json_find_value json name)
      (json_find_value-FoundBytes json name bytes)
  where
    by_value :
        ((r : Result Settings) → IsTyped r → IsTyped (set_fields rest json r))
        → (found : Option (List ℕ)) → FoundBytes found
        → IsTyped (elim found [
          | none ↦ set_fields rest json (ok s)
          | some val ↦ set_fields rest json (set_field field val s)
        ])
    by_value later none h = later (ok s) i
    by_value later (some val) h =
        later (set_field field val s) (set_field-IsTyped field val s keep.0 h i)
