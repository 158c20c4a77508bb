-- ===== src/Http/Received/Growth.antt =====
-- What strstr finds, and where a string ends, when an array grows.
use pico_stairway_controller.Base.{
  ℕ, zero, suc, ◌<◌, ◌≤◌, ◌≡◌, ◌⊎◌, ◌∙◌, ap, sym, inl, inr, refl, arith, List, [], ◌∷◌, ◌++◌,
  Option, none, some, length, Bool-cases, starts_with, set, c_string,
}
use pico_stairway_controller.Http.Received.Bounds.{position-fits}
use pico_stairway_controller.Http.Received.{position, later}

pub Option-cases : (x : Option ℕ) → (x ≡ none) ⊎ ((i : ℕ) × (x ≡ some i))
Option-cases none = inl refl
Option-cases (some i) = inr (i, refl)

starts_with-append :
    (pattern_ str rest : List ℕ)
    → length pattern_ ≤ length str
    → starts_with pattern_ (str ++ rest) ≡ starts_with pattern_ str
unfolding starts_with
starts_with-append [] str rest fits = refl
starts_with-append (p ∷ ps) [] rest fits = absurd (omega arith)
starts_with-append (p ∷ ps) (c ∷ cs) rest fits =
    rw (starts_with-append ps cs rest (omega arith)) refl

later-injective : (x : Option ℕ) (i : ℕ) → later x ≡ some i → (j : ℕ) × (x ≡ some j) × (i ≡ suc j)
later-injective none i e = absurd (ground arith)
later-injective (some j) i e = (j, refl, ground arith)

-- What strstr finds does not change when the string grows.
pub position-append :
    (str pattern_ rest : List ℕ) (i : ℕ)
    → position str pattern_ ≡ some i
    → position (str ++ rest) pattern_ ≡ some i
unfolding position starts_with
position-append [] [] [] i e = e
position-append [] [] (c ∷ cs) i e = e
position-append [] (p ∷ ps) rest i e = absurd (ground arith)
position-append (c ∷ cs) pattern_ rest i e =
    let long : length pattern_ ≤ length (c ∷ cs) =
      omega (arith, position-fits (c ∷ cs) pattern_ i e) in
    let same : _ = starts_with-append pattern_ (c ∷ cs) rest long in
    elim (Bool-cases (starts_with pattern_ (c ∷ cs))) [
      | inl here ↦ rw (same ∙ here) (rw here at e)
      | inr absent ↦
          let e' : later (position cs pattern_) ≡ some i = rw absent at e in
          let (j, found, next) = later-injective _ i e' in
          rw (same ∙ absent) (rw (position-append cs pattern_ rest j found) (ap some (sym next)))
    ]

-- What the string gains when the array grows: nothing behind a 0.
pub tail_string : List ℕ → List ℕ → List ℕ
tail_string [] more = c_string more
tail_string (zero ∷ cs) more = []
tail_string (suc c ∷ cs) more = tail_string cs more

pub c_string-append :
    (dat more : List ℕ) → c_string (dat ++ more) ≡ c_string dat ++ tail_string dat more
unfolding tail_string
c_string-append [] more = refl
c_string-append (zero ∷ cs) more = refl
c_string-append (suc c ∷ cs) more = ap (λ t. suc c ∷ t) (c_string-append cs more)

pub set-append : (xs ys : List ℕ) (i v : ℕ) → i < length xs → set (xs ++ ys) i v ≡ set xs i v ++ ys
set-append [] ys i v lt = absurd (omega arith)
set-append (x ∷ xs) ys zero v lt = refl
set-append (x ∷ xs) ys (suc i) v lt = ap (λ t. x ∷ t) (set-append xs ys i v (omega arith))

pub c_string-cut :
    (xs ys : List ℕ) (i : ℕ) → i < length xs → c_string (set xs i 0 ++ ys) ≡ c_string (set xs i 0)
c_string-cut [] ys i lt = absurd (omega arith)
c_string-cut (x ∷ xs) ys zero lt = refl
c_string-cut (zero ∷ xs) ys (suc i) lt = refl
c_string-cut (suc x ∷ xs) ys (suc i) lt = ap (λ t. suc x ∷ t) (c_string-cut xs ys i (omega arith))
