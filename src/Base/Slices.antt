-- ===== src/Base/Slices.antt =====
-- The beginning and the rest of a C array.
use Prim.Native.Nat.{ℕ, zero, suc, ◌+◌, ◌-◌, ◌≤◌}
use mathlib.Core.Path.{◌≡◌, refl, sym, ap, ◌∙◌}
use mathlib.Core.List.{List, [], ◌∷◌, ◌++◌}
use native.Mathlib.Omega.{arith}
use pico_stairway_controller.Base.Lists.{length, take, drop}

plus_suc : (a b : ℕ) → suc a + b ≡ suc (a + b)
plus_suc a b = omega arith

pub take-nil : (n : ℕ) → take {A = ℕ} n [] ≡ []
take-nil zero = refl
take-nil (suc n) = refl

pub take-all : (xs : List ℕ) → take (length xs) xs ≡ xs
take-all [] = refl
take-all (x ∷ xs) = ap (λ t. x ∷ t) (take-all xs)

pub take-add : (a b : ℕ) (xs : List ℕ) → take (a + b) xs ≡ take a xs ++ take b (drop a xs)
take-add zero b xs = ap (λ n. take n xs) (omega arith)
take-add (suc a) b [] = ap (λ n. take n []) (plus_suc a b) ∙ sym (take-nil b)
take-add (suc a) b (x ∷ xs) =
    ap (λ n. take n (x ∷ xs)) (plus_suc a b) ∙ ap (λ t. x ∷ t) (take-add a b xs)

pub take-append_left : (n : ℕ) (xs ys : List ℕ) → n ≤ length xs → take n (xs ++ ys) ≡ take n xs
take-append_left zero xs ys le = refl
take-append_left (suc n) [] ys le = absurd (omega arith)
take-append_left (suc n) (x ∷ xs) ys le = ap (λ t. x ∷ t) (take-append_left n xs ys (omega arith))

pub drop-append_left :
    (n : ℕ) (xs ys : List ℕ) → n ≤ length xs → drop n (xs ++ ys) ≡ drop n xs ++ ys
drop-append_left zero xs ys le = refl
drop-append_left (suc n) [] ys le = absurd (omega arith)
drop-append_left (suc n) (x ∷ xs) ys le = drop-append_left n xs ys (omega arith)

pub drop-append_right :
    (n : ℕ) (xs ys : List ℕ) → length xs ≤ n → drop n (xs ++ ys) ≡ drop (n - length xs) ys
drop-append_right n [] ys le = ap (λ k. drop k ys) (omega arith)
drop-append_right zero (x ∷ xs) ys le = absurd (omega arith)
drop-append_right (suc n) (x ∷ xs) ys le =
    drop-append_right n xs ys (omega arith) ∙ ap (λ k. drop k ys) (omega arith)

pub length-drop : (n : ℕ) (xs : List ℕ) → length (drop n xs) ≡ length xs - n
length-drop zero xs = omega arith
length-drop (suc n) [] = omega arith
length-drop (suc n) (x ∷ xs) = omega (arith, length-drop n xs)
