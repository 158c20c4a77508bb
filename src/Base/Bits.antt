-- ===== src/Base/Bits.antt =====
-- Laws of exclusive or, from the digit recursion that the native operation stands for.
use Prim.Native.Nat.{
  ℕ, zero, suc, ◌+◌, ◌*◌, ◌/◌, ◌%◌, ◌^◌, ◌<◌, ◌≤◌, bit_xor, digits, bitwise, bit_xor-bitwise,
  differ,
}
use mathlib.Core.Path.{◌≡◌, refl, ap, ◌∙◌}
use native.Mathlib.Nat.{pow-suc}
use native.Mathlib.Omega.{arith}

module _ (z : ℕ → ℕ) (f : ℕ → ℕ → ℕ) where
  -- Fuel beyond the number itself changes nothing.
  digits_enough : (n m a b : ℕ) → a ≤ n → a ≤ m → digits z f n a b ≡ digits z f m a b
  digits_enough zero zero a b p q = refl
  digits_enough zero (suc m) zero b p q = refl
  digits_enough zero (suc m) (suc a) b p q = absurd (omega arith)
  digits_enough (suc n) zero zero b p q = refl
  digits_enough (suc n) zero (suc a) b p q = absurd (omega arith)
  digits_enough (suc n) (suc m) zero b p q = refl
  digits_enough (suc n) (suc m) (suc a) b p q =
      rw (digits_enough n m (suc a / 2) (b / 2) (omega arith) (omega arith))

bitwise-suc :
    (z : ℕ → ℕ) (f : ℕ → ℕ → ℕ) (a b : ℕ)
    → bitwise z f (suc a) b ≡ bitwise z f (suc a / 2) (b / 2) * 2 + f (suc a % 2) (b % 2)
bitwise-suc z f a b =
    omega (arith, digits_enough z f a (suc a / 2) (suc a / 2) (b / 2) (omega arith) (omega arith))

pub zero-bit_xor : (b : ℕ) → bit_xor 0 b ≡ b
zero-bit_xor b = bit_xor-bitwise 0 b

-- The lowest binary digit and the rest.
pub bit_xor_step : (a b : ℕ) → bit_xor a b ≡ bit_xor (a / 2) (b / 2) * 2 + differ (a % 2) (b % 2)
bit_xor_step zero b = omega (arith, zero-bit_xor b, zero-bit_xor (b / 2))
bit_xor_step (suc a) b = simp bit_xor-bitwise (bitwise-suc (λ y. y) differ a b)

differ_self : (x : ℕ) → differ x x ≡ 0
differ_self zero = refl
differ_self (suc x) = differ_self x

differ-zero : (x : ℕ) → differ x 0 ≡ x
differ-zero zero = refl
differ-zero (suc x) = refl

bit_xor-zero_fuel : (n a : ℕ) → a ≤ n → bit_xor a 0 ≡ a
bit_xor-zero_fuel n zero h = refl
bit_xor-zero_fuel zero (suc a) h = absurd (omega arith)
bit_xor-zero_fuel (suc n) (suc a) h = omega (
  arith,
  bit_xor_step (suc a) 0,
  bit_xor-zero_fuel n (suc a / 2) (omega arith),
  differ-zero (suc a % 2),
)

pub bit_xor-zero : (a : ℕ) → bit_xor a 0 ≡ a
bit_xor-zero a = bit_xor-zero_fuel a a (omega arith)

-- The low `k` bits of a number cancel against themselves.
pub bit_xor_cancel : (k q r : ℕ) → r < 2 ^ k → bit_xor (q * 2 ^ k + r) r ≡ q * 2 ^ k
bit_xor_cancel zero q r fits =
    let none_left : r ≡ 0 = omega arith in rw none_left (bit_xor-zero (q * 2 ^ 0 + 0) ∙ omega arith)
bit_xor_cancel (suc k) q r fits =
    let double : q * 2 ^ suc k ≡ 2 * (q * 2 ^ k) =
      omega (arith, ap (λ (t : ℕ). q * t) (pow-suc 2 k)) in
    let half : (q * 2 ^ suc k + r) / 2 ≡ q * 2 ^ k + r / 2 = omega arith in
    let parity : (q * 2 ^ suc k + r) % 2 ≡ r % 2 = omega arith in
    omega (
      arith,
      bit_xor_step (q * 2 ^ suc k + r) r,
      ap (λ (t : ℕ). bit_xor t (r / 2)) half,
      ap (λ (t : ℕ). differ t (r % 2)) parity,
      differ_self (r % 2),
      bit_xor_cancel k q (r / 2) (omega (arith, pow-suc 2 k)),
    )

differ-lt : (x y : ℕ) → x < 2 → y < 2 → differ x y < 2
differ-lt zero y hx hy = hy
differ-lt (suc x) zero hx hy = hx
differ-lt (suc x) (suc y) hx hy = differ-lt x y (omega arith) (omega arith)

pub bit_xor-lt : (k a b : ℕ) → a < 2 ^ k → b < 2 ^ k → bit_xor a b < 2 ^ k
bit_xor-lt zero a b ha hb =
    let za : a ≡ 0 = omega arith in
    let zb : b ≡ 0 = omega arith in rw (za, zb) (omega (arith, zero-bit_xor 0))
bit_xor-lt (suc k) a b ha hb = omega (
  arith,
  pow-suc 2 k,
  bit_xor_step a b,
  bit_xor-lt k (a / 2) (b / 2) (omega (arith, pow-suc 2 k)) (omega (arith, pow-suc 2 k)),
  differ-lt (a % 2) (b % 2) (omega arith) (omega arith),
)
