-- ===== src/Base/Word.antt =====
-- The fixed widths of C's unsigned integers: casts, and subtraction with wrap-around.
use Prim.Native.Nat.{ℕ, ◌+◌, ◌-◌, ◌*◌, ◌%◌, ◌^◌, ◌≤◌, ◌<◌}
use mathlib.Core.Path.{◌≡◌}
use native.Mathlib.Omega.{arith}

abbrev pub u8 : ℕ → ℕ
u8 n = n % 2 ^ 8

abbrev pub u16 : ℕ → ℕ
u16 n = n % 2 ^ 16

abbrev pub u32 : ℕ → ℕ
u32 n = n % 2 ^ 32

abbrev pub u64 : ℕ → ℕ
u64 n = n % 2 ^ 64

-- `a - b` on `uint32_t` and `uint64_t`; the modulus is added first, since `-` stops at 0.
unfoldable pub sub32 : ℕ → ℕ → ℕ
sub32 a b = (a + 2 ^ 32 - b) % 2 ^ 32

unfoldable pub sub64 : ℕ → ℕ → ℕ
sub64 a b = (a + 2 ^ 64 - b) % 2 ^ 64

pub sub32_exact : (a b : ℕ) → b ≤ a → a < 2 ^ 32 → sub32 a b ≡ a - b
unfolding sub32
sub32_exact a b h lt = omega arith

-- Where nothing wraps, the difference of two time stamps is the true one.
pub sub64_exact : (a b : ℕ) → b ≤ a → a < 2 ^ 64 → sub64 a b ≡ a - b
unfolding sub64
sub64_exact a b h lt = omega arith

-- A stamp later than the reading makes the difference huge.
pub sub64_wraps : (a b : ℕ) → a < b → b < 2 ^ 64 → sub64 a b ≡ a + 2 ^ 64 - b
unfolding sub64
sub64_wraps a b h lt = omega arith

-- Two bytes, the high one first: `(hi << 8) | lo`.
abbrev pub be16 : ℕ → ℕ → ℕ
be16 hi lo = hi * 2 ^ 8 + lo
