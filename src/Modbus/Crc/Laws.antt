-- ===== src/Modbus/Crc/Laws.antt =====
-- modbus_master.c, crc_chk: the CRC of a message, and of what follows it.
use Prim.Native.Nat.{bit_xor}
use native.Mathlib.Nat.{pow-suc}
use pico_stairway_controller.Base.{
  ℕ, zero, suc, ◌+◌, ◌*◌, ◌/◌, ◌%◌, ◌^◌, ◌<◌, ◌≡◌, ◌∙◌, ap, refl, arith, u8, List, [], ◌∷◌, ◌++◌,
}
use pico_stairway_controller.Base.Bits.{bit_xor_cancel, bit_xor-lt}
use pico_stairway_controller.Modbus.Crc.{crc_bit, crc_bits, crc_byte, crc_from}

abbrev pub IsBytes : List ℕ → Type 0
IsBytes [] = Unit
IsBytes (b ∷ bs) = (b < 256) × IsBytes bs

crc_bit_double : (x : ℕ) → crc_bit (2 * x) ≡ x
unfolding crc_bit
crc_bit_double x = ground arith

crc_bits_shift : (k x : ℕ) → crc_bits k (x * 2 ^ k) ≡ x
unfolding crc_bits
crc_bits_shift zero x = omega arith
crc_bits_shift (suc k) x =
    let double : x * 2 ^ suc k ≡ 2 * (x * 2 ^ k) =
      omega (arith, ap (λ (t : ℕ). x * t) (pow-suc 2 k)) in
    ap (λ (t : ℕ). crc_bits k (crc_bit t)) double
    ∙ ap (crc_bits k) (crc_bit_double (x * 2 ^ k))
    ∙ crc_bits_shift k x

crc_bit-lt : (x : ℕ) → x < 65536 → crc_bit x < 65536
unfolding crc_bit
crc_bit-lt x h = ground (arith, bit_xor-lt 16 (x / 2) 0xa001 (omega arith) (omega arith))

crc_bits-lt : (k x : ℕ) → x < 65536 → crc_bits k x < 65536
unfolding crc_bits
crc_bits-lt zero x h = h
crc_bits-lt (suc k) x h = crc_bits-lt k (crc_bit x) (crc_bit-lt x h)

crc_byte-lt : (reg byte : ℕ) → reg < 65536 → byte < 256 → crc_byte reg byte < 65536
unfolding crc_byte
crc_byte-lt reg byte h k =
    crc_bits-lt 8 (bit_xor reg byte) (bit_xor-lt 16 reg byte (omega arith) (omega arith))

-- The register stays 16 bits wide.
pub crc_from-lt :
    (reg : ℕ) (bytes : List ℕ) → reg < 65536 → IsBytes bytes → crc_from reg bytes < 65536
unfolding crc_from
crc_from-lt reg [] h b = h
crc_from-lt reg (byte ∷ rest) h b =
    crc_from-lt (crc_byte reg byte) rest (crc_byte-lt reg byte h b.0) b.1

pub crc_from-append :
    (reg : ℕ) (xs ys : List ℕ) → crc_from reg (xs ++ ys) ≡ crc_from (crc_from reg xs) ys
unfolding crc_from
crc_from-append reg [] ys = refl
crc_from-append reg (x ∷ xs) ys = crc_from-append (crc_byte reg x) xs ys

low_byte : (reg : ℕ) → crc_byte reg (reg % 256) ≡ reg / 256
unfolding crc_byte
low_byte reg =
    let split : reg ≡ reg / 256 * 2 ^ 8 + reg % 256 = omega arith in
    ap (λ (t : ℕ). crc_bits 8 (bit_xor t (reg % 256))) split
    ∙ ap (crc_bits 8) (bit_xor_cancel 8 (reg / 256) (reg % 256) (omega arith))
    ∙ crc_bits_shift 8 (reg / 256)

high_byte : (x : ℕ) → x < 256 → crc_byte x x ≡ 0
unfolding crc_byte
high_byte x h =
    let padded : x ≡ 0 * 2 ^ 8 + x = omega arith in
    ap (λ (t : ℕ). crc_bits 8 (bit_xor t x)) padded
    ∙ ap (crc_bits 8) (bit_xor_cancel 8 0 x h)
    ∙ crc_bits_shift 8 0

-- A register fed with its own two bytes, the low one first, comes to 0.
pub crc_from_self : (reg : ℕ) → reg < 65536 → crc_from reg (u8 reg ∷ u8 (reg / 2 ^ 8) ∷ []) ≡ 0
unfolding crc_from
crc_from_self reg h =
    let fits : u8 (reg / 2 ^ 8) ≡ reg / 256 = omega arith in
    rw (low_byte reg, fits) (high_byte (reg / 256) (omega arith))
