-- ===== src/Modbus/Crc.antt =====
-- modbus_master.c, crc_chk: the CRC-16 of Modbus, bit by bit.
pub mod Laws
use Prim.Native.Nat.{bit_xor}
use pico_stairway_controller.Base.{
  ℕ, zero, suc, ◌+◌, ◌*◌, ◌/◌, ◌%◌, ◌==◌, u8, u16, if◌then◌else◌, Bool, List, [], ◌∷◌, take,
}

-- One round of the inner loop.
unfoldable pub crc_bit : ℕ → ℕ
crc_bit reg = if (reg % 2) == 1 then bit_xor (reg / 2) 0xa001 else reg / 2

unfoldable pub crc_bits : ℕ → ℕ → ℕ
crc_bits zero reg = reg
crc_bits (suc j) reg = crc_bits j (crc_bit reg)

-- One round of the outer loop.
unfoldable pub crc_byte : ℕ → ℕ → ℕ
crc_byte reg byte = crc_bits 8 (bit_xor reg byte)

unfoldable pub crc_from : ℕ → List ℕ → ℕ
crc_from reg [] = reg
crc_from reg (byte ∷ rest) = crc_from (crc_byte reg byte) rest

-- `length` is a uint8_t.
unfoldable pub crc_chk : List ℕ → ℕ → ℕ
crc_chk dat length = crc_from 0xffff (take (u8 length) dat)
