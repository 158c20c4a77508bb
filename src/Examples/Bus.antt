-- ===== src/Examples/Bus.antt =====
-- The Modbus master and the polling on concrete inputs.
use pico_stairway_controller.Base.{
  ℕ, ◌+◌, ◌*◌, ◌<◌, ◌≤◌, ◌≡◌, ◌≢◌, ◌↔◌, ◌⊎◌, inl, refl, arith, true, false, none, some, List, [],
  ◌∷◌, length, drop, replicate, u8,
}
use pico_stairway_controller.Types.{up, both_sides, all_sensors, ErrCode}
use pico_stairway_controller.Modbus.Crc.{crc_from, crc_chk, crc_byte, crc_bits, crc_bit}
use pico_stairway_controller.Modbus.{
  Call, Modbus, ModbusError, ModbusMasterRequest, corrupt, decode_modbus, with_crc,
  modbus_master_routine, modbus_master_send,
}
use pico_stairway_controller.Modbus.Frame.{modbus_master_send-corrupt_iff}
use pico_stairway_controller.Modbus.Exchange.{
  modbus_master_routine-busy, decode_modbus-answer, decode_modbus-bad_crc,
}
use pico_stairway_controller.Sensors.{Sensors, request}

-- A read of one register from the upper device, sent at 100.
abbrev read_one : ModbusMasterRequest
read_one = record (request up) { reg_length = 1 }

abbrev waiting : Modbus
waiting = record {
  send_buf = replicate 32 0;
  receive_buf = replicate 256 0;
  receive_counter = 3;
  answer_len = 7;
  send_ts = 100;
  busy = true;
  last_request = read_one;
  wire = [];
}

abbrev answer : List ℕ
answer = with_crc (2 ∷ 3 ∷ 2 ∷ 0 ∷ 9 ∷ [])

decode_modbus-answer_example : decode_modbus waiting answer (length answer) ≡ (
  some (record {
    cb = up;
    status = ModbusError.success;
    raw_answer = answer;
    raw_len = 7;
    payload = drop 3 answer;
    payload_len = 2;
  }),
  ErrCode.success,
)
unfolding with_crc
decode_modbus-answer_example =
    decode_modbus-answer waiting up 3 2 (0 ∷ 9 ∷ []) (inl refl) refl refl refl (omega arith)
      (omega arith, (omega arith, (omega arith, (omega arith, (omega arith, tt)))))

abbrev damaged : List ℕ
damaged = 2 ∷ 3 ∷ 2 ∷ 0 ∷ 9 ∷ 0 ∷ 0 ∷ []

damaged_crc : crc_chk damaged 5 ≡ 16956
unfolding crc_chk crc_from crc_byte crc_bits crc_bit
damaged_crc = refl

decode_modbus-bad_crc_example :
    ((decode_modbus waiting damaged 7).1 ≢ ErrCode.success)
    × ((c : Call) → (decode_modbus waiting damaged 7).0 ≡ some c → c.status ≢ ModbusError.success)
decode_modbus-bad_crc_example =
    decode_modbus-bad_crc waiting damaged 7 (λ e. omega (arith, damaged_crc))

modbus_master_routine-busy_example :
    ((3 < 7)
      × (3 < 255)
      × (150 ≤ 100 + 100)
      × (modbus_master_routine 150 waiting ≡ (waiting, none)))
    ⊎ (((7 ≤ 3) ⊎ ((255 ≤ 3) ⊎ (100 + 100 < 150)))
        × ((modbus_master_routine 150 waiting).0 ≡ record waiting { busy = false }))
modbus_master_routine-busy_example =
    modbus_master_routine-busy 150 waiting refl (omega arith) (omega arith)

-- A read of 126 registers is answered with 257 bytes.
abbrev overlong : Modbus
overlong = record waiting { answer_len = 257; receive_counter = 255 }

abbrev write_twelve : ModbusMasterRequest
write_twelve = record (request up) { func = 16; reg_length = 12; words = replicate 24 1 }

abbrev free : Modbus
free = record waiting { busy = false }

modbus_master_send-corrupt_iff_example :
    (modbus_master_send 200 write_twelve free ≡ corrupt) ↔ (23 < u8 (12 * 2))
modbus_master_send-corrupt_iff_example =
    modbus_master_send-corrupt_iff 200 write_twelve free refl refl (omega arith)

abbrev polled : Sensors
polled = record {
  sensors_values = record {
    dist = all_sensors 0;
    signal = all_sensors 0;
    state = all_sensors false;
    error = all_sensors false;
  };
  dev_error = both_sides false;
  request_ts = 100;
  next_dev = up;
  modbus = free;
}
