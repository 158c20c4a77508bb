-- ===== src/Modbus.antt =====
-- modbus_master/modbus_master.c: a Modbus RTU master with one request under way at a time.
--
-- `wire` is the list of the bytes handed to uart_write_blocking so far. The callback of a request
-- is named by the end of the stairs whose sensor_parse it calls (`none` for NULL), and a call of
-- it is a value that the operations return. The pins and the UART's set-up are the chip's.
pub mod Crc
pub mod Frame
pub mod Exchange
use pico_stairway_controller.Base.{
  ℕ, zero, suc, ◌+◌, ◌-◌, ◌*◌, ◌/◌, ◌%◌, ◌^◌, ltb, leb, ◌==◌, ◌!=◌, not, ◌&&◌, ◌||◌, u8, u16, sub64,
  if◌then◌else◌, Bool, true, false, Option, none, some, List, [], ◌∷◌, ◌++◌, length, get_or, set,
  take, drop, replicate,
}
use pico_stairway_controller.Types.{ErrCode, fail, param_invalid, busy as err_busy, Side}
use pico_stairway_controller.Modbus.Crc.{crc_chk}

pub data ModbusError : Type 0 where
  success timeout crc unknown : ModbusError

-- `words` is `data`, the bytes to write: 2 of them for function 6, and reg_length * 2 (as a
-- uint8_t) or more for function 16; the source reads as many without a test.
pub record ModbusMasterRequest : Type 0 where
  pub id : ℕ  -- uint8_t
  pub func : ℕ  -- uint8_t
  pub reg_addr : ℕ  -- uint16_t
  pub reg_length : ℕ  -- uint16_t
  pub words : List ℕ  -- uint8_t[]
  pub timeout : ℕ  -- uint32_t
  pub cb : Option Side

-- A call cb(status, raw_answer, raw_len, payload, payload_len); NULL is [].
pub record Call : Type 0 where
  pub cb : Side
  pub status : ModbusError
  pub raw_answer : List ℕ
  pub raw_len : ℕ  -- uint16_t
  pub payload : List ℕ
  pub payload_len : ℕ  -- uint8_t

pub record Modbus : Type 0 where
  pub send_buf : List ℕ  -- uint8_t[32]
  pub receive_buf : List ℕ  -- uint8_t[256]
  pub receive_counter : ℕ  -- uint32_t
  pub answer_len : ℕ  -- uint32_t
  pub send_ts : ℕ  -- uint64_t
  pub busy : Bool
  pub last_request : ModbusMasterRequest
  pub wire : List ℕ

abbrev pub send_buf_size : ℕ
send_buf_size = 32

abbrev pub receive_buf_size : ℕ
receive_buf_size = 256

abbrev call : Modbus → ModbusError → List ℕ → ℕ → List ℕ → ℕ → Option Call
call m status raw raw_len payload len = elim (m.last_request.cb) [
  | none ↦ none
  | some cb ↦ some (record {
    cb = cb;
    status = status;
    raw_answer = raw;
    raw_len = raw_len;
    payload = payload;
    payload_len = len;
  })
]

-- The two CRC bytes at the end of the answer, the low one first.
abbrev pub received_crc : List ℕ → ℕ → ℕ
received_crc buf n = get_or buf (n - 2) 0 + get_or buf (n - 1) 0 * 2 ^ 8

-- decode_modbus(receive_buf, size); a NULL buffer does not occur.
unfoldable pub decode_modbus : Modbus → List ℕ → ℕ → Option Call × ErrCode
decode_modbus m buf size =
    if size == 0
    then (none, param_invalid)
    else if ltb size m.answer_len
    then (none, param_invalid)
    else if (get_or buf 0 0 != m.last_request.id) || (get_or buf 1 0 != m.last_request.func)
    then (call m ModbusError.unknown [] 0 [] 0, fail)
    else if crc_chk buf (m.answer_len - 2) != received_crc buf m.answer_len
    then (call m ModbusError.crc [] 0 [] 0, fail)
    else if (get_or buf 1 0 == 3) || (get_or buf 1 0 == 4)
    then (
      call m ModbusError.success buf (u16 m.answer_len) (drop 3 buf) (get_or buf 2 0),
      ErrCode.success,
    )
    else if (get_or buf 1 0 == 6) || (get_or buf 1 0 == 16)
    then (call m ModbusError.success buf (u16 m.answer_len) [] 0, ErrCode.success)
    else (none, ErrCode.success)

-- The interrupt handler, given the bytes that the UART has ready. A full buffer is not read any
-- more, and the UART stays readable: the loop does not end, which is `none`.
pub rx_irq : List ℕ → Modbus → Option Modbus
rx_irq [] m = some m
rx_irq (byte ∷ rest) m =
    let more = rx_irq rest (record m {
      receive_buf = set m.receive_buf m.receive_counter byte;
      receive_counter = m.receive_counter + 1;
    }) in
    if ltb m.receive_counter (receive_buf_size - 1) then more else none

abbrev pub hi8 : ℕ → ℕ
hi8 x = u8 (x / 2 ^ 8)

-- The bytes that each function code puts into send_buf before the CRC, and the answer's length.
unfoldable pub request_bytes : ModbusMasterRequest → Option (List ℕ × ℕ)
request_bytes r =
    let addr = hi8 r.reg_addr ∷ u8 r.reg_addr ∷ [] in
    let count = hi8 r.reg_length ∷ u8 r.reg_length ∷ [] in
    if (r.func == 3) || (r.func == 4)
    then some (r.id ∷ r.func ∷ (addr ++ count), 5 + r.reg_length * 2)
    else if r.func == 6
    then some (r.id ∷ r.func ∷ (addr ++ (get_or r.words 0 0 ∷ get_or r.words 1 0 ∷ [])), 8)
    else if r.func == 16
    then (let n = u8 (r.reg_length * 2) in
        some (r.id ∷ r.func ∷ (addr ++ (count ++ (n ∷ take n r.words))), 8))
    else none

-- What modbus_master_send comes to. `corrupt`: bytes were written past the end of send_buf.
pub data Sent : Type 0 where
  sent : Modbus → ErrCode → Sent
  corrupt : Sent

-- The frame: the bytes with their CRC, the low byte first.
unfoldable pub with_crc : List ℕ → List ℕ
with_crc bytes = let crc = crc_chk bytes (length bytes) in bytes ++ (u8 crc ∷ hi8 crc ∷ [])

-- The state with the request under way. What send_buf held behind the frame stays.
abbrev pub started : ℕ → ModbusMasterRequest → List ℕ → ℕ → Modbus → Modbus
started now r frame answer_len m = record {
  send_buf = frame ++ drop (length frame) m.send_buf;
  receive_buf = replicate receive_buf_size 0;
  receive_counter = 0;
  answer_len = answer_len;
  send_ts = now;
  busy = true;
  last_request = r;
  wire = m.wire ++ frame;
}

-- modbus_master_send behind its switch.
unfoldable pub transmit : ℕ → ModbusMasterRequest → List ℕ → ℕ → Modbus → Sent
transmit now r bytes answer_len m =
    let frame = with_crc bytes in
    if ltb send_buf_size (length frame)
    then corrupt
    else sent (started now r frame answer_len m) ErrCode.success

-- `now` is read after the transmission.
unfoldable pub modbus_master_send : ℕ → ModbusMasterRequest → Modbus → Sent
unfolding transmit
modbus_master_send now r m = if m.busy then sent m err_busy else elim (request_bytes r) [
  | none ↦ sent (record m { send_buf = set m.send_buf 0 r.id }) param_invalid
  | some (bytes, answer_len) ↦ transmit now r bytes answer_len m
]

unfoldable pub modbus_master_get_busy : Modbus → Bool
modbus_master_get_busy m = m.busy

-- The call of the callback, if there is one; the error code of decode_modbus is dropped.
unfoldable pub modbus_master_routine : ℕ → Modbus → Modbus × Option Call
modbus_master_routine now m =
    if not m.busy
    then (m, none)
    else if leb m.answer_len m.receive_counter || leb (receive_buf_size - 1) m.receive_counter
    then (record m { busy = false }, (decode_modbus m m.receive_buf m.receive_counter).0)
    else if ltb m.last_request.timeout (sub64 now m.send_ts)
    then (record m { busy = false }, call m ModbusError.timeout [] 0 [] 0)
    else (m, none)
