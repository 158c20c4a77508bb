-- ===== src/Modbus/Exchange.antt =====
-- modbus_master.c: one request and its answer, from the interrupt to the call of the callback.
use pico_stairway_controller.Base.{
  ℕ, ◌+◌, ◌-◌, ◌^◌, ◌<◌, ◌≤◌, ◌≡◌, ◌≢◌, ◌↔◌, ◌⊎◌, ◌∙◌, ap, inl, inr, refl, arith, ltb, u16,
  sub64_exact, true, false, none, some, List, [], ◌∷◌, length, get_or, set, drop, Bool-cases,
}
use pico_stairway_controller.Types.{Side, ErrCode}
use pico_stairway_controller.Modbus.Crc.{crc_chk}
use pico_stairway_controller.Modbus.Crc.Laws.{IsBytes}
use pico_stairway_controller.Modbus.Frame.{with_crc-accepted, length-with_crc}
use pico_stairway_controller.Modbus.{
  Call, Modbus, ModbusError, decode_modbus, received_crc, rx_irq, with_crc, modbus_master_routine,
}

-- A busy master waits exactly as long as the answer is incomplete, the buffer has room and the
-- time is not up; then it is free again, and nothing else but `busy` has changed.
pub modbus_master_routine-busy :
    (now : ℕ) (m : Modbus)
    → m.busy ≡ true
    → m.send_ts ≤ now
    → now < 2 ^ 64
    → ((m.receive_counter < m.answer_len)
        × (m.receive_counter < 255)
        × (now ≤ m.send_ts + m.last_request.timeout)
        × (modbus_master_routine now m ≡ (m, none)))
      ⊎ (((m.answer_len ≤ m.receive_counter)
            ⊎ ((255 ≤ m.receive_counter) ⊎ (m.send_ts + m.last_request.timeout < now)))
          × ((modbus_master_routine now m).0 ≡ record m { busy = false }))
unfolding modbus_master_routine
modbus_master_routine-busy now m busy after fits =
    ground (arith, sub64_exact now m.send_ts after fits)

-- A time-out calls the callback of the request, with MODBUS_ERR_TIMEOUT and no answer.
pub modbus_master_routine-timeout :
    (now : ℕ) (m : Modbus) (cb : Side)
    → m.busy ≡ true
    → m.last_request.cb ≡ some cb
    → m.receive_counter < m.answer_len
    → m.receive_counter < 255
    → m.send_ts + m.last_request.timeout < now
    → now < 2 ^ 64
    → modbus_master_routine now m ≡ (
      record m { busy = false },
      some (record {
        cb = cb;
        status = ModbusError.timeout;
        raw_answer = [];
        raw_len = 0;
        payload = [];
        payload_len = 0;
      }),
    )
unfolding modbus_master_routine
modbus_master_routine-timeout now m cb busy has_cb short room late fits =
    ground (arith, sub64_exact now m.send_ts (omega arith) fits)

-- An answer that cannot fit the receive buffer ends in silence: the buffer fills up, the master is
-- free again, and the callback of the request is never called.
pub modbus_master_routine-silent :
    (now : ℕ) (m : Modbus)
    → m.busy ≡ true
    → m.receive_counter ≡ 255
    → 255 < m.answer_len
    → modbus_master_routine now m ≡ (record m { busy = false }, none)
unfolding modbus_master_routine decode_modbus
modbus_master_routine-silent now m busy full long = ground arith

with_crc-head :
    (a b c : ℕ) (rest : List ℕ)
    → (get_or (with_crc (a ∷ b ∷ c ∷ rest)) 0 0 ≡ a)
      × (get_or (with_crc (a ∷ b ∷ c ∷ rest)) 1 0 ≡ b)
      × (get_or (with_crc (a ∷ b ∷ c ∷ rest)) 2 0 ≡ c)
unfolding with_crc
with_crc-head a b c rest = (refl, refl, refl)

decode_read :
    (m : Modbus) (cb : Side) (buf : List ℕ) (size func : ℕ)
    → get_or buf 0 0 ≡ m.last_request.id
    → get_or buf 1 0 ≡ func
    → m.last_request.func ≡ func
    → (func ≡ 3) ⊎ (func ≡ 4)
    → m.last_request.cb ≡ some cb
    → m.answer_len ≤ size
    → 0 < size
    → crc_chk buf (m.answer_len - 2) ≡ received_crc buf m.answer_len
    → decode_modbus m buf size ≡ (
      some (record {
        cb = cb;
        status = ModbusError.success;
        raw_answer = buf;
        raw_len = u16 m.answer_len;
        payload = drop 3 buf;
        payload_len = get_or buf 2 0;
      }),
      ErrCode.success,
    )
unfolding decode_modbus
decode_read m cb buf size func h0 h1 same read has_cb long pos right = ground arith

-- A well-formed answer to a read request, with a right CRC, reaches the callback as it was sent.
pub decode_modbus-answer :
    (m : Modbus) (cb : Side) (func len : ℕ) (payload : List ℕ)
    → let bytes = m.last_request.id ∷ func ∷ len ∷ payload in
      let frame = with_crc bytes in
      (func ≡ 3) ⊎ (func ≡ 4)
      → m.last_request.func ≡ func
      → m.last_request.cb ≡ some cb
      → m.answer_len ≡ length frame
      → length payload < 251
      → IsBytes bytes
      → decode_modbus m frame (length frame) ≡ (
        some (record {
          cb = cb;
          status = ModbusError.success;
          raw_answer = frame;
          raw_len = length frame;
          payload = drop 3 frame;
          payload_len = len;
        }),
        ErrCode.success,
      )
decode_modbus-answer m cb func len payload read same_func has_cb exact short bytes =
    let all = m.last_request.id ∷ func ∷ len ∷ payload in
    let frame = with_crc all in
    let (h0, h1, h2) = with_crc-head m.last_request.id func len payload in
    let size = length-with_crc all in
    let right : crc_chk frame (m.answer_len - 2) ≡ received_crc frame m.answer_len =
      rw exact (with_crc-accepted all bytes (omega arith)) in
    let same_len : u16 m.answer_len ≡ length frame = omega arith in
    decode_read m cb frame (length frame) func h0 h1 same_func read has_cb (omega arith)
      (omega arith) right
    ∙ ap
        (λ (n : ℕ). (
          some (record {
            cb = cb;
            status = ModbusError.success;
            raw_answer = frame;
            raw_len = n;
            payload = drop 3 frame;
            payload_len = get_or frame 2 0;
          }),
          ErrCode.success,
        ))
        same_len
    ∙ ap
        (λ (n : ℕ). (
          some (record {
            cb = cb;
            status = ModbusError.success;
            raw_answer = frame;
            raw_len = length frame;
            payload = drop 3 frame;
            payload_len = n;
          }),
          ErrCode.success,
        ))
        h2

-- A damaged answer never reaches the callback as a success: if the CRC that the frame carries is
-- not the one of its bytes, there is no call, or one that reports an error.
pub decode_modbus-bad_crc :
    (m : Modbus) (buf : List ℕ) (size : ℕ)
    → crc_chk buf (m.answer_len - 2) ≢ received_crc buf m.answer_len
    → ((decode_modbus m buf size).1 ≢ ErrCode.success)
      × ((c : Call) → (decode_modbus m buf size).0 ≡ some c → c.status ≢ ModbusError.success)
unfolding decode_modbus
decode_modbus-bad_crc m buf size bad = (ground arith, λ c e. ground arith)

-- The interrupt handler ends exactly if the bytes that are ready fit the room that is left: with
-- a full buffer it neither reads the next byte nor ends.
pub rx_irq-none_iff :
    (bytes : List ℕ) (m : Modbus)
    → m.receive_counter ≤ 255
    → (rx_irq bytes m ≡ none) ↔ (255 < m.receive_counter + length bytes)
unfolding rx_irq
rx_irq-none_iff [] m h = (λ e. cc, λ lt. absurd (omega arith))
rx_irq-none_iff (byte ∷ rest) m h = elim (Bool-cases (ltb m.receive_counter 255)) [
  | inl room ↦
      let (there, back) =
        rx_irq-none_iff rest
          (record m {
            receive_buf = set m.receive_buf m.receive_counter byte;
            receive_counter = m.receive_counter + 1;
          })
          (ground arith) in
      (λ e. ground (arith, there), λ lt. ground (arith, back))
  | inr full ↦ (λ e. ground arith, λ lt. ground arith)
]
