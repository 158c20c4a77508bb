-- ===== src/Sensors/Poll.antt =====
-- stairway/stairway_sensors.c: the pace of the polling, and its requests.
use pico_stairway_controller.Base.{
  ℕ, ◌+◌, ◌^◌, ◌<◌, ◌≤◌, ◌≡◌, ◌≢◌, ◌⊎◌, ◌∙◌, ap, inl, inr, refl, arith, leb, sub64, sub64_exact,
  Bool, true, false, not, ◌&&◌, if◌then◌else◌, some, List, [], ◌∷◌,
}
use pico_stairway_controller.Types.{Side, up, down}
use pico_stairway_controller.Modbus.{
  Sent, sent, corrupt, request_bytes, with_crc, started, modbus_master_send, modbus_master_get_busy,
}
use pico_stairway_controller.Modbus.Frame.{modbus_master_send_lem}
use pico_stairway_controller.Sensors.{Sensors, request, next, poll}

-- The request for a device's six registers, before its CRC.
abbrev pub request_frame : Side → List ℕ
request_frame dev = (request dev).id ∷ 3 ∷ 0 ∷ 0 ∷ 0 ∷ 6 ∷ []

request_lem : (dev : Side) → request_bytes (request dev) ≡ some (request_frame dev, 17)
unfolding request_bytes
request_lem up = refl
request_lem down = refl

three_ne_sixteen : (dev : Side) → (request dev).func ≢ 16
three_ne_sixteen dev = omega arith

-- While no answer is awaited, and 40 ms or more after the last poll, the next device in turn is
-- asked for its registers, and an answer of 17 bytes is awaited.
pub poll_sends :
    (ts sent_at : ℕ) (s : Sensors)
    → s.modbus.busy ≡ false
    → s.request_ts + 40 ≤ ts
    → ts < 2 ^ 64
    → poll ts sent_at s ≡ record s {
      request_ts = ts;
      modbus =
          started sent_at (request s.next_dev) (with_crc (request_frame s.next_dev)) 17 s.modbus;
      next_dev = next s.next_dev;
    }
unfolding poll modbus_master_get_busy
poll_sends ts sent_at s free due fits =
    let open_ : (not s.modbus.busy && leb 40 (sub64 ts s.request_ts)) ≡ true =
      ground (arith, sub64_exact ts s.request_ts (omega arith) fits) in
    ap
      (λ (b : Bool).
        if b then branch (modbus_master_send sent_at (request s.next_dev) s.modbus) else s)
      open_
    ∙ ap branch (
        (modbus_master_send_lem sent_at (request s.next_dev) s.modbus (request_frame s.next_dev) 17
          free (request_lem s.next_dev) (three_ne_sixteen s.next_dev)).0)
  where
    branch : Sent → Sensors
    branch r = elim r [
      | sent m err ↦ record s { request_ts = ts; modbus = m; next_dev = next s.next_dev }
      | corrupt ↦ s
    ]

-- Until then nothing is sent and nothing changes.
pub poll_waits :
    (ts sent_at : ℕ) (s : Sensors)
    → (s.modbus.busy ≡ true) ⊎ ((s.request_ts ≤ ts) × (ts < s.request_ts + 40) × (ts < 2 ^ 64))
    → poll ts sent_at s ≡ s
unfolding poll modbus_master_get_busy
poll_waits ts sent_at s (inl busy) = ground arith
poll_waits ts sent_at s (inr (after, soon, fits)) =
    let closed : (not s.modbus.busy && leb 40 (sub64 ts s.request_ts)) ≡ false =
      ground (arith, sub64_exact ts s.request_ts after fits) in
    rw closed refl
