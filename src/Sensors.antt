-- ===== src/Sensors.antt =====
-- stairway/stairway_sensors.c: the four distance sensors, two on each of the RS-485 devices at
-- the ends of the stairs, polled in turn through modbus_master.c. (EMULATE_SENSORS is 0.)
--
-- A device is named by its `Side` (DevId). The callbacks sensor_up_cb and sensor_down_cb are
-- `sensor_parse` with the side that names them. A NULL argument of stairway_sensors_get does not
-- occur.
pub mod Values
pub mod Poll
use pico_stairway_controller.Base.{
  ℕ, zero, suc, ◌+◌, ◌*◌, ◌/◌, ◌%◌, ◌^◌, ltb, leb, ◌==◌, ◌||◌, ◌&&◌, not, sub64, be16,
  if◌then◌else◌, Bool, true, false, Option, none, some, List, [], ◌∷◌, get_or,
}
use pico_stairway_controller.Types.{
  ErrCode, Side, up, down, PerSide, at_side, set_side, both_sides, PerSensor, at_sensor, set_sensor,
  all_sensors, StairwaySensorType, first_sensor, second_sensor, StairwaySensorsGet, Settings,
}
use pico_stairway_controller.Modbus.{
  Call, Modbus, ModbusError, ModbusMasterRequest, Sent, sent, corrupt, modbus_master_send,
  modbus_master_get_busy, modbus_master_routine,
}

abbrev pub max_range : ℕ
max_range = 4000

abbrev pub signal_threshold : ℕ
signal_threshold = 15

abbrev pub sensor_payload_len : ℕ
sensor_payload_len = 12

abbrev pub poll_interval_ms : ℕ
poll_interval_ms = 40

-- The static variables: the raw values, by physical sensor, and the pollings.
pub record Sensors : Type 0 where
  pub sensors_values : StairwaySensorsGet
  pub dev_error : PerSide Bool
  pub request_ts : ℕ  -- uint64_t
  pub next_dev : Side
  pub modbus : Modbus

abbrev pub word_at : List ℕ → ℕ → ℕ
word_at payload i = be16 (get_or payload i 0) (get_or payload (i + 1) 0)

-- The six registers of an answer; the first one is not used. `error & 2` is the second binary
-- digit.
unfoldable pub parsed : Side → List ℕ → StairwaySensorsGet → StairwaySensorsGet
parsed dev payload v =
    let first = first_sensor dev in
    let second = second_sensor dev in
    let error = word_at payload 10 in
    record v {
      dist = set_sensor (set_sensor v.dist first (word_at payload 2)) second (word_at payload 4);
      signal =
          set_sensor (set_sensor v.signal first (word_at payload 6)) second (word_at payload 8);
      error =
          set_sensor (set_sensor v.error first ((error % 2) == 1)) second ((error / 2 % 2) == 1);
    }

unfoldable pub sensor_parse : Side → Call → Sensors → Sensors × ErrCode
unfolding parsed
sensor_parse dev c s = elim (c.status) [
  | ModbusError.success ↦
      let func = get_or c.raw_answer 1 0 in
      if (func == 3) || (func == 4)
      then (if ltb c.payload_len sensor_payload_len then (s, ErrCode.fail) else (
        record s {
          dev_error = set_side s.dev_error dev false;
          sensors_values = parsed dev c.payload s.sensors_values;
        },
        ErrCode.success,
      ))
      else (s, ErrCode.success)
  | _ ↦ (record s { dev_error = set_side s.dev_error dev true }, ErrCode.fail)
]

-- request[dev].
abbrev pub request : Side → ModbusMasterRequest
request dev = record {
  id = elim dev [ up ↦ 2 | down ↦ 1 ];
  func = 3;
  reg_addr = 0;
  reg_length = 6;
  words = [];
  timeout = 100;
  cb = some dev;
}

abbrev pub next : Side → Side
next up = down
next down = up

-- The callback that modbus_master_routine makes, if it makes one.
unfoldable pub callback : Option Call → Sensors → Sensors
callback none s = s
callback (some c) s = (sensor_parse c.cb c s).0

-- The poll of the next device; modbus_master_send reads the clock at `sent_at`. A read request
-- never overruns its buffer (Modbus.Frame), so that case leaves the state.
unfoldable pub poll : ℕ → ℕ → Sensors → Sensors
poll ts sent_at s =
    if not (modbus_master_get_busy s.modbus) && leb poll_interval_ms (sub64 ts s.request_ts)
    then elim (modbus_master_send sent_at (request s.next_dev) s.modbus) [
      | sent m err ↦ record s { request_ts = ts; modbus = m; next_dev = next s.next_dev }
      | corrupt ↦ s
    ]
    else s

-- `answered_at` is the time that modbus_master_routine reads, `ts` the next reading.
unfoldable pub stairway_sensors_routine : ℕ → ℕ → ℕ → Sensors → Sensors
stairway_sensors_routine answered_at ts sent_at s =
    let (m, call) = modbus_master_routine answered_at s.modbus in
    poll ts sent_at (callback call (record s { modbus = m }))

-- One round of fill_device_values: the logical sensor `dst` from the physical sensor `src`.
unfoldable pub fill_one :
    Settings
    → Sensors
    → Bool
    → StairwaySensorType
    → StairwaySensorType
    → StairwaySensorsGet
    → StairwaySensorsGet
fill_one set s error dst src v =
    let raw = s.sensors_values in
    let signal = at_sensor raw.signal src in
    let dist = if leb signal_threshold signal then at_sensor raw.dist src else max_range in
    if error
    then record {
      error = set_sensor v.error dst true;
      state = set_sensor v.state dst false;
      dist = set_sensor v.dist dst 0;
      signal = set_sensor v.signal dst 0;
    }
    else record {
      error = set_sensor v.error dst (at_sensor raw.error src);
      signal = set_sensor v.signal dst signal;
      dist = set_sensor v.dist dst dist;
      state = set_sensor v.state dst (ltb dist (at_sensor set.dist_trigger dst));
    }

-- `src`: with a swap the first logical sensor is the second physical one, and the other way round.
abbrev pub source_of_first : Side → Bool → StairwaySensorType
source_of_first dev swap = if swap then second_sensor dev else first_sensor dev

abbrev pub source_of_second : Side → Bool → StairwaySensorType
source_of_second dev swap = if swap then first_sensor dev else second_sensor dev

unfoldable pub fill_device_values :
    Settings → Sensors → Side → Bool → StairwaySensorsGet → StairwaySensorsGet
unfolding fill_one
fill_device_values set s dev swap v =
    let error = at_side s.dev_error dev in
    fill_one set s error (second_sensor dev) (source_of_second dev swap)
      (fill_one set s error (first_sensor dev) (source_of_first dev swap) v)

-- The new contents of *value.
unfoldable pub stairway_sensors_get : Settings → Sensors → StairwaySensorsGet → StairwaySensorsGet
unfolding fill_device_values
stairway_sensors_get set s v =
    fill_device_values set s down set.sensor_down_swap
      (fill_device_values set s up set.sensor_up_swap v)
