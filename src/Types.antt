-- ===== src/Types.antt =====
-- The shared types: global.h (ErrCode), main.h (enums, SensorState, Detector, Status),
-- stairway/api (EmergencyType, StairwaySensorsGet), settings/api (Settings).
--
-- DetectorType, EmergencyType and DevId each have the two values UP = 0 and DOWN = 1, and arrays
-- of MAX = 2 entries: they are one type `Side` here, an array indexed by one is a `PerSide`.
-- An array indexed by StairwaySensorType is a `PerSensor`.
use pico_stairway_controller.Base.{ℕ, Bool, List}

pub data ErrCode : Type 0 where
  success fail param_invalid param_is_null already_inited need_init : ErrCode
  open_file mem_alloc_fail overflow empty busy : ErrCode

pub data Side : Type 0 where
  up down : Side

pub data StairwaySensorType : Type 0 where
  up_first up_second down_first down_second : StairwaySensorType

module _ {ℓ} (A : Type ℓ) where
  pub record PerSide : Type ℓ where
    pub of_up : A
    pub of_down : A

  pub record PerSensor : Type ℓ where
    pub of_up_first : A
    pub of_up_second : A
    pub of_down_first : A
    pub of_down_second : A

module _ {ℓ} {A : Type ℓ} where
  abbrev pub at_side : PerSide A → Side → A
  at_side a up = a.of_up
  at_side a down = a.of_down

  abbrev pub set_side : PerSide A → Side → A → PerSide A
  set_side a up v = record a { of_up = v }
  set_side a down v = record a { of_down = v }

  abbrev pub at_sensor : PerSensor A → StairwaySensorType → A
  at_sensor a up_first = a.of_up_first
  at_sensor a up_second = a.of_up_second
  at_sensor a down_first = a.of_down_first
  at_sensor a down_second = a.of_down_second

  abbrev pub set_sensor : PerSensor A → StairwaySensorType → A → PerSensor A
  set_sensor a up_first v = record a { of_up_first = v }
  set_sensor a up_second v = record a { of_up_second = v }
  set_sensor a down_first v = record a { of_down_first = v }
  set_sensor a down_second v = record a { of_down_second = v }

  abbrev pub both_sides : A → PerSide A
  both_sides v = record { of_up = v; of_down = v }

  abbrev pub all_sensors : A → PerSensor A
  all_sensors v = record {
    of_up_first = v;
    of_up_second = v;
    of_down_first = v;
    of_down_second = v;
  }

-- sens_first and sens_second of the main loop; the sensors of one RS-485 device.
abbrev pub first_sensor : Side → StairwaySensorType
first_sensor up = up_first
first_sensor down = down_first

abbrev pub second_sensor : Side → StairwaySensorType
second_sensor up = up_second
second_sensor down = down_second

pub data DetectorState : Type 0 where
  idle first_lock second_lock inc dec : DetectorState

pub record SensorState : Type 0 where
  pub current : Bool
  pub trigger : Bool
  pub ts : ℕ  -- uint64_t

pub record Detector : Type 0 where
  pub state : DetectorState
  pub ts : ℕ  -- uint64_t

-- people_count is an int32_t that starts at 0 and is only lowered when it is not 0, so it is
-- never negative; 2 ^ 31 people, where C's increment is undefined, are not reached.
pub record Status : Type 0 where
  pub detector : PerSide Detector
  pub sensor_state : PerSensor SensorState
  pub sensor_distance : PerSensor ℕ  -- uint16_t
  pub sensor_error_cnt : PerSensor ℕ  -- uint32_t
  pub people_count : ℕ
  pub prev_people_count : ℕ
  pub people_ts : ℕ  -- uint64_t
  pub light_value : ℕ  -- uint32_t
  pub block_by_light : Bool
  pub light_state : Bool
  pub test_mode : Bool

pub record StairwaySensorsGet : Type 0 where
  pub dist : PerSensor ℕ  -- uint16_t
  pub signal : PerSensor ℕ  -- uint16_t
  pub state : PerSensor Bool
  pub error : PerSensor Bool

-- `ssid` and `pass` are the whole char arrays, terminating 0 and padding included.
pub record Settings : Type 0 where
  pub magic : ℕ  -- uint32_t
  pub version : ℕ  -- uint16_t
  pub size : ℕ  -- uint16_t
  pub use_light_sensor : Bool
  pub light_sensor_day_value : ℕ  -- uint32_t
  pub light_sensor_night_value : ℕ  -- uint32_t
  pub dist_trigger : PerSensor ℕ  -- uint16_t
  pub sensor_debouce_time : ℕ  -- uint32_t
  pub sensor_up_swap : Bool
  pub sensor_down_swap : Bool
  pub leds_time_interval : ℕ  -- uint32_t
  pub leds_off_timeout : ℕ  -- uint32_t
  pub led_on_value : ℕ  -- uint8_t
  pub led_off_value : ℕ  -- uint8_t
  pub led_on_step : ℕ  -- uint8_t
  pub led_off_step : ℕ  -- uint8_t
  pub led_count : ℕ  -- uint32_t
  pub use_emergency : Bool
  pub emergency_block_ms : ℕ  -- uint32_t
  pub emergency_cnt : PerSide ℕ  -- uint32_t
  pub ssid : List ℕ  -- char[33]
  pub pass : List ℕ  -- char[64]
  pub ap_state : Bool
  pub crc : ℕ  -- uint32_t
