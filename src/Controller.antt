-- ===== src/Controller.antt =====
-- main.c: the state of the main loop. The children hold the parts of the loop in its order, and
-- Loop puts them together.
--
-- get_time_ms is read anew at each place of the loop. A `Site` names such a place, and the
-- readings of one iteration are a function from sites to times: each site is reached at most once
-- in an iteration. `ts`, read at the top, is passed on by itself. INFO only prints.
pub mod Button
pub mod Sense
pub mod Detect
pub mod People
pub mod Emergency
pub mod Sweeps
pub mod Loop
use pico_stairway_controller.Base.{ℕ, Bool, false}
use pico_stairway_controller.Types.{
  Side, up, StairwaySensorType, PerSide, PerSensor, Status, both_sides, all_sensors, idle, Detector,
  SensorState,
}
use pico_stairway_controller.Leds.{Leds}

pub data Site : Type 0 where
  sensor_stamp : StairwaySensorType → Site
  detector_blocked : Side → Site
  detector_elapsed : Side → Site
  detector_stamp : Side → Site
  led_on_stamp : Side → Site
  led_off_stamp : Side → Site
  timeout_elapsed timeout_stamp : Site
  block_stamp : Side → Site
  test_stamp : ℕ → Site
  refresh_elapsed refresh_stamp : Site
  error_elapsed error_stamp error_off_elapsed : Site

abbrev pub Readings : Type 0
Readings = Site → ℕ

-- led_on_up, led_on_up_ts and led_on_up_cnt, and so for the other three runs over the strip.
pub record Sweep : Type 0 where
  pub on : Bool
  pub ts : ℕ  -- uint64_t
  pub cnt : ℕ  -- uint32_t

pub record ButtonState : Type 0 where
  pub prev_ts : ℕ  -- uint64_t
  pub debounce : ℕ  -- uint32_t
  pub state : Bool

-- The static variables of main.c, and those of main that outlive an iteration.
pub record Controller : Type 0 where
  pub status : Status
  pub prev_ts : ℕ
  pub detector_block_ts : PerSide ℕ
  pub emergency_sensor_on_ts : PerSide ℕ
  pub emergency_on : PerSide Bool
  pub on_up : Sweep
  pub on_down : Sweep
  pub off_up : Sweep
  pub off_down : Sweep
  pub last_det : Side
  pub sen_prev_error : PerSensor Bool
  pub sen_error_log_ts : PerSensor ℕ
  pub error_led_state : Bool
  pub test_mode : Bool
  pub rdt : ℕ
  pub led_error_ts : ℕ
  pub error_led : Bool  -- the level of CYW43_WL_GPIO_LED_PIN
  pub leds : Leds  -- the state of stairway_leds.c

abbrev pub idle_sweep : Sweep
idle_sweep = record { on = false; ts = 0; cnt = 0 }

abbrev pub zero_status : Status
zero_status = record {
  detector = both_sides (record { state = idle; ts = 0 });
  sensor_state = all_sensors (record { current = false; trigger = false; ts = 0 });
  sensor_distance = all_sensors 0;
  sensor_error_cnt = all_sensors 0;
  people_count = 0;
  prev_people_count = 0;
  people_ts = 0;
  light_value = 0;
  block_by_light = false;
  light_state = false;
  test_mode = false;
}
