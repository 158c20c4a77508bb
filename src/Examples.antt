-- ===== src/Examples.antt =====
-- Concrete settings, a strip of three LEDs, and a controller after its start, for the examples.
pub mod Stairs
pub mod Runs
pub mod Strip
pub mod Bus
pub mod Values
pub mod Store
pub mod Text
pub mod Server
pub mod Point
pub mod Program
pub mod Printed
use pico_stairway_controller.Base.{ℕ, Bool, true, false, List, [], ◌∷◌, some}
use pico_stairway_controller.Types.{
  Settings, PerSide, PerSensor, both_sides, all_sensors, up, StairwaySensorsGet, SensorState,
}
use pico_stairway_controller.Ws2812.{Ws2812}
use pico_stairway_controller.Leds.{Leds, LedState, dark}
use pico_stairway_controller.Controller.{Controller, idle_sweep, zero_status, Readings}
use pico_stairway_controller.Controller.Loop.{Input}
use pico_stairway_controller.Controller.Loop.Steps.{Step}

abbrev pub small : Settings
small = record {
  magic = 0xDEADBEED;
  version = 2;
  size = 168;
  use_light_sensor = true;
  light_sensor_day_value = 1400;
  light_sensor_night_value = 1000;
  dist_trigger = all_sensors 1000;
  sensor_debouce_time = 2000;
  sensor_up_swap = true;
  sensor_down_swap = false;
  leds_time_interval = 400;
  leds_off_timeout = 20000;
  led_on_value = 150;
  led_off_value = 0;
  led_on_step = 25;
  led_off_step = 25;
  led_count = 3;
  use_emergency = true;
  emergency_block_ms = 1000;
  emergency_cnt = record { of_up = 1; of_down = 1 };
  ssid = [];
  pass = [];
  ap_state = true;
  crc = 0;
}

abbrev pub strip : Ws2812
strip = record { pin = 0; led_count = 3; mem = some (0 ∷ 0 ∷ 0 ∷ []); mem_size = 12; wire = [] }

abbrev pub three : Leds
three = record {
  handler = strip;
  buf = dark ∷ dark ∷ dark ∷ [];
  emergency_state = both_sides false;
}

abbrev pub start : Controller
start = record {
  status = zero_status;
  prev_ts = 0;
  detector_block_ts = both_sides 0;
  emergency_sensor_on_ts = both_sides 0;
  emergency_on = both_sides false;
  on_up = idle_sweep;
  on_down = idle_sweep;
  off_up = idle_sweep;
  off_down = idle_sweep;
  last_det = up;
  sen_prev_error = all_sensors false;
  sen_error_log_ts = all_sensors 0;
  error_led_state = false;
  test_mode = false;
  rdt = 0;
  led_error_ts = 0;
  error_led = false;
  leds = three;
}

abbrev pub seen : Bool → Bool → StairwaySensorsGet
seen first second = record {
  dist = all_sensors 500;
  signal = all_sensors 20;
  state = record {
    of_up_first = first;
    of_up_second = second;
    of_down_first = false;
    of_down_second = false;
  };
  error = all_sensors false;
}

-- An iteration at the time `ts` that shows these values of the sensors at the upper end.
abbrev pub step_at : ℕ → Bool → Bool → Step
step_at ts first second = (
  small,
  record {
    ts = ts;
    now = λ site. ts;
    light_state = false;
    light_value = 900;
    sensors = seen first second;
    ap_state = true;
    reallocated = true;
    strip_reallocated = true;
  },
)

-- Somebody comes in at the upper end, the newest iteration first.
abbrev pub entry : List Step
entry = step_at 5100 false true ∷ step_at 5000 true false ∷ []
