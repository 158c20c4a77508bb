-- ===== src/Sensors/Values.antt =====
-- stairway/stairway_sensors.c: the raw values of the devices, and the logical sensors.
use pico_stairway_controller.Base.{
  ◌/◌, ◌%◌, ◌<◌, ◌≤◌, ◌≡◌, ◌≢◌, ◌⊎◌, arith, ltb, ◌==◌, Bool, true, false, get_or,
}
use mathlib.Core.Path.{subst}
use pico_stairway_controller.Types.{
  Side, up, down, at_side, at_sensor, StairwaySensorType, first_sensor, second_sensor,
  StairwaySensorsGet, Settings, ErrCode,
}
use pico_stairway_controller.Modbus.{Call, ModbusError}
use pico_stairway_controller.Sensors.{
  Sensors, source_of_first, source_of_second, stairway_sensors_get, sensor_parse, word_at,
}

abbrev pub swap_of : Settings → Side → Bool
swap_of s up = s.sensor_up_swap
swap_of s down = s.sensor_down_swap

abbrev pub other : Side → Side
other up = down
other down = up

-- What a logical sensor shows: nothing but its fault while its device does not answer; otherwise
-- the values of its physical sensor, the full range in place of an unreliable distance, and
-- whether that is nearer than the distance set for the logical sensor.
pub record Shows (set : Settings) (s : Sensors) (dev : Side) (dst src : StairwaySensorType)
    (out : StairwaySensorsGet) : Type 0 where
  pub faulty :
      at_side s.dev_error dev ≡ true
      → (at_sensor out.error dst ≡ true)
        × (at_sensor out.state dst ≡ false)
        × (at_sensor out.dist dst ≡ 0)
        × (at_sensor out.signal dst ≡ 0)
  pub working :
      at_side s.dev_error dev ≡ false
      → (at_sensor out.error dst ≡ at_sensor s.sensors_values.error src)
        × (at_sensor out.signal dst ≡ at_sensor s.sensors_values.signal src)
  pub near :
      at_side s.dev_error dev ≡ false
      → 15 ≤ at_sensor s.sensors_values.signal src
      → (at_sensor out.dist dst ≡ at_sensor s.sensors_values.dist src)
        × (at_sensor out.state dst
            ≡ ltb (at_sensor s.sensors_values.dist src) (at_sensor set.dist_trigger dst))
  pub weak :
      at_side s.dev_error dev ≡ false
      → at_sensor s.sensors_values.signal src < 15
      → (at_sensor out.dist dst ≡ 4000)
        × (at_sensor out.state dst ≡ ltb 4000 (at_sensor set.dist_trigger dst))

-- The values of an end, by its swap.
abbrev BySources : Settings → Sensors → Side → StairwaySensorsGet → Bool → Type 0
BySources set s dev v swap =
    Shows set s dev (first_sensor dev) (source_of_first dev swap) (stairway_sensors_get set s v)
    × Shows set s dev (second_sensor dev) (source_of_second dev swap) (stairway_sensors_get set s v)

sources-Shows :
    (set : Settings) (s : Sensors) (dev : Side) (v : StairwaySensorsGet)
    → BySources set s dev v (swap_of set dev)
unfolding stairway_sensors_get
sources-Shows set s up v = (
  record {
    faulty = λ e. ground arith;
    working = λ e. ground arith;
    near = λ e h. ground arith;
    weak = λ e h. ground arith;
  },
  record {
    faulty = λ e. ground arith;
    working = λ e. ground arith;
    near = λ e h. ground arith;
    weak = λ e h. ground arith;
  },
)
sources-Shows set s down v = (
  record {
    faulty = λ e. ground arith;
    working = λ e. ground arith;
    near = λ e h. ground arith;
    weak = λ e h. ground arith;
  },
  record {
    faulty = λ e. ground arith;
    working = λ e. ground arith;
    near = λ e h. ground arith;
    weak = λ e h. ground arith;
  },
)

-- Without the swap of its end, the first logical sensor of each end shows the first physical one,
-- and the second the second; with it, the first shows the second and the second the first. Each
-- with its faults, its distance set for the logical sensor, and 4000 mm for a signal below 15.
pub stairway_sensors_get-Shows :
    (set : Settings) (s : Sensors) (dev : Side) (v : StairwaySensorsGet)
    → let out = stairway_sensors_get set s v in
      (swap_of set dev ≡ false
        → Shows set s dev (first_sensor dev) (first_sensor dev) out
          × Shows set s dev (second_sensor dev) (second_sensor dev) out)
      × (swap_of set dev ≡ true
          → Shows set s dev (first_sensor dev) (second_sensor dev) out
            × Shows set s dev (second_sensor dev) (first_sensor dev) out)
stairway_sensors_get-Shows set s dev v = (
  λ plain. subst (BySources set s dev v) plain (sources-Shows set s dev v),
  λ swapped. subst (BySources set s dev v) swapped (sources-Shows set s dev v),
)

-- An answer of six registers sets the raw values of its device, leaves those of the other device
-- alone, and ends the device's fault.
pub sensor_parse-answer :
    (dev : Side) (c : Call) (s : Sensors)
    → c.status ≡ ModbusError.success
    → (get_or c.raw_answer 1 0 ≡ 3) ⊎ (get_or c.raw_answer 1 0 ≡ 4)
    → 12 ≤ c.payload_len
    → let out = sensor_parse dev c s in
      let v = out.0.sensors_values in
      (out.1 ≡ ErrCode.success)
      × (at_side out.0.dev_error dev ≡ false)
      × (at_side out.0.dev_error (other dev) ≡ at_side s.dev_error (other dev))
      × (at_sensor v.dist (first_sensor dev) ≡ word_at c.payload 2)
      × (at_sensor v.dist (second_sensor dev) ≡ word_at c.payload 4)
      × (at_sensor v.signal (first_sensor dev) ≡ word_at c.payload 6)
      × (at_sensor v.signal (second_sensor dev) ≡ word_at c.payload 8)
      × (at_sensor v.error (first_sensor dev) ≡ ((word_at c.payload 10 % 2) == 1))
      × (at_sensor v.error (second_sensor dev) ≡ ((word_at c.payload 10 / 2 % 2) == 1))
      × (at_sensor v.dist (first_sensor (other dev))
          ≡ at_sensor s.sensors_values.dist (first_sensor (other dev)))
      × (at_sensor v.dist (second_sensor (other dev))
          ≡ at_sensor s.sensors_values.dist (second_sensor (other dev)))
unfolding sensor_parse
sensor_parse-answer up c s e f l = ground arith
sensor_parse-answer down c s e f l = ground arith

-- A time-out, a bad CRC or a wrong answer marks the device as faulty and changes nothing else.
pub sensor_parse-error :
    (dev : Side) (c : Call) (s : Sensors)
    → c.status ≢ ModbusError.success
    → let out = sensor_parse dev c s in
      (out.1 ≡ ErrCode.fail)
      × (at_side out.0.dev_error dev ≡ true)
      × (at_side out.0.dev_error (other dev) ≡ at_side s.dev_error (other dev))
      × (out.0.sensors_values ≡ s.sensors_values)
unfolding sensor_parse
sensor_parse-error up c s e = ground arith
sensor_parse-error down c s e = ground arith
