-- ===== src/Examples/Values.antt =====
-- The sensors' values and the light on concrete inputs.
use pico_stairway_controller.Base.{
  ℕ, ◌-◌, ◌^◌, ◌<◌, ◌≤◌, ◌≡◌, ◌⊎◌, inl, refl, arith, true, false, List, [], ◌∷◌, replicate,
}
use pico_stairway_controller.Types.{up, both_sides, up_first, up_second}
use pico_stairway_controller.Modbus.{Call, ModbusError, Modbus}
use pico_stairway_controller.Sensors.{Sensors, request, stairway_sensors_get}
use pico_stairway_controller.Sensors.Values.{Shows, stairway_sensors_get-Shows}
use pico_stairway_controller.Light.{LightSensor, light_sensor_get_data, voltage, sample}
use pico_stairway_controller.Light.Laws.{light_sensor_get_data_lem}
use pico_stairway_controller.Examples.{small, seen}

abbrev idle_bus : Modbus
idle_bus = record {
  send_buf = replicate 32 0;
  receive_buf = replicate 256 0;
  receive_counter = 0;
  answer_len = 17;
  send_ts = 100;
  busy = false;
  last_request = request up;
  wire = [];
}

abbrev pub raw : Sensors
raw = record {
  sensors_values = seen true false;
  dev_error = both_sides false;
  request_ts = 100;
  next_dev = up;
  modbus = idle_bus;
}

stairway_sensors_get-Shows_example :
    let out = stairway_sensors_get small raw (seen false false) in
    (small.sensor_up_swap ≡ false
      → Shows small raw up up_first up_first out × Shows small raw up up_second up_second out)
    × (small.sensor_up_swap ≡ true
        → Shows small raw up up_first up_second out × Shows small raw up up_second up_first out)
stairway_sensors_get-Shows_example = stairway_sensors_get-Shows small raw up (seen false false)

-- 300 mm and 400 mm, both with the signal 20, and no error.
abbrev six_registers : List ℕ
six_registers = 0 ∷ 0 ∷ 1 ∷ 44 ∷ 1 ∷ 144 ∷ 0 ∷ 20 ∷ 0 ∷ 20 ∷ 0 ∷ 2 ∷ []

abbrev answered : Call
answered = record {
  cb = up;
  status = ModbusError.success;
  raw_answer = 2 ∷ 3 ∷ 12 ∷ six_registers;
  raw_len = 17;
  payload = six_registers;
  payload_len = 12;
}

abbrev pub fresh : LightSensor
fresh = record { filtered_adc = 2 ^ 31 - 1; trigger = false; sample_ts = 0 }

light_sensor_get_data_lem_example :
    let (l', state, mv) = light_sensor_get_data small 50 2000 fresh in
    (mv < 3300)
    × (mv ≡ voltage (sample 50 2000 fresh).filtered_adc)
    × (l'.trigger ≡ state)
    × (((1400 < mv) × (state ≡ true))
        ⊎ (((mv < 1000) × (state ≡ false)) ⊎ ((1000 ≤ mv) × (mv ≤ 1400) × (state ≡ false))))
light_sensor_get_data_lem_example =
    light_sensor_get_data_lem small 50 2000 fresh (omega arith) (omega arith) (inl refl)
