-- ===== src/Controller/Sense.antt =====
-- main.c: taking over the sensors' values, and the block by daylight.
use pico_stairway_controller.Base.{
  ℕ, ◌+◌, u32, sub64, ltb, ◌==◌, not, ◌&&◌, ◌||◌, if◌then◌else◌, Bool, true, false,
}
use pico_stairway_controller.Types.{
  StairwaySensorType, up_first, up_second, down_first, down_second, at_sensor, set_sensor,
  SensorState, Status, StairwaySensorsGet, Settings,
}
use pico_stairway_controller.Controller.{Controller, Readings, sensor_stamp}

-- status.sensor_state[i], when the sensor answers with `current`, or 0 on an error.
unfoldable pub sensor_update : ℕ → Bool → SensorState → SensorState
sensor_update now current s = record {
  current = current;
  trigger = if current then true else s.trigger;
  ts = now;
}

-- The body of the loop over the sensors.
unfoldable pub sense_one :
    Readings → ℕ → StairwaySensorsGet → StairwaySensorType → Controller → Controller
sense_one now ts g i c =
    let st = c.status in
    let error = at_sensor g.error i in
    let current = if error then false else at_sensor g.state i in
    let cnt = at_sensor st.sensor_error_cnt i in
    let counted = error && not (at_sensor c.sen_prev_error i) in
    record c {
      status = record st {
        sensor_state =
            set_sensor st.sensor_state i
              (sensor_update (now (sensor_stamp i)) current (at_sensor st.sensor_state i));
        sensor_distance =
            if error
            then st.sensor_distance
            else set_sensor st.sensor_distance i (at_sensor g.dist i);
        sensor_error_cnt =
            if counted
            then set_sensor st.sensor_error_cnt i (u32 (cnt + 1))
            else st.sensor_error_cnt;
      };
      sen_error_log_ts =
          if error && ltb 1000 (sub64 ts (at_sensor c.sen_error_log_ts i))
          then set_sensor c.sen_error_log_ts i ts
          else c.sen_error_log_ts;
      error_led_state = error || c.error_led_state;
      sen_prev_error = set_sensor c.sen_prev_error i error;
    }

-- error_led_state is cleared at the top of the iteration; the loop runs over the four sensors.
unfoldable pub sense : Readings → ℕ → StairwaySensorsGet → Controller → Controller
sense now ts g c = sense_one now ts g down_second (
    sense_one now ts g down_first (
      sense_one now ts g up_second
        (sense_one now ts g up_first (record c { error_led_state = false }))))

-- Daylight blocks the stairs once nobody is on them, and darkness lifts the block.
unfoldable pub light_block : Settings → Status → Status
light_block s st =
    if st.light_state && s.use_light_sensor
    then (if (st.people_count == 0) && not st.block_by_light
        then record st { block_by_light = true }
        else st)
    else if st.block_by_light
    then record st { block_by_light = false }
    else st
