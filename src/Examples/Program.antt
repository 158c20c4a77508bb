-- ===== src/Examples/Program.antt =====
-- The whole program on these values, with a line editor that runs `status` on every character.
use pico_stairway_controller.Base.{
  ℕ, zero, suc, ◌<◌, ◌≡◌, ◌≢◌, refl, arith, Bool, true, false, List, [], ◌∷◌, ◌++◌, none, some,
}
use pico_stairway_controller.Commands.{setting_commands}
use pico_stairway_controller.Console.{
  call_get_status, Binding, Editor, status_binding, default_binding, wifi_binding, setting_bindings,
  commands_init,
}
use pico_stairway_controller.Console.Laws.{HasRoom, IsBound, commands_init_lem}
use pico_stairway_controller.Firmware.{Ground, Firmware, Inputs, Granted, main_loop, main_start}
use pico_stairway_controller.Firmware.Healthy.{IsHealthy}
use pico_stairway_controller.Firmware.Start.{IsGranted, main_loop-IsHealthy}
use mathlib.Core.Bool.{xor}
use pico_stairway_controller.Types.{up, down}
use pico_stairway_controller.Base.{sub64, ◌⊎◌}
use pico_stairway_controller.Network.{access_point, toggle_ap_state, sync_ap_state}
use pico_stairway_controller.Controller.Button.{button_poll, reboot_due}
use pico_stairway_controller.Modbus.{
  modbus_master_get_busy, modbus_master_routine, modbus_master_send, request_bytes, with_crc,
}
use pico_stairway_controller.Light.{light_sensor_get_data, sample, voltage, compare_thresholds}
use pico_stairway_controller.Sensors.{
  stairway_sensors_routine, stairway_sensors_get, fill_one, fill_device_values, poll, callback,
}
use pico_stairway_controller.Controller.Detect.{
  detect_one, detect, detect_switch, detect_idle, detect_first_lock,
}
use pico_stairway_controller.Controller.Sense.{sense, sense_one, sensor_update, light_block}
use pico_stairway_controller.Controller.Sweeps.{sweeps, tick_on_up, tick}
use pico_stairway_controller.Controller.Loop.{
  iterate, leds_tick, test_mode_changed, leds_refresh, error_light,
}
use pico_stairway_controller.Controller.Loop.Steps.{first_seen, second_seen}
use pico_stairway_controller.Controller.Loop.Passage.{Passage}
use pico_stairway_controller.Controller.People.{
  request, people_changed, people_timeout, timeout_due, people_entered, people_left,
}
use pico_stairway_controller.Controller.Emergency.{
  emergency_one, emergency, block_one, emergency_end, emergency_end_one,
}
use pico_stairway_controller.Firmware.{
  net_poll, reboot_stage, access_point_stage, console_stage, sensor_stage, main_iteration,
}
use pico_stairway_controller.Firmware.Count.{steps, main_loop-Passage}
use pico_stairway_controller.Examples.{start, seen}
use pico_stairway_controller.Examples.Store.{platform, works, memory}
use pico_stairway_controller.Examples.Values.{raw, fresh}
use pico_stairway_controller.Examples.Point.{services, at_start, at_start-IsSteady}
use pico_stairway_controller.Examples.Server.{site, events, empty_heap}

-- The room that is left, and the bindings.
abbrev Cli : Type 0
Cli = ℕ × List Binding

unfoldable add : Binding → Cli → Bool × Cli
add b (zero, bs) = (false, (zero, bs))
add b (suc room, bs) = (true, (room, bs ++ b ∷ []))

abbrev editor : Editor
editor = record {
  Cli = Cli;
  new = λ n. some (n, []);
  add_binding = add;
  receive_char = λ c cli. cli;
  process = λ cli. (cli, (call_get_status, []) ∷ []);
}

some-Cli : {a b : Cli} → some a ≡ some b → a ≡ b
some-Cli e = cc

add_lem :
    (b : Binding) (cli : Cli)
    → 0 < cli.0
    → ((add b cli).0 ≡ true) × ((add b cli).1.1 ≡ cli.1 ++ b ∷ []) × (cli.0 ≡ suc ((add b cli).1.0))
unfolding add
add_lem b (zero, bs) room = absurd (omega arith)
add_lem b (suc n, bs) room = (refl, refl, refl)

new_lem : (n : ℕ) (cli : Cli) → some (n, []) ≡ some cli → (cli.0 ≡ n) × (cli.1 ≡ [])
new_lem n cli e = let same : _ = some-Cli e in (cc, cc)

editor-HasRoom : HasRoom editor
editor-HasRoom = record {
  bound = λ cli. cli.1;
  room = λ cli. cli.0;
  new_room = new_lem;
  adds = add_lem;
}

made : {cli : Cli} → some cli ≢ none
made e = cc

commands_init_lem_example :
    IsBound editor editor-HasRoom
      (status_binding
        ∷ (default_binding ∷ (wifi_binding ∷ setting_bindings editor setting_commands)))
      (commands_init editor none)
commands_init_lem_example = commands_init_lem editor editor-HasRoom none made

abbrev ground_ : Ground
ground_ = record { platform = platform; services = services; editor = editor; site = site }

abbrev switched_on : Firmware ground_
switched_on = record {
  memory = memory;
  controller = start;
  button = record { prev_ts = 0; debounce = 0; state = false };
  reboot_ts = 0;
  rebooted = false;
  net_ready = false;
  network = at_start;
  con = none;
  con_heap = empty_heap;
  cli = none;
  printed = [];
  light = fresh;
  sensors = raw;
  sen_values = seen false false;
}

abbrev granted : Granted ground_
granted = record {
  gpios = 30;
  claimed = true;
  strip_allocated = true;
  leds_allocated = true;
  server_allocated = true;
  tcp = record { new_ok = true; bind_ok = true; listen_ok = true };
  run = works;
}

abbrev one_input : Inputs ground_
one_input = record {
  events = events;
  ts = 5000;
  pressed = true;
  button_run = works;
  typed = some 13;
  command_run = works;
  command_now = 5000;
  light_ts = 5001;
  adc = 2000;
  interrupts = λ m. m;
  answered_at = 5002;
  sensors_ts = 5002;
  sent_at = 5002;
  now = λ place. 5003;
  reallocated = true;
  strip_reallocated = true;
}

granted-IsGranted : IsGranted ground_ granted
granted-IsGranted = record {
  has_pin = omega arith;
  has_machine = refl;
  has_words = refl;
  has_leds = refl;
}

main_loop-IsHealthy_example :
    IsHealthy ground_
      (main_loop ground_ (one_input ∷ one_input ∷ []) (main_start ground_ granted switched_on))
main_loop-IsHealthy_example =
    main_loop-IsHealthy ground_ granted switched_on (one_input ∷ one_input ∷ []) (omega arith)
      granted-IsGranted at_start-IsSteady (omega arith) (refl, refl, (refl, refl, tt))

-- By night somebody stands at each end, between the two sensors, in two iterations.
abbrev between : Firmware ground_
between = record switched_on {
  memory = record memory { global = record (memory.global) { use_light_sensor = false } };
}

abbrev waits : Inputs ground_
waits = record one_input { events = []; pressed = false; typed = none }

main_loop-counted :
    (main_loop ground_ (waits ∷ waits ∷ []) between).controller.status.people_count ≡ 2
unfolding main_loop main_iteration sensor_stage console_stage access_point_stage reboot_stage
    net_poll iterate sense sense_one sensor_update light_block detect detect_one detect_switch
    detect_idle detect_first_lock people_changed people_timeout timeout_due people_entered
    people_left request emergency emergency_one block_one leds_tick test_mode_changed leds_refresh
    error_light sub64 xor sweeps emergency_end emergency_end_one tick_on_up tick
    stairway_sensors_get fill_device_values fill_one stairway_sensors_routine light_sensor_get_data
    access_point toggle_ap_state button_poll reboot_due sync_ap_state compare_thresholds voltage
    sample poll modbus_master_get_busy callback modbus_master_routine modbus_master_send
    request_bytes with_crc
main_loop-counted = refl

main_loop-Passage_example :
    Passage (first_seen up) (second_seen up) (steps ground_ [] (waits ∷ waits ∷ []) between)
    ⊎ Passage (first_seen down) (second_seen down) (steps ground_ [] (waits ∷ waits ∷ []) between)
main_loop-Passage_example =
    main_loop-Passage ground_ (waits ∷ waits ∷ []) between (refl, refl)
      (omega (arith, main_loop-counted))
