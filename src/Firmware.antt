-- ===== src/Firmware.antt =====
-- main.c: the whole program, start-up and main loop, put together from its components.
--
-- The clock is read anew at each place: an iteration gets its readings. What the drivers, the heap,
-- the flash and lwIP answer in an iteration, and the interrupts that come before the sensors are
-- asked, are its input. watchdog_update only feeds the watchdog.
pub mod Strip
pub mod Healthy
pub mod Start
pub mod Count
use pico_stairway_controller.Base.{
  ℕ, ◌&&◌, if◌then◌else◌, Bool, true, false, List, [], ◌∷◌, Option, none, some, c_string,
}
use pico_stairway_controller.Types.{ErrCode, Settings, Status, StairwaySensorsGet}
use pico_stairway_controller.Settings.{Platform, Memory, FlashRun}
use pico_stairway_controller.Leds
use pico_stairway_controller.Leds.{Leds}
use pico_stairway_controller.Light.{LightSensor, light_sensor_get_data}
use pico_stairway_controller.Modbus.{Modbus}
use pico_stairway_controller.Sensors.{Sensors, stairway_sensors_routine, stairway_sensors_get}
use pico_stairway_controller.Controller.{Controller, ButtonState, Readings}
use pico_stairway_controller.Controller.Button.{reboot_due}
use pico_stairway_controller.Controller.Loop.{Input, iterate}
use pico_stairway_controller.Http.Response.{Heap}
use pico_stairway_controller.Http.Content.{Device}
use pico_stairway_controller.Http.Connection.{Connection, Server, Site, Event, run_events}
use pico_stairway_controller.Http.Listener.{TcpAnswers}
use pico_stairway_controller.Network.{Services, Network, start_up, access_point, net_ap_get_state}
use pico_stairway_controller.Console.{Editor, Target, commands_init, cli_putchar, execute_all}

-- The code that the program stands on.
pub record Ground : Type 1 where
  pub platform : Platform
  pub services : Services
  pub editor : Editor
  pub site : Site

module _ (g : Ground) where
  -- The state of the program's components; `con` is one connection of the web server, with the
  -- blocks that it has taken from the heap. `rebooted` is whether watchdog_reboot was called. The
  -- two static variables of get_time_ms are Clock's: here the clock's readings are an input.
  pub record Firmware : Type 0 where
    pub memory : Memory g.platform
    pub controller : Controller
    pub button : ButtonState
    pub reboot_ts : ℕ
    pub rebooted : Bool
    pub net_ready : Bool
    pub network : Network g.services
    pub con : Option Connection
    pub con_heap : Heap
    pub cli : Option g.editor.Cli
    pub printed : List ℕ
    pub light : LightSensor
    pub sensors : Sensors
    pub sen_values : StairwaySensorsGet

  -- What an iteration gets from outside. `events` are the callbacks that lwIP makes in net_poll;
  -- each Boolean is an answer of the heap.
  pub record Inputs : Type 0 where
    pub events : List (Event g.platform g.site)
    pub ts : ℕ
    pub pressed : Bool
    pub button_run : FlashRun g.platform
    pub typed : Option ℕ
    pub command_run : FlashRun g.platform
    pub command_now : ℕ
    pub light_ts : ℕ
    pub adc : ℕ
    pub interrupts : Modbus → Modbus
    pub answered_at : ℕ
    pub sensors_ts : ℕ
    pub sent_at : ℕ
    pub now : Readings
    pub reallocated : Bool
    pub strip_reallocated : Bool

  -- The Wi-Fi driver works only here, while the access point runs.
  unfoldable pub net_poll : List (Event g.platform g.site) → Firmware → Firmware
  net_poll events f =
      let device : Device g.platform = record {
        memory = f.memory;
        status = f.controller.status;
        reboot_ts = f.reboot_ts;
      } in
      let server =
        run_events g.platform g.site events
          (record { con = f.con; device = device; heap = f.con_heap }) in
      if f.network.ap_inited && f.network.ap_started
      then record f {
        con = server.con;
        con_heap = server.heap;
        memory = server.device.memory;
        controller = record (f.controller) { status = server.device.status };
        reboot_ts = server.device.reboot_ts;
      }
      else f

  unfoldable pub reboot_stage : ℕ → Firmware → Firmware
  reboot_stage ts f = if reboot_due f.reboot_ts ts then record f { rebooted = true } else f

  unfoldable pub access_point_stage : Inputs → Firmware → Firmware
  access_point_stage x f =
      let (b, m, net) =
        access_point g.platform g.services x.button_run f.net_ready x.ts x.pressed f.button f.memory
          f.network in
      record f { button = b; memory = m; network = net }

  -- if (tud_cdc_available()) { cli_putchar(getchar()); }
  abbrev pub with_typed : Inputs → Firmware → Option ℕ → Firmware
  with_typed x f none = f
  with_typed x f (some ch) =
      let (_, cli, calls) = cli_putchar g.editor ch f.cli in
      let t =
        execute_all g.platform x.command_run x.command_now (net_ap_get_state g.services f.network)
          f.controller.status calls
          (record { memory = f.memory; reboot_ts = f.reboot_ts; printed = f.printed }) in
      record f { cli = cli; memory = t.memory; reboot_ts = t.reboot_ts; printed = t.printed }

  unfoldable pub console_stage : Inputs → Firmware → Firmware
  console_stage x f = with_typed x f x.typed

  -- The sensors, and the rest of the iteration on what they show.
  unfoldable pub sensor_stage : Inputs → Firmware → Firmware
  sensor_stage x f =
      let s = f.memory.global in
      let (light, light_state, light_value) = light_sensor_get_data s x.light_ts x.adc f.light in
      let bus = record (f.sensors) { modbus = x.interrupts f.sensors.modbus } in
      let sensors = stairway_sensors_routine x.answered_at x.sensors_ts x.sent_at bus in
      let values = stairway_sensors_get s sensors f.sen_values in
      record f {
        light = light;
        sensors = sensors;
        sen_values = values;
        controller =
            iterate s
              (record {
                ts = x.ts;
                now = x.now;
                light_state = light_state;
                light_value = light_value;
                sensors = values;
                ap_state = net_ap_get_state g.services f.network;
                reallocated = x.reallocated;
                strip_reallocated = x.strip_reallocated;
              })
              f.controller;
      }

  unfoldable pub main_iteration : Inputs → Firmware → Firmware
  main_iteration x f =
      sensor_stage x
        (console_stage x (access_point_stage x (reboot_stage x.ts (net_poll x.events f))))

  unfoldable pub main_loop : List Inputs → Firmware → Firmware
  main_loop [] f = f
  main_loop (x ∷ rest) f = main_loop rest (main_iteration x f)

  -- What is granted at start-up: the number of pins, the state machine of the strip, and memory.
  pub record Granted : Type 0 where
    pub gpios : ℕ
    pub claimed : Bool
    pub strip_allocated : Bool
    pub leds_allocated : Bool
    pub server_allocated : Bool
    pub tcp : TcpAnswers
    pub run : FlashRun g.platform

  abbrev pub ws281x_pin : ℕ
  ws281x_pin = 3

  -- main up to its loop, behind the start of the Wi-Fi chip and from the static variables' initial
  -- values on. light_sensor_init and stairway_sensors_init only set up the converter and the UART.
  unfoldable pub main_start : Granted → Firmware → Firmware
  main_start a f =
      let (net_ready, m, net) =
        start_up g.platform g.services a.run a.server_allocated a.tcp f.memory f.network in
      let (leds, _) =
        Leds.init a.gpios a.claimed a.strip_allocated a.leds_allocated m.global ws281x_pin
          f.controller.leds in
      let (_, cli) = commands_init g.editor f.cli in
      record f {
        memory = m;
        network = net;
        net_ready = net_ready;
        controller = record (f.controller) { leds = leds };
        cli = cli;
      }
