-- ===== src/Lib.antt =====
-- A model of the firmware pico-stairway-controller, which lights a staircase: two pairs of
-- distance sensors, one at each end, count who comes and goes, and a strip of LEDs is switched on
-- and off step by step behind them.
--
-- The parts, in the order of the program's data flow, with the files that model them:
--   modbus_master/modbus_master.c, the bus to the sensors: Modbus, Modbus/Crc (the CRC), with
--     Modbus/Frame and Modbus/Exchange on frames and answers;
--   stairway/stairway_sensors.c, polling and values of the four sensors: Sensors;
--   light_sensor/light_sensor.c, the light that blocks the stairs by day: Light;
--   main.c, the main loop: Controller (its state) and below it, in the loop's order, Button,
--     Sense, Detect, People, Emergency, Sweeps, and Loop, which puts them together as `iterate`,
--     with several iterations in Loop/Steps, Loop/Passage, Loop/Entry and Loop/Exit; get_time_ms
--     is Clock;
--   stairway/stairway_leds.c, state and fading of each LED: Leds;
--   ws2812_pio/ws2812.c, the driver of the strip: Ws2812;
--   settings/settings.c and settings/settings_list.h, the settings in memory and flash: Settings;
--   network/http_server/settings.c, the strings and numbers of the settings' JSON text: Json and
--     Numbers, the search for a key and the settings that a text sets: Body, the text of all
--     settings: Body/Print, reading that text back: Body/Places and Body/Restore, the types of
--     what is set: Body/Typed; Numbers has parse_uint of commands/commands.c too, and strtoul;
--   network/http_server/content.c, the pages of the web server: Http/Response (a response and its
--     blocks of the heap) and Http/Content (what each path answers and changes);
--   network/http_server/http_server.c, the server: Http/Received (the buffer of a request),
--     Http/Request (parsing it), Http/Sending (send_more), Http/Connection (the callbacks, as
--     steps on one connection) and Http/Listener;
--   network/network.c and its switch in main.c, the access point: Network;
--   commands/commands.c, the console's commands: Commands and Commands/Report;
--   cli/cli.c and commands_init, the console over its line editor: Console;
--   main.c as a whole: Firmware, the state of its components in one record (get_time_ms's two
--     variables apart: there the clock's readings are an input), its start-up and its iteration
--     with the network poll, the reboot request, the button, the console and the controller, on
--     one connection of the web server; Firmware/Count is the controller inside it.
-- Types has the types of global.h, main.h and the api headers. Base has what all files share, and
-- Examples the concrete inputs of the examples below it. The main loop takes the sensors' values
-- and the light as inputs of an iteration, changes its own state, and calls the LEDs; the
-- settings are one shared value, which every operation that reads it takes as an argument. The
-- web server and the console change it through settings_apply and settings_write; the main loop
-- brings the access point into the state that it says.
--
-- A function keeps its name without the component's prefix (stairway_leds_refresh is
-- Leds.refresh); an operation takes the state and returns the new one with its error code. Static
-- variables are fields of the component's record. Numbers are natural numbers, and every cast
-- and subtraction that can wrap is written out (u8, u16, u32, sub32, sub64). What the chip, the
-- heap and the flash answer is an argument. The clock is read anew at each place of the loop:
-- Controller.Readings has one reading for each such place. What the compiler lays out in memory
-- is the parameter Settings.Platform, with its laws Settings.Flash.IsFaithful.
--
-- Loops are recursions over the number of rounds that are left. Three have fuel: the inner
-- loop of a run (Controller.Sweeps.fill): led_count rounds, after which its test has failed
-- (fill_done in Controller/Sweeps/Run), and send_loop (Http/Sending): as much as the response has
-- bytes and one more, since each round but the last sends at least one; and printing a 32-bit
-- number, which has fuel for its ten digits.
--
-- Not modelled: network/dhcp_server and network/dns_server, which are copies of other projects'
-- servers (network.c's calls of them are the parameter Network.Services); cli/embedded_cli.h, a copy
-- of another project's line editor (cli.c's calls of it are the parameter Console.Editor, with its
-- documented law Console.Laws.HasRoom); the set-up of the chip, its pins, UART and PIO at start-up;
-- reading the boot button, which is an argument; and INFO, which only prints. lwIP and the Wi-Fi
-- driver are arguments: what their calls answer, and the callbacks that they make.
pub mod Base
pub mod Types
pub mod Ws2812
pub mod Leds
pub mod Clock
pub mod Modbus
pub mod Sensors
pub mod Light
pub mod Controller
pub mod Settings
pub mod Json
pub mod Numbers
pub mod Body
pub mod Http
pub mod Commands
pub mod Network
pub mod Console
pub mod Firmware
pub mod Examples
