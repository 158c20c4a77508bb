-- ===== src/Firmware/Count.antt =====
-- main.c: the controller inside the whole program, and its count.
use mathlib.Core.Path.{subst}
use pico_stairway_controller.Base.{
  ℕ, ◌<◌, ◌≡◌, ◌⊎◌, sym, refl, ◌&&◌, if◌then◌else◌, Bool, true, false, List, [], ◌∷◌, Option, none,
  some,
}
use pico_stairway_controller.Types.{up, down, Status}
use pico_stairway_controller.Light.{light_sensor_get_data}
use pico_stairway_controller.Sensors.{stairway_sensors_routine, stairway_sensors_get}
use pico_stairway_controller.Controller.{Controller}
use pico_stairway_controller.Controller.Button.{reboot_due}
use pico_stairway_controller.Controller.Loop.Steps.{
  Step, Run, start, iterated, switched, first_seen, second_seen,
}
use pico_stairway_controller.Controller.Loop.Passage.{Passage, IsIdle, Run-Passage}
use pico_stairway_controller.Http.Content.Actions.{OnlyTest}
use pico_stairway_controller.Http.Connection.{Server, Event, run_events}
use pico_stairway_controller.Http.Connection.Consistent.{run_events-OnlyTest}
use pico_stairway_controller.Network.{net_ap_get_state}
use pico_stairway_controller.Firmware.{
  Ground, Firmware, Inputs, net_poll, reboot_stage, access_point_stage, with_typed, console_stage,
  sensor_stage, main_iteration, main_loop,
}

module _ (g : Ground) where
  -- What the controller is given in an iteration, where the sensors are asked: the active settings,
  -- the light, and what the sensors have answered.
  abbrev pub shown : Inputs g → Firmware g → Step
  shown x f =
      let s = f.memory.global in
      let (_, light_state, light_value) = light_sensor_get_data s x.light_ts x.adc f.light in
      let bus = record (f.sensors) { modbus = x.interrupts f.sensors.modbus } in
      let sensors = stairway_sensors_routine x.answered_at x.sensors_ts x.sent_at bus in
      (
        s,
        record {
          ts = x.ts;
          now = x.now;
          light_state = light_state;
          light_value = light_value;
          sensors = stairway_sensors_get s sensors f.sen_values;
          ap_state = net_ap_get_state g.services f.network;
          reallocated = x.reallocated;
          strip_reallocated = x.strip_reallocated;
        },
      )

  -- The iteration up to the sensors.
  abbrev pub up_to_sensors : Inputs g → Firmware g → Firmware g
  up_to_sensors x f =
      console_stage g x (access_point_stage g x (reboot_stage g x.ts (net_poll g x.events f)))

  -- What the controller is given in these iterations, the newest first, behind `done`.
  unfoldable pub steps : List Step → List (Inputs g) → Firmware g → List Step
  steps done [] f = done
  steps done (x ∷ rest) f = steps (shown x (up_to_sensors x f) ∷ done) rest (main_iteration g x f)

  one_of-Run :
      (c : Controller) (xs : List Step) (b : Bool) (f f' : Firmware g)
      → Run c xs f.controller
      → Run c xs f'.controller
      → Run c xs (if b then f else f').controller
  one_of-Run c xs true f f' r r' = r
  one_of-Run c xs false f f' r r' = r'

  net_poll-Run :
      (c : Controller) (xs : List Step) (events : List (Event g.platform g.site)) (f : Firmware g)
      → Run c xs f.controller
      → Run c xs (net_poll g events f).controller
  unfolding net_poll
  net_poll-Run c xs events f r =
      let server : Server g.platform = record {
        con = f.con;
        device = record {
          memory = f.memory;
          status = f.controller.status;
          reboot_ts = f.reboot_ts;
        };
        heap = f.con_heap;
      } in
      let only : OnlyTest g.platform f.controller.status
          (run_events g.platform g.site events server).device =
        run_events-OnlyTest g.platform g.site f.controller.status events server
          (f.controller.status.test_mode, refl) in
      one_of-Run c xs (f.network.ap_inited && f.network.ap_started) _ f
        (subst (λ (t : Status). Run c xs (record (f.controller) { status = t })) (sym only.1)
          (switched only.0 r))
        r

  with_typed-controller :
      (x : Inputs g) (f : Firmware g) (typed : Option ℕ)
      → (with_typed g x f typed).controller ≡ f.controller
  with_typed-controller x f none = refl
  with_typed-controller x f (some ch) = refl

  up_to_sensors-Run :
      (c : Controller) (xs : List Step) (x : Inputs g) (f : Firmware g)
      → Run c xs f.controller
      → Run c xs (up_to_sensors x f).controller
  unfolding console_stage access_point_stage reboot_stage
  up_to_sensors-Run c xs x f r =
      let polled : Firmware g = net_poll g x.events f in
      let rebooted : Run c xs (reboot_stage g x.ts polled).controller =
        one_of-Run c xs (reboot_due polled.reboot_ts x.ts) (record polled { rebooted = true })
          polled (net_poll-Run c xs x.events f r) (net_poll-Run c xs x.events f r) in
      subst (Run c xs) (sym (with_typed-controller x _ x.typed)) rebooted

  main_iteration-Run :
      (c : Controller) (xs : List Step) (x : Inputs g) (f : Firmware g)
      → Run c xs f.controller
      → Run c (shown x (up_to_sensors x f) ∷ xs) (main_iteration g x f).controller
  unfolding main_iteration sensor_stage
  main_iteration-Run c xs x f r =
      iterated (shown x (up_to_sensors x f)) (up_to_sensors-Run c xs x f r)

  main_loop-Run :
      (c : Controller) (done : List Step) (xs : List (Inputs g)) (f : Firmware g)
      → Run c done f.controller
      → Run c (steps done xs f) (main_loop g xs f).controller
  unfolding steps main_loop
  main_loop-Run c done [] f r = r
  main_loop-Run c done (x ∷ rest) f r =
      main_loop-Run c (shown x (up_to_sensors x f) ∷ done) rest (main_iteration g x f)
        (main_iteration-Run c done x f r)

  -- In the whole program, whatever the clients of the web server, the console and the button do
  -- between: from idle detectors on, if more people are counted after any number of iterations,
  -- then at one end of the stairs the first sensor was active in one iteration, and the second one
  -- in a later one.
  pub main_loop-Passage :
      (xs : List (Inputs g)) (f : Firmware g)
      → IsIdle f.controller
      → f.controller.status.people_count < (main_loop g xs f).controller.status.people_count
      → Passage (first_seen up) (second_seen up) (steps [] xs f)
        ⊎ Passage (first_seen down) (second_seen down) (steps [] xs f)
  main_loop-Passage xs f is_idle more =
      Run-Passage f.controller (main_loop g xs f).controller (steps [] xs f)
        (main_loop-Run f.controller [] xs f start) is_idle more
