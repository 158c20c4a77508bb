-- ===== src/Firmware/Healthy.antt =====
-- main.c: an invariant of the whole program.
use pico_stairway_controller.Base.{
  ◌^◌, ℕ, ◌<◌, ◌≡◌, arith, ◌&&◌, if◌then◌else◌, Bool, true, false, not, List, [], ◌∷◌, Option, none,
  some, length,
}
use pico_stairway_controller.Settings.{Memory, FlashRun}
use pico_stairway_controller.Settings.Check.{IsConsistent}
use pico_stairway_controller.Leds.Invariant.{IsWf}
use pico_stairway_controller.Controller.Button.{button_poll, reboot_due}
use pico_stairway_controller.Http.Connection.{Server, Event}
use pico_stairway_controller.Http.Connection.Open.{IsLive}
use pico_stairway_controller.Http.Connection.Life.{run_events-IsSound}
use pico_stairway_controller.Http.Connection.Consistent.{run_events-IsValid}
use pico_stairway_controller.Network.{access_point, toggle_ap_state}
use pico_stairway_controller.Network.Laws.{IsSteady}
use pico_stairway_controller.Network.Steps.{sync-IsSteady}
use pico_stairway_controller.Console.Laws.{write_ap_state-IsConsistent, execute_all-IsConsistent}
use pico_stairway_controller.Firmware.{
  Ground, Firmware, Inputs, net_poll, reboot_stage, access_point_stage, with_typed, console_stage,
  sensor_stage, main_iteration, main_loop,
}
use pico_stairway_controller.Firmware.Strip.{iterate-HasStrip}

-- The settings are in their ranges, the access point and the connection own what they have taken
-- and no more, and the strip has the buffers that its length states.
pub record IsHealthy (g : Ground) (f : Firmware g) : Type 0 where
  pub consistent : IsConsistent f.memory.global
  pub steady : IsSteady g.services f.network
  pub live : IsLive f.con f.con_heap
  pub strip : IsWf f.controller.leds

module _ (g : Ground) where
  -- The heap gives the strip its memory in each iteration.
  abbrev pub AllGiven : List (Inputs g) → Type 0
  AllGiven [] = Unit
  AllGiven (x ∷ rest) = (x.reallocated ≡ true) × (x.strip_reallocated ≡ true) × AllGiven rest

module _ (g : Ground) (short : length g.site.index_html < 2 ^ 31) where
  one_of-IsHealthy :
      (b : Bool) (f f' : Firmware g)
      → IsHealthy g f
      → IsHealthy g f'
      → IsHealthy g (if b then f else f')
  one_of-IsHealthy true f f' h h' = h
  one_of-IsHealthy false f f' h h' = h'

  net_poll-IsHealthy :
      (events : List (Event g.platform g.site)) (f : Firmware g)
      → IsHealthy g f
      → IsHealthy g (net_poll g events f)
  unfolding net_poll
  net_poll-IsHealthy events f h =
      let server : Server g.platform = record {
        con = f.con;
        device = record {
          memory = f.memory;
          status = f.controller.status;
          reboot_ts = f.reboot_ts;
        };
        heap = f.con_heap;
      } in
      one_of-IsHealthy (f.network.ap_inited && f.network.ap_started) _ f
        (record {
          consistent = run_events-IsValid g.platform g.site events server h.consistent;
          steady = h.steady;
          live = run_events-IsSound g.platform g.site short events server h.live;
          strip = h.strip;
        })
        h

  reboot_stage-IsHealthy :
      (ts : ℕ) (f : Firmware g) → IsHealthy g f → IsHealthy g (reboot_stage g ts f)
  unfolding reboot_stage
  reboot_stage-IsHealthy ts f h =
      one_of-IsHealthy (reboot_due f.reboot_ts ts) (record f { rebooted = true }) f
        (record { consistent = h.consistent; steady = h.steady; live = h.live; strip = h.strip }) h

  toggle-IsConsistent :
      (run : FlashRun g.platform) (event : Bool) (m : Memory g.platform)
      → IsConsistent m.global
      → IsConsistent (toggle_ap_state g.platform run event m).global
  unfolding toggle_ap_state
  toggle-IsConsistent run true m c =
      write_ap_state-IsConsistent g.platform run (not m.global.ap_state) m c
  toggle-IsConsistent run false m c = c

  access_point_stage-IsHealthy :
      (x : Inputs g) (f : Firmware g) → IsHealthy g f → IsHealthy g (access_point_stage g x f)
  unfolding access_point_stage access_point
  access_point_stage-IsHealthy x f h =
      let event = (button_poll x.ts x.pressed f.button).1 in
      let m : Memory g.platform = toggle_ap_state g.platform x.button_run event f.memory in
      record {
        consistent = toggle-IsConsistent x.button_run event f.memory h.consistent;
        steady = sync-IsSteady g.services f.net_ready m.global f.network h.steady;
        live = h.live;
        strip = h.strip;
      }

  with_typed-IsHealthy :
      (x : Inputs g) (f : Firmware g) (typed : Option ℕ)
      → IsHealthy g f
      → IsHealthy g (with_typed g x f typed)
  with_typed-IsHealthy x f none h = h
  with_typed-IsHealthy x f (some ch) h = record {
    consistent =
        execute_all-IsConsistent g.platform x.command_run x.command_now _ _ _ _ h.consistent;
    steady = h.steady;
    live = h.live;
    strip = h.strip;
  }

  sensor_stage-IsHealthy :
      (x : Inputs g) (f : Firmware g)
      → x.reallocated ≡ true
      → x.strip_reallocated ≡ true
      → IsHealthy g f
      → IsHealthy g (sensor_stage g x f)
  unfolding sensor_stage
  sensor_stage-IsHealthy x f given given' h = record {
    consistent = h.consistent;
    steady = h.steady;
    live = h.live;
    strip =
        iterate-HasStrip f.memory.global _ f.controller given given'
          (omega (arith, h.consistent.leds)) h.strip;
  }

  iteration-IsHealthy :
      (x : Inputs g) (f : Firmware g)
      → x.reallocated ≡ true
      → x.strip_reallocated ≡ true
      → IsHealthy g f
      → IsHealthy g (main_iteration g x f)
  unfolding main_iteration console_stage
  iteration-IsHealthy x f given given' h = sensor_stage-IsHealthy x _ given given' (
      with_typed-IsHealthy x _ x.typed (
        access_point_stage-IsHealthy x _
          (reboot_stage-IsHealthy x.ts _ (net_poll-IsHealthy x.events f h))))

  pub loop-IsHealthy :
      (xs : List (Inputs g)) (f : Firmware g)
      → AllGiven g xs
      → IsHealthy g f
      → IsHealthy g (main_loop g xs f)
  unfolding main_loop
  loop-IsHealthy [] f given h = h
  loop-IsHealthy (x ∷ rest) f given h =
      loop-IsHealthy rest (main_iteration g x f) given.2 (iteration-IsHealthy x f given.0 given.1 h)
