-- ===== src/Examples/Point.antt =====
-- The access point with servers that do nothing.
use pico_stairway_controller.Base.{◌≡◌, ◌⊎◌, refl, arith, true, false, List, [], ◌∷◌, none, codes}
use pico_stairway_controller.Network.{Services, Network}
use pico_stairway_controller.Http.Listener.{TcpAnswers}
use pico_stairway_controller.Network.Laws.{IsSteady}
use pico_stairway_controller.Network.Steps.{
  NetCall, call_init, call_deinit, call_set_state, call_sync, net_steps, net_steps-IsSteady,
}
use pico_stairway_controller.Base.{c_string}
use pico_stairway_controller.Network.{start_up}
use pico_stairway_controller.Network.Start.{IsGranted, start_up_lem}
use pico_stairway_controller.Controller.{ButtonState}
use pico_stairway_controller.Examples.Store.{platform, works, memory}
use pico_stairway_controller.Examples.{small}

abbrev pub services : Services
services = record {
  Dhcp = Unit;
  Dns = Unit;
  dhcp_server_init = λ d. d;
  dhcp_server_deinit = λ d. d;
  dns_server_init = λ d. d;
  dns_server_deinit = λ d. d;
}

abbrev pub at_start : Network services
at_start = record {
  ap_inited = false;
  ap_started = false;
  tcp_server_state = none;
  dhcp_server = tt;
  dns_server = tt;
  ap_ssid = [];
  ap_pass = [];
  heap = record { allocated = 0; freed = 0 };
  pcbs = record { opened = 0; closed = 0 };
  calls = [];
}

pub at_start-IsSteady : IsSteady services at_start
at_start-IsSteady = record {
  blocks_even = omega arith;
  pcbs_even = omega arith;
  serves = λ i. ground arith;
  silent = λ i. (refl, refl);
  shown = tt;
}

abbrev all_ok : TcpAnswers
all_ok = record { new_ok = true; bind_ok = true; listen_ok = true }

abbrev calls : List NetCall
calls =
    call_init true all_ok (codes "Stairway") (codes "12345678")
    ∷ (call_sync true small ∷ (call_set_state false ∷ (call_deinit ∷ [])))

net_steps-IsSteady_example : IsSteady services (net_steps services calls at_start)
net_steps-IsSteady_example = net_steps-IsSteady services calls at_start at_start-IsSteady

abbrev running : Network services
running = record at_start { ap_inited = true }

abbrev button : ButtonState
button = record { prev_ts = 0; debounce = 3; state = false }

-- lwIP has no pcb.
abbrev no_pcb : TcpAnswers
no_pcb = record { new_ok = false; bind_ok = true; listen_ok = true }

start_up_lem_example :
    let (net_ready, m, net) = start_up platform services works true no_pcb memory at_start in
    ((true ≡ true)
      × IsGranted no_pcb
      × (net_ready ≡ true)
      × (net.ap_inited ≡ true)
      × (net.ap_ssid ≡ c_string m.global.ssid)
      × (net.ap_pass ≡ c_string m.global.pass))
    ⊎ (¬ ((true ≡ true) × IsGranted no_pcb) × (net_ready ≡ false) × (net.ap_inited ≡ false))
start_up_lem_example = start_up_lem platform services works true no_pcb memory at_start refl
