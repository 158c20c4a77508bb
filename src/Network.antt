-- ===== src/Network.antt =====
-- network/network.c: the access point with its servers; main.c: its switch, the button.
--
-- The DHCP and DNS servers are other projects' code, and the Wi-Fi driver is the SDK's: what the
-- code asks of them is a parameter, and a list of the calls.
pub mod Laws
pub mod Steps
pub mod Start
use pico_stairway_controller.Base.{
  ℕ, ◌+◌, leb, ltb, ◌==◌, ◌||◌, ◌&&◌, not, if◌then◌else◌, Bool, true, false, List, [], ◌∷◌, Option,
  none, some, length, c_string,
}
use mathlib.Core.Bool.{xor}
use pico_stairway_controller.Types.{ErrCode, Settings}
use pico_stairway_controller.Settings.{
  Platform, Memory, FlashRun, settings_write, settings_init, is_success,
}
use pico_stairway_controller.Controller.{ButtonState}
use pico_stairway_controller.Controller.Button.{button_poll}
use pico_stairway_controller.Http.Response.{Heap, malloc}
use pico_stairway_controller.Http.Listener.{
  Pcbs, TcpServer, TcpAnswers, http_server_init, http_server_deinit,
}

-- dhcp_server_t and dns_server_t, and the calls on them.
pub record Services : Type 1 where
  pub Dhcp : Type 0
  pub Dns : Type 0
  pub dhcp_server_init : Dhcp → Dhcp
  pub dhcp_server_deinit : Dhcp → Dhcp
  pub dns_server_init : Dns → Dns
  pub dns_server_deinit : Dns → Dns

-- cyw43_arch_enable_ap_mode and cyw43_arch_disable_ap_mode.
pub data ApCall : Type 0 where
  enable_ap_mode : List ℕ → List ℕ → ApCall
  disable_ap_mode : ApCall

abbrev pub max_ssid_len : ℕ
max_ssid_len = 33

abbrev pub min_pass_len : ℕ
min_pass_len = 8

abbrev pub max_pass_len : ℕ
max_pass_len = 64

-- The variables of the file, the heap, lwIP's pcbs, and the calls of the driver, the last in front.
pub record Network (v : Services) : Type 0 where
  pub ap_inited : Bool
  pub ap_started : Bool
  pub tcp_server_state : Option TcpServer
  pub dhcp_server : v.Dhcp
  pub dns_server : v.Dns
  pub ap_ssid : List ℕ
  pub ap_pass : List ℕ
  pub heap : Heap
  pub pcbs : Pcbs
  pub calls : List ApCall

module _ (v : Services) where
  unfoldable pub net_ap_get_state : Network v → Bool
  net_ap_get_state net = net.ap_started

  unfoldable pub net_ap_set_state : Bool → Network v → ErrCode × Network v
  net_ap_set_state en net =
      if not net.ap_inited
      then (ErrCode.need_init, net)
      else if xor net.ap_started en
      then (
        ErrCode.success,
        record net {
          calls =
              (if en then enable_ap_mode net.ap_ssid net.ap_pass else disable_ap_mode) ∷ net.calls;
          ap_started = en;
        },
      )
      else (ErrCode.success, net)

  abbrev pub free_server : Option TcpServer → Heap → Heap
  free_server none h = h
  free_server (some server) h = record h { freed = h.freed + 1 }

  -- The part of net_ap_deinit behind net_ap_set_state.
  unfoldable pub stop_servers : Network v → Network v
  stop_servers net =
      let (_, server, pcbs) = http_server_deinit net.tcp_server_state net.pcbs in
      record net {
        dns_server = v.dns_server_deinit net.dns_server;
        dhcp_server = v.dhcp_server_deinit net.dhcp_server;
        ap_ssid = [];
        ap_pass = [];
        heap = free_server server net.heap;
        pcbs = pcbs;
        tcp_server_state = none;
        ap_inited = false;
      }

  unfoldable pub net_ap_deinit : Network v → ErrCode × Network v
  net_ap_deinit net = (
    ErrCode.success,
    stop_servers (if net.ap_inited then (net_ap_set_state false net).1 else net),
  )

  -- http_server_init, and what follows it.
  abbrev pub after_http_init :
      List ℕ → List ℕ → Network v → ErrCode × Option TcpServer × Pcbs → ErrCode × Network v
  after_http_init ssid pass net (ErrCode.success, server, pcbs) = (
    ErrCode.success,
    record net {
      tcp_server_state = server;
      pcbs = pcbs;
      ap_ssid = ssid;
      ap_pass = pass;
      ap_inited = true;
    },
  )
  after_http_init ssid pass net (err, server, pcbs) =
      (err, (net_ap_deinit (record net { tcp_server_state = server; pcbs = pcbs })).1)

  -- From the calloc on, which gives a block.
  unfoldable pub start_servers : TcpAnswers → List ℕ → List ℕ → Network v → ErrCode × Network v
  start_servers answers ssid pass net =
      let net = record net {
        heap = malloc net.heap;
        dhcp_server = v.dhcp_server_init net.dhcp_server;
        dns_server = v.dns_server_init net.dns_server;
      } in
      after_http_init ssid pass net
        (http_server_init answers (some (record { server_pcb = false })) net.pcbs)

  -- The two strings are those before the terminating 0; `given` is what calloc answers. A NULL
  -- argument does not occur: main passes arrays.
  unfoldable pub net_ap_init : Bool → TcpAnswers → List ℕ → List ℕ → Network v → ErrCode × Network v
  net_ap_init given answers ssid pass net =
      if net.ap_inited
      then (ErrCode.already_inited, net)
      else if (length ssid == 0) || leb max_ssid_len (length ssid)
      then (ErrCode.param_invalid, net)
      else if ltb (length pass) min_pass_len || leb max_pass_len (length pass)
      then (ErrCode.param_invalid, net)
      else if not given
      then (ErrCode.mem_alloc_fail, record net { tcp_server_state = none })
      else start_servers answers ssid pass net

  -- main: the access point follows the settings.
  unfoldable pub sync_ap_state : Bool → Settings → Network v → Network v
  sync_ap_state net_ready s net =
      if net_ready && xor (net_ap_get_state net) s.ap_state
      then (net_ap_set_state s.ap_state net).1
      else net

module _ (p : Platform) where
  -- main: a press of the button.
  unfoldable pub toggle_ap_state : FlashRun p → Bool → Memory p → Memory p
  toggle_ap_state run press_event m =
      if press_event
      then (settings_write p run
          (record m { global = record (m.global) { ap_state = not m.global.ap_state } })).1
      else m

  -- main: from the poll of the button to the switch of the access point.
  unfoldable pub access_point :
      (v : Services)
      → FlashRun p
      → Bool
      → ℕ
      → Bool
      → ButtonState
      → Memory p
      → Network v
      → ButtonState × Memory p × Network v
  access_point v run net_ready ts pressed b m net =
      let (b, press_event) = button_poll ts pressed b in
      let m = toggle_ap_state run press_event m in (b, m, sync_ap_state v net_ready m.global net)

  -- main, at start-up: the settings, and the access point with their SSID and password. The Boolean
  -- is net_ready.
  unfoldable pub start_up :
      (v : Services)
      → FlashRun p
      → Bool
      → TcpAnswers
      → Memory p
      → Network v
      → Bool × Memory p × Network v
  start_up v run given answers m net =
      let (_, m) = settings_init p run m in
      let (err, net) =
        net_ap_init v given answers (c_string m.global.ssid) (c_string m.global.pass) net in
      (is_success err, m, net)
