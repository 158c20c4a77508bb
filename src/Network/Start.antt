-- ===== src/Network/Start.antt =====
-- network/network.c and main.c: the access point at start-up.
use pico_stairway_controller.Base.{
  ℕ, zero, suc, ◌≤◌, ◌≡◌, ◌⊎◌, inl, inr, refl, sym, Bool, arith, leb, ltb, ◌==◌, ◌||◌, true, false,
  List, [], ◌∷◌, length, c_string,
}
use mathlib.Core.Bool.{true≢false}
use pico_stairway_controller.Types.{ErrCode, Settings}
use pico_stairway_controller.Settings.{
  Platform, Memory, FlashRun, settings_init, strnlen, is_success,
}
use pico_stairway_controller.Settings.Check.{IsConsistent}
use pico_stairway_controller.Settings.Flash.{settings_init-IsConsistent}
use pico_stairway_controller.Http.Listener.{TcpAnswers, tcp_server_open, http_server_init}
use pico_stairway_controller.Network.{
  Services, Network, net_ap_init, net_ap_deinit, stop_servers, start_servers, start_up,
}

length-c_string : (str : List ℕ) → length (c_string str) ≡ strnlen str
unfolding strnlen
length-c_string [] = refl
length-c_string (zero ∷ rest) = refl
length-c_string (suc c ∷ rest) = omega (arith, length-c_string rest)

-- lwIP gives a pcb, binds it, and listens.
abbrev pub IsGranted : TcpAnswers → Type 0
IsGranted answers = (answers.new_ok ≡ true) × (answers.bind_ok ≡ true) × (answers.listen_ok ≡ true)

-- The two ends of net_ap_init for strings that fit.
abbrev Outcome : (v : Services) → Bool → TcpAnswers → List ℕ → List ℕ → ErrCode × Network v → Type 0
Outcome v given answers ssid pass (err, net) =
    ((given ≡ true)
      × IsGranted answers
      × (is_success err ≡ true)
      × (net.ap_inited ≡ true)
      × (net.ap_ssid ≡ ssid)
      × (net.ap_pass ≡ pass))
    ⊎ (¬ ((given ≡ true) × IsGranted answers) × (is_success err ≡ false) × (net.ap_inited ≡ false))

start_servers-Outcome :
    (v : Services) (new_ok bind_ok listen_ok : Bool) (ssid pass : List ℕ) (net : Network v)
    → net.ap_inited ≡ false
    → (let answers : TcpAnswers = record {
      new_ok = new_ok;
      bind_ok = bind_ok;
      listen_ok = listen_ok;
    } in
        Outcome v true answers ssid pass (start_servers v answers ssid pass net))
unfolding start_servers http_server_init tcp_server_open net_ap_deinit stop_servers
start_servers-Outcome v true true true ssid pass net closed =
    inl (refl, (refl, refl, refl), refl, refl, refl, refl)
start_servers-Outcome v true true false ssid pass net closed =
    inr (λ g. true≢false (sym g.1.2), refl, refl)
start_servers-Outcome v true false listen_ok ssid pass net closed =
    inr (λ g. true≢false (sym g.1.1), refl, refl)
start_servers-Outcome v false bind_ok listen_ok ssid pass net closed =
    inr (λ g. true≢false (sym g.1.0), refl, refl)

ssid_in_range :
    (ssid : List ℕ)
    → (1 ≤ length ssid) × (length ssid ≤ 32)
    → ((length ssid == 0) || leb 33 (length ssid)) ≡ false
ssid_in_range ssid fits = ground arith

pass_in_range :
    (pass : List ℕ)
    → (8 ≤ length pass) × (length pass ≤ 63)
    → (ltb (length pass) 8 || leb 64 (length pass)) ≡ false
pass_in_range pass fits = ground arith

net_ap_init-Outcome :
    (v : Services) (given : Bool) (answers : TcpAnswers) (ssid pass : List ℕ) (net : Network v)
    → net.ap_inited ≡ false
    → (1 ≤ length ssid) × (length ssid ≤ 32)
    → (8 ≤ length pass) × (length pass ≤ 63)
    → Outcome v given answers ssid pass (net_ap_init v given answers ssid pass net)
unfolding net_ap_init
net_ap_init-Outcome v true answers ssid pass net closed ssid_fits pass_fits =
    simp (closed, ssid_in_range ssid ssid_fits, pass_in_range pass pass_fits)
      (start_servers-Outcome v answers.new_ok answers.bind_ok answers.listen_ok ssid pass net
        closed)
net_ap_init-Outcome v false answers ssid pass net closed ssid_fits pass_fits =
    simp (closed, ssid_in_range ssid ssid_fits, pass_in_range pass pass_fits)
      (inr (λ g. true≢false (sym g.0), refl, refl))

-- Where no access point was initialised before, whatever the flash holds and whatever becomes of
-- it: if the heap and lwIP grant all that is asked, the start-up sets `net_ready` and leaves an
-- initialised access point with the SSID and the password of the settings; if one of them refuses,
-- `net_ready` is not set, and no access point is initialised.
pub start_up_lem :
    (p : Platform) (v : Services) (run : FlashRun p) (given : Bool) (answers : TcpAnswers)
    (m : Memory p) (net : Network v)
    → net.ap_inited ≡ false
    → (let (net_ready, m', net') = start_up p v run given answers m net in
        ((given ≡ true)
          × IsGranted answers
          × (net_ready ≡ true)
          × (net'.ap_inited ≡ true)
          × (net'.ap_ssid ≡ c_string m'.global.ssid)
          × (net'.ap_pass ≡ c_string m'.global.pass))
        ⊎ (¬ ((given ≡ true) × IsGranted answers) × (net_ready ≡ false) × (net'.ap_inited ≡ false)))
unfolding start_up
start_up_lem p v run given answers m net closed =
    let s : Settings = (settings_init p run m).1.global in
    let valid : IsConsistent s = settings_init-IsConsistent p run m in
    net_ap_init-Outcome v given answers (c_string s.ssid) (c_string s.pass) net closed
      (
        omega (arith, length-c_string s.ssid, valid.ssid_len),
        omega (arith, length-c_string s.ssid, valid.ssid_len),
      )
      (
        omega (arith, length-c_string s.pass, valid.pass_len),
        omega (arith, length-c_string s.pass, valid.pass_len),
      )
