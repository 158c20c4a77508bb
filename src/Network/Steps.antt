-- ===== src/Network/Steps.antt =====
-- network/network.c: the access point in a sequence of calls, and the settings.
use pico_stairway_controller.Base.{
  ◌∙◌, ℕ, ◌≡◌, ap, inl, inr, refl, arith, leb, ltb, ◌==◌, ◌||◌, ◌&&◌, if◌then◌else◌, Bool, true,
  false, List, [], ◌∷◌, none, length, Bool-cases, not,
}
use mathlib.Core.Bool.{xor}
use pico_stairway_controller.Settings.{Platform, Memory, FlashRun, stamped, settings_write}
use pico_stairway_controller.Settings.Flash.{write_page-global}
use pico_stairway_controller.Controller.{ButtonState}
use pico_stairway_controller.Controller.Button.{button_poll}
use pico_stairway_controller.Types.{ErrCode, Settings}
use pico_stairway_controller.Http.Listener.{TcpAnswers}
use pico_stairway_controller.Network.{
  toggle_ap_state, access_point, Services, Network, net_ap_get_state, net_ap_set_state,
  net_ap_deinit, start_servers, net_ap_init, sync_ap_state,
}
use pico_stairway_controller.Network.Laws.{
  IsSteady, server_blocks, server_pcbs, set_state-IsSteady, deinit-IsSteady, start_servers-IsSteady,
  xor_lem, net_ap_set_state_lem,
}

one_of-IsSteady :
    (v : Services) (b : Bool) (x y : ErrCode × Network v)
    → IsSteady v x.1
    → (b ≡ false → IsSteady v y.1)
    → IsSteady v (if b then x else y).1
one_of-IsSteady v true x y sx sy = sx
one_of-IsSteady v false x y sx sy = sy refl

no_server_yet :
    (v : Services) (net : Network v)
    → net.ap_inited ≡ false
    → IsSteady v net
    → IsSteady v (record net { tcp_server_state = none })
no_server_yet v net closed n =
    let e : net.tcp_server_state ≡ none = (n.silent closed).0 in
    record {
      blocks_even = omega (arith, n.blocks_even, ap server_blocks e);
      pcbs_even = omega (arith, n.pcbs_even, ap server_pcbs e);
      serves = λ i. ground arith;
      silent = λ i. (refl, (n.silent i).1);
      shown = n.shown;
    }

pub init-IsSteady :
    (v : Services) (given : Bool) (answers : TcpAnswers) (ssid pass : List ℕ) (net : Network v)
    → IsSteady v net
    → IsSteady v (net_ap_init v given answers ssid pass net).1
unfolding net_ap_init
init-IsSteady v given answers ssid pass net n =
    one_of-IsSteady v net.ap_inited (ErrCode.already_inited, net) _ n
      (λ closed.
        one_of-IsSteady v ((length ssid == 0) || leb 33 (length ssid)) (ErrCode.param_invalid, net)
          _ n
          (λ ssid_fits.
            one_of-IsSteady v (ltb (length pass) 8 || leb 64 (length pass))
              (ErrCode.param_invalid, net) _ n
              (λ pass_fits.
                one_of-IsSteady v (not given)
                  (ErrCode.mem_alloc_fail, record net { tcp_server_state = none })
                  (start_servers v answers ssid pass net) (no_server_yet v net closed n)
                  (λ has_block. start_servers-IsSteady v answers ssid pass net closed n))))

pub sync-IsSteady :
    (v : Services) (net_ready : Bool) (s : Settings) (net : Network v)
    → IsSteady v net
    → IsSteady v (sync_ap_state v net_ready s net)
unfolding sync_ap_state
sync-IsSteady v net_ready s net n =
    elim (Bool-cases (net_ready && xor (net_ap_get_state v net) s.ap_state)) [
      | inl changes ↦ simp changes (set_state-IsSteady v s.ap_state net n)
      | inr same ↦ simp same n
    ]

-- The calls that the rest of the program makes.
pub data NetCall : Type 0 where
  call_init : Bool → TcpAnswers → List ℕ → List ℕ → NetCall
  call_deinit : NetCall
  call_set_state : Bool → NetCall
  call_sync : Bool → Settings → NetCall

abbrev pub net_step : (v : Services) → NetCall → Network v → Network v
net_step v (call_init given answers ssid pass) net = (net_ap_init v given answers ssid pass net).1
net_step v call_deinit net = (net_ap_deinit v net).1
net_step v (call_set_state en) net = (net_ap_set_state v en net).1
net_step v (call_sync net_ready s) net = sync_ap_state v net_ready s net

unfoldable pub net_steps : (v : Services) → List NetCall → Network v → Network v
net_steps v [] net = net
net_steps v (call ∷ rest) net = net_steps v rest (net_step v call net)

net_step-IsSteady :
    (v : Services) (call : NetCall) (net : Network v)
    → IsSteady v net
    → IsSteady v (net_step v call net)
net_step-IsSteady v (call_init given answers ssid pass) net n =
    init-IsSteady v given answers ssid pass net n
net_step-IsSteady v call_deinit net n = deinit-IsSteady v net n
net_step-IsSteady v (call_set_state en) net n = set_state-IsSteady v en net n
net_step-IsSteady v (call_sync net_ready s) net n = sync-IsSteady v net_ready s net n

-- From a state where this holds, whatever the heap and lwIP answer, any sequence of starts, stops
-- and switches keeps every block and every pcb freed once or owned, keeps a listening server
-- exactly while the access point is initialised, and leaves the driver in the state that ap_started
-- says.
pub net_steps-IsSteady :
    (v : Services) (calls : List NetCall) (net : Network v)
    → IsSteady v net
    → IsSteady v (net_steps v calls net)
unfolding net_steps
net_steps-IsSteady v [] net n = n
net_steps-IsSteady v (call ∷ rest) net n =
    net_steps-IsSteady v rest (net_step v call net) (net_step-IsSteady v call net n)

sync_ap_state_lem :
    (v : Services) (s : Settings) (net : Network v)
    → net.ap_inited ≡ true
    → net_ap_get_state v (sync_ap_state v true s net) ≡ s.ap_state
unfolding sync_ap_state net_ap_get_state
sync_ap_state_lem v s net inited = elim (Bool-cases (xor net.ap_started s.ap_state)) [
  | inl changes ↦ simp changes (net_ap_set_state_lem v s.ap_state net inited)
  | inr same ↦ simp same (xor_lem net.ap_started s.ap_state same)
]

toggle_ap_state_lem :
    (p : Platform) (run : FlashRun p) (event : Bool) (m : Memory p)
    → (toggle_ap_state p run event m).global.ap_state ≡ xor m.global.ap_state event
unfolding toggle_ap_state settings_write stamped xor
toggle_ap_state_lem p run true m =
    let s = record (m.global) { ap_state = not m.global.ap_state } in
    ap (λ t. t.ap_state) (write_page-global p run (stamped p s) m.flash) ∙ flipped m.global.ap_state
  where
    flipped : (b : Bool) → not b ≡ xor b true
    flipped true = refl
    flipped false = refl
toggle_ap_state_lem p run false m = unchanged m.global.ap_state
  where
    unchanged : (b : Bool) → b ≡ xor b false
    unchanged true = refl
    unchanged false = refl

-- Where the access point is initialised, which the start-up has reported: in each iteration,
-- whatever the flash does, a press of the button flips the state in the settings and nothing else
-- does; and at the end the access point is in that state.
pub access_point_lem :
    (p : Platform) (v : Services) (run : FlashRun p) (ts : ℕ) (pressed : Bool) (b : ButtonState)
    (m : Memory p) (net : Network v)
    → net.ap_inited ≡ true
    → (let (b', m', net') = access_point p v run true ts pressed b m net in
        (m'.global.ap_state ≡ xor m.global.ap_state (button_poll ts pressed b).1)
        × (net_ap_get_state v net' ≡ m'.global.ap_state))
unfolding access_point
access_point_lem p v run ts pressed b m net inited =
    let event = (button_poll ts pressed b).1 in
    (
      toggle_ap_state_lem p run event m,
      sync_ap_state_lem v (toggle_ap_state p run event m).global net inited,
    )
