-- ===== src/Network/Laws.antt =====
-- network/network.c: the blocks and pcbs of the access point, and the calls of the driver.
use pico_stairway_controller.Base.{
  ℕ, ◌+◌, ◌≡◌, ap, sym, inl, inr, refl, arith, if◌then◌else◌, Bool, true, false, List, [], ◌∷◌,
  Option, none, some, Bool-cases,
}
use mathlib.Core.Path.{subst}
use mathlib.Core.Bool.{xor}
use pico_stairway_controller.Types.{ErrCode}
use pico_stairway_controller.Http.Response.{Heap, malloc}
use pico_stairway_controller.Http.Listener.{
  Pcbs, TcpServer, TcpAnswers, tcp_server_open, tcp_server_close, http_server_init,
  http_server_deinit,
}
use pico_stairway_controller.Network.{
  Services, ApCall, enable_ap_mode, disable_ap_mode, Network, net_ap_get_state, net_ap_set_state,
  free_server, stop_servers, net_ap_deinit, after_http_init, start_servers,
}

abbrev pub server_blocks : Option TcpServer → ℕ
server_blocks none = 0
server_blocks (some server) = 1

abbrev pub server_pcbs : Option TcpServer → ℕ
server_pcbs none = 0
server_pcbs (some server) = if server.server_pcb then 1 else 0

-- Whether the calls leave the access point on, with this SSID and password, or off.
abbrev pub IsShown : Bool → List ℕ → List ℕ → List ApCall → Type 0
IsShown true ssid pass (enable_ap_mode ssid' pass' ∷ rest) = (ssid' ≡ ssid) × (pass' ≡ pass)
IsShown false ssid pass (disable_ap_mode ∷ rest) = Unit
IsShown false ssid pass [] = Unit
IsShown _ ssid pass _ = ⊥

-- Blocks and pcbs are freed once or belong to the server; there is a listening server exactly while
-- ap_inited is set; and the driver was last told what ap_started says.
pub record IsSteady (v : Services) (net : Network v) : Type 0 where
  pub blocks_even : net.heap.allocated ≡ net.heap.freed + server_blocks net.tcp_server_state
  pub pcbs_even : net.pcbs.opened ≡ net.pcbs.closed + server_pcbs net.tcp_server_state
  pub serves : net.ap_inited ≡ true → server_pcbs net.tcp_server_state ≡ 1
  pub silent : net.ap_inited ≡ false → (net.tcp_server_state ≡ none) × (net.ap_started ≡ false)
  pub shown : IsShown net.ap_started net.ap_ssid net.ap_pass net.calls

pub set_state-IsSteady :
    (v : Services) (en : Bool) (net : Network v)
    → IsSteady v net
    → IsSteady v (net_ap_set_state v en net).1
unfolding net_ap_set_state
set_state-IsSteady v en net n = elim (Bool-cases net.ap_inited) [
  | inr closed ↦ simp closed n
  | inl inited ↦ elim (Bool-cases (xor net.ap_started en)) [
    | inr same ↦ simp (inited, same) n
    | inl changes ↦
        simp (inited, changes)
          (record {
            blocks_even = n.blocks_even;
            pcbs_even = n.pcbs_even;
            serves = λ e. n.serves inited;
            silent = λ e. ground arith;
            shown = told en net.ap_ssid net.ap_pass net.calls;
          })
  ]
]
  where
    told :
        (en : Bool) (ssid pass : List ℕ) (calls : List ApCall)
        → IsShown en ssid pass ((if en then enable_ap_mode ssid pass else disable_ap_mode) ∷ calls)
    told true ssid pass calls = (refl, refl)
    told false ssid pass calls = tt

pub xor_lem : (a b : Bool) → xor a b ≡ false → a ≡ b
unfolding xor
xor_lem true b e = ground arith
xor_lem false b e = ground arith

-- Once the access point is initialised, net_ap_set_state brings it into the state it is given.
pub net_ap_set_state_lem :
    (v : Services) (en : Bool) (net : Network v)
    → net.ap_inited ≡ true
    → net_ap_get_state v (net_ap_set_state v en net).1 ≡ en
unfolding net_ap_set_state net_ap_get_state
net_ap_set_state_lem v en net inited = elim (Bool-cases (xor net.ap_started en)) [
  | inl changes ↦ simp (inited, changes) refl
  | inr same ↦ simp (inited, same) (xor_lem net.ap_started en same)
]

http_server_deinit_lem :
    (server : Option TcpServer) (pcbs : Pcbs)
    → pcbs.opened ≡ pcbs.closed + server_pcbs server
    → (let (err, server', pcbs') = http_server_deinit server pcbs in
        (pcbs'.opened ≡ pcbs'.closed) × (server_blocks server' ≡ server_blocks server))
unfolding http_server_deinit tcp_server_close
http_server_deinit_lem none pcbs e = (omega arith, refl)
http_server_deinit_lem (some server) pcbs e = elim (Bool-cases server.server_pcb) [
  | inl on ↦ rw on (ground arith, refl)
  | inr off ↦ rw off (ground arith, refl)
]

free_server_lem :
    (v : Services) (server server' : Option TcpServer) (h : Heap)
    → h.allocated ≡ h.freed + server_blocks server
    → server_blocks server' ≡ server_blocks server
    → (free_server v server' h).allocated ≡ (free_server v server' h).freed
free_server_lem v server none h e e' = omega arith
free_server_lem v server (some s) h e e' = omega arith

-- What stop_servers needs: less than IsSteady, for it also ends a start that failed.
record IsEven (v : Services) (net : Network v) : Type 0 where
  blocks_even : net.heap.allocated ≡ net.heap.freed + server_blocks net.tcp_server_state
  pcbs_even : net.pcbs.opened ≡ net.pcbs.closed + server_pcbs net.tcp_server_state
  is_off : net.ap_started ≡ false
  shown : IsShown false net.ap_ssid net.ap_pass net.calls

off-IsShown :
    (ssid pass ssid' pass' : List ℕ) (calls : List ApCall)
    → IsShown false ssid pass calls
    → IsShown false ssid' pass' calls
off-IsShown ssid pass ssid' pass' [] s = tt
off-IsShown ssid pass ssid' pass' (enable_ap_mode a b ∷ rest) s = s
off-IsShown ssid pass ssid' pass' (disable_ap_mode ∷ rest) s = tt

stop_servers-IsSteady :
    (v : Services) (net : Network v) → IsEven v net → IsSteady v (stop_servers v net)
unfolding stop_servers
stop_servers-IsSteady v net e =
    let server : _ = (http_server_deinit net.tcp_server_state net.pcbs).1 in
    let (even, same) = http_server_deinit_lem net.tcp_server_state net.pcbs e.pcbs_even in
    record {
      blocks_even =
          omega (arith, free_server_lem v net.tcp_server_state server net.heap e.blocks_even same);
      pcbs_even = omega (arith, even);
      serves = λ i. ground arith;
      silent = λ i. (refl, e.is_off);
      shown =
          subst (λ b. IsShown b [] [] net.calls) (sym e.is_off)
            (off-IsShown net.ap_ssid net.ap_pass [] [] net.calls e.shown);
    }

stopped-IsEven :
    (v : Services) (net : Network v) → IsSteady v net → net.ap_started ≡ false → IsEven v net
stopped-IsEven v net n off = record {
  blocks_even = n.blocks_even;
  pcbs_even = n.pcbs_even;
  is_off = off;
  shown = subst (λ b. IsShown b net.ap_ssid net.ap_pass net.calls) off n.shown;
}

one_of-IsEven :
    (v : Services) (b : Bool) (x y : Network v)
    → (b ≡ true → IsEven v x)
    → (b ≡ false → IsEven v y)
    → IsEven v (if b then x else y)
one_of-IsEven v true x y ex ey = ex refl
one_of-IsEven v false x y ex ey = ey refl

pub deinit-IsSteady :
    (v : Services) (net : Network v) → IsSteady v net → IsSteady v (net_ap_deinit v net).1
unfolding net_ap_deinit net_ap_get_state
deinit-IsSteady v net n =
    let stopped : Network v = (net_ap_set_state v false net).1 in
    stop_servers-IsSteady v (if net.ap_inited then stopped else net) (
      one_of-IsEven v net.ap_inited stopped net
        (λ inited.
          stopped-IsEven v stopped (set_state-IsSteady v false net n)
            (net_ap_set_state_lem v false net inited))
        (λ closed. stopped-IsEven v net n (n.silent closed).1))

-- What a start leaves: balanced pcbs, and a listening server if it succeeds.
IsStarted : ErrCode × Option TcpServer × Pcbs → Type 0
IsStarted (err, server, pcbs) =
    (pcbs.opened ≡ pcbs.closed + server_pcbs server)
    × (server_blocks server ≡ 1)
    × ((err ≡ ErrCode.success) → server_pcbs server ≡ 1)

http_server_init-IsStarted :
    (answers : TcpAnswers) (pcbs : Pcbs)
    → pcbs.opened ≡ pcbs.closed
    → IsStarted (http_server_init answers (some (record { server_pcb = false })) pcbs)
unfolding http_server_init tcp_server_open IsStarted
http_server_init-IsStarted answers pcbs e = elim (Bool-cases answers.new_ok) [
  | inr no_pcb ↦ rw no_pcb (omega arith, refl, λ i. ground arith)
  | inl new ↦ elim (Bool-cases answers.bind_ok) [
    | inr unbound ↦ rw (new, unbound) (omega arith, refl, λ i. ground arith)
    | inl bound ↦ elim (Bool-cases answers.listen_ok) [
      | inr deaf ↦ rw (new, bound, deaf) (omega arith, refl, λ i. ground arith)
      | inl listens ↦ rw (new, bound, listens) (omega arith, refl, λ i. refl)
    ]
  ]
]

after_http_init-IsSteady :
    (v : Services) (ssid pass : List ℕ) (net : Network v) (x : ErrCode × Option TcpServer × Pcbs)
    → net.ap_inited ≡ false
    → net.ap_started ≡ false
    → net.heap.allocated ≡ net.heap.freed + 1
    → IsShown false net.ap_ssid net.ap_pass net.calls
    → IsStarted x
    → IsSteady v (after_http_init v ssid pass net x).1
unfolding IsStarted net_ap_deinit
after_http_init-IsSteady v ssid pass net (ErrCode.success, server, pcbs) closed off even shown x =
    record {
      blocks_even = omega (arith, x.1);
      pcbs_even = x.0;
      serves = λ i. x.2 refl;
      silent = λ i. ground arith;
      shown =
          subst (λ b. IsShown b ssid pass net.calls) (sym off)
            (off-IsShown net.ap_ssid net.ap_pass ssid pass net.calls shown);
    }
after_http_init-IsSteady v ssid pass net (_, server, pcbs) closed off even shown x =
    let failed = record net { tcp_server_state = server; pcbs = pcbs } in
    stop_servers-IsSteady v (if net.ap_inited then (net_ap_set_state v false failed).1 else failed)
      (one_of-IsEven v net.ap_inited _ failed (λ inited. absurd (ground arith))
        (λ e. record {
          blocks_even = omega (arith, even, x.1);
          pcbs_even = x.0;
          is_off = off;
          shown = shown;
        }))

pub start_servers-IsSteady :
    (v : Services) (answers : TcpAnswers) (ssid pass : List ℕ) (net : Network v)
    → net.ap_inited ≡ false
    → IsSteady v net
    → IsSteady v (start_servers v answers ssid pass net).1
unfolding start_servers
start_servers-IsSteady v answers ssid pass net closed n =
    let (no_server, off) = n.silent closed in
    let blocks_ : _ = ap server_blocks no_server in
    let pcbs_ : _ = ap server_pcbs no_server in
    let net' : Network v = record net {
      heap = malloc net.heap;
      dhcp_server = v.dhcp_server_init net.dhcp_server;
      dns_server = v.dns_server_init net.dns_server;
    } in
    after_http_init-IsSteady v ssid pass net'
      (http_server_init answers (some (record { server_pcb = false })) net.pcbs) closed off
      (omega (arith, n.blocks_even, blocks_))
      (subst (λ b. IsShown b net.ap_ssid net.ap_pass net.calls) off n.shown)
      (http_server_init-IsStarted answers net.pcbs (omega (arith, n.pcbs_even, pcbs_)))
