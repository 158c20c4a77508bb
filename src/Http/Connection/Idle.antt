-- ===== src/Http/Connection/Idle.antt =====
-- network/http_server/http_server.c: a connection that lwIP only polls.
use mathlib.Core.Path.{subst}
use pico_stairway_controller.Http.Sending.{TcpError, Queue, send_more}
use pico_stairway_controller.Base.{
  ℕ, suc, ◌+◌, ◌<◌, ◌≤◌, ◌≡◌, inl, inr, refl, arith, ltb, List, [], ◌∷◌, Option, none, some, length,
  Bool-cases,
}
use pico_stairway_controller.Settings.{Platform}
use pico_stairway_controller.Http.Response.{Heap}
use pico_stairway_controller.Http.Content.{Device}
use pico_stairway_controller.Http.Sending.{TcpError, Queue, send_more}
use pico_stairway_controller.Http.Connection.{
  Connection, is_ok, Site, World, Server, close_client_connection, after_send, send_or_close,
  tcp_server_poll, Event, polled, on_event, step, run_events,
}

abbrev pub all_polled : (p : Platform) (site : Site) → List (World p) → List (Event p site)
all_polled p site [] = []
all_polled p site (w ∷ ws) = polled w ∷ all_polled p site ws

-- An open connection has seen n polls without progress, and no more than IDLE_POLLS_MAX.
abbrev HasIdled : ℕ → Option Connection → Type 0
HasIdled n none = Unit
HasIdled n (some con) = (n ≤ con.idle_polls) × (0 < n → con.idle_polls ≤ 10)

plus_zero : (n : ℕ) → n ≡ n + 0
plus_zero n = omega arith

plus_next : (n k : ℕ) → suc n + k ≡ n + suc k
plus_next n k = omega arith

start : (con : Option Connection) → HasIdled 0 con
start none = tt
start (some con) = (omega arith, λ pos. absurd (omega arith))

none_left :
    {A : Type 0} (ws : List A) (con : Option Connection)
    → 10 < length ws
    → HasIdled (0 + length ws) con
    → con ≡ none
none_left ws none many idled = refl
none_left ws (some con) many idled = absurd (omega (arith, idled.0, idled.1 (omega arith)))

module _ (p : Platform) (site : Site) where
  after_send-HasIdled :
      (w : World p) (n : ℕ) (con : Connection) (d : Device p) (h : Heap) (x : TcpError × Queue)
      → HasIdled n (some con)
      → HasIdled n (after_send p site w con d h x).1.con
  unfolding close_client_connection
  after_send-HasIdled w n con d h (err, q) idled = elim (Bool-cases (is_ok err)) [
    | inl fine ↦ rw fine idled
    | inr failed_ ↦ rw failed_ tt
  ]

  poll-HasIdled :
      (w : World p) (n : ℕ) (con : Connection) (d : Device p) (h : Heap)
      → HasIdled n (some con)
      → HasIdled (suc n) (tcp_server_poll p site w con d h).1.con
  unfolding tcp_server_poll close_client_connection send_or_close
  poll-HasIdled w n con d h idled = elim (Bool-cases (ltb 10 (con.idle_polls + 1))) [
    | inl idle ↦ rw idle tt
    | inr busy ↦
        let con' = record con { idle_polls = con.idle_polls + 1 } in
        let idled' : HasIdled (suc n) (some con') = (omega (arith, idled.0), λ pos. ground arith) in
        elim (Bool-cases con.request.processed) [
          | inl done ↦
              simp (busy, done)
                (after_send-HasIdled w (suc n) con' d h
                  (send_more w.answers w.output con.response con.queue) idled')
          | inr open_ ↦ simp (busy, open_) idled'
        ]
  ]

  polled-HasIdled :
      (w : World p) (n : ℕ) (con : Option Connection) (d : Device p) (h : Heap)
      → HasIdled n con
      → HasIdled (suc n) (on_event p site (polled w) con d h).con
  polled-HasIdled w n none d h idled = tt
  polled-HasIdled w n (some con) d h idled = poll-HasIdled w n con d h idled

  polls-HasIdled :
      (ws : List (World p)) (n : ℕ) (s : Server p)
      → HasIdled n s.con
      → HasIdled (n + length ws) (run_events p site (all_polled p site ws) s).con
  unfolding run_events step
  polls-HasIdled [] n s idled = subst (λ k. HasIdled k s.con) (plus_zero n) idled
  polls-HasIdled (w ∷ ws) n s idled =
      subst
        (λ k. HasIdled k (run_events p site (all_polled p site ws) (step p site (polled w) s)).con)
        (plus_next n (length ws))
        (polls-HasIdled ws (suc n) (step p site (polled w) s)
          (polled-HasIdled w n s.con s.device s.heap idled))

  -- Eleven polls or more without anything else in between leave no connection, whatever lwIP
  -- answers.
  pub idle_polls-closed :
      (ws : List (World p)) (s : Server p)
      → 10 < length ws
      → (run_events p site (all_polled p site ws) s).con ≡ none
  idle_polls-closed ws s many =
      none_left ws (run_events p site (all_polled p site ws) s).con many
        (polls-HasIdled ws 0 s (start s.con))
