-- ===== src/Http/Connection/Life.antt =====
-- network/http_server/http_server.c: a connection through a sequence of callbacks.
use pico_stairway_controller.Base.{
  ◌^◌, ℕ, ◌+◌, ◌<◌, ◌≡◌, inl, inr, refl, arith, leb, ltb, Bool, true, false, List, [], ◌∷◌, Option,
  none, some, length, Bool-cases, u32,
}
use pico_stairway_controller.Settings.{Platform}
use pico_stairway_controller.Http.Response.{no_response, Heap}
use pico_stairway_controller.Http.Content.{Device}
use pico_stairway_controller.Http.Sending.{response_total_len}
use pico_stairway_controller.Http.Connection.{
  Connection, Site, World, Server, tcp_server_sent, tcp_server_poll, tcp_server_err,
  tcp_server_accept, Event, accepted, received, sent, polled, failed, on_connection, on_listener,
  on_event, step, run_events,
}
use pico_stairway_controller.Http.Connection.Open.{
  IsOpen, IsLive, IsSound, con_state_free_lem, no_queue-IsPrefix, processed_of,
}
use pico_stairway_controller.Http.Connection.Receiving.{
  close-IsSound, send_or_close-IsSound, reset, recv-IsSound,
}

module _ (p : Platform) (site : Site) (short : length site.index_html < 2 ^ 31) where
  sent-IsSound :
      (w : World p) (len : ℕ) (con : Connection) (d : Device p) (h : Heap)
      → IsOpen con h
      → IsSound p (tcp_server_sent p site w len con d h).1
  unfolding tcp_server_sent
  sent-IsSound w len con d h o =
      let acked = u32 (con.acked_len + len) in
      let o' : _ = reset p site short con h acked 0 o in
      elim (Bool-cases (leb (response_total_len con.response) acked)) [
        | inl all ↦ rw all (
            close-IsSound p site short w (record con { acked_len = acked; idle_polls = 0 }) d h
              o.balanced)
        | inr some_left ↦ rw some_left (
            send_or_close-IsSound p site short w (record con { acked_len = acked; idle_polls = 0 })
              d h (processed_of con h o (ground arith)) o')
      ]

  poll-IsSound :
      (w : World p) (con : Connection) (d : Device p) (h : Heap)
      → IsOpen con h
      → IsSound p (tcp_server_poll p site w con d h).1
  unfolding tcp_server_poll
  poll-IsSound w con d h o =
      let o' : _ = reset p site short con h con.acked_len (con.idle_polls + 1) o in
      elim (Bool-cases (ltb 10 (con.idle_polls + 1))) [
        | inl idle ↦ rw idle (
            close-IsSound p site short w (record con { idle_polls = con.idle_polls + 1 }) d h
              o.balanced)
        | inr busy ↦ elim (Bool-cases con.request.processed) [
          | inl done ↦
              simp (busy, done)
                (send_or_close-IsSound p site short w
                  (record con { idle_polls = con.idle_polls + 1 }) d h done o')
          | inr open_ ↦ simp (busy, open_) o'
        ]
      ]

  err-IsSound :
      (con : Connection) (d : Device p) (h : Heap)
      → IsOpen con h
      → IsSound p (tcp_server_err p site con d h)
  unfolding tcp_server_err
  err-IsSound con d h o = con_state_free_lem con h o.balanced

  accept_new-IsSound :
      (ok_pcb given : Bool) (d : Device p) (h : Heap)
      → h.allocated ≡ h.freed
      → IsSound p (tcp_server_accept p site ok_pcb given d h).1
  unfolding tcp_server_accept
  accept_new-IsSound false given d h e = e
  accept_new-IsSound true false d h e = e
  accept_new-IsSound true true d h e = record {
    bounded = record { fits = omega arith; offset_fits = omega arith; body_fits = omega arith };
    balanced = omega arith;
    measured = record { header_length = refl; body_length = refl; no_wrap = omega arith };
    is_prefix = no_queue-IsPrefix no_response;
    fresh = λ e'. (refl, refl);
    answered = λ e'. ground arith;
  }

  on_connection-IsSound :
      (event : Event p site) (con : Connection) (d : Device p) (h : Heap)
      → IsOpen con h
      → IsSound p (on_connection p site event con d h)
  on_connection-IsSound (accepted ok_pcb given) con d h o = o
  on_connection-IsSound (received w segment err) con d h o =
      recv-IsSound p site short w segment err con d h o
  on_connection-IsSound (sent w len) con d h o = sent-IsSound w len con d h o
  on_connection-IsSound (polled w) con d h o = poll-IsSound w con d h o
  on_connection-IsSound failed con d h o = err-IsSound con d h o

  on_listener-IsSound :
      (event : Event p site) (d : Device p) (h : Heap)
      → h.allocated ≡ h.freed
      → IsSound p (on_listener p site event d h)
  on_listener-IsSound (accepted ok_pcb given) d h e = accept_new-IsSound ok_pcb given d h e
  on_listener-IsSound _ d h e = e

  on_event-IsSound :
      (event : Event p site) (con : Option Connection) (d : Device p) (h : Heap)
      → IsLive con h
      → IsSound p (on_event p site event con d h)
  on_event-IsSound event none d h e = on_listener-IsSound event d h e
  on_event-IsSound event (some con) d h o = on_connection-IsSound event con d h o

  -- From a server where this holds, for a page of less than 2 ^ 31 bytes: whatever lwIP calls, in
  -- whatever order, and whatever it, the heap and the flash answer, the request stays inside its
  -- buffer, what was written is the beginning of one complete response, and every block is freed
  -- once, or still owned.
  pub run_events-IsSound :
      (events : List (Event p site)) (s : Server p)
      → IsSound p s
      → IsSound p (run_events p site events s)
  unfolding run_events step
  run_events-IsSound [] s sound = sound
  run_events-IsSound (event ∷ rest) s sound =
      run_events-IsSound rest (step p site event s)
        (on_event-IsSound event s.con s.device s.heap sound)
