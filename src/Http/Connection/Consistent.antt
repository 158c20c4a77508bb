-- ===== src/Http/Connection/Consistent.antt =====
-- network/http_server/http_server.c: the settings and the status around the callbacks.
use pico_stairway_controller.Base.{
  ℕ, if◌then◌else◌, Bool, true, false, List, [], ◌∷◌, Option, none, some, not, leb, ltb, u32, ◌+◌,
}
use pico_stairway_controller.Types.{Status}
use pico_stairway_controller.Settings.{Platform, FlashRun, is_success}
use pico_stairway_controller.Http.Response.{ContentResponse, Heap}
use pico_stairway_controller.Http.Content.{Served, Device}
use pico_stairway_controller.Http.Content.Actions.{
  IsValid, handle_request-IsValid, OnlyTest, handle_request-OnlyTest,
}
use pico_stairway_controller.Http.Request.{Malloc, handle_request}
use pico_stairway_controller.Http.Received.{
  Collected, wait, too_large, complete, collect, header_string, body_string,
}
use pico_stairway_controller.Http.Sending.{TcpError, send_more, response_total_len}
use pico_stairway_controller.Http.Connection.{
  Connection, is_ok, Site, World, Server, close_client_connection, keep, send_or_close,
  tcp_server_sent, after_request, respond, after_collect, tcp_server_recv, tcp_server_poll,
  tcp_server_err, tcp_server_accept, Event, accepted, received, sent, polled, failed, on_connection,
  on_listener, on_event, step, run_events,
}

-- A property of the device that every request keeps.
module _ (p : Platform) (site : Site) (P : Device p → Type 0)
    (handled : (given : Malloc) (run : FlashRun p) (now : ℕ) (header body : List ℕ) (d : Device p)
        (r : ContentResponse) (h : Heap)
      → P d
      → P (handle_request p site.index_html site.gw given run now header body d r h).1) where
  Keeps : TcpError × Server p → Type 0
  Keeps x = P x.1.device

  one_of-Keeps :
      (b : Bool) (x y : TcpError × Server p) → Keeps x → Keeps y → Keeps (if b then x else y)
  one_of-Keeps true x y kx ky = kx
  one_of-Keeps false x y kx ky = ky

  close-Keeps :
      (w : World p) (con : Connection) (d : Device p) (h : Heap)
      → P d
      → Keeps (close_client_connection p site w con d h)
  unfolding close_client_connection Keeps
  close-Keeps w con d h v = v

  keep-Keeps : (con : Connection) (d : Device p) (h : Heap) → P d → Keeps (keep p site con d h)
  unfolding Keeps
  keep-Keeps con d h v = v

  send_or_close-Keeps :
      (w : World p) (con : Connection) (d : Device p) (h : Heap)
      → P d
      → Keeps (send_or_close p site w con d h)
  unfolding send_or_close
  send_or_close-Keeps w con d h v =
      let (err, q) = send_more w.answers w.output con.response con.queue in
      one_of-Keeps (is_ok err) _ _ (keep-Keeps (record con { queue = q }) d h v)
        (close-Keeps w (record con { queue = q }) d h v)

  after_request-Keeps :
      (w : World p) (con : Connection) (x : Served × Device p)
      → P x.1
      → Keeps (after_request p site w con x)
  after_request-Keeps w con ((err, r, h), d) v =
      one_of-Keeps (is_success err) _ _ (send_or_close-Keeps w (record con { response = r }) d h v)
        (close-Keeps w (record con { response = r }) d h v)

  after_collect-Keeps :
      (w : World p) (con : Connection) (d : Device p) (h : Heap) (x : Collected)
      → P d
      → Keeps (after_collect p site w con d h x)
  unfolding respond
  after_collect-Keeps w con d h (wait req) v = keep-Keeps (record con { request = req }) d h v
  after_collect-Keeps w con d h too_large v = close-Keeps w con d h v
  after_collect-Keeps w con d h (complete req) v =
      after_request-Keeps w (record con { request = req }) _
        (handled w.given w.run w.now (header_string req) (body_string req) d con.response h v)

  recv-Keeps :
      (w : World p) (segment : Option (List ℕ)) (err : TcpError) (con : Connection) (d : Device p)
      (h : Heap)
      → P d
      → Keeps (tcp_server_recv p site w segment err con d h)
  unfolding tcp_server_recv
  recv-Keeps w none err con d h v = close-Keeps w con d h v
  recv-Keeps w (some segment) err con d h v =
      let con' = record con { idle_polls = 0 } in
      one_of-Keeps (not (is_ok err)) _ _ (close-Keeps w con d h v) (
        one_of-Keeps con.request.processed _ _ (keep-Keeps con' d h v)
          (after_collect-Keeps w con' d h (collect con.request segment) v))

  on_connection-Keeps :
      (event : Event p site) (con : Connection) (d : Device p) (h : Heap)
      → P d
      → P (on_connection p site event con d h).device
  unfolding tcp_server_sent tcp_server_poll tcp_server_err Keeps
  on_connection-Keeps (accepted ok_pcb given) con d h v = v
  on_connection-Keeps (received w segment err) con d h v = recv-Keeps w segment err con d h v
  on_connection-Keeps (sent w len) con d h v =
      let con' = record con { acked_len = u32 (con.acked_len + len); idle_polls = 0 } in
      one_of-Keeps (leb (response_total_len con.response) con'.acked_len)
        (close_client_connection p site w con' d h) (send_or_close p site w con' d h)
        (close-Keeps w con' d h v) (send_or_close-Keeps w con' d h v)
  on_connection-Keeps (polled w) con d h v =
      let con' = record con { idle_polls = con.idle_polls + 1 } in
      one_of-Keeps (ltb 10 con'.idle_polls) (close_client_connection p site w con' d h)
        (if con.request.processed then send_or_close p site w con' d h else keep p site con' d h)
        (close-Keeps w con' d h v)
        (one_of-Keeps con.request.processed (send_or_close p site w con' d h) (keep p site con' d h)
          (send_or_close-Keeps w con' d h v) (keep-Keeps con' d h v))
  on_connection-Keeps failed con d h v = v

  on_listener-Keeps :
      (event : Event p site) (d : Device p) (h : Heap)
      → P d
      → P (on_listener p site event d h).device
  unfolding tcp_server_accept Keeps
  on_listener-Keeps (accepted false given) d h v = v
  on_listener-Keeps (accepted true false) d h v = v
  on_listener-Keeps (accepted true true) d h v = v
  on_listener-Keeps _ d h v = v

  on_event-Keeps :
      (event : Event p site) (con : Option Connection) (d : Device p) (h : Heap)
      → P d
      → P (on_event p site event con d h).device
  on_event-Keeps event none d h v = on_listener-Keeps event d h v
  on_event-Keeps event (some con) d h v = on_connection-Keeps event con d h v

  pub run_events-kept :
      (events : List (Event p site)) (s : Server p)
      → P s.device
      → P (run_events p site events s).device
  unfolding run_events step
  run_events-kept [] s v = v
  run_events-kept (event ∷ rest) s v =
      run_events-kept rest (step p site event s) (on_event-Keeps event s.con s.device s.heap v)

module _ (p : Platform) (site : Site) where
  -- Whatever a client sends, in whatever segments, and whatever the flash does with it: settings
  -- that were consistent before stay consistent.
  pub run_events-IsValid :
      (events : List (Event p site)) (s : Server p)
      → IsValid p s.device
      → IsValid p (run_events p site events s).device
  run_events-IsValid =
      run_events-kept p site (IsValid p) (handle_request-IsValid p site.index_html site.gw)

  -- Whatever a client sends, it changes nothing of the status but the test mode.
  pub run_events-OnlyTest :
      (st : Status) (events : List (Event p site)) (s : Server p)
      → OnlyTest p st s.device
      → OnlyTest p st (run_events p site events s).device
  run_events-OnlyTest st =
      run_events-kept p site (OnlyTest p st) (handle_request-OnlyTest p st site.index_html site.gw)
