-- ===== src/Http/Connection.antt =====
-- network/http_server/http_server.c: the life of a connection, in the callbacks that lwIP makes.
--
-- A connection that was closed or aborted has no callbacks any more: it is `none`. pbuf_free of the
-- segment, on every path, and the log messages are left out.
pub mod Open
pub mod Receiving
pub mod Life
pub mod Idle
pub mod Consistent
use pico_stairway_controller.Base.{
  ℕ, ◌+◌, ltb, leb, ◌==◌, not, ◌&&◌, ◌||◌, if◌then◌else◌, Bool, true, false, List, [], ◌∷◌, Option,
  none, some, u32,
}
use pico_stairway_controller.Types.{ErrCode}
use pico_stairway_controller.Settings.{Platform, FlashRun, is_success}
use pico_stairway_controller.Http.Response.{
  ContentResponse, no_response, Heap, malloc, content_response_free,
}
use pico_stairway_controller.Http.Content.{Served, Device}
use pico_stairway_controller.Http.Request.{Malloc, handle_request}
use pico_stairway_controller.Http.Received.{
  HttpRequest, no_request, Collected, wait, too_large, complete, collect, header_string,
  body_string,
}
use pico_stairway_controller.Http.Sending.{TcpError, Answer, Queue, response_total_len, send_more}

-- TCP_CONNECT_STATE_T; its gw is an argument of the callbacks, its pcb the connection itself.
pub record Connection : Type 0 where
  pub request : HttpRequest
  pub response : ContentResponse
  pub queue : Queue
  pub acked_len : ℕ
  pub idle_polls : ℕ

abbrev pub idle_polls_max : ℕ
idle_polls_max = 10

abbrev pub is_ok : TcpError → Bool
is_ok TcpError.tcp_ok = true
is_ok _ = false

unfoldable pub con_state_free : Connection → Heap → Heap
con_state_free con h =
    let (_, h) = content_response_free con.response h in record h { freed = h.freed + 1 }

abbrev pub no_queue : Queue
no_queue = record { queued_len = 0; writes = [] }

-- calloc of the connection's state.
abbrev pub new_connection : Connection
new_connection = record {
  request = no_request;
  response = no_response;
  queue = no_queue;
  acked_len = 0;
  idle_polls = 0;
}

-- The generated page, and the gateway's address as ipaddr_ntoa prints it.
pub record Site : Type 0 where
  pub index_html : List ℕ
  pub gw : List ℕ

-- What lwIP and the heap answer during a callback, the flash, and the time.
pub record World (p : Platform) : Type 0 where
  pub given : Malloc
  pub run : FlashRun p
  pub now : ℕ
  pub answers : ℕ → Answer
  pub output : TcpError
  pub close_ok : Bool

-- The connection, what it can change, and the heap.
pub record Server (p : Platform) : Type 0 where
  pub con : Option Connection
  pub device : Device p
  pub heap : Heap

module _ (p : Platform) (site : Site) where
  -- tcp_close_client_connection; a connection that does not close is aborted.
  unfoldable pub close_client_connection :
      World p → Connection → Device p → Heap → TcpError × Server p
  close_client_connection w con d h = (
    if w.close_ok then TcpError.tcp_ok else TcpError.tcp_abrt,
    record { con = none; device = d; heap = con_state_free con h },
  )

  abbrev pub keep : Connection → Device p → Heap → TcpError × Server p
  keep con d h = (TcpError.tcp_ok, record { con = some con; device = d; heap = h })

  -- send_more, and what the callbacks do with its error.
  abbrev pub after_send :
      World p → Connection → Device p → Heap → TcpError × Queue → TcpError × Server p
  after_send w con d h (err, q) =
      let con = record con { queue = q } in
      if is_ok err then keep con d h else close_client_connection w con d h

  unfoldable pub send_or_close : World p → Connection → Device p → Heap → TcpError × Server p
  send_or_close w con d h =
      after_send w con d h (send_more w.answers w.output con.response con.queue)

  unfoldable pub tcp_server_sent : World p → ℕ → Connection → Device p → Heap → TcpError × Server p
  tcp_server_sent w len con d h =
      let con = record con { acked_len = u32 (con.acked_len + len); idle_polls = 0 } in
      if leb (response_total_len con.response) con.acked_len
      then close_client_connection w con d h
      else send_or_close w con d h

  -- handle_request and send_more, after the request is complete.
  abbrev pub after_request : World p → Connection → Served × Device p → TcpError × Server p
  after_request w con ((err, r, h), d) =
      let con = record con { response = r } in
      if is_success err then send_or_close w con d h else close_client_connection w con d h

  unfoldable pub respond : World p → Connection → Device p → Heap → TcpError × Server p
  respond w con d h = after_request w con (
      handle_request p site.index_html site.gw w.given w.run w.now (header_string con.request)
        (body_string con.request) d con.response h)

  abbrev pub after_collect :
      World p → Connection → Device p → Heap → Collected → TcpError × Server p
  after_collect w con d h (wait req) = keep (record con { request = req }) d h
  after_collect w con d h too_large = close_client_connection w con d h
  after_collect w con d h (complete req) = respond w (record con { request = req }) d h

  -- A segment that is NULL is `none`: the client has closed its side.
  unfoldable pub tcp_server_recv :
      World p → Option (List ℕ) → TcpError → Connection → Device p → Heap → TcpError × Server p
  tcp_server_recv w none tcp_err con d h = close_client_connection w con d h
  tcp_server_recv w (some segment) tcp_err con d h =
      let con' = record con { idle_polls = 0 } in
      if not (is_ok tcp_err)
      then close_client_connection w con d h
      else if con.request.processed
      then keep con' d h
      else after_collect w con' d h (collect con.request segment)

  unfoldable pub tcp_server_poll : World p → Connection → Device p → Heap → TcpError × Server p
  tcp_server_poll w con d h =
      let con = record con { idle_polls = con.idle_polls + 1 } in
      if ltb idle_polls_max con.idle_polls
      then close_client_connection w con d h
      else if con.request.processed
      then send_or_close w con d h
      else keep con d h

  -- lwIP has freed the pcb already.
  unfoldable pub tcp_server_err : Connection → Device p → Heap → Server p
  tcp_server_err con d h = record { con = none; device = d; heap = con_state_free con h }

  -- Whether err is ERR_OK with a pcb, and whether calloc gives the block.
  unfoldable pub tcp_server_accept : Bool → Bool → Device p → Heap → TcpError × Server p
  tcp_server_accept ok_pcb given d h =
      if not ok_pcb
      then (TcpError.tcp_val, record { con = none; device = d; heap = h })
      else if not given
      then (TcpError.tcp_abrt, record { con = none; device = d; heap = h })
      else keep new_connection d (malloc h)

  -- What lwIP calls.
  pub data Event : Type 0 where
    accepted : Bool → Bool → Event
    received : World p → Option (List ℕ) → TcpError → Event
    sent : World p → ℕ → Event
    polled : World p → Event
    failed : Event

  -- One connection of the server, with its own state and blocks; what the listener accepts while it
  -- lasts belongs to another one.
  abbrev pub on_connection : Event → Connection → Device p → Heap → Server p
  on_connection (accepted ok_pcb given) con d h = record { con = some con; device = d; heap = h }
  on_connection (received w segment err) con d h = (tcp_server_recv w segment err con d h).1
  on_connection (sent w len) con d h = (tcp_server_sent w len con d h).1
  on_connection (polled w) con d h = (tcp_server_poll w con d h).1
  on_connection failed con d h = tcp_server_err con d h

  abbrev pub on_listener : Event → Device p → Heap → Server p
  on_listener (accepted ok_pcb given) d h = (tcp_server_accept ok_pcb given d h).1
  on_listener _ d h = record { con = none; device = d; heap = h }

  abbrev pub on_event : Event → Option Connection → Device p → Heap → Server p
  on_event event none d h = on_listener event d h
  on_event event (some con) d h = on_connection event con d h

  unfoldable pub step : Event → Server p → Server p
  step event s = on_event event s.con s.device s.heap

  unfoldable pub run_events : List Event → Server p → Server p
  run_events [] s = s
  run_events (event ∷ rest) s = run_events rest (step event s)
