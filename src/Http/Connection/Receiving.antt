-- ===== src/Http/Connection/Receiving.antt =====
-- network/http_server/http_server.c: receiving and answering a request.
use mathlib.Core.Path.{subst}
use pico_stairway_controller.Base.{
  ◌^◌, ℕ, ◌<◌, ◌≡◌, sym, inl, inr, refl, arith, true, false, List, Option, none, some, length,
  Bool-cases,
}
use pico_stairway_controller.Types.{ErrCode}
use pico_stairway_controller.Settings.{Platform}
use pico_stairway_controller.Http.Response.{Heap}
use pico_stairway_controller.Http.Response.Owned.{IsBalanced, IsComplete, IsServed}
use pico_stairway_controller.Http.Content.{Served, Device}
use pico_stairway_controller.Http.Request.Laws.{handle_request-IsServed}
use pico_stairway_controller.Http.Received.{
  Collected, wait, too_large, complete, collect, header_string, body_string,
}
use pico_stairway_controller.Http.Received.Bounds.{IsBounded, IsCollected, collect-IsCollected}
use pico_stairway_controller.Http.Sending.{TcpError, Queue, send_more}
use pico_stairway_controller.Http.Sending.Prefix.{IsPrefix}
use pico_stairway_controller.Http.Sending.Loop.{send_more-IsPrefix}
use pico_stairway_controller.Http.Connection.{
  Connection, is_ok, Site, World, close_client_connection, after_send, send_or_close, after_request,
  respond, after_collect, tcp_server_recv, no_queue,
}
use pico_stairway_controller.Http.Connection.Open.{
  IsOpen, IsSound, IsMarked, collect-IsMarked, con_state_free_lem, complete-IsMeasured,
  no_queue-IsPrefix,
}

module _ (p : Platform) (site : Site) (short : length site.index_html < 2 ^ 31) where
  pub close-IsSound :
      (w : World p) (con : Connection) (d : Device p) (h : Heap)
      → IsBalanced 1 con.response h
      → IsSound p (close_client_connection p site w con d h).1
  unfolding close_client_connection
  close-IsSound w con d h b = con_state_free_lem con h b

  after_send-IsSound :
      (w : World p) (con : Connection) (d : Device p) (h : Heap) (x : TcpError × Queue)
      → IsOpen (record con { queue = x.1 }) h
      → IsSound p (after_send p site w con d h x).1
  after_send-IsSound w con d h (err, q) o = elim (Bool-cases (is_ok err)) [
    | inl fine ↦ rw fine o
    | inr failed_ ↦ rw failed_ (close-IsSound w (record con { queue = q }) d h o.balanced)
  ]

  pub send_or_close-IsSound :
      (w : World p) (con : Connection) (d : Device p) (h : Heap)
      → con.request.processed ≡ true
      → IsOpen con h
      → IsSound p (send_or_close p site w con d h).1
  unfolding send_or_close
  send_or_close-IsSound w con d h done o =
      after_send-IsSound w con d h (send_more w.answers w.output con.response con.queue) (record {
        bounded = o.bounded;
        balanced = o.balanced;
        measured = o.measured;
        is_prefix =
            send_more-IsPrefix w.answers w.output con.response con.queue o.measured o.is_prefix;
        fresh = λ e. ground arith;
        answered = o.answered;
      })

  after_request-IsSound :
      (w : World p) (con : Connection) (x : Served × Device p)
      → con.request.processed ≡ true
      → IsBounded con.request
      → con.queue ≡ no_queue
      → IsServed 1 x.0
      → IsSound p (after_request p site w con x).1
  after_request-IsSound w con ((ErrCode.success, r, h), d) done b e s =
      let complete_ : IsComplete r = s.1 refl in
      send_or_close-IsSound w (record con { response = r }) d h done
        (record {
          bounded = b;
          balanced = s.0;
          measured = complete-IsMeasured r complete_;
          is_prefix = subst (IsPrefix r) (sym e) (no_queue-IsPrefix r);
          fresh = λ e'. ground arith;
          answered = λ e'. complete_;
        })
  after_request-IsSound w con ((_, r, h), d) done b e s =
      close-IsSound w (record con { response = r }) d h s.0

  respond-IsSound :
      (w : World p) (con : Connection) (d : Device p) (h : Heap)
      → con.request.processed ≡ true
      → IsBounded con.request
      → con.queue ≡ no_queue
      → IsBalanced 1 con.response h
      → IsSound p (respond p site w con d h).1
  unfolding respond
  respond-IsSound w con d h done b e balanced = after_request-IsSound w con _ done b e (
      handle_request-IsServed 1 p site.index_html site.gw w.given w.run w.now
        (header_string con.request) (body_string con.request) d con.response h short balanced)

  after_collect-IsSound :
      (w : World p) (con : Connection) (d : Device p) (h : Heap) (x : Collected)
      → con.request.processed ≡ false
      → IsOpen con h
      → IsCollected x
      → IsMarked x
      → IsSound p (after_collect p site w con d h x).1
  after_collect-IsSound w con d h (wait req) e o b m = record {
    bounded = b;
    balanced = o.balanced;
    measured = o.measured;
    is_prefix = o.is_prefix;
    fresh = λ e'. o.fresh e;
    answered = λ e'. ground arith;
  }
  after_collect-IsSound w con d h too_large e o b m = close-IsSound w con d h o.balanced
  after_collect-IsSound w con d h (complete req) e o b m =
      respond-IsSound w (record con { request = req }) d h m b.0 (o.fresh e).1 o.balanced

  -- Neither acked_len nor idle_polls matters.
  pub reset :
      (con : Connection) (h : Heap) (acked_len idle_polls : ℕ)
      → IsOpen con h
      → IsOpen (record con { acked_len = acked_len; idle_polls = idle_polls }) h
  reset con h acked_len idle_polls o = record {
    bounded = o.bounded;
    balanced = o.balanced;
    measured = o.measured;
    is_prefix = o.is_prefix;
    fresh = o.fresh;
    answered = o.answered;
  }

  pub recv-IsSound :
      (w : World p) (segment : Option (List ℕ)) (err : TcpError) (con : Connection) (d : Device p)
      (h : Heap)
      → IsOpen con h
      → IsSound p (tcp_server_recv p site w segment err con d h).1
  unfolding tcp_server_recv
  recv-IsSound w none err con d h o = close-IsSound w con d h o.balanced
  recv-IsSound w (some segment) err con d h o =
      let o' : _ = reset con h con.acked_len 0 o in
      elim (Bool-cases (is_ok err)) [
        | inr bad ↦ rw bad (close-IsSound w con d h o.balanced)
        | inl fine ↦ elim (Bool-cases con.request.processed) [
          | inl done ↦ simp (fine, done) o'
          | inr open_ ↦
              simp (fine, open_)
                (after_collect-IsSound w (record con { idle_polls = 0 }) d h
                  (collect con.request segment) open_ o'
                  (collect-IsCollected con.request segment o.bounded)
                  (collect-IsMarked con.request segment open_))
        ]
      ]
