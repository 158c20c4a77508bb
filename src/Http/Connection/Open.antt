-- ===== src/Http/Connection/Open.antt =====
-- network/http_server/http_server.c: an invariant of an open connection.
use pico_stairway_controller.Base.{
  ℕ, ◌<◌, ◌≡◌, ◌∙◌, ap, sym, inl, inr, refl, arith, ltb, if◌then◌else◌, Bool, true, false, List,
  ◌++◌, Option, none, some, length, Bool-cases, sub32,
}
use pico_stairway_controller.Settings.{Platform}
use pico_stairway_controller.Http.Response.{ContentResponse, no_response, Heap}
use pico_stairway_controller.Http.Response.Owned.{
  IsBalanced, IsComplete, text_length, free-IsBalanced,
}
use pico_stairway_controller.Http.Received.{
  HttpRequest, Collected, wait, too_large, complete, collect, accept, collect_body, collect_header,
  end_header, header_end,
}
use pico_stairway_controller.Http.Received.Bounds.{IsBounded}
use pico_stairway_controller.Http.Sending.{response_total_len, text_of}
use pico_stairway_controller.Http.Sending.Prefix.{IsMeasured, IsPrefix, total_lem}
use pico_stairway_controller.Http.Connection.{Connection, con_state_free, Server, no_queue}

-- While a connection is open: its request fits the buffer; its response is empty until the request
-- is processed and complete from then on; what was written is the beginning of the response; and
-- its blocks are that of its state and those of its response.
pub record IsOpen (con : Connection) (h : Heap) : Type 0 where
  pub bounded : IsBounded con.request
  pub balanced : IsBalanced 1 con.response h
  pub measured : IsMeasured con.response
  pub is_prefix : IsPrefix con.response con.queue
  pub fresh : con.request.processed ≡ false → (con.response ≡ no_response) × (con.queue ≡ no_queue)
  pub answered : con.request.processed ≡ true → IsComplete con.response

-- Without a connection every block was freed.
abbrev pub IsLive : Option Connection → Heap → Type 0
IsLive none h = h.allocated ≡ h.freed
IsLive (some con) h = IsOpen con h

abbrev pub IsSound : (p : Platform) → Server p → Type 0
IsSound p s = IsLive s.con s.heap

-- What a segment leads to is marked as processed only where the request is complete.
abbrev pub IsMarked : Collected → Type 0
IsMarked (wait req) = req.processed ≡ false
IsMarked too_large = Unit
IsMarked (complete req) = req.processed ≡ true

one_of-IsMarked :
    (b : Bool) (x y : Collected) → IsMarked x → IsMarked y → IsMarked (if b then x else y)
one_of-IsMarked true x y mx my = mx
one_of-IsMarked false x y mx my = my

collect_body-IsMarked : (req : HttpRequest) → req.processed ≡ false → IsMarked (collect_body req)
unfolding collect_body
collect_body-IsMarked req e = one_of-IsMarked _ (wait req) (complete _) e refl

collect_header-IsMarked :
    (req : HttpRequest) (found : Option (ℕ × ℕ))
    → req.processed ≡ false
    → IsMarked (collect_header req found)
unfolding end_header
collect_header-IsMarked req none e = e
collect_header-IsMarked req (some (end, sep)) e =
    one_of-IsMarked _ too_large _ tt (collect_body-IsMarked _ e)

accept-IsMarked : (req : HttpRequest) → req.processed ≡ false → IsMarked (accept req)
unfolding accept
accept-IsMarked req e =
    one_of-IsMarked req.header_complete (collect_body req)
      (collect_header req (header_end req.data_)) (collect_body-IsMarked req e)
      (collect_header-IsMarked req (header_end req.data_) e)

pub collect-IsMarked :
    (req : HttpRequest) (segment : List ℕ) → req.processed ≡ false → IsMarked (collect req segment)
unfolding collect
collect-IsMarked req segment e =
    let req' = record req { data_ = req.data_ ++ segment } in
    one_of-IsMarked (ltb (sub32 2048 (length req.data_)) (length segment)) too_large (accept req')
      tt (accept-IsMarked req' e)

pub con_state_free_lem :
    (con : Connection) (h : Heap)
    → IsBalanced 1 con.response h
    → (con_state_free con h).allocated ≡ (con_state_free con h).freed
unfolding con_state_free
con_state_free_lem con h b = omega (arith, free-IsBalanced 1 con.response h b)

body_text : (t : Option (List ℕ)) → text_length t ≡ length (text_of t)
body_text none = refl
body_text (some str) = refl

pub complete-IsMeasured : (r : ContentResponse) → IsComplete r → IsMeasured r
complete-IsMeasured r c = record {
  header_length = c.header_length ∙ ap (λ t. length (text_of t)) (sym c.has_header);
  body_length = c.body_length.0 ∙ body_text r.body;
  no_wrap = omega (arith, c.header_length, c.header_fits, c.body_length);
}

pub no_queue-IsPrefix : (r : ContentResponse) → IsPrefix r no_queue
no_queue-IsPrefix r = record { in_range = omega arith; bytes_written = refl }

-- A response that has bytes left is that of a processed request.
pub processed_of :
    (con : Connection) (h : Heap)
    → IsOpen con h
    → 0 < response_total_len con.response
    → con.request.processed ≡ true
processed_of con h o left_ = elim (Bool-cases con.request.processed) [
  | inl done ↦ done
  | inr open_ ↦ absurd (
      omega (
        arith,
        total_lem con.response o.measured,
        ap (λ r. r.header_len) (o.fresh open_).0,
        ap (λ r. r.body_len) (o.fresh open_).0,
      ))
]
