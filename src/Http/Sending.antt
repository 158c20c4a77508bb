-- ===== src/Http/Sending.antt =====
-- network/http_server/http_server.c: send_more, which hands the response to lwIP.
--
-- What tcp_sndbuf and tcp_write answer in each round of the loop is an argument; so is what
-- tcp_output answers. The differences are taken where they are not negative.
pub mod Prefix
pub mod Loop
use pico_stairway_controller.Base.{
  ℕ, zero, suc, ◌+◌, ◌-◌, ltb, ◌==◌, not, ◌&&◌, if◌then◌else◌, Bool, true, false, List, [], ◌∷◌,
  ◌++◌, Option, none, some, length, take, drop, u32,
}
use pico_stairway_controller.Http.Response.{ContentResponse}

-- err_t: ERR_OK, ERR_MEM, ERR_ABRT, ERR_VAL, and any other error.
pub data TcpError : Type 0 where
  tcp_ok tcp_mem tcp_abrt tcp_val tcp_other : TcpError

-- A call of tcp_write: its bytes, and whether the flags COPY and MORE are set.
pub record Write : Type 0 where
  pub bytes : List ℕ
  pub copied : Bool
  pub more_follows : Bool

pub record Answer : Type 0 where
  pub sndbuf : ℕ
  pub written : TcpError

-- queued_len, and every tcp_write that was accepted.
pub record Queue : Type 0 where
  pub queued_len : ℕ
  pub writes : List Write

abbrev pub text_of : Option (List ℕ) → List ℕ
text_of none = []
text_of (some str) = str

unfoldable pub response_total_len : ContentResponse → ℕ
response_total_len r = u32 (r.header_len + r.body_len)

abbrev pub least : ℕ → ℕ → ℕ
least len bound = if ltb bound len then bound else len

-- `data` up to its end, and whether it needs a copy.
unfoldable pub next_data : ContentResponse → ℕ → List ℕ × ℕ × Bool
next_data r queued_len =
    if ltb queued_len r.header_len
    then (drop queued_len (text_of r.header), r.header_len - queued_len, true)
    else (
      drop (queued_len - r.header_len) (text_of r.body),
      r.body_len - (queued_len - r.header_len),
      not r.body_static,
    )

unfoldable pub chunk_len : ContentResponse → ℕ → ℕ → ℕ
chunk_len r queued_len avail = least (least (next_data r queued_len).1 avail) 65535

unfoldable pub next_write : ContentResponse → ℕ → ℕ → Write
next_write r queued_len avail =
    let len = chunk_len r queued_len avail in
    let (dat, _, copied) = next_data r queued_len in
    record {
      bytes = take len dat;
      copied = copied;
      more_follows = ltb (u32 (queued_len + len)) (response_total_len r);
    }

-- After a tcp_write that was accepted.
unfoldable pub queued : ContentResponse → ℕ → Queue → Queue
queued r avail q = record {
  queued_len = u32 (q.queued_len + chunk_len r q.queued_len avail);
  writes = q.writes ++ next_write r q.queued_len avail ∷ [];
}

-- Why the loop ends.
pub data Stop : Type 0 where
  all_queued buffer_full queue_full no_fuel : Stop
  write_failed : TcpError → Stop

abbrev pub after_write : TcpError → Queue → Stop × Queue → Stop × Queue
after_write TcpError.tcp_ok q rest = rest
after_write TcpError.tcp_mem q rest = (queue_full, q)
after_write err q rest = (write_failed err, q)

unfoldable pub send_loop : ℕ → (ℕ → Answer) → ContentResponse → Queue → Stop × Queue
send_loop zero answers r q = (no_fuel, q)
send_loop (suc fuel) answers r q =
    let answer = answers 0 in
    let rest = send_loop fuel (λ i. answers (suc i)) r (queued r answer.sndbuf q) in
    if ltb q.queued_len (response_total_len r)
    then (if answer.sndbuf == 0 then (buffer_full, q) else after_write answer.written q rest)
    else (all_queued, q)

abbrev pub output_after : TcpError → Stop × Queue → TcpError × Queue
output_after output (write_failed err, q) = (err, q)
output_after output (_, q) = (output, q)

unfoldable pub send_more : (ℕ → Answer) → TcpError → ContentResponse → Queue → TcpError × Queue
send_more answers output r q =
    output_after output (send_loop (suc (response_total_len r)) answers r q)
