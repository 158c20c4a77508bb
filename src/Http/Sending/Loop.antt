-- ===== src/Http/Sending/Loop.antt =====
-- network/http_server/http_server.c: the loop of send_more, and what was handed to lwIP.
use pico_stairway_controller.Base.{
  false, refl, ℕ, zero, suc, ◌+◌, ◌<◌, ◌≤◌, ◌≡◌, ◌≢◌, ◌∙◌, ap, sym, inl, inr, arith, ltb, ◌==◌,
  length, Bool-cases, take, length-append, ltb→lt, ltb_false→le,
}
use pico_stairway_controller.Base.Slices.{take-all}
use pico_stairway_controller.Http.Response.{ContentResponse}
use pico_stairway_controller.Http.Sending.Prefix.{
  written_bytes, response_bytes, IsMeasured, IsPrefix, total_lem, queued-IsPrefix, chunk_len_lem,
}
use pico_stairway_controller.Http.Sending.{
  TcpError, tcp_ok, Answer, Queue, text_of, response_total_len, chunk_len, queued, Stop, all_queued,
  no_fuel, write_failed, after_write, send_loop, output_after, send_more,
}

-- What the loop leaves behind: more of the response's beginning; all of it, if that is why it ended.
record IsSent (r : ContentResponse) (before : ℕ) (after : Stop × Queue) : Type 0 where
  pub is_prefix : IsPrefix r after.1
  pub no_less : before ≤ after.1.queued_len
  pub has_fuel : after.0 ≢ no_fuel
  pub is_all : after.0 ≡ all_queued → after.1.queued_len ≡ r.header_len + r.body_len

after_write-IsSent :
    (r : ContentResponse) (err : TcpError) (q : Queue) (rest : Stop × Queue)
    → IsPrefix r q
    → IsSent r q.queued_len rest
    → IsSent r q.queued_len (after_write err q rest)
after_write-IsSent r TcpError.tcp_ok q rest p sent = sent
after_write-IsSent r TcpError.tcp_mem q rest p sent = record {
  is_prefix = p;
  no_less = omega arith;
  has_fuel = λ e. ground arith;
  is_all = λ e. ground arith;
}
after_write-IsSent r _ q rest p sent = record {
  is_prefix = p;
  no_less = omega arith;
  has_fuel = λ e. ground arith;
  is_all = λ e. ground arith;
}

weaken : (r : ContentResponse) (n n' : ℕ) (x : Stop × Queue) → n ≤ n' → IsSent r n' x → IsSent r n x
weaken r n n' x le sent = record {
  is_prefix = sent.is_prefix;
  no_less = omega (arith, sent.no_less);
  has_fuel = sent.has_fuel;
  is_all = sent.is_all;
}

-- One unit of fuel for each byte that is left, and one more, are enough.
send_loop-IsSent :
    (fuel : ℕ) (answers : ℕ → Answer) (r : ContentResponse) (q : Queue)
    → IsMeasured r
    → IsPrefix r q
    → r.header_len + r.body_len < q.queued_len + fuel
    → IsSent r q.queued_len (send_loop fuel answers r q)
unfolding send_loop
send_loop-IsSent zero answers r q m p enough = absurd (omega (arith, p.in_range))
send_loop-IsSent (suc fuel) answers r q m p enough =
    let avail = (answers 0).sndbuf in
    let total : _ = total_lem r m in
    let next : _ = queued-IsPrefix r avail q m p in
    let (le, grows) = chunk_len_lem r q.queued_len avail m p.in_range in
    elim (Bool-cases (ltb q.queued_len (response_total_len r))) [
      | inl before ↦
          let lt : q.queued_len < response_total_len r =
            ltb→lt q.queued_len (response_total_len r) before in
          elim (Bool-cases (avail == 0)) [
            | inl full ↦
                rw (before, full)
                  (record {
                    is_prefix = p;
                    no_less = omega arith;
                    has_fuel = λ e. ground arith;
                    is_all = λ e. ground arith;
                  })
            | inr room ↦
                let positive : 0 < avail = ground arith in
                let grows' : 0 < chunk_len r q.queued_len avail = grows (omega arith) positive in
                rw (before, room)
                  (after_write-IsSent r (answers 0).written q _ p (
                    weaken r q.queued_len (queued r avail q).queued_len _ (omega (arith, next.1)) (
                      send_loop-IsSent fuel (λ i. answers (suc i)) r (queued r avail q) m next.0
                        (omega (arith, next.1)))))
          ]
      | inr at_end ↦
          let ge : response_total_len r ≤ q.queued_len =
            ltb_false→le q.queued_len (response_total_len r) at_end in
          rw at_end (record {
            is_prefix = p;
            no_less = omega arith;
            has_fuel = λ e. ground arith;
            is_all = λ e. omega (arith, p.in_range);
          })
    ]

output_after-IsPrefix :
    (r : ContentResponse) (n : ℕ) (output : TcpError) (x : Stop × Queue)
    → IsSent r n x
    → IsPrefix r (output_after output x).1
output_after-IsPrefix r n output (write_failed err, q) sent = sent.is_prefix
output_after-IsPrefix r n output (_, q) sent = sent.is_prefix

-- For a response with the lengths of its texts, whatever lwIP answers: what was written stays the
-- beginning of the response, byte for byte, and its length is queued_len.
pub send_more-IsPrefix :
    (answers : ℕ → Answer) (output : TcpError) (r : ContentResponse) (q : Queue)
    → IsMeasured r
    → IsPrefix r q
    → IsPrefix r (send_more answers output r q).1
unfolding send_more
send_more-IsPrefix answers output r q m p =
    output_after-IsPrefix r q.queued_len output _
      (send_loop-IsSent (suc (response_total_len r)) answers r q m p (omega (arith, total_lem r m)))

-- For a response with the lengths of its texts, of which a beginning was written: the loop of
-- send_more always ends by itself, for one of the reasons in the code; and if it ends because
-- nothing is left, the whole response was written.
pub send_loop-ends :
    (answers : ℕ → Answer) (r : ContentResponse) (q : Queue)
    → IsMeasured r
    → IsPrefix r q
    → (let (stop, q') = send_loop (suc (response_total_len r)) answers r q in
        (stop ≢ no_fuel) × (stop ≡ all_queued → written_bytes q'.writes ≡ response_bytes r))
send_loop-ends answers r q m p =
    let sent : _ =
      send_loop-IsSent (suc (response_total_len r)) answers r q m p
        (omega (arith, total_lem r m)) in
    let whole : length (response_bytes r) ≡ r.header_len + r.body_len =
      omega (
        arith,
        length-append (text_of r.header) (text_of r.body),
        m.header_length,
        m.body_length,
      ) in
    (
      sent.has_fuel,
      λ e.
          sent.is_prefix.bytes_written
          ∙ ap (λ n. take n (response_bytes r)) (sent.is_all e ∙ sym whole)
          ∙ take-all (response_bytes r),
    )

-- Where lwIP grants every call, the loop stops for no other reason.
granted :
    (fuel : ℕ) (answers : ℕ → Answer) (r : ContentResponse) (q : Queue)
    → ((i : ℕ) → 0 < (answers i).sndbuf)
    → ((i : ℕ) → (answers i).written ≡ tcp_ok)
    → (send_loop fuel answers r q).0 ≢ no_fuel
    → (send_loop fuel answers r q).0 ≡ all_queued
unfolding send_loop
granted zero answers r q room fine fuelled = absurd (fuelled refl)
granted (suc fuel) answers r q room fine fuelled =
    elim (Bool-cases (ltb q.queued_len (response_total_len r))) [
      | inr at_end ↦ rw at_end refl
      | inl before ↦
          let nonzero : ((answers 0).sndbuf == 0) ≡ false = ground (arith, room 0) in
          rw (before, nonzero, fine 0)
            (granted fuel (λ i. answers (suc i)) r (queued r (answers 0).sndbuf q)
              (λ i. room (suc i)) (λ i. fine (suc i)) (rw (before, nonzero, fine 0) at fuelled))
    ]

finishes :
    (output : TcpError) (x : Stop × Queue)
    → x.0 ≡ all_queued
    → output_after output x ≡ (output, x.1)
finishes output (write_failed err, q) e = absurd (ground arith)
finishes output (_, q) e = refl

-- For a response with the lengths of its texts, of which a beginning was written: if lwIP always
-- has room and accepts every write, one send_more writes all that is left, byte for byte, and
-- returns what tcp_output answers.
pub send_more-delivers :
    (answers : ℕ → Answer) (output : TcpError) (r : ContentResponse) (q : Queue)
    → IsMeasured r
    → IsPrefix r q
    → ((i : ℕ) → 0 < (answers i).sndbuf)
    → ((i : ℕ) → (answers i).written ≡ tcp_ok)
    → (let (err, q') = send_more answers output r q in
        (err ≡ output) × (written_bytes q'.writes ≡ response_bytes r))
unfolding send_more
send_more-delivers answers output r q m p room fine =
    let ends : _ = send_loop-ends answers r q m p in
    let all : _ = granted (suc (response_total_len r)) answers r q room fine ends.0 in
    rw (finishes output (send_loop (suc (response_total_len r)) answers r q) all) (refl, ends.1 all)
