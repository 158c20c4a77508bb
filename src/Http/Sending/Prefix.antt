-- ===== src/Http/Sending/Prefix.antt =====
-- network/http_server/http_server.c: one tcp_write, and what was handed to lwIP.
use pico_stairway_controller.Base.{
  ℕ, ◌+◌, ◌-◌, ◌^◌, ◌<◌, ◌≤◌, ◌≡◌, ◌∙◌, ap, sym, inl, inr, arith, ltb, List, [], ◌∷◌, ◌++◌, length,
  Bool-cases, take, drop, ltb→lt, ltb_false→le, u32,
}
use mathlib.Core.List.{append-nil, append_assoc}
use pico_stairway_controller.Base.Slices.{
  take-add, take-append_left, drop-append_left, drop-append_right, length-drop,
}
use pico_stairway_controller.Http.Response.{ContentResponse}
use pico_stairway_controller.Http.Sending.{
  Write, Queue, text_of, response_total_len, least, next_data, chunk_len, next_write, queued,
}

abbrev pub written_bytes : List Write → List ℕ
written_bytes [] = []
written_bytes (w ∷ rest) = w.bytes ++ written_bytes rest

-- The whole response.
abbrev pub response_bytes : ContentResponse → List ℕ
response_bytes r = text_of r.header ++ text_of r.body

-- The lengths of the response are those of its texts, and their sum does not wrap.
pub record IsMeasured (r : ContentResponse) : Type 0 where
  pub header_length : r.header_len ≡ length (text_of r.header)
  pub body_length : r.body_len ≡ length (text_of r.body)
  pub no_wrap : r.header_len + r.body_len < 2 ^ 32

-- The bytes that were written are the first queued_len bytes of the response.
pub record IsPrefix (r : ContentResponse) (q : Queue) : Type 0 where
  pub in_range : q.queued_len ≤ r.header_len + r.body_len
  pub bytes_written : written_bytes q.writes ≡ take q.queued_len (response_bytes r)

written_bytes-snoc :
    (ws : List Write) (w : Write) → written_bytes (ws ++ w ∷ []) ≡ written_bytes ws ++ w.bytes
written_bytes-snoc [] w = append-nil w.bytes
written_bytes-snoc (v ∷ vs) w =
    ap (λ t. v.bytes ++ t) (written_bytes-snoc vs w)
    ∙ sym (append_assoc v.bytes (written_bytes vs) w.bytes)

-- The data that is left: a beginning of what the response has left, not empty before its end.
record IsNext (r : ContentResponse) (n : ℕ) (dat : List ℕ) (len : ℕ) : Type 0 where
  nonempty : n < r.header_len + r.body_len → 0 < len
  inside : n + len ≤ r.header_len + r.body_len
  same_bytes : (k : ℕ) → k ≤ len → take k dat ≡ take k (drop n (response_bytes r))

next_data-IsNext :
    (r : ContentResponse) (n : ℕ)
    → IsMeasured r
    → n ≤ r.header_len + r.body_len
    → IsNext r n (next_data r n).0 (next_data r n).1
unfolding next_data
next_data-IsNext r n m le =
    let header = text_of r.header in
    let body = text_of r.body in
    elim (Bool-cases (ltb n r.header_len)) [
      | inl in_header ↦
          let lt : n < r.header_len = ltb→lt n r.header_len in_header in
          rw in_header (record {
            nonempty = λ before. omega arith;
            inside = omega arith;
            same_bytes = λ k le_k. sym (
                ap (take k) (drop-append_left n header body (omega (arith, m.header_length)))
                ∙ take-append_left k (drop n header) body
                    (omega (arith, length-drop n header, m.header_length)));
          })
      | inr in_body ↦
          let ge : r.header_len ≤ n = ltb_false→le n r.header_len in_body in
          rw in_body (record {
            nonempty = λ before. omega arith;
            inside = omega arith;
            same_bytes = λ k le_k. sym (
                ap (take k) (
                  drop-append_right n header body (omega (arith, m.header_length))
                  ∙ ap (λ h. drop (n - h) body) (sym m.header_length)));
          })
    ]

least_lem : (a b : ℕ) → (least a b ≤ a) × (0 < a → 0 < b → 0 < least a b)
least_lem a b = (ground arith, λ pa pb. ground arith)

pub chunk_len_lem :
    (r : ContentResponse) (n avail : ℕ)
    → IsMeasured r
    → n ≤ r.header_len + r.body_len
    → (n + chunk_len r n avail ≤ r.header_len + r.body_len)
      × (n < r.header_len + r.body_len → 0 < avail → 0 < chunk_len r n avail)
unfolding chunk_len
chunk_len_lem r n avail m le =
    let next : _ = next_data-IsNext r n m le in
    let (least_le, least_pos) = least_lem (next_data r n).1 avail in
    let (least_le', least_pos') = least_lem (least (next_data r n).1 avail) 65535 in
    (
      omega (arith, next.inside, least_le, least_le'),
      λ before avail_pos. least_pos' (least_pos (next.nonempty before) avail_pos) (omega arith),
    )

pub total_lem :
    (r : ContentResponse) → IsMeasured r → response_total_len r ≡ r.header_len + r.body_len
unfolding response_total_len
total_lem r m = omega (arith, m.no_wrap)

-- What a tcp_write sends is what the response has next.
next_write_lem :
    (r : ContentResponse) (n avail : ℕ)
    → IsMeasured r
    → n ≤ r.header_len + r.body_len
    → (next_write r n avail).bytes ≡ take (chunk_len r n avail) (drop n (response_bytes r))
unfolding next_write chunk_len
next_write_lem r n avail m le =
    let next : _ = next_data-IsNext r n m le in
    let part = least (next_data r n).1 avail in
    next.same_bytes (least part 65535)
      (omega (arith, (least_lem (next_data r n).1 avail).0, (least_lem part 65535).0))

pub queued-IsPrefix :
    (r : ContentResponse) (avail : ℕ) (q : Queue)
    → IsMeasured r
    → IsPrefix r q
    → IsPrefix r (queued r avail q)
      × ((queued r avail q).queued_len ≡ q.queued_len + chunk_len r q.queued_len avail)
unfolding queued
queued-IsPrefix r avail q m p =
    let n = q.queued_len in
    let len = chunk_len r n avail in
    let (le, _) = chunk_len_lem r n avail m p.in_range in
    let exact : u32 (n + len) ≡ n + len = omega (arith, m.no_wrap) in
    (
      record {
        in_range = omega (arith, exact);
        bytes_written =
            written_bytes-snoc q.writes (next_write r n avail)
            ∙ ap (λ t. t ++ (next_write r n avail).bytes) p.bytes_written
            ∙ ap (λ t. take n (response_bytes r) ++ t) (next_write_lem r n avail m p.in_range)
            ∙ sym (take-add n len (response_bytes r))
            ∙ ap (λ k. take k (response_bytes r)) (sym exact);
      },
      exact,
    )
