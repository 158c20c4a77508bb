-- ===== src/Http/Received/Segments.antt =====
-- network/http_server/http_server.c: two segments of a request, one after the other or as one.
use pico_stairway_controller.Base.{
  ℕ, ◌+◌, ◌<◌, ◌≤◌, ◌≡◌, ◌∙◌, ap, sym, inl, inr, refl, arith, ltb, if◌then◌else◌, true, false, List,
  ◌++◌, none, some, length, Bool-cases, set, length-set, length-append, c_string, sub32,
  ltb_false→le, sub32_exact,
}
use mathlib.Core.Path.{subst}
use mathlib.Core.List.{append_assoc}
use pico_stairway_controller.Http.Request.{get_content_length}
use pico_stairway_controller.Http.Received.Bounds.{IsBounded, position-fits, length-c_string}
use pico_stairway_controller.Http.Received.{
  HttpRequest, position, crlf_crlf, lf_lf, header_end, Collected, wait, too_large, complete,
  collect_body, end_header, collect_header, collect, accept,
}
use pico_stairway_controller.Http.Received.Growth.{
  Option-cases, position-append, c_string-append, set-append, c_string-cut, tail_string,
}

abbrev extend : HttpRequest → List ℕ → HttpRequest
extend req more = record req { data_ = req.data_ ++ more }

-- A request that waits continues with `more` as if `more` had come at once, which leads to `other`.
Continues : List ℕ → ℕ → Collected → Collected → Type 0
Continues more n (wait req) other = (accept (extend req more) ≡ other) × (length req.data_ ≡ n)
Continues more n _ other = Unit

collect_body-Continues :
    (req : HttpRequest) (more : List ℕ)
    → req.header_complete ≡ true
    → Continues more (length req.data_) (collect_body req) (collect_body (extend req more))
unfolding Continues collect_body accept
collect_body-Continues req more done =
    elim (Bool-cases (ltb (sub32 (length req.data_) req.body_offset) req.content_len)) [
      | inl short ↦ rw short (rw done refl, refl)
      | inr enough ↦ rw enough tt
    ]

end_header-Continues :
    (req : HttpRequest) (more : List ℕ) (end sep : ℕ)
    → end < length req.data_
    → Continues more
        (length req.data_)
        (end_header req end sep)
        (end_header (extend req more) end sep)
unfolding Continues end_header
end_header-Continues req more end sep inside =
    let dat = set req.data_ end 0 in
    let content_len = get_content_length (c_string dat) in
    let req' = record req {
      data_ = dat;
      body_offset = end + sep;
      content_len = content_len;
      header_complete = true;
    } in
    rw (set-append req.data_ more end 0 inside, c_string-cut req.data_ more end inside)
      (elim (Bool-cases (ltb (sub32 2048 (end + sep)) content_len)) [
        | inl long ↦ rw long tt
        | inr short ↦
            rw (short, sym (length-set req.data_ end 0)) (collect_body-Continues req' more refl)
      ])

collect_header-Continues :
    (req : HttpRequest) (more : List ℕ)
    → req.header_complete ≡ false
    → (position (c_string req.data_) crlf_crlf ≡ none → position (c_string req.data_) lf_lf ≡ none)
    → Continues more
        (length req.data_)
        (collect_header req (header_end req.data_))
        (accept (extend req more))
unfolding Continues header_end accept end_header
collect_header-Continues req more open_ crlf =
    elim (Option-cases (position (c_string req.data_) crlf_crlf)) [
      | inl absent ↦ rw (absent, crlf absent) (refl, refl)
      | inr (i, found) ↦
          let found' : position (c_string (req.data_ ++ more)) crlf_crlf ≡ some i =
            ap (λ str. position str crlf_crlf) (c_string-append req.data_ more)
            ∙ position-append (c_string req.data_) crlf_crlf (tail_string req.data_ more) i found in
          rw (found, open_, found')
            (end_header-Continues req more i 4 (
              omega (
                arith,
                position-fits (c_string req.data_) crlf_crlf i found,
                length-c_string req.data_,
              )))
    ]

accept_done :
    (req : HttpRequest) (more : List ℕ)
    → req.header_complete ≡ true
    → Continues more (length req.data_) (accept req) (accept (extend req more))
unfolding accept
accept_done req more done =
    subst
      (λ b.
        Continues more (length req.data_)
          (if b then collect_body req else collect_header req (header_end req.data_))
          (if b
            then collect_body (extend req more)
            else collect_header (extend req more) (header_end (req.data_ ++ more))))
      (sym done) (collect_body-Continues req more done)

accept_open :
    (req : HttpRequest) (more : List ℕ)
    → req.header_complete ≡ false
    → (position (c_string req.data_) crlf_crlf ≡ none → position (c_string req.data_) lf_lf ≡ none)
    → Continues more (length req.data_) (accept req) (accept (extend req more))
unfolding accept
accept_open req more open_ crlf =
    subst
      (λ b.
        Continues more (length req.data_)
          (if b then collect_body req else collect_header req (header_end req.data_))
          (accept (extend req more)))
      (sym open_) (collect_header-Continues req more open_ crlf)

accept-Continues :
    (req : HttpRequest) (more : List ℕ)
    → (req.header_complete ≡ false
        → position (c_string req.data_) crlf_crlf ≡ none
        → position (c_string req.data_) lf_lf ≡ none)
    → Continues more (length req.data_) (accept req) (accept (extend req more))
accept-Continues req more crlf = elim (Bool-cases req.header_complete) [
  | inl done ↦ accept_done req more done
  | inr open_ ↦ accept_open req more open_ (crlf open_)
]

room_left :
    (n a b : ℕ)
    → n ≤ 2048
    → ltb (sub32 2048 n) a ≡ false
    → ltb (sub32 2048 (n + a)) b ≡ ltb (sub32 2048 n) (a + b)
room_left n a b fits first =
    let exact : _ = sub32_exact 2048 n fits (omega arith) in
    let at_most : a ≤ sub32 2048 n = ltb_false→le (sub32 2048 n) a first in
    let exact' : _ = sub32_exact 2048 (n + a) (omega arith) (omega arith) in
    rw (exact', exact) (ground arith)

-- Collecting two segments one after the other, where the first leaves the request waiting.
ThenCollects : Collected → List ℕ → Collected → Type 0
ThenCollects (wait req) more other = collect req more ≡ other
ThenCollects _ more other = Unit

wait_then :
    (n : ℕ) (x other : Collected) (a b : List ℕ)
    → n ≤ 2048
    → ltb (sub32 2048 n) (length a) ≡ false
    → Continues b (n + length a) x other
    → ThenCollects x b (if ltb (sub32 2048 n) (length a + length b) then too_large else other)
unfolding Continues ThenCollects collect
wait_then n (wait req) other a b fits first (e, len) =
    rw (len, room_left n (length a) (length b) fits first, e) refl
wait_then n too_large other a b fits first c = tt
wait_then n (complete req) other a b fits first c = tt

collect-ThenCollects :
    (req : HttpRequest) (a b : List ℕ)
    → IsBounded req
    → (req.header_complete ≡ false
        → position (c_string (req.data_ ++ a)) crlf_crlf ≡ none
        → position (c_string (req.data_ ++ a)) lf_lf ≡ none)
    → ThenCollects (collect req a) b (collect req (a ++ b))
unfolding collect ThenCollects
collect-ThenCollects req a b bounded crlf =
    elim (Bool-cases (ltb (sub32 2048 (length req.data_)) (length a))) [
      | inl long ↦ rw long tt
      | inr short ↦
          let goes_on : _ = accept-Continues (extend req a) b crlf in
          rw (short, length-append a b, sym (append_assoc req.data_ a b))
            (wait_then (length req.data_) (accept (extend req a)) (accept (extend (extend req a) b))
              a b bounded.fits short (rw (length-append req.data_ a) at goes_on))
    ]

-- Where a request inside its buffer still waits after the segment a, and the data so far does not
-- end its header with two line feeds only: the segment b then leads to what the one segment a ++ b
-- leads to.
pub collect-append :
    (req req' : HttpRequest) (a b : List ℕ)
    → IsBounded req
    → (req.header_complete ≡ false
        → position (c_string (req.data_ ++ a)) crlf_crlf ≡ none
        → position (c_string (req.data_ ++ a)) lf_lf ≡ none)
    → collect req a ≡ wait req'
    → collect req' b ≡ collect req (a ++ b)
unfolding ThenCollects
collect-append req req' a b bounded crlf waits =
    subst (λ x. ThenCollects x b (collect req (a ++ b))) waits
      (collect-ThenCollects req a b bounded crlf)
