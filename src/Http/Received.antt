-- ===== src/Http/Received.antt =====
-- network/http_server/http_server.c: the buffer of a connection, which collects the segments that
-- tcp_server_recv gets until the request is complete.
--
-- `data` is the first data_len bytes of the array: the byte behind them is 0, so that writing a 0
-- there changes nothing, and `set` leaves the list alone.
pub mod Bounds
pub mod Growth
pub mod Segments
use pico_stairway_controller.Base.{
  ℕ, zero, suc, ◌+◌, ◌-◌, leb, ltb, if◌then◌else◌, Bool, true, false, List, [], ◌∷◌, ◌++◌, Option,
  none, some, length, set, drop, c_string, starts_with, sub32,
}
use pico_stairway_controller.Http.Request.{get_content_length}

pub record HttpRequest : Type 0 where
  pub data_ : List ℕ
  pub body_offset : ℕ
  pub content_len : ℕ
  pub header_complete : Bool
  pub processed : Bool

abbrev pub no_request : HttpRequest
no_request = record {
  data_ = [];
  body_offset = 0;
  content_len = 0;
  header_complete = false;
  processed = false;
}

abbrev pub data_len : HttpRequest → ℕ
data_len req = length req.data_

abbrev pub http_request_max_size : ℕ
http_request_max_size = 2048

abbrev pub later : Option ℕ → Option ℕ
later none = none
later (some i) = some (suc i)

-- strstr, as the offset of what it finds.
unfoldable pub position : List ℕ → List ℕ → Option ℕ
position [] pattern_ = if starts_with pattern_ [] then some 0 else none
position (c ∷ cs) pattern_ =
    let more = position cs pattern_ in if starts_with pattern_ (c ∷ cs) then some 0 else later more

abbrev pub crlf_crlf : List ℕ
crlf_crlf = 13 ∷ 10 ∷ 13 ∷ 10 ∷ []

abbrev pub lf_lf : List ℕ
lf_lf = 10 ∷ 10 ∷ []

-- The end of the header and sep_len, in the string that `data` holds.
abbrev pub header_end_of : Option ℕ → Option ℕ → Option (ℕ × ℕ)
header_end_of (some i) second = some (i, 4)
header_end_of none (some i) = some (i, 2)
header_end_of none none = none

unfoldable pub header_end : List ℕ → Option (ℕ × ℕ)
header_end dat = header_end_of (position (c_string dat) crlf_crlf) (position (c_string dat) lf_lf)

-- What a segment leads to: wait for more, close the connection, or handle the request.
pub data Collected : Type 0 where
  wait : HttpRequest → Collected
  too_large : Collected
  complete : HttpRequest → Collected

-- The body: the 0 behind it, and `processed`.
unfoldable pub collect_body : HttpRequest → Collected
collect_body req =
    if ltb (sub32 (data_len req) req.body_offset) req.content_len
    then wait req
    else complete (record req {
      data_ = set req.data_ (req.body_offset + req.content_len) 0;
      processed = true;
    })

-- The header ends at `end`; `sep` is the length of what separates it from the body.
unfoldable pub end_header : HttpRequest → ℕ → ℕ → Collected
end_header req end sep =
    let dat = set req.data_ end 0 in
    let content_len = get_content_length (c_string dat) in
    if ltb (sub32 http_request_max_size (end + sep)) content_len
    then too_large
    else collect_body (record req {
      data_ = dat;
      body_offset = end + sep;
      content_len = content_len;
      header_complete = true;
    })

abbrev pub collect_header : HttpRequest → Option (ℕ × ℕ) → Collected
collect_header req none = wait req
collect_header req (some (end, sep)) = end_header req end sep

-- What follows the copy of a segment.
unfoldable pub accept : HttpRequest → Collected
accept req =
    if req.header_complete then collect_body req else collect_header req (header_end req.data_)

-- A request that is not processed yet takes the bytes of a segment.
unfoldable pub collect : HttpRequest → List ℕ → Collected
collect req segment =
    if ltb (sub32 http_request_max_size (data_len req)) (length segment)
    then too_large
    else accept (record req { data_ = req.data_ ++ segment })

-- request->data, and request->data + body_offset, as the strings that handle_request reads.
abbrev pub header_string : HttpRequest → List ℕ
header_string req = c_string req.data_

abbrev pub body_string : HttpRequest → List ℕ
body_string req = c_string (drop req.body_offset req.data_)
