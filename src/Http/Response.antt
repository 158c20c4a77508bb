-- ===== src/Http/Response.antt =====
-- network/http_server/content.c: a response and the blocks of the heap that it owns.
--
-- The heap counts its blocks: how many malloc has given and free has taken. What malloc answers is
-- an argument. ipaddr_ntoa(gw) is the argument `gw`.
pub mod Owned
use pico_stairway_controller.Base.{
  ℕ, ◌+◌, leb, ◌==◌, ◌||◌, if◌then◌else◌, Bool, true, false, List, [], ◌∷◌, ◌++◌, Option, none,
  some, length, codes,
}
use pico_stairway_controller.Types.{ErrCode}
use pico_stairway_controller.Numbers.{print_uint}

-- A pointer is `none` for NULL, or the text that it points to.
pub record ContentResponse : Type 0 where
  pub header : Option (List ℕ)
  pub header_len : ℕ
  pub body : Option (List ℕ)
  pub body_len : ℕ
  pub body_static : Bool

-- memset(response, 0, sizeof(*response)).
abbrev pub no_response : ContentResponse
no_response = record {
  header = none;
  header_len = 0;
  body = none;
  body_len = 0;
  body_static = false;
}

pub record Heap : Type 0 where
  pub allocated : ℕ
  pub freed : ℕ

-- free(NULL) does nothing.
abbrev pub free : Option (List ℕ) → Heap → Heap
free none h = h
free (some block) h = record h { freed = h.freed + 1 }

abbrev pub malloc : Heap → Heap
malloc h = record h { allocated = h.allocated + 1 }

unfoldable pub content_response_free : ContentResponse → Heap → ContentResponse × Heap
content_response_free r h =
    let h = free r.header h in (no_response, (if r.body_static then h else free r.body h))

unfoldable pub set_body_copy :
    Bool → List ℕ → ContentResponse → Heap → ErrCode × ContentResponse × Heap
set_body_copy given dat r h =
    if given
    then (
      ErrCode.success,
      record r { body = some dat; body_len = length dat; body_static = false },
      malloc h,
    )
    else (ErrCode.mem_alloc_fail, record r { body = none }, h)

unfoldable pub set_body_static : List ℕ → ContentResponse → ContentResponse
set_body_static dat r = record r { body = some dat; body_len = length dat; body_static = true }

abbrev pub http_header_max_size : ℕ
http_header_max_size = 256

abbrev pub crlf : List ℕ → List ℕ
crlf rest = 13 ∷ 10 ∷ rest

-- HTTP_RESPONSE_HEADER, with `\r\n` as `crlf`.
abbrev pub header_text : ℕ → List ℕ → ℕ → List ℕ → List ℕ
header_text code reason body_len content_type =
    codes "HTTP/1.1 "
    ++ print_uint 9 code (
        32
        ∷ (reason
            ++ crlf (
                codes "Content-Length: "
                ++ print_uint 9 body_len (
                    crlf (
                      codes "Content-Type: "
                      ++ (content_type ++ crlf (codes "Connection: close" ++ crlf (crlf []))))))))

-- HTTP_RESPONSE_REDIRECT.
abbrev pub redirect_text : List ℕ → List ℕ
redirect_text gw =
    codes "HTTP/1.1 302 Found"
    ++ crlf (
        codes "Location: http://"
        ++ (gw
            ++ (codes "/index.html"
                ++ crlf (
                    codes "Content-Length: 0"
                    ++ crlf (codes "Connection: close" ++ crlf (crlf []))))))

-- The snprintf into the new block, and what follows it; a text that does not fit is cut.
unfoldable pub put_header :
    Bool → List ℕ → ContentResponse → Heap → ErrCode × ContentResponse × Heap
put_header given str r h =
    if given
    then (if leb http_header_max_size (length str)
        then (ErrCode.overflow, record r { header = some str }, malloc h)
        else (ErrCode.success, record r { header = some str; header_len = length str }, malloc h))
    else (ErrCode.mem_alloc_fail, record r { header = none }, h)

unfoldable pub set_header :
    Bool → ℕ → List ℕ → List ℕ → ContentResponse → Heap → ErrCode × ContentResponse × Heap
set_header given code reason content_type r h =
    put_header given (header_text code reason r.body_len content_type) r h

unfoldable pub set_redirect :
    Bool → List ℕ → ContentResponse → Heap → ErrCode × ContentResponse × Heap
set_redirect given gw r h = put_header given (redirect_text gw) r h

abbrev pub content_type_html : List ℕ
content_type_html = codes "text/html; charset=utf-8"

abbrev pub content_type_json : List ℕ
content_type_json = codes "application/json"

abbrev pub json_status_ok : List ℕ
json_status_ok = codes "{\"status\":\"ok\"}"

abbrev pub json_status_error : List ℕ
json_status_error = codes "{\"status\":\"error\"}"

unfoldable pub set_json_status :
    Bool → Bool → ContentResponse → Heap → ErrCode × ContentResponse × Heap
set_json_status given is_ok r h =
    if is_ok
    then set_header given 200 (codes "OK") content_type_json (set_body_static json_status_ok r) h
    else set_header given 400 (codes "Bad Request") content_type_json
        (set_body_static json_status_error r) h
