-- ===== src/Http/Request.antt =====
-- network/http_server/http_server.c: the header of a request, its parameters, and its answer.
--
-- A header, a path and a parameter are C strings; a cut by a '\0' ends the string there.
pub mod Laws
use pico_stairway_controller.Base.{
  ℕ, zero, suc, ◌+◌, ◌-◌, ◌^◌, leb, ltb, ◌==◌, ◌&&◌, ◌||◌, if◌then◌else◌, Bool, true, false, List,
  [], ◌∷◌, ◌++◌, Option, none, some, length, drop, codes, starts_with,
}
use pico_stairway_controller.Types.{ErrCode, Settings, Status}
use pico_stairway_controller.Numbers.{digits, ulong_max}
use pico_stairway_controller.Settings.{Platform, FlashRun}
use pico_stairway_controller.Http.Response.{ContentResponse, Heap, malloc}
use pico_stairway_controller.Http.Content.{Given, Served, Device, get_content, post_content}

abbrev pub http_get : List ℕ
http_get = codes "GET "

abbrev pub http_post : List ℕ
http_post = codes "POST "

abbrev pub http_content_length : List ℕ
http_content_length = codes "Content-Length:"

abbrev tolower : ℕ → ℕ
tolower c = if leb 65 c && leb c 90 then c + 32 else c

-- strncasecmp(str, prefix, length of the prefix) == 0.
pub starts_with_nocase : List ℕ → List ℕ → Bool
starts_with_nocase [] str = true
starts_with_nocase (p ∷ ps) [] = false
starts_with_nocase (p ∷ ps) (c ∷ cs) = (tolower p == tolower c) && starts_with_nocase ps cs

-- isspace.
abbrev pub is_white : ℕ → Bool
is_white c = (c == 32) || (leb 9 c && leb c 13)

unfoldable pub skip_white : List ℕ → List ℕ
skip_white [] = []
skip_white (c ∷ cs) = let more = skip_white cs in if is_white c then more else c ∷ cs

-- The value of strtoul behind the spaces: a value that is too large becomes ULONG_MAX, a minus
-- negates on 32 bits.
abbrev pub unsigned : Bool → ℕ → ℕ
unsigned minus v = if ltb ulong_max v then ulong_max else if minus && ltb 0 v then 2 ^ 32 - v else v

abbrev pub signed : List ℕ → ℕ
signed [] = 0
signed (c ∷ cs) =
    if c == 45
    then unsigned true (digits 0 cs).0
    else if c == 43
    then unsigned false (digits 0 cs).0
    else unsigned false (digits 0 (c ∷ cs)).0

-- strtoul(str, NULL, 10) on any text.
unfoldable pub strtoul_any : List ℕ → ℕ
strtoul_any str = signed (skip_white str)

-- The loop over the lines: whether a line starts here, and the header from here on.
unfoldable pub length_from : Bool → List ℕ → ℕ
length_from first [] = 0
length_from first (c ∷ cs) =
    let more = length_from (c == 10) cs in
    if first && starts_with_nocase http_content_length (c ∷ cs)
    then strtoul_any (drop (length http_content_length) (c ∷ cs))
    else more

unfoldable pub get_content_length : List ℕ → ℕ
get_content_length header = length_from true header

-- strpbrk(path, " \r\n") and the cut there.
unfoldable pub cut_path : List ℕ → List ℕ
cut_path [] = []
cut_path (c ∷ cs) =
    let more = cut_path cs in if (c == 32) || ((c == 13) || (c == 10)) then [] else c ∷ more

unfoldable pub get_request_path : List ℕ → ℕ → List ℕ
get_request_path header method_len = cut_path (drop method_len header)

-- strchr(request, '?') and the cut there: the path, and the parameters if there are any.
unfoldable pub cut_params : List ℕ → List ℕ × Option (List ℕ)
cut_params [] = ([], none)
cut_params (c ∷ cs) =
    let (path, params) = cut_params cs in if c == 63 then ([], some cs) else (c ∷ path, params)

-- `has_params` is params != NULL; params_n is the number of the params.
pub record ContentGetRequest : Type 0 where
  pub has_params : Bool
  pub params : List (List ℕ)

abbrev pub no_params : ContentGetRequest
no_params = record { has_params = false; params = [] }

abbrev pub free_each : List (List ℕ) → Heap → Heap
free_each [] h = h
free_each (param ∷ rest) h = free_each rest (record h { freed = h.freed + 1 })

unfoldable pub free_get_params : ContentGetRequest → Heap → Heap
free_get_params req h =
    if req.has_params
    then (let h = free_each req.params h in record h { freed = h.freed + 1 })
    else h

abbrev pub prepend : ℕ → List (List ℕ) → List (List ℕ)
prepend c [] = (c ∷ []) ∷ []
prepend c (param ∷ rest) = (c ∷ param) ∷ rest

-- The strings that are left when every '&' has become a '\0'; one more than there were '&'.
unfoldable pub cut_at_ampersands : List ℕ → List (List ℕ)
cut_at_ampersands [] = [] ∷ []
cut_at_ampersands (c ∷ cs) =
    let rest = cut_at_ampersands cs in if c == 38 then [] ∷ rest else prepend c rest

-- What malloc answers: for the array of the parameters, for each parameter, and for the page.
pub record Malloc : Type 0 where
  pub for_array : Bool
  pub for_param : ℕ → Bool
  pub for_page : Given

-- The second loop, from its index on.
unfoldable pub copy_params :
    (ℕ → Bool) → ℕ → List (List ℕ) → ContentGetRequest → Heap → ErrCode × ContentGetRequest × Heap
copy_params given i [] req h = (ErrCode.success, req, h)
copy_params given i (param ∷ rest) req h =
    let copied =
      copy_params given (suc i) rest (record req { params = req.params ++ param ∷ [] })
        (malloc h) in
    if given i then copied else (ErrCode.mem_alloc_fail, req, h)

unfoldable pub parse_get_params :
    Malloc → List ℕ → ContentGetRequest → Heap → ErrCode × ContentGetRequest × Heap
parse_get_params given params req h =
    if given.for_array
    then copy_params given.for_param 0 (cut_at_ampersands params) (record req { has_params = true })
        (malloc h)
    else (ErrCode.mem_alloc_fail, req, h)

-- TO_EXIT_IF_COND(response.header_len == 0, ERR_FAIL).
abbrev pub with_header : Served → Served
with_header (ErrCode.success, r, h) =
    if r.header_len == 0 then (ErrCode.fail, r, h) else (ErrCode.success, r, h)
with_header (err, r, h) = (err, r, h)

abbrev pub params_of :
    Malloc → Option (List ℕ) → ContentGetRequest → Heap → ErrCode × ContentGetRequest × Heap
params_of given none req h = (ErrCode.success, req, h)
params_of given (some params) req h = parse_get_params given params req h

-- What follows the parameters, and EXIT.
abbrev pub after_params :
    ErrCode × ContentGetRequest × Heap → ContentResponse → (Heap → Served) → Served
after_params (ErrCode.success, req, h) r page =
    let (err, r', h') = page h in (err, r', free_get_params req h')
after_params (err, req, h) r page = (err, r, free_get_params req h)

-- The branch of a GET request.
unfoldable pub handle_get :
    List ℕ → List ℕ → Malloc → Settings → Status → List ℕ → ContentResponse → Heap → Served
handle_get index_html gw given s st header r h =
    let (path, params) = cut_params (get_request_path header (length http_get)) in
    after_params (params_of given params no_params h) r
      (λ h'. with_header (get_content index_html gw given.for_page s st path r h'))

module _ (p : Platform) where
  abbrev pub and_header : Served × Device p → Served × Device p
  and_header (served, d) = (with_header served, d)

  -- `header` and `body` are the two strings in request->data.
  unfoldable pub handle_request :
      List ℕ
      → List ℕ
      → Malloc
      → FlashRun p
      → ℕ
      → List ℕ
      → List ℕ
      → Device p
      → ContentResponse
      → Heap
      → Served × Device p
  handle_request index_html gw given run now header body d r h =
      if starts_with http_get header
      then (handle_get index_html gw given d.memory.global d.status header r h, d)
      else if starts_with http_post header
      then and_header (
          post_content p run now given.for_page.for_header
            (get_request_path header (length http_post)) body d r h)
      else ((ErrCode.param_invalid, r, h), d)
