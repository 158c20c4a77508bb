-- ===== src/Http/Content.antt =====
-- network/http_server/content.c: the pages, and what a request changes.
--
-- The page index_html is generated by the build: it is an argument. NULL arguments do not occur:
-- the server passes addresses of its own variables, and a path and a body inside its buffer.
pub mod Pages
pub mod Actions
use pico_stairway_controller.Base.{
  ℕ, ◌+◌, leb, ◌==◌, ◌||◌, if◌then◌else◌, Bool, true, false, List, [], ◌∷◌, ◌++◌, Option, none,
  some, length, codes, same_text,
}
use pico_stairway_controller.Types.{
  ErrCode, Settings, Status, PerSensor, at_sensor, up_first, up_second, down_first, down_second,
}
use pico_stairway_controller.Json.{Result, ok, error}
use pico_stairway_controller.Numbers.{print_uint}
use pico_stairway_controller.Settings.{Platform, Memory, FlashRun, settings_default, is_success}
use pico_stairway_controller.Controller.Button.{reboot_request}
use pico_stairway_controller.Body.{set_settings_json}
use pico_stairway_controller.Body.Print.{get_settings_json}
use pico_stairway_controller.Http.Response.{
  ContentResponse, Heap, content_response_free, set_body_copy, set_body_static, set_header,
  set_redirect, set_json_status, content_type_html, content_type_json,
}

abbrev pub json_buf_size_max : ℕ
json_buf_size_max = 1024

-- Whether malloc gives the block of the body and that of the header.
pub record Given : Type 0 where
  pub for_body : Bool
  pub for_header : Bool

abbrev pub Served : Type 0
Served = ErrCode × ContentResponse × Heap

-- TO_EXIT_IF_ERROR: what follows, on the response and the heap.
abbrev pub and_then : Served → (ContentResponse → Heap → Served) → Served
and_then (ErrCode.success, r, h) next = next r h
and_then (err, r, h) next = (err, r, h)

-- EXIT: an error frees the response.
abbrev pub or_exit : Served → Served
or_exit (ErrCode.success, r, h) = (ErrCode.success, r, h)
or_exit (err, r, h) = let (r', h') = content_response_free r h in (err, r', h')

-- STATUS_JSON; people_count is not negative.
unfoldable pub status_text : Status → List ℕ
status_text st =
    codes "{\"peopleCount\": "
    ++ print_uint 9 st.people_count (
        codes ",\n\"lightValue\": " ++ print_uint 9 st.light_value (distances (errors (codes "}"))))
  where
    errors : List ℕ → List ℕ
    errors rest =
        codes ",\n\"sen0err\": "
        ++ print_uint 9 st.sensor_error_cnt.of_up_first (
            codes ",\n\"sen1err\": "
            ++ print_uint 9 st.sensor_error_cnt.of_up_second (
                codes ",\n\"sen2err\": "
                ++ print_uint 9 st.sensor_error_cnt.of_down_first (
                    codes ",\n\"sen3err\": "
                    ++ print_uint 9 st.sensor_error_cnt.of_down_second rest)))

    distances : List ℕ → List ℕ
    distances rest =
        codes ",\n\"sen0dist\": "
        ++ print_uint 9 st.sensor_distance.of_up_first (
            codes ",\n\"sen1dist\": "
            ++ print_uint 9 st.sensor_distance.of_up_second (
                codes ",\n\"sen2dist\": "
                ++ print_uint 9 st.sensor_distance.of_down_first (
                    codes ",\n\"sen3dist\": "
                    ++ print_uint 9 st.sensor_distance.of_down_second rest)))

unfoldable pub prepare_json_status : Bool → Status → ContentResponse → Heap → Served
prepare_json_status given st r h =
    if leb json_buf_size_max (length (status_text st))
    then (ErrCode.overflow, r, h)
    else set_body_copy given (status_text st) r h

abbrev pub copy_result : Bool → Result (List ℕ) → ContentResponse → Heap → Served
copy_result given (ok str) r h = set_body_copy given str r h
copy_result given (error e) r h = (e, r, h)

unfoldable pub prepare_json_settings : Bool → Settings → ContentResponse → Heap → Served
prepare_json_settings given s r h = copy_result given (get_settings_json json_buf_size_max s) r h

-- The pages of a GET request, before EXIT.
unfoldable pub get_page :
    List ℕ → List ℕ → Given → Settings → Status → List ℕ → ContentResponse → Heap → Served
get_page index_html gw given s st path r h =
    if same_text path (codes "/") || same_text path (codes "/index.html")
    then set_header given.for_header 200 (codes "OK") content_type_html
        (set_body_static index_html r) h
    else if same_text path (codes "/api/info")
    then and_then (prepare_json_status given.for_body st r h)
        (set_header given.for_header 200 (codes "OK") content_type_json)
    else if same_text path (codes "/api/settings")
    then and_then (prepare_json_settings given.for_body s r h)
        (set_header given.for_header 200 (codes "OK") content_type_json)
    else set_redirect given.for_header gw r h

unfoldable pub get_content :
    List ℕ → List ℕ → Given → Settings → Status → List ℕ → ContentResponse → Heap → Served
get_content index_html gw given s st path r h =
    let (r, h) = content_response_free r h in or_exit (get_page index_html gw given s st path r h)

module _ (p : Platform) where
  -- What a request can change: the settings with their flash, the status, reboot_ts.
  pub record Device : Type 0 where
    pub memory : Memory p
    pub status : Status
    pub reboot_ts : ℕ

  abbrev pub with_test_mode : Device → Bool → Device
  with_test_mode d mode = record d { status = record (d.status) { test_mode = mode } }

  -- The page of a POST request with a status: whether it succeeded, and the device after it. Any
  -- other page is `none`. `now` is what reboot_request reads.
  unfoldable pub post_action : FlashRun p → ℕ → List ℕ → List ℕ → Device → Option (Bool × Device)
  post_action run now path body d =
      if same_text path (codes "/api/settings")
      then (let (err, m) = set_settings_json p run (some body) d.memory in
          some (is_success err, record d { memory = m }))
      else if same_text path (codes "/api/test_on")
      then some (true, with_test_mode d true)
      else if same_text path (codes "/api/test_off")
      then some (true, with_test_mode d false)
      else if same_text path (codes "/api/reset")
      then (let (err, m, reboot_ts) = settings_default p run now false d.memory d.reboot_ts in
          some (is_success err, record d { memory = m; reboot_ts = reboot_ts }))
      else if same_text path (codes "/api/restart")
      then some (true, record d { reboot_ts = reboot_request now 500 })
      else none

  abbrev pub answered : Device → Option (Bool × Device) → Device
  answered d none = d
  answered d (some (is_ok, d')) = d'

  abbrev pub post_page : Bool → Option (Bool × Device) → ContentResponse → Heap → Served
  post_page given none r h =
      set_header given 404 (codes "Not Found") content_type_json (set_body_static [] r) h
  post_page given (some (is_ok, d')) r h = set_json_status given is_ok r h

  unfoldable pub post_content :
      FlashRun p → ℕ → Bool → List ℕ → List ℕ → Device → ContentResponse → Heap → Served × Device
  post_content run now given path body d r h =
      let (r, h) = content_response_free r h in
      let action = post_action run now path body d in
      (or_exit (post_page given action r h), answered d action)
