-- ===== src/Examples/Server.antt =====
-- A connection of the web server: one request in two segments, and its answer.
use pico_stairway_controller.Base.{
  ◌<◌, ℕ, suc, ◌≡◌, ◌≢◌, refl, arith, true, List, [], ◌∷◌, ◌++◌, none, some, codes, starts_with,
  sub32,
}
use pico_stairway_controller.Http.Response.{ContentResponse, no_response, Heap}
use pico_stairway_controller.Http.Response.Owned.{IsServed}
use pico_stairway_controller.Http.Content.{Device}
use pico_stairway_controller.Http.Request.{Malloc, handle_request}
use pico_stairway_controller.Http.Request.Laws.{handle_request-IsServed}
use pico_stairway_controller.Http.Received.{
  HttpRequest, no_request, wait, collect, accept, header_end, position,
}
use pico_stairway_controller.Http.Received.Bounds.{IsBounded, IsCollected, collect-IsCollected}
use pico_stairway_controller.Http.Received.Segments.{collect-append}
use pico_stairway_controller.Http.Sending.{
  Answer, tcp_ok, all_queued, no_fuel, response_total_len, send_loop,
}
use pico_stairway_controller.Http.Sending.{send_more}
use pico_stairway_controller.Http.Sending.Prefix.{
  IsMeasured, IsPrefix, written_bytes, response_bytes,
}
use pico_stairway_controller.Http.Sending.Loop.{send_loop-ends, send_more-delivers}
use pico_stairway_controller.Http.Connection.{
  Site, World, Server, new_connection, no_queue, Event, accepted, received, sent, polled,
  run_events,
}
use pico_stairway_controller.Http.Connection.Open.{IsSound}
use pico_stairway_controller.Http.Connection.Life.{run_events-IsSound}
use pico_stairway_controller.Http.Connection.Idle.{all_polled, idle_polls-closed}
use pico_stairway_controller.Controller.{zero_status}
use pico_stairway_controller.Examples.Store.{platform, works, memory}

abbrev first_part : List ℕ
first_part = codes "GET /api/info?a=1&b HT"

abbrev second_part : List ℕ
second_part = codes "TP/1.1" ++ 13 ∷ 10 ∷ 13 ∷ 10 ∷ []

abbrev waiting : HttpRequest
waiting = record no_request { data_ = first_part }

no_request-IsBounded : IsBounded no_request
no_request-IsBounded = record {
  fits = omega arith;
  offset_fits = omega arith;
  body_fits = omega arith;
}

no_line_feeds : position first_part (10 ∷ 10 ∷ []) ≡ none
unfolding position starts_with
no_line_feeds = refl

still_waits : collect no_request first_part ≡ wait waiting
unfolding collect accept header_end position starts_with sub32
still_waits = refl

collect-append_example :
    collect waiting second_part ≡ collect no_request (first_part ++ second_part)
collect-append_example =
    collect-append no_request waiting first_part second_part no_request-IsBounded
      (λ open_ none_yet. no_line_feeds) still_waits

collect-IsCollected_example : IsCollected (collect no_request first_part)
collect-IsCollected_example = collect-IsCollected no_request first_part no_request-IsBounded

abbrev answer : ContentResponse
answer = record {
  header = some (codes "HTTP");
  header_len = 4;
  body = some (codes "ok!");
  body_len = 3;
  body_static = true;
}

answer-IsMeasured : IsMeasured answer
answer-IsMeasured = record { header_length = refl; body_length = refl; no_wrap = omega arith }

answer-IsPrefix : IsPrefix answer no_queue
answer-IsPrefix = record { in_range = omega arith; bytes_written = refl }

abbrev three_bytes : ℕ → Answer
three_bytes i = record { sndbuf = 3; written = tcp_ok }

send_loop-ends_example :
    let (stop, q) = send_loop (suc (response_total_len answer)) three_bytes answer no_queue in
    (stop ≢ no_fuel) × (stop ≡ all_queued → written_bytes q.writes ≡ response_bytes answer)
send_loop-ends_example =
    send_loop-ends three_bytes answer no_queue answer-IsMeasured answer-IsPrefix

always_room : (i : ℕ) → 0 < (three_bytes i).sndbuf
always_room i = omega arith

send_more-delivers_example :
    let (err, q) = send_more three_bytes tcp_ok answer no_queue in
    (err ≡ tcp_ok) × (written_bytes q.writes ≡ response_bytes answer)
send_more-delivers_example =
    send_more-delivers three_bytes tcp_ok answer no_queue answer-IsMeasured answer-IsPrefix
      always_room (λ i. refl)

abbrev given : Malloc
given = record {
  for_array = true;
  for_param = λ i. true;
  for_page = record { for_body = true; for_header = true };
}

abbrev device : Device platform
device = record { memory = memory; status = zero_status; reboot_ts = 0 }

abbrev pub empty_heap : Heap
empty_heap = record { allocated = 0; freed = 0 }

abbrev page : List ℕ
page = codes "<html>"

abbrev gw : List ℕ
gw = codes "192.168.4.1"

handle_request-IsServed_example :
    IsServed 0
      (handle_request platform page gw given works 7 first_part [] device no_response empty_heap).0
handle_request-IsServed_example =
    handle_request-IsServed 0 platform page gw given works 7 first_part [] device no_response
      empty_heap (omega arith) (omega arith)

abbrev pub site : Site
site = record { index_html = page; gw = gw }

abbrev pub world : World platform
world = record {
  given = given;
  run = works;
  now = 7;
  answers = three_bytes;
  output = tcp_ok;
  close_ok = true;
}

abbrev listening : Server platform
listening = record { con = none; device = device; heap = empty_heap }

abbrev pub events : List (Event platform site)
events =
    accepted true true
    ∷ (received world (some first_part) tcp_ok
        ∷ (received world (some second_part) tcp_ok ∷ (sent world 3 ∷ (polled world ∷ []))))

run_events-IsSound_example : IsSound platform (run_events platform site events listening)
run_events-IsSound_example =
    run_events-IsSound platform site (omega arith) events listening (omega arith)

abbrev connected : Server platform
connected = record listening { con = some new_connection }

abbrev eleven_worlds : List (World platform)
eleven_worlds =
    world ∷ world ∷ world ∷ world ∷ world ∷ world ∷ world ∷ world ∷ world ∷ world ∷ world ∷ []

idle_polls-closed_example :
    (run_events platform site (all_polled platform site eleven_worlds) connected).con ≡ none
idle_polls-closed_example = idle_polls-closed platform site eleven_worlds connected (omega arith)
