-- ===== src/Tests/Status.antt =====
-- metrics/ and local/ at concrete requests, durations and paths.
use tsserve.Base.{some, ◌≡◌, refl, true, false, List, [], ◌∷◌, ok, err, arith, ltb, if◌then◌else◌}
use tsserve.Base.Text.{itoa, digits, has_prefix}
use tsserve.Base.Int.{pos}
use tsserve.Metrics.{
  flush, Collected, Act, write_header, write, read_body, read_conn, write_conn, hijack, new_writer,
  acts, serve,
}
use tsserve.Metrics.Laws.{serve_lem, early_header-lost}
use tsserve.Local.{
  second, round_second, span_of, human_duration, function_name, short_id, parse_traefik_port,
  out_of_range, not_a_number, tailnet_route, not_found, traefik_proxy,
}
use tsserve.Local.Laws.{Shows, nearest, span_of-Shows}

abbrev empty : Collected
empty = record {
  requests = [];
  duration = [];
  request_bytes = 0;
  response_bytes = 0;
  in_flight = pos 0;
  ws_open = pos 0;
}

-- A handler that takes the connection over, and panics while it copies.
abbrev upgrade : List Act
upgrade = read_body 3 ∷ hijack true ∷ read_conn 5 ∷ write_conn 7 ∷ []

serve_lem_example :
    serve "GET" true upgrade true empty ≡ record empty { request_bytes = 8; response_bytes = 7 }
serve_lem_example = serve_lem "GET" true true upgrade empty tt

-- A page that is not there, after an early hint.
early_header-lost_example :
    ((acts false
        (write_header 103 ∷ write_header 404 ∷ write 9 ∷ [])
        (empty, new_writer)).1.passed_on
      ≡ 103 ∷ [])
    × ((serve "GET" false (write_header 103 ∷ write_header 404 ∷ write 9 ∷ []) false empty).requests
        ≡ ("GET", 103) ∷ [])
early_header-lost_example = early_header-lost "GET" false 103 404 (write 9 ∷ []) empty tt refl

span_of-Shows_example :
    Shows (span_of 3599500000000) (if ltb 3599500000000 second then 0 else nearest 3599500000000)
span_of-Shows_example = span_of-Shows 3599500000000 (omega arith)

half_rounds_up : human_duration 3599500000000 ≡ "1h0m"
unfolding human_duration span_of round_second itoa
half_rounds_up = refl

days_and_hours : human_duration (183600000000000) ≡ "2d3h"
unfolding human_duration span_of round_second itoa
days_and_hours = refl

task_name : short_id "arn:aws:ecs:eu-west-1:1:task/main/0123456789abcdef" ≡ "0123456789ab"
unfolding short_id
task_name = refl

lambda_name : function_name "arn:aws:lambda:eu-west-1:1:function:hello" ≡ "hello"
unfolding function_name
lambda_name = refl

port_high : parse_traefik_port "65536" ≡ err out_of_range
unfolding parse_traefik_port digits
port_high = refl

port_negative : parse_traefik_port "-1" ≡ err out_of_range
unfolding parse_traefik_port digits
port_negative = refl

port_signed : parse_traefik_port "+8080" ≡ ok 8080
unfolding parse_traefik_port digits
port_signed = refl

port_word : parse_traefik_port "8080a" ≡ err (not_a_number "8080a")
unfolding parse_traefik_port digits
port_word = refl

dashboard : tailnet_route 8080 "/traefik/dashboard/" ≡ traefik_proxy "http://127.0.0.1:8080"
unfolding tailnet_route itoa has_prefix
dashboard = refl

elsewhere : tailnet_route 8080 "/traefikx" ≡ not_found
unfolding tailnet_route has_prefix
elsewhere = refl

-- A flush before the header makes net/http send 200, whatever code is counted then.
flush_sends : (acts false (flush ∷ write_header 404 ∷ []) (empty, new_writer)).1.sent ≡ some 200
unfolding acts
flush_sends = refl
