-- ===== src/Metrics/Laws.antt =====
-- A request is accounted for once, and the gauges come back.
use tsserve.Base.{
  Bool-cases, inl, inr, ℕ, zero, suc, ◌+◌, String, ◌≡◌, refl, ap, ◌∙◌, Bool, true, false, ◌||◌,
  List, [], ◌∷◌, arith, if◌then◌else◌,
}
use tsserve.Base.Int.{ℤ, pos, negsuc, inc, dec}
use tsserve.Metrics.{
  Collected, CountingWriter, Act, write_header, write, read_body, read_conn, write_conn, flush,
  hijack, act_write_header, act, acts, new_writer, flushed, returned, serve,
}

-- Whether the calls take the connection over.
abbrev pub takes_over : List Act → Bool
takes_over [] = false
takes_over (hijack true ∷ calls) = true
takes_over (_ ∷ calls) = takes_over calls

-- The code of the first header, 200 if there is none: a body without a header sends 200.
abbrev pub first_status : List Act → ℕ
first_status [] = 200
first_status (write_header code ∷ calls) = code
first_status (write n ∷ calls) = 200
first_status (_ ∷ calls) = first_status calls

-- The bytes that pass through the wrappers, before the connection is taken over and after it.
abbrev pub bytes_read : Bool → Bool → List Act → ℕ
bytes_read has_body over [] = 0
bytes_read has_body over (read_body n ∷ calls) =
    (if has_body then n else 0) + bytes_read has_body over calls
bytes_read has_body over (read_conn n ∷ calls) =
    (if over then n else 0) + bytes_read has_body over calls
bytes_read has_body over (hijack true ∷ calls) = bytes_read has_body true calls
bytes_read has_body over (_ ∷ calls) = bytes_read has_body over calls

abbrev pub bytes_written : Bool → List Act → ℕ
bytes_written over [] = 0
bytes_written over (write n ∷ calls) = n + bytes_written over calls
bytes_written over (write_conn n ∷ calls) = (if over then n else 0) + bytes_written over calls
bytes_written over (hijack true ∷ calls) = bytes_written true calls
bytes_written over (_ ∷ calls) = bytes_written over calls

-- net/http refuses the calls on the writer once the connection has been taken over: a handler then writes to the
-- connection.
abbrev pub IsOver : List Act → Type 0
IsOver [] = Unit
IsOver (write_header code ∷ calls) = ⊥
IsOver (write n ∷ calls) = ⊥
IsOver (hijack true ∷ calls) = ⊥
IsOver (_ ∷ calls) = IsOver calls

abbrev pub IsHandler : List Act → Type 0
IsHandler [] = Unit
IsHandler (hijack true ∷ calls) = IsOver calls
IsHandler (_ ∷ calls) = IsHandler calls

-- The calls after the connection has been taken over.
acts-over :
    (has_body : Bool) (calls : List Act) (c : Collected) (w : CountingWriter)
    → IsOver calls
    → w.hijacked ≡ true
    → acts has_body calls (c, w) ≡ (
      record c {
        request_bytes = c.request_bytes + bytes_read has_body true calls;
        response_bytes = c.response_bytes + bytes_written true calls;
      },
      w,
    )
unfolding acts act
acts-over has_body [] c w over h = ground arith
acts-over has_body (write_header code ∷ calls) c w over h = absurd over
acts-over has_body (write n ∷ calls) c w over h = absurd over
acts-over has_body (hijack true ∷ calls) c w over h = absurd over
acts-over has_body (hijack false ∷ calls) c w over h = acts-over has_body calls c w over h
acts-over has_body (flush ∷ calls) c w over h =
    ground (arith, h, acts-over has_body calls c w over h)
acts-over true (read_body n ∷ calls) c w over h =
    ground (arith, acts-over true calls (record c { request_bytes = c.request_bytes + n }) w over h)
acts-over false (read_body n ∷ calls) c w over h = ground (arith, acts-over false calls c w over h)
acts-over has_body (read_conn n ∷ calls) c w over h =
    ground (
      arith,
      h,
      acts-over has_body calls (record c { request_bytes = c.request_bytes + n }) w over h,
    )
acts-over has_body (write_conn n ∷ calls) c w over h = ground (
  arith,
  h,
  acts-over has_body calls (record c { response_bytes = c.response_bytes + n }) w over h,
)

-- The writer's status when the calls begin in a state that has a header, or none.
abbrev status_after : Bool → ℕ → List Act → ℕ
status_after true status calls = status
status_after false status calls = first_status calls

-- The calls of a handler, from a writer that has not been taken over.
acts-fresh :
    (has_body : Bool) (calls : List Act) (c : Collected) (w : CountingWriter)
    → IsHandler calls
    → w.hijacked ≡ false
    → (w.wrote_header ≡ false → w.status ≡ 200)
    → ((acts has_body calls (c, w)).0 ≡ record c {
      request_bytes = c.request_bytes + bytes_read has_body false calls;
      response_bytes = c.response_bytes + bytes_written false calls;
      ws_open = if takes_over calls then inc c.ws_open else c.ws_open;
    })
      × ((acts has_body calls (c, w)).1.hijacked ≡ takes_over calls)
      × ((acts has_body calls (c, w)).1.status
          ≡ (if takes_over calls then 101 else status_after w.wrote_header w.status calls))
unfolding acts act act_write_header
acts-fresh has_body [] c w handler h fresh = ground (arith, h, fresh)
acts-fresh has_body (write_header code ∷ calls) c w handler h fresh = ground (
  arith,
  h,
  fresh,
  acts-fresh has_body calls c (act_write_header code w) handler (ground (arith, h)) (ground arith),
)
acts-fresh has_body (write n ∷ calls) c w handler h fresh = ground (
  arith,
  h,
  fresh,
  acts-fresh has_body calls (record c { response_bytes = c.response_bytes + n })
      (act_write_header 200 w) handler (ground (arith, h)) (ground arith),
)
acts-fresh has_body (hijack true ∷ calls) c w handler h fresh = ground (
  arith,
  acts-over has_body calls (record c { ws_open = inc c.ws_open })
      (record w { hijacked = true; status = 101 }) handler refl,
)
acts-fresh has_body (hijack false ∷ calls) c w handler h fresh =
    ground (arith, acts-fresh has_body calls c w handler h fresh)
acts-fresh has_body (flush ∷ calls) c w handler h fresh =
    ground
      (arith, h, acts-fresh has_body calls c (record w { sent = flushed w.sent }) handler h fresh)
acts-fresh true (read_body n ∷ calls) c w handler h fresh = ground (
  arith,
  acts-fresh true calls (record c { request_bytes = c.request_bytes + n }) w handler h fresh,
)
acts-fresh false (read_body n ∷ calls) c w handler h fresh =
    ground (arith, acts-fresh false calls c w handler h fresh)
acts-fresh has_body (read_conn n ∷ calls) c w handler h fresh =
    ground (arith, h, acts-fresh has_body calls c w handler h fresh)
acts-fresh has_body (write_conn n ∷ calls) c w handler h fresh =
    ground (arith, h, acts-fresh has_body calls c w handler h fresh)

inc-dec : (z : ℤ) → dec (inc z) ≡ z
inc-dec (pos n) = refl
inc-dec (negsuc zero) = refl
inc-dec (negsuc (suc n)) = refl

-- A request whose handler returns is counted once, under its method and the code of its first header call or write, 200 if
-- it made none and 101 if it took the connection over; its time is observed unless it took the connection over. A request whose
-- handler panics is not counted. In both cases the bytes that passed through the wrappers are added, and the gauges of
-- the requests in flight and of the open connections come back to what they were.
pub serve_lem :
    (method : String) (has_body panics : Bool) (calls : List Act) (c : Collected)
    → IsHandler calls
    → serve method has_body calls panics c ≡ record c {
      requests =
          if panics
          then c.requests
          else (method, if takes_over calls then 101 else first_status calls) ∷ c.requests;
      duration = if panics || takes_over calls then c.duration else method ∷ c.duration;
      request_bytes = c.request_bytes + bytes_read has_body false calls;
      response_bytes = c.response_bytes + bytes_written false calls;
    }
unfolding serve returned
serve_lem method has_body panics calls c handler =
    let left =
      acts-fresh has_body calls (record c { in_flight = inc c.in_flight }) new_writer handler refl
        (λ _. refl) in
    ground (arith, left, inc-dec c.ws_open, inc-dec c.in_flight)

passed_on-kept :
    (has_body : Bool) (calls : List Act) (c : Collected) (w : CountingWriter)
    → w.wrote_header ≡ true
    → (acts has_body calls (c, w)).1.passed_on ≡ w.passed_on
unfolding acts act act_write_header
passed_on-kept has_body [] c w h = refl
passed_on-kept has_body (write_header code ∷ calls) c w h =
    ground (arith, h, passed_on-kept has_body calls c w h)
passed_on-kept has_body (write n ∷ calls) c w h = ground (
  arith,
  h,
  passed_on-kept has_body calls (record c { response_bytes = c.response_bytes + n }) w h,
)
passed_on-kept has_body (hijack true ∷ calls) c w h = ground (
  arith,
  passed_on-kept has_body calls (record c { ws_open = inc c.ws_open })
      (record w { hijacked = true; status = 101 }) h,
)
passed_on-kept has_body (hijack false ∷ calls) c w h = passed_on-kept has_body calls c w h
passed_on-kept has_body (flush ∷ calls) c w h = elim (Bool-cases w.hijacked) [
  | inl over ↦ ground (arith, over, passed_on-kept has_body calls c w h)
  | inr on ↦
      ground (arith, on, passed_on-kept has_body calls c (record w { sent = flushed w.sent }) h)
]
passed_on-kept has_body (read_body n ∷ calls) c w h =
    passed_on-kept has_body calls
      (if has_body then record c { request_bytes = c.request_bytes + n } else c) w h
passed_on-kept has_body (read_conn n ∷ calls) c w h =
    passed_on-kept has_body calls
      (if w.hijacked then record c { request_bytes = c.request_bytes + n } else c) w h
passed_on-kept has_body (write_conn n ∷ calls) c w h =
    passed_on-kept has_body calls
      (if w.hijacked then record c { response_bytes = c.response_bytes + n } else c) w h

-- Only the first header is passed on, and it is the code that is counted. So a final code that follows an
-- informational one, such as 103 (Early Hints), reaches neither the client nor the counter.
pub early_header-lost :
    (method : String) (has_body : Bool) (early final : ℕ) (calls : List Act) (c : Collected)
    → IsHandler calls
    → takes_over calls ≡ false
    → ((acts has_body (write_header early ∷ write_header final ∷ calls) (c, new_writer)).1.passed_on
        ≡ early ∷ [])
      × ((serve method has_body (write_header early ∷ write_header final ∷ calls) false c).requests
          ≡ (method, early) ∷ c.requests)
unfolding acts act act_write_header
early_header-lost method has_body early final calls c handler stays = (
  passed_on-kept has_body calls c (act_write_header early new_writer) refl,
  ap (λ d. d.requests)
        (serve_lem method has_body false (write_header early ∷ write_header final ∷ calls) c
          handler)
      ∙ ground (arith, stays),
)
