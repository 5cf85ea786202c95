-- ===== src/Metrics.antt =====
-- metrics/metrics.go: the middleware that accounts for one service's requests, and the writer, the connection and the
-- body that it wraps. What the wrapped handler does is a list of calls; what the net/http values under the wrappers
-- answer is part of the call. A counter is the list of its increments, or their sum.
pub mod Laws
use tsserve.Base.{
  ℕ, Option, none, some, leb, eqb, ◌||◌, ◌+◌, String, Bool, true, false, not, ◌&&◌, List, [], ◌∷◌,
  if◌then◌else◌,
}
use tsserve.Base.Int.{ℤ, inc, dec}

-- The collectors of one service: `requests` by method and code, `duration` by method.
pub record Collected : Type 0 where
  pub requests : List (String × ℕ)
  pub duration : List String
  pub request_bytes : ℕ
  pub response_bytes : ℕ
  pub in_flight : ℤ
  pub ws_open : ℤ

-- `countingWriter`, with the codes that it has passed on to the writer under it, and the final code that net/http has
-- sent to the client: the first final one that is passed on, or 200 from a flush before it.
pub record CountingWriter : Type 0 where
  pub status : ℕ
  pub wrote_header : Bool
  pub hijacked : Bool
  pub passed_on : List ℕ
  pub sent : Option ℕ

-- A call of the wrapped handler. A number is that of the bytes that the value under the wrapper has read or written;
-- the flag of a hijack says that it succeeded.
pub data Act : Type 0 where
  write_header write read_body read_conn write_conn : ℕ → Act
  flush : Act
  hijack : Bool → Act

abbrev pub Serving : Type 0
Serving = Collected × CountingWriter

-- An informational header, such as 103, is followed by the final one.
abbrev pub first_sent : ℕ → Option ℕ → Option ℕ
first_sent code none = if leb 200 code || eqb code 101 then some code else none
first_sent code (some sent) = some sent

-- `Flush` of net/http's writer sends the header.
abbrev pub flushed : Option ℕ → Option ℕ
flushed = first_sent 200

unfoldable pub act_write_header : ℕ → CountingWriter → CountingWriter
act_write_header code w = if w.wrote_header then w else record w {
  status = code;
  wrote_header = true;
  passed_on = code ∷ w.passed_on;
  sent = first_sent code w.sent;
}

-- `has_body` says that the request's body is wrapped; a hijacked connection is.
module _ (has_body : Bool) where
  unfoldable pub act : Act → Serving → Serving
  unfolding act_write_header
  act (write_header code) (c, w) = (c, act_write_header code w)
  act (write n) (c, w) =
      (record c { response_bytes = c.response_bytes + n }, act_write_header 200 w)
  act (read_body n) (c, w) =
      (if has_body then record c { request_bytes = c.request_bytes + n } else c, w)
  act (read_conn n) (c, w) =
      (if w.hijacked then record c { request_bytes = c.request_bytes + n } else c, w)
  act (write_conn n) (c, w) =
      (if w.hijacked then record c { response_bytes = c.response_bytes + n } else c, w)
  act flush (c, w) = (c, if w.hijacked then w else record w { sent = flushed w.sent })
  act (hijack false) (c, w) = (c, w)
  act (hijack true) (c, w) =
      (record c { ws_open = inc c.ws_open }, record w { hijacked = true; status = 101 })

  unfoldable pub acts : List Act → Serving → Serving
  unfolding act
  acts [] s = s
  acts (a ∷ as') s = acts as' (act a s)

abbrev pub new_writer : CountingWriter
new_writer = record {
  status = 200;
  wrote_header = false;
  hijacked = false;
  passed_on = [];
  sent = none;
}

-- What follows `next.ServeHTTP` when it returns.
returned : String → Serving → Collected
returned method (c, w) = record c {
  requests = (method, w.status) ∷ c.requests;
  duration = if w.hijacked then c.duration else method ∷ c.duration;
}

-- The handler of `Middleware`. The deferred calls are made also when the wrapped handler panics.
unfoldable pub serve : String → Bool → List Act → Bool → Collected → Collected
unfolding acts returned
serve method has_body calls panics c =
    let (c', w) = acts has_body calls (record c { in_flight = inc c.in_flight }, new_writer) in
    let counted = if panics then c' else returned method (c', w) in
    let closed = if w.hijacked then record counted { ws_open = dec counted.ws_open } else counted in
    record closed { in_flight = dec closed.in_flight }
