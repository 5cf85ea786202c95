-- ===== src/Local.antt =====
-- local/: what the status page shows of the manager's services and of the readers, the port of the traefik proxy, and
-- the routes of the two servers. Times and durations are numbers of nanoseconds.
pub mod Laws
use Prim.Native.String.{◌++◌ as ◌+++◌}
use Prim.Native.Char.{code}
use tsserve.Base.{
  ℕ, zero, suc, ◌+◌, ◌-◌, ◌*◌, ◌/◌, ◌%◌, ◌^◌, String, Bool, true, false, not, Option, none, some,
  List, [], ◌∷◌, Result, ok, err, ◌==◌, ltb, leb, eqb, if◌then◌else◌,
}
use tsserve.Base.Text.{itoa, digits, has_prefix}
use tsserve.Ecs.Registry.{ReaderStatus}
use tsserve.Proxy.Backend.{Origin, scheme_lambda}
use tsserve.Proxy.Calls.{BackendView, ServiceView}

abbrev pub second : ℕ
second = 1000000000

abbrev pub max_duration : ℕ
max_duration = 2 ^ 63 - 1

-- `d.Round(time.Second)` of a duration that is not negative.
unfoldable pub round_second : ℕ → ℕ
round_second d =
    let r = d % second in
    if ltb (r + r) second
    then d - r
    else if leb (d + second - r) max_duration
    then d + second - r
    else max_duration

-- What `humanDuration` prints, before it is printed.
pub data Span : Type 0 where
  just_now : Span
  seconds : ℕ → Span
  minutes hours days : ℕ → ℕ → Span

unfoldable pub span_of : ℕ → Span
unfolding round_second
span_of given =
    let d = round_second given in
    let s = d / second in
    if ltb given second
    then just_now
    else if ltb d (60 * second)
    then seconds s
    else if ltb d (3600 * second)
    then minutes (s / 60) (s % 60)
    else if ltb d (86400 * second)
    then hours (s / 3600) (s / 60 % 60)
    else days (s / 3600 / 24) (s / 3600 % 24)

print_span : Span → String
unfolding itoa
print_span just_now = "just now"
print_span (seconds s) = itoa s +++ "s"
print_span (minutes m s) = itoa m +++ "m" +++ itoa s +++ "s"
print_span (hours h m) = itoa h +++ "h" +++ itoa m +++ "m"
print_span (days d h) = itoa d +++ "d" +++ itoa h +++ "h"

-- A negative duration, which a clock that goes back gives, is shown as 0 is.
unfoldable pub human_duration : ℕ → String
unfolding span_of print_span
human_duration d = print_span (span_of d)

-- What follows the last character of code `sep`, or the whole text.
after_last_from : ℕ → String → String → String
after_last_from sep found String.[] = found
after_last_from sep found (String.◌∷◌ c s) =
    after_last_from sep (if eqb (code c) sep then s else found) s

abbrev after_last : ℕ → String → String
unfolding after_last_from
after_last sep s = after_last_from sep s s

first_chars : ℕ → String → String
first_chars zero s = ""
first_chars (suc n) String.[] = ""
first_chars (suc n) (String.◌∷◌ c s) = String.◌∷◌ c (first_chars n s)

unfoldable pub function_name : String → String
unfolding after_last
function_name arn = after_last b':' arn

-- Of an ASCII key, whose bytes are its characters.
unfoldable pub short_id : String → String
unfolding after_last first_chars
short_id id = first_chars 12 (after_last b'/' id)

pub record BackendRow : Type 0 where
  pub backend : String
  pub key_short : String
  pub registered_ago : String
  pub account : String
  pub cluster : String

pub record ServiceRow : Type 0 where
  pub service : String
  pub caps : List String
  pub backends : List BackendRow

unfoldable pub backend_rows : ℕ → String → List BackendView → List BackendRow
unfolding function_name short_id human_duration
backend_rows now scheme [] = []
backend_rows now scheme (b ∷ bs) =
    record {
      backend = b.backend;
      key_short = if scheme == scheme_lambda then function_name b.key else short_id b.key;
      registered_ago = human_duration (now - b.registered_at) +++ " ago";
      account = b.origin.account;
      cluster = b.origin.cluster;
    }
    ∷ backend_rows now scheme bs

unfoldable pub rows_for : ℕ → List ServiceView → List ServiceRow
unfolding backend_rows
rows_for now [] = []
rows_for now (s ∷ services) =
    record { service = s.service; caps = s.caps; backends = backend_rows now s.scheme s.backends }
    ∷ rows_for now services

pub record ReaderRow : Type 0 where
  pub mode : String
  pub name : String
  pub account : String
  pub cluster : String
  pub region : String
  pub poll_interval : String
  pub last_polled : String
  pub state : String
  pub state_label : String
  pub last_error : String

unfoldable pub reader_state : ReaderStatus → String × String
reader_state r =
    if r.healthy
    then ("healthy", "healthy")
    else if not (r.last_error == "")
    then ("error", "unreachable")
    else ("pending", "pending")

unfoldable pub reader_row : ℕ → ReaderStatus → ReaderRow
unfolding human_duration reader_state
reader_row now r = record {
  mode = r.mode;
  name = r.name;
  account = r.account;
  cluster = r.cluster;
  region = r.region;
  poll_interval = human_duration r.poll_interval;
  last_polled =
      if eqb r.last_poll_ok 0 then "never" else human_duration (now - r.last_poll_ok) +++ " ago";
  state = (reader_state r).0;
  state_label = (reader_state r).1;
  last_error = r.last_error;
}

unfoldable pub reader_rows_for : ℕ → Option (List ReaderStatus) → List ReaderRow
unfolding reader_row
reader_rows_for now none = []
reader_rows_for now (some []) = []
reader_rows_for now (some (r ∷ rs)) = reader_row now r ∷ reader_rows_for now (some rs)

pub data PortError : Type 0 where
  not_a_number : String → PortError
  out_of_range : PortError

-- `strconv.Atoi` with the sign taken off: the value, if the digits are some and it has 63 bits. The flag says that the
-- sign was a minus, after which one value more is a number.
magnitude : Bool → String → Option ℕ
unfolding digits
magnitude negative s = if s == "" then none else elim (digits 0 s) [
  | none ↦ none
  | some n ↦ if leb n (if negative then 2 ^ 63 else max_duration) then some n else none
]

-- Whether the number is negative, and its size.
atoi : String → Option (Bool × ℕ)
unfolding magnitude
atoi String.[] = none
atoi (String.◌∷◌ c s) =
    let negative = eqb (code c) b'-' in
    let rest = if negative then s else if eqb (code c) b'+' then s else String.◌∷◌ c s in
    elim (magnitude negative rest) [ none ↦ none | some n ↦ some (negative, n) ]

in_range : Bool × ℕ → Result PortError ℕ
in_range (true, n) = err out_of_range
in_range (false, n) =
    if eqb n 0 then err out_of_range else if ltb 65535 n then err out_of_range else ok n

-- `ParseTraefikPort`.
unfoldable pub parse_traefik_port : String → Result PortError ℕ
unfolding atoi in_range
parse_traefik_port s =
    if s == "" then ok 0 else elim (atoi s) [ none ↦ err (not_a_number s) | some z ↦ in_range z ]

-- What a request of the tailnet server meets.
pub data Route : Type 0 where
  status_page not_found metrics_hint traefik_disabled : Route
  traefik_proxy : String → Route

-- `traefikHandler`, which proxies to the target.
unfoldable pub traefik_handler : ℕ → Route
unfolding itoa
traefik_handler port =
    if eqb port 0 then traefik_disabled else traefik_proxy ("http://127.0.0.1:" +++ itoa port)

-- `tailnetMux`, on a path that the mux does not redirect.
unfoldable pub tailnet_route : ℕ → String → Route
unfolding traefik_handler has_prefix
tailnet_route port path =
    if path == "/metrics"
    then metrics_hint
    else if path == "/traefik"
    then traefik_handler port
    else if has_prefix "/traefik/" path
    then traefik_handler port
    else if path == "/"
    then status_page
    else not_found
