-- ===== src/Tests/Requests.antt =====
-- proxy/reverseproxy.go, proxy/pool.go, proxy/invoker.go and labels/labels.go at concrete requests: a pool of two members whose
-- first one refuses connections.
use tsserve.Base.{
  ◌≤◌, ◌≡◌, contains, refl, String, Bool, true, false, Option, none, some, [], ◌∷◌, length, lookup,
  Map, Distinct, All, Result, ok, err, arith, ◌==◌, contains,
}
use tsserve.Base.Int.{pos, negsuc}
use tsserve.Base.Text.{has_prefix, split, trim_space, parse_uint16}
use tsserve.Labels as Labels
use tsserve.Labels.Laws.{parse_lem, Valid}
use tsserve.Proxy.Backend.{Backend, Origin}
use tsserve.Proxy.Pool.{BackendPool, keys_of}
use tsserve.Proxy.Pool.Rotation.{rotation_lem, Assigned}
use tsserve.Proxy.Transport.{ProxyError, Request, Outcome, attempt_of, round_trip}
use tsserve.Proxy.Transport.Retry.{
  round_trip-Distinct, round_trip-once, round_trip-RetriedSafely, failures, RetriedSafely,
  round_trip-All, fails,
}
use tsserve.Proxy.Identity.{header_node_name, header_node_tags, Node, rewrite}
use tsserve.Proxy.Identity.Laws.{rewrite_lem, name_of, tags_of, entitled}
use tsserve.Proxy.Invoker as Invoker
use tsserve.Proxy.Invoker.Laws.{function_response_lem, MayRetry}

abbrev nowhere : Origin
nowhere = record { account = ""; cluster = ""; region = "" }

abbrev member : String → Backend
member key = record {
  key = key;
  addr = key;
  registered_at = 0;
  origin = nowhere;
  invoker = none;
  target = "";
}

abbrev two : BackendPool
two = record { members = member "a" ∷ member "b" ∷ []; next = 0 }

abbrev refusal : ProxyError
refusal = record {
  is_no_backend = false;
  is_connect = true;
  is_function = false;
  is_attempted = false;
  api_code = none;
  text = "connection refused";
}

-- The member `a` refuses connections, and the others answer.
abbrev send : Backend → Request → Result ProxyError String
send b req = elim (b.key == "a") [ true ↦ err refusal | false ↦ ok "hello" ]

-- Every member refuses connections.
abbrev refuse : Backend → Request → Result ProxyError String
refuse b req = err refusal

abbrev open_context : Backend → Bool
open_context b = false

abbrev get : Request
get = record { url_scheme = "http"; url_host = ""; host = "web"; has_body = false }

abbrev post : Request
post = record { url_scheme = "http"; url_host = ""; host = "web"; has_body = true }

abbrev walked : Outcome String
walked = record {
  tried = member "a" ∷ member "b" ∷ [];
  reported = refusal ∷ [];
  result = ok "hello";
}

abbrev stopped : Outcome String
stopped = record {
  tried = member "a" ∷ [];
  reported = refusal ∷ [];
  result = err (record refusal { is_attempted = true });
}

abbrev exhausted : Outcome String
exhausted = record {
  tried = member "a" ∷ member "b" ∷ [];
  reported = refusal ∷ refusal ∷ [];
  result = err (record refusal { is_attempted = true });
}

get_walks : (round_trip send open_context "http" get two).0 ≡ some walked
unfolding round_trip
get_walks = refl

post_stops : (round_trip send open_context "http" post two).0 ≡ some stopped
unfolding round_trip
post_stops = refl

get_exhausts : (round_trip refuse open_context "http" get two).0 ≡ some exhausted
unfolding round_trip
get_exhausts = refl

round_trip-Distinct_example : Distinct (keys_of walked.tried)
unfolding keys_of contains
round_trip-Distinct_example =
    round_trip-Distinct send open_context "http" get two walked (refl, (refl, tt)) get_walks

round_trip-once_example : length stopped.tried ≤ 1
round_trip-once_example = round_trip-once send open_context "http" post two stopped refl post_stops

round_trip-RetriedSafely_example :
    RetriedSafely send open_context "http" get walked.tried
    × (walked.reported ≡ failures send open_context "http" get walked.tried)
round_trip-RetriedSafely_example =
    round_trip-RetriedSafely send open_context "http" get two walked get_walks

refuses :
    (b : Backend) (x : ProxyError)
    → refuse b (attempt_of "http" b get) ≡ err x
    → x.is_connect ≡ true
refuses b x h = ground arith

round_trip-All_example : All (λ b. fails refuse open_context "http" get b ≡ true) two.members
round_trip-All_example =
    round_trip-All refuse open_context "http" get two exhausted
      (record refusal { is_attempted = true }) refl refuses (λ b. refl) get_exhausts refl

rotation_lem_example : Assigned two
rotation_lem_example = rotation_lem two (omega arith) (omega arith)

abbrev peer : String → Option Node
peer ip = some (record { tags = "tag:ci" ∷ []; computed_name = "runner" })

abbrev spoofed : Map String
spoofed = ("X-Forwarded-For", "100.64.0.1") ∷ ("Tailscale-Node-Name", "root") ∷ []

rewrite_lem_example :
    (lookup header_node_name (rewrite (some peer) "web" spoofed spoofed)
      ≡ name_of (entitled (some peer) spoofed))
    × (lookup header_node_tags (rewrite (some peer) "web" spoofed spoofed)
        ≡ tags_of (entitled (some peer) spoofed))
rewrite_lem_example = rewrite_lem (some peer) "web" spoofed spoofed

abbrev labelled : Map String
labelled =
    ("tsserve.enable", "true") ∷ ("tsserve.service", "svc:web") ∷ ("tsserve.port", "8080") ∷ []

abbrev parsed : Labels.ServiceDef
parsed = record { service = "svc:web"; port = 8080; network = "bridge"; scheme = "http"; caps = [] }

parse_lem_example : (Labels.value_of Labels.enable labelled ≡ "true") × Valid parsed
unfolding Labels.parse Labels.value_of Labels.validate_service has_prefix parse_uint16
    Labels.parse_caps split trim_space
parse_lem_example = parse_lem labelled parsed refl

abbrev teapot : Invoker.FunctionResult
teapot = record {
  status_code = pos 418;
  headers = [];
  cookies = [];
  body = "short";
  is_base64_encoded = false;
}

abbrev answered : Invoker.Response
answered = record { status = 418; headers = ("Content-Length", "5" ∷ []) ∷ []; body = "short" }

function_response_lem_example : (100 ≤ answered.status) × (answered.status ≤ 999)
unfolding Invoker.function_response
function_response_lem_example =
    function_response_lem (λ n. n) (λ b. ok b) (λ p. true) (λ p. ok teapot) "{}" answered refl

abbrev throttled : ProxyError
throttled = record {
  is_no_backend = false;
  is_connect = false;
  is_function = false;
  is_attempted = false;
  api_code = some "TooManyRequestsException";
  text = "rate exceeded";
}

abbrev throttle : String → Invoker.Invoked
throttle body = Invoker.api_failed throttled

abbrev respond : String → Result Invoker.ResponseError Invoker.Response
respond payload = ok answered

abbrev inbound : Invoker.Inbound
inbound = record {
  method = "GET";
  host = "web";
  path = "/";
  raw_query = "";
  proto = "HTTP/1.1";
  headers = [];
  query = [];
  body = none;
}

throttled_retries : Invoker.is_retriable (Invoker.connect_error throttled) ≡ true
throttled_retries = refl

-- An endpoint that is not reached: the dialer's error is passed on, and the pool may go on.
abbrev unreachable : String → Invoker.Invoked
unreachable body = Invoker.api_failed (record throttled { is_connect = true; api_code = none })

unreachable_retries : MayRetry (Invoker.round_trip respond unreachable inbound).1
unfolding Invoker.round_trip
unreachable_retries = refl

abbrev negative_status : Invoker.FunctionResult
negative_status = record teapot { status_code = negsuc 0 }

negative_refused :
    Invoker.function_response (λ n. n) (λ b. ok b) (λ p. true) (λ p. ok negative_status) "{}"
    ≡ err (Invoker.bad_status (negsuc 0))
unfolding Invoker.function_response
negative_refused = refl
