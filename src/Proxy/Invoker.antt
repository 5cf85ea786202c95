-- ===== src/Proxy/Invoker.antt =====
-- proxy/invoker.go: one request to a function backend. `encoding/json`'s and `encoding/base64`'s results and the parsed
-- media type are arguments, as is the answer of `Invoke`; a body is its characters, one for a byte.
pub mod Laws
use Prim.Native.Char.{Char, code}
use Prim.Native.String.{◌++◌ as ◌+++◌}
use tsserve.Base.{
  ℕ, zero, suc, String, Bool, true, false, not, ◌&&◌, ◌||◌, Option, none, some, List, [], ◌∷◌, ◌++◌,
  Map, lookup, put, Result, ok, err, ◌==◌, if◌then◌else◌, ltb,
}
use tsserve.Base.Int.{ℤ, pos, negsuc}
use tsserve.Base.Text.{has_prefix, has_suffix, split, trim_space, join, itoa, same_fold, to_lower}
use tsserve.Proxy.Backend.{FunctionInvoker}
use tsserve.Proxy.Transport.{ProxyError, function_did_not_run}
use tsserve.Proxy.Identity.{first_forwarded_for}

abbrev pub max_function_body : ℕ
max_function_body = 4194304

abbrev pub size : String → ℕ
size String.[] = 0
size (String.◌∷◌ c s) = suc (size s)

pub data Body : Type 0 where
  read : String → Body
  too_large : Body

-- `readBody`, of what reading the request's body gives, when it has one; a body that is cut off at one byte over
-- the limit is read as far as the limit asks.
unfoldable pub read_body : Option (Result String String) → Result String Body
read_body none = ok (read "")
read_body (some (err e)) = err e
read_body (some (ok body)) =
    if ltb max_function_body (size body) then ok too_large else ok (read body)

-- The inbound request: its headers with all their values, and the query's parameters.
pub record Inbound : Type 0 where
  pub method : String
  pub host : String
  pub path : String
  pub raw_query : String
  pub proto : String
  pub headers : Map (List String)
  pub query : Map (List String)
  pub body : Option (Result String String)

pub record FunctionEvent : Type 0 where
  pub version : String
  pub route_key : String
  pub raw_path : String
  pub raw_query_string : String
  pub cookies : List String
  pub headers : Map String
  pub query_string_parameters : Option (Map String)
  pub domain_name : String
  pub stage : String
  pub method : String
  pub protocol : String
  pub source_ip : String
  pub user_agent : String
  pub body : String
  pub is_base64_encoded : Bool

-- The cookies of one header's value.
unfoldable pub keep_cookies : List String → List String
unfolding trim_space
keep_cookies [] = []
keep_cookies (c ∷ cs) =
    let rest = keep_cookies cs in
    let cookie = trim_space c in if cookie == "" then rest else cookie ∷ rest

unfoldable pub cookies_of : List String → List String
unfolding keep_cookies split
cookies_of [] = []
cookies_of (v ∷ vs) = keep_cookies (split b';' v) ++ cookies_of vs

-- The loop over the headers.
unfoldable pub event_headers :
    Map (List String) → Map String × List String → Map String × List String
unfolding put cookies_of join same_fold to_lower
event_headers [] acc = acc
event_headers ((name, values) ∷ rest) (headers, cookies) =
    let v = join "," values in
    event_headers rest (
      if same_fold name "cookie"
      then (headers, cookies ++ cookies_of values)
      else if v == ""
      then (headers, cookies)
      else (put (to_lower name) v headers, cookies))

unfoldable pub joined : Map (List String) → Map String
unfolding join
joined [] = []
joined ((name, values) ∷ rest) = (name, join "," values) ∷ joined rest

-- `Header.Get` of a name in its canonical form.
unfoldable pub first_value : String → Map (List String) → String
unfolding lookup
first_value name h = elim (lookup name h) [ none ↦ "" | some [] ↦ "" | some (v ∷ vs) ↦ v ]

-- `isTextual`, of the media type that `mime.ParseMediaType` finds.
unfoldable pub is_textual : Option String → Bool
unfolding has_prefix has_suffix
is_textual none = false
is_textual (some mt) =
    has_prefix "text/" mt
    || mt == "application/json"
    || mt == "application/x-www-form-urlencoded"
    || mt == "application/xml"
    || has_suffix "+json" mt
    || has_suffix "+xml" mt

module _ (media_type : String → Option String) (encode64 : String → String) where
  unfoldable pub new_function_event : Inbound → String → FunctionEvent
  unfolding event_headers put joined first_value first_forwarded_for is_textual
  new_function_event req body =
      let (headers, cookies) = event_headers req.headers ([], []) in
      let textual = is_textual (media_type (first_value "Content-Type" req.headers)) in
      record {
        version = "2.0";
        route_key = "$default";
        raw_path = req.path;
        raw_query_string = req.raw_query;
        cookies = cookies;
        headers = put "host" req.host headers;
        query_string_parameters = elim req.query [ [] ↦ none | q ∷ qs ↦ some (joined (q ∷ qs)) ];
        domain_name = req.host;
        stage = "$default";
        method = req.method;
        protocol = req.proto;
        source_ip = first_forwarded_for (first_value "X-Forwarded-For" req.headers);
        user_agent = first_value "User-Agent" req.headers;
        body = if body == "" || textual then body else encode64 body;
        is_base64_encoded = not (body == "") && not textual;
      }

pub record FunctionResult : Type 0 where
  pub status_code : ℤ
  pub headers : Map String
  pub cookies : List String
  pub body : String
  pub is_base64_encoded : Bool

-- A response's status, its headers with all their values, and its body.
pub record Response : Type 0 where
  pub status : ℕ
  pub headers : Map (List String)
  pub body : String

unfoldable pub new_response : ℕ → String → Response
unfolding itoa
new_response code body = record {
  status = code;
  headers = ("Content-Length", itoa (size body) ∷ []) ∷ [];
  body = body;
}

abbrev set_header : String → String → Response → Response
unfolding put
set_header name v r = record r { headers = put name (v ∷ []) r.headers }

unfoldable pub text_response : ℕ → String → Response
unfolding new_response put
text_response code msg =
    set_header "Content-Type" "text/plain; charset=utf-8" (new_response code msg)

-- The headers of a structured result, but for those that describe the transfer. `canonical` is
-- `http.CanonicalHeaderKey`, which `Set` and `Add` apply.
unfoldable pub copy_headers : (String → String) → Map String → Map (List String) → Map (List String)
unfolding put same_fold
copy_headers canonical [] h = h
copy_headers canonical ((name, v) ∷ rest) h = copy_headers canonical rest (
    if same_fold name "content-length" || same_fold name "transfer-encoding"
    then h
    else put (canonical name) (v ∷ []) h)

unfoldable pub add_cookies : List String → Map (List String) → Map (List String)
unfolding put lookup
add_cookies [] h = h
add_cookies (c ∷ cs) h =
    let set : List String = elim (lookup "Set-Cookie" h) [ none ↦ [] | some vs ↦ vs ] in
    add_cookies cs (put "Set-Cookie" (set ++ c ∷ []) h)

pub data ResponseError : Type 0 where
  bad_result bad_body : String → ResponseError
  bad_status : ℤ → ResponseError

module _ (canonical : String → String) (decode64 : String → Result String String)
    -- whether the payload is a JSON object with a `statusCode`, and its decoding as a result
    (structured : String → Bool) (decode : String → Result String FunctionResult) where
  unfoldable pub structured_response : ℕ → FunctionResult → String → Response
  unfolding new_response copy_headers add_cookies
  structured_response code res body =
      let r = new_response code body in
      record r { headers = add_cookies res.cookies (copy_headers canonical res.headers r.headers) }

  -- The end of `functionResponse`, for a status that is in range.
  with_body : ℕ → FunctionResult → Result ResponseError Response
  unfolding structured_response
  with_body code res =
      if res.is_base64_encoded
      then elim (decode64 res.body) [
        | err e ↦ err (bad_body e)
        | ok body ↦ ok (structured_response code res body)
      ]
      else ok (structured_response code res res.body)

  -- `functionResponse`, for a structured result.
  pub with_status : ℤ → FunctionResult → Result ResponseError Response
  unfolding with_body
  with_status (negsuc n) res = err (bad_status (negsuc n))
  with_status (pos code) res =
      if ltb code 100 || ltb 999 code then err (bad_status (pos code)) else with_body code res

  unfoldable pub function_response : String → Result ResponseError Response
  unfolding new_response with_status put
  function_response payload =
      if not (structured payload)
      then ok (set_header "Content-Type" "application/json" (new_response 200 payload))
      else elim (decode payload) [
        | err e ↦ err (bad_result e)
        | ok res ↦ with_status res.status_code res
      ]

-- The answer of `Invoke`: its error, the function's own failure, or its payload.
pub data Invoked : Type 0 where
  api_failed : ProxyError → Invoked
  function_failed : String → String → Invoked
  returned_payload : String → Invoked

-- An error of an invoker's round trip. The error of `Invoke` is wrapped as a `connectError`, or passed on as it is.
pub data InvokeError : Type 0 where
  body_failed : String → InvokeError
  connect_error : ProxyError → InvokeError
  other_error : ProxyError → InvokeError
  function_error : String → String → InvokeError
  response_error : ResponseError → InvokeError

-- The pool's loop may go on to another member: the error has a `connectError` in its chain. An error of `Invoke` has
-- one already where the dialer of the client failed to reach the endpoint.
abbrev pub is_retriable : InvokeError → Bool
is_retriable (connect_error e) = true
is_retriable (other_error e) = e.is_connect
is_retriable _ = false

-- The limit's message.
abbrev too_large_text : String
unfolding itoa
too_large_text =
    "request body exceeds the " +++ itoa max_function_body +++ " byte limit of a function backend\n"

pub responded : Result ResponseError Response → Result InvokeError Response
responded (err e) = err (response_error e)
responded (ok r) = ok r

module _ (respond : String → Result ResponseError Response) (invoke : String → Invoked) where
  unfoldable pub after_invoke : Invoked → Result InvokeError Response
  unfolding function_did_not_run responded
  after_invoke (api_failed e) =
      if function_did_not_run e then err (connect_error e) else err (other_error e)
  after_invoke (function_failed kind payload) = err (function_error kind payload)
  after_invoke (returned_payload payload) = responded (respond payload)

  -- `RoundTrip` once the body has been read.
  pub after_read : Result String Body → Bool × Result InvokeError Response
  unfolding text_response after_invoke itoa
  after_read (err e) = (false, err (body_failed e))
  after_read (ok too_large) = (false, ok (text_response 413 too_large_text))
  after_read (ok (read body)) = (true, after_invoke (invoke body))

  -- `RoundTrip`, with whether it invoked the function. `invoke` takes the body that the event carries.
  unfoldable pub round_trip : Inbound → Bool × Result InvokeError Response
  unfolding read_body after_read
  round_trip req = after_read (read_body req.body)
