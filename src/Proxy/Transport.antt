-- ===== src/Proxy/Transport.antt =====
-- proxy/reverseproxy.go: one request's round trip over the pool of its service. What a backend, or the invoker of a
-- function backend, answers to an attempt is an argument, as is whether the request's context is done
-- after an attempt. An error is what `errors.Is` and `errors.As` find in its chain, and its text.
pub mod Order
pub mod Retry
use tsserve.Base.{
  ℕ, zero, suc, ◌+◌, ◌%◌, String, Bool, true, false, not, ◌&&◌, ◌||◌, Option, none, some, List, [],
  ◌∷◌, length, get_elem?, Result, ok, err, ◌==◌, if◌then◌else◌,
}
use tsserve.Base.Text.{contains_text}
use tsserve.Proxy.Backend.{Backend, FunctionInvoker}
use tsserve.Proxy.Pool.{BackendPool, rotation}

pub record ProxyError : Type 0 where
  pub is_no_backend : Bool
  -- a `connectError`, a `functionError`, an `attemptError`
  pub is_connect : Bool
  pub is_function : Bool
  pub is_attempted : Bool
  -- the code of a `smithy.APIError`
  pub api_code : Option String
  pub text : String

abbrev pub err_no_backend : ProxyError
err_no_backend = record {
  is_no_backend = true;
  is_connect = false;
  is_function = false;
  is_attempted = false;
  api_code = none;
  text = "no backend registered for service";
}

-- `apiErrorCode`
unfoldable pub api_error_code : ProxyError → String
api_error_code e = elim e.api_code [ none ↦ "" | some code ↦ code ]

unfoldable pub is_throttle : ProxyError → Bool
unfolding api_error_code
is_throttle e = api_error_code e == "TooManyRequestsException"

-- `functionDidNotRun`
unfoldable pub function_did_not_run : ProxyError → Bool
unfolding api_error_code
function_did_not_run e =
    let code = api_error_code e in
    code == "TooManyRequestsException"
    || code == "ResourceNotFoundException"
    || code == "AccessDeniedException"

unfoldable pub classify_proxy_error : Option ProxyError → String
unfolding is_throttle contains_text
classify_proxy_error none = "other"
classify_proxy_error (some e) =
    if e.is_no_backend
    then "no-backend"
    else if e.is_function
    then "function-error"
    else if is_throttle e
    then "throttled"
    else if contains_text "context deadline exceeded" e.text || contains_text "i/o timeout" e.text
    then "timeout"
    else if contains_text "connection refused" e.text
    then "connection-refused"
    else if contains_text "no such host" e.text
    then "dns"
    else if contains_text "EOF" e.text
    then "eof"
    else "other"

-- The parts of a request that the transport reads or writes.
pub record Request : Type 0 where
  pub url_scheme : String
  pub url_host : String
  pub host : String
  pub has_body : Bool

-- The copy of the request that one attempt sends.
unfoldable pub attempt_of : String → Backend → Request → Request
attempt_of scheme b req = elim b.invoker [
  | some f ↦ req
  | none ↦ record req { url_scheme = scheme; url_host = b.addr; host = b.addr }
]

-- The members in the order of the loop, from pass `i` and for `n` passes; `none` is an index out of range.
unfoldable pub order : ℕ → ℕ → ℕ → List Backend → Option (List Backend)
order start i zero members = some []
order start i (suc n) members =
    let rest = order start (i + 1) n members in
    elim (get_elem? members ((start + i) % length members)) [
      | none ↦ none
      | some b ↦ elim rest [ none ↦ none | some bs ↦ some (b ∷ bs) ]
    ]

-- What a round trip comes to: the members that it tried, the errors that it reported, and its result.
pub record Outcome (R : Type 0) : Type 0 where
  pub tried : List Backend
  pub reported : List ProxyError
  pub result : Result ProxyError R

abbrev pub attempt_error : ProxyError → ProxyError
attempt_error e = record e { is_attempted = true }

-- The loop ends with this attempt's error.
abbrev pub stops : Bool → Request → ProxyError → Bool
stops done req e = req.has_body || (not e.is_connect || done)

module _ {R : Type 0} (send : Backend → Request → Result ProxyError R) (done : Backend → Bool) where
  -- The loop over the members in their order; `last` is the last error.
  unfoldable pub walk : String → Request → ProxyError → List Backend → Outcome R
  unfolding attempt_of
  walk scheme req last [] = record { tried = []; reported = []; result = err last }
  walk scheme req last (b ∷ bs) = elim (send b (attempt_of scheme b req)) [
    | ok resp ↦ record { tried = b ∷ []; reported = []; result = ok resp }
    | err e ↦
        let e' = attempt_error e in
        if stops (done b) req e
        then record { tried = b ∷ []; reported = e ∷ []; result = err e' }
        else let o = walk scheme req e' bs in
          record o { tried = b ∷ o.tried; reported = e ∷ o.reported }
  ]

  -- The loop of `RoundTrip`; `none` is a run-time panic.
  unfoldable pub try_members : String → Request → List Backend → ℕ → Option (Outcome R)
  unfolding order walk
  try_members scheme req members start = elim (order start 0 (length members) members) [
    | none ↦ none
    | some bs ↦ some (walk scheme req err_no_backend bs)
  ]

  -- `RoundTrip`, with the pool after it.
  unfoldable pub round_trip : String → Request → BackendPool → Option (Outcome R) × BackendPool
  unfolding rotation try_members
  round_trip scheme req p =
      let ((members, start), p') = rotation p in
      let tried = try_members scheme req members start in
      (
        (elim members [
          | [] ↦ some (record { tried = []; reported = []; result = err err_no_backend })
          | b ∷ bs ↦ tried
        ]),
        p',
      )

-- `ErrorHandler`: whether it counts the error itself, and the text of the 502 answer.
unfoldable pub error_handler : ProxyError → Option String × ℕ
unfolding classify_proxy_error
error_handler e = (if e.is_attempted then none else some (classify_proxy_error (some e)), 502)
