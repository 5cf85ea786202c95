-- ===== src/Proxy/Invoker/Laws.antt =====
-- What a function backend's round trip guarantees.
use tsserve.Base.{
  ℕ, ◌≤◌, ◌≡◌, String, inl, inr, Bool, true, ◌||◌, Option, none, some, Result, ok, err, arith,
  Bool-cases, Result-cases, ltb,
}
use tsserve.Base.Int.{ℤ, pos, negsuc}
use tsserve.Proxy.Transport.{function_did_not_run}
use tsserve.Proxy.Invoker.{
  FunctionResult, Response, ResponseError, structured_response, function_response, new_response,
  with_body, with_status, InvokeError, is_retriable, Invoked, api_failed, Body, read, too_large,
}

module _ (canonical : String → String) (decode64 : String → Result String String)
    (structured : String → Bool) (decode : String → Result String FunctionResult) where
  with_body-status :
      (code : ℕ) (res : FunctionResult) (r : Response)
      → with_body canonical decode64 structured decode code res ≡ ok r
      → r.status ≡ code
  unfolding with_body structured_response new_response
  with_body-status code res r h = elim (Bool-cases res.is_base64_encoded) [
    | inr raw ↦ ground (arith, raw, h)
    | inl coded ↦ elim (Result-cases (decode64 res.body)) [
      | inr (e, bad) ↦ absurd (ground (arith, coded, bad, h))
      | inl (body, good) ↦ ground (arith, coded, good, h)
    ]
  ]

  with_status_bounds :
      (z : ℤ) (res : FunctionResult) (r : Response)
      → with_status canonical decode64 structured decode z res ≡ ok r
      → (100 ≤ r.status) × (r.status ≤ 999)
  unfolding with_status
  with_status_bounds (negsuc n) res r h = absurd (ground (arith, h))
  with_status_bounds (pos code) res r h = elim (Bool-cases (ltb code 100 || ltb 999 code)) [
    | inl out ↦ absurd (ground (arith, out, h))
    | inr in_range ↦
        let same = with_body-status code res r (ground (arith, in_range, h)) in
        (ground (arith, same, in_range), ground (arith, same, in_range))
  ]

  -- A response that `function_response` gives has a status from 100 to 999.
  pub function_response_lem :
      (payload : String) (r : Response)
      → function_response canonical decode64 structured decode payload ≡ ok r
      → (100 ≤ r.status) × (r.status ≤ 999)
  unfolding function_response new_response
  function_response_lem payload r h = elim (Bool-cases (structured payload)) [
    | inr plain ↦ (ground (arith, plain, h), ground (arith, plain, h))
    | inl on ↦ elim (Result-cases (decode payload)) [
      | inr (e, bad) ↦ absurd (ground (arith, on, bad, h))
      | inl (res, decoded) ↦
          with_status_bounds res.status_code res r (ground (arith, on, decoded, h))
    ]
  ]

-- The function did not run: its endpoint was not reached, or the API refused the call.
abbrev pub NotRun : Option Invoked → Type 0
NotRun (some (api_failed e)) = (e.is_connect || function_did_not_run e) ≡ true
NotRun _ = ⊥

abbrev pub MayRetry : Result InvokeError Response → Type 0
MayRetry (ok r) = ⊥
MayRetry (err e) = is_retriable e ≡ true

module _ (respond : String → Result ResponseError Response) (invoke : String → Invoked) where
  -- What `Invoke` answers for a body, which is asked only for one that is read within the limit.
  abbrev pub told : Result String Body → Option Invoked
  told (ok (read body)) = some (invoke body)
  told (ok too_large) = none
  told (err e) = none
