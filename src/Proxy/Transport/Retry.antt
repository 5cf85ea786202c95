-- ===== src/Proxy/Transport/Retry.antt =====
-- What a round trip tries, and when it gives up.
use native.Mathlib.Nat.{mod-lt}
use tsserve.Base.{
  ℕ, String, zero, suc, ◌%◌, ◌<◌, ◌≤◌, ◌≡◌, ◌≢◌, ◌∙◌, refl, sym, ap, subst, inl, inr, Bool, true,
  false, none, some, List, [], ◌∷◌, ◌++◌, length, contains, Distinct, All, drop_first, take,
  drop_first-length, append_nil, append_assoc, take-append-drop_first, Result, ok, err, arith,
  Bool-cases, Result-cases,
}
use tsserve.Proxy.Backend.{Backend}
use tsserve.Proxy.Pool.Members.{snoc-Distinct}
use tsserve.Proxy.Pool.{BackendPool, keys_of, position, rotation}
use tsserve.Proxy.Transport.{
  ProxyError, Request, attempt_of, Outcome, attempt_error, stops, walk, try_members, round_trip,
  err_no_backend,
}
use tsserve.Proxy.Transport.Order.{order_lem}

-- The members in the order of the assigned rotation.
abbrev rotated : BackendPool → List Backend
rotated p =
    let start = position p.next % length p.members in
    drop_first start p.members ++ take start p.members

All-split : {A : Type 0} (P : A → Type 0) (xs ys : List A) → All P (xs ++ ys) → All P xs × All P ys
All-split P [] ys h = (tt, h)
All-split P (x ∷ xs) ys h = let rest = All-split P xs ys h.1 in ((h.0, rest.0), rest.1)

All-append : {A : Type 0} (P : A → Type 0) (xs ys : List A) → All P xs → All P ys → All P (xs ++ ys)
All-append P [] ys h k = k
All-append P (x ∷ xs) ys h k = (h.0, All-append P xs ys h.1 k)

take_nil : {A : Type 0} (n : ℕ) → take {A = A} n [] ≡ []
take_nil zero = refl
take_nil (suc n) = refl

-- The keys of a part and of the rest are distinct when those of the whole are.
Distinct-rotate :
    (xs ys : List Backend) → Distinct (keys_of (xs ++ ys)) → Distinct (keys_of (ys ++ xs))
unfolding keys_of
Distinct-rotate [] ys d = rw (append_nil ys) d
Distinct-rotate (x ∷ xs) ys d =
    let turned : Distinct (keys_of (xs ++ (ys ++ x ∷ []))) =
      rw (append_assoc xs ys (x ∷ [])) at (snoc-Distinct (xs ++ ys) x d.1 d.0) in
    rw (append_assoc ys (x ∷ []) xs) at (Distinct-rotate xs (ys ++ x ∷ []) turned)

module _ {R : Type 0} (send : Backend → Request → Result ProxyError R) (done : Backend → Bool) where
  try_members_lem :
      (scheme : String) (req : Request) (ms : List Backend) (start : ℕ)
      → start < length ms
      → try_members send done scheme req ms start
        ≡ some (walk send done scheme req err_no_backend (drop_first start ms ++ take start ms))
  unfolding try_members
  try_members_lem scheme req ms start inside = rw (try_members, order_lem start ms inside) refl

  walk_members :
      (scheme : String) (req : Request) (ms : List Backend) (n : ℕ)
      → (round_trip send done scheme req (record { members = ms; next = n })).0
        ≡ some
            (walk send done scheme req err_no_backend (rotated (record { members = ms; next = n })))
  unfolding round_trip rotation try_members
  walk_members scheme req [] n =
      rw
        (
          drop_first-length {A = Backend} [] (position n % 0) (omega arith),
          take_nil {A = Backend} (position n % 0),
          walk,
        )
        refl
  walk_members scheme req (b ∷ bs) n =
      try_members_lem scheme req (b ∷ bs) (position n % length (b ∷ bs))
        (mod-lt (position n) (omega arith))

  -- A round trip never reads the pool out of range, and is the walk over the rotated members.
  round_trip-walk :
      (scheme : String) (req : Request) (p : BackendPool)
      → (round_trip send done scheme req p).0
        ≡ some (walk send done scheme req err_no_backend (rotated p))
  round_trip-walk scheme req p = walk_members scheme req p.members p.next

  walk-contains :
      (scheme : String) (req : Request) (last : ProxyError) (bs : List Backend) (k : String)
      → contains (keys_of bs) k ≡ false
      → contains (keys_of (walk send done scheme req last bs).tried) k ≡ false
  unfolding walk keys_of contains
  walk-contains scheme req last [] k h = refl
  walk-contains scheme req last (b ∷ bs) k h =
      elim (Result-cases (send b (attempt_of scheme b req))) [
        | inl (resp, e) ↦ ground (arith, e)
        | inr (e, f) ↦
            ground (arith, f, walk-contains scheme req (record e { is_attempted = true }) bs k)
      ]

  walk-Distinct :
      (scheme : String) (req : Request) (last : ProxyError) (bs : List Backend)
      → Distinct (keys_of bs)
      → Distinct (keys_of (walk send done scheme req last bs).tried)
  unfolding walk keys_of contains
  walk-Distinct scheme req last [] d = tt
  walk-Distinct scheme req last (b ∷ bs) d =
      elim (Result-cases (send b (attempt_of scheme b req))) [
        | inl (resp, e) ↦ ground (arith, e)
        | inr (e, f) ↦
            let e' : ProxyError = record e { is_attempted = true } in
            ground (
              arith,
              f,
              walk-contains scheme req e' bs b.key d.0,
              walk-Distinct scheme req e' bs d.1,
            )
      ]

  walk-once :
      (scheme : String) (req : Request) (last : ProxyError) (bs : List Backend)
      → req.has_body ≡ true
      → length (walk send done scheme req last bs).tried ≤ 1
  unfolding walk
  walk-once scheme req last [] h = omega arith
  walk-once scheme req last (b ∷ bs) h = ground (arith, h)

  -- A round trip never reads the pool out of range.
  pub round_trip-ne-none :
      (scheme : String) (req : Request) (p : BackendPool)
      → (round_trip send done scheme req p).0 ≢ none
  round_trip-ne-none scheme req p e = ground (arith, e, round_trip-walk scheme req p)

  -- When the pool's keys are distinct, a round trip tries no member twice.
  pub round_trip-Distinct :
      (scheme : String) (req : Request) (p : BackendPool) (o : Outcome R)
      → Distinct (keys_of p.members)
      → (round_trip send done scheme req p).0 ≡ some o
      → Distinct (keys_of o.tried)
  round_trip-Distinct scheme req p o d ran =
      let start = position p.next % length p.members in
      let whole : Distinct (keys_of (take start p.members ++ drop_first start p.members)) =
        rw (take-append-drop_first p.members start) d in
      let same : walk send done scheme req err_no_backend (rotated p) ≡ o =
        ground (arith, ran, round_trip-walk scheme req p) in
      subst (λ (x : Outcome R). Distinct (keys_of x.tried)) same
        (walk-Distinct scheme req err_no_backend (rotated p)
          (Distinct-rotate (take start p.members) (drop_first start p.members) whole))

  -- A request with a body is sent to at most one member.
  pub round_trip-once :
      (scheme : String) (req : Request) (p : BackendPool) (o : Outcome R)
      → req.has_body ≡ true
      → (round_trip send done scheme req p).0 ≡ some o
      → length o.tried ≤ 1
  round_trip-once scheme req p o body ran =
      let same : walk send done scheme req err_no_backend (rotated p) ≡ o =
        ground (arith, ran, round_trip-walk scheme req p) in
      subst (λ (x : Outcome R). length x.tried ≤ 1) same
        (walk-once scheme req err_no_backend (rotated p) body)

  -- Whether a member fails an attempt at the request.
  abbrev pub fails : String → Request → Backend → Bool
  fails scheme req b = elim (send b (attempt_of scheme b req)) [ ok r ↦ false | err e ↦ true ]

  -- An attempt that failed with an error that another attempt may follow.
  abbrev pub CanRetry : Result ProxyError R → Type 0
  CanRetry (ok r) = ⊥
  CanRetry (err e) = e.is_connect ≡ true

  -- Among the members tried, each that another one follows failed to connect, and the request has no body and its
  -- context was open after that attempt.
  abbrev pub RetriedSafely : String → Request → List Backend → Type 0
  RetriedSafely scheme req [] = Unit
  RetriedSafely scheme req (b ∷ []) = Unit
  RetriedSafely scheme req (b ∷ c ∷ bs) =
      CanRetry (send b (attempt_of scheme b req))
      × (done b ≡ false)
      × (req.has_body ≡ false)
      × RetriedSafely scheme req (c ∷ bs)

  abbrev failure : Result ProxyError R → List ProxyError → List ProxyError
  failure (ok r) es = es
  failure (err e) es = e ∷ es

  -- The errors of the members' attempts.
  abbrev pub failures : String → Request → List Backend → List ProxyError
  failures scheme req [] = []
  failures scheme req (b ∷ bs) = failure (send b (attempt_of scheme b req)) (failures scheme req bs)

  cons-RetriedSafely :
      (scheme : String) (req : Request) (b : Backend) (bs : List Backend) (e : ProxyError)
      → send b (attempt_of scheme b req) ≡ err e
      → stops (done b) req e ≡ false
      → RetriedSafely scheme req bs
      → RetriedSafely scheme req (b ∷ bs)
  cons-RetriedSafely scheme req b [] e f on h = tt
  cons-RetriedSafely scheme req b (c ∷ bs) e f on h =
      (subst CanRetry (sym f) (ground (arith, on)), ground (arith, on), ground (arith, on), h)

  walk-RetriedSafely :
      (scheme : String) (req : Request) (last : ProxyError) (bs : List Backend)
      → RetriedSafely scheme req (walk send done scheme req last bs).tried
        × ((walk send done scheme req last bs).reported
            ≡ failures scheme req (walk send done scheme req last bs).tried)
  unfolding walk
  walk-RetriedSafely scheme req last [] = (tt, refl)
  walk-RetriedSafely scheme req last (b ∷ bs) =
      elim (Result-cases (send b (attempt_of scheme b req))) [
        | inl (resp, e) ↦ rw (walk, e) (tt, rw e refl)
        | inr (e, f) ↦ elim (Bool-cases (stops (done b) req e)) [
          | inl over ↦ rw (walk, f, over) (tt, rw f refl)
          | inr on ↦
              let (safe, told) = walk-RetriedSafely scheme req (attempt_error e) bs in
              rw (walk, f, on)
                (
                  cons-RetriedSafely scheme req b
                      (walk send done scheme req (attempt_error e) bs).tried e f on safe,
                  rw f (ap (λ es. e ∷ es) told),
                )
        ]
      ]

  walk-All :
      (scheme : String) (req : Request) (last : ProxyError) (bs : List Backend)
      → req.has_body ≡ false
      → ((b : Backend) (e : ProxyError)
          → send b (attempt_of scheme b req) ≡ err e
          → e.is_connect ≡ true)
      → ((b : Backend) → done b ≡ false)
      → (e : ProxyError) → (walk send done scheme req last bs).result ≡ err e
      → All (λ b. fails scheme req b ≡ true) bs
  unfolding walk
  walk-All scheme req last [] open' connects live e h = tt
  walk-All scheme req last (b ∷ bs) open' connects live e h =
      elim (Result-cases (send b (attempt_of scheme b req))) [
        | inl (resp, f) ↦ absurd (ground (arith, f, h))
        | inr (x, f) ↦
            let x' : ProxyError = record x { is_attempted = true } in
            let rest : (walk send done scheme req x' bs).result ≡ err e =
              ground (arith, f, h, open', connects b x f, live b) in
            (rw (fails, f) refl, walk-All scheme req x' bs open' connects live e rest)
      ]

  -- A round trip goes on to another member only after a failure to connect, of a request without a body whose context
  -- is open; and what it reports are the errors of all its attempts that failed.
  pub round_trip-RetriedSafely :
      (scheme : String) (req : Request) (p : BackendPool) (o : Outcome R)
      → (round_trip send done scheme req p).0 ≡ some o
      → RetriedSafely scheme req o.tried × (o.reported ≡ failures scheme req o.tried)
  round_trip-RetriedSafely scheme req p o ran =
      let same : walk send done scheme req err_no_backend (rotated p) ≡ o =
        ground (arith, ran, round_trip-walk scheme req p) in
      subst
        (λ (x : Outcome R).
          RetriedSafely scheme req x.tried × (x.reported ≡ failures scheme req x.tried))
        same (walk-RetriedSafely scheme req err_no_backend (rotated p))

  -- When the request has no body, its context stays open and every failure is a failure to connect, a round trip
  -- fails only if every member of the pool fails.
  pub round_trip-All :
      (scheme : String) (req : Request) (p : BackendPool) (o : Outcome R) (e : ProxyError)
      → req.has_body ≡ false
      → ((b : Backend) (x : ProxyError)
          → send b (attempt_of scheme b req) ≡ err x
          → x.is_connect ≡ true)
      → ((b : Backend) → done b ≡ false)
      → (round_trip send done scheme req p).0 ≡ some o
      → o.result ≡ err e
      → All (λ b. fails scheme req b ≡ true) p.members
  round_trip-All scheme req p o e open' connects live ran failed =
      let start = position p.next % length p.members in
      let same : walk send done scheme req err_no_backend (rotated p) ≡ o =
        ground (arith, ran, round_trip-walk scheme req p) in
      let all =
        walk-All scheme req err_no_backend (rotated p) open' connects live e
          (ap (λ (x : Outcome R). x.result) same ∙ failed) in
      let parts = All-split _ (drop_first start p.members) (take start p.members) all in
      rw (take-append-drop_first p.members start) at
        (All-append _ (take start p.members) (drop_first start p.members) parts.1 parts.0)
