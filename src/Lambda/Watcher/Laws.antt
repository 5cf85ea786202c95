-- ===== src/Lambda/Watcher/Laws.antt =====
-- A cycle keeps the watcher's books in step with the registrar.
use tsserve.Base.{
  ℕ, ◌≡◌, ◌≢◌, ◌⊎◌, ◌∙◌, sym, has, subst, String, inl, inr, true, false, refl, Option, none, some,
  List, [], ◌∷◌, lookup, Result, ok, err, arith, eq_iff, Option-cases, Bool-cases, ◌==◌,
}
use tsserve.Discovery.Registrar.{Registrar}
use tsserve.Discovery.Tracker.{Tracker, note_failure, forget_failure}
use tsserve.Discovery.Tracker.Laws.{
  Synced, settle-Synced, remove_missing-Synced, Settled, settle-Settled, settle-others,
}
use tsserve.Lambda.Function.{
  Function, Registration, registration_of, same_registration, FunctionError, parse_function,
  to_string,
}
use tsserve.Lambda.Watcher.{
  Mapping, Watcher, Tagging, CycleError, registered_as, apply, apply_parsed, poll_mapping,
  poll_mappings, poll_listed, resolve_identity, list_tagged, cycle,
}

same_registration_lem : (a b : Registration) → same_registration a b ≡ true → a ≡ b
unfolding same_registration
same_registration_lem a b h =
    ground (arith, eq_iff a.service b.service, eq_iff a.caps b.caps, eq_iff a.qualifier b.qualifier)

-- A function is in service with this registration and recorded so, or it is neither in service nor active and its
-- failure is recorded.
abbrev pub InService :
    {S : Type 0}
    → Registrar S Function Registration String
    → String
    → Registration
    → Tracker S Registration
    → Type 0
InService reg key want t =
    ((reg.holds t.state key ≡ some want) × (lookup key t.active ≡ some want))
    ⊎ ((reg.holds t.state key ≡ none) × (lookup key t.active ≡ none) × (has key t.failed ≡ true))

module _ {S : Type 0} (reg : Registrar S Function Registration String)
    (text : FunctionError → String)
    (described : (fn : Function) → reg.described fn ≡ registration_of fn) where
  apply-Synced :
      (fn : Function) (t : Tracker S Registration) → Synced reg t → Synced reg (apply reg text fn t)
  unfolding apply forget_failure
  apply-Synced fn t h = elim (Bool-cases (registered_as fn.arn (registration_of fn) t)) [
    | inl held ↦ rw (apply, held) h
    | inr moved ↦
        rw (apply, moved)
          (settle-Synced reg same_registration _ fn.arn fn (registration_of fn) t (described fn) h)
  ]

  apply_parsed-Synced :
      (arn : String) (r : Result FunctionError Function) (t : Tracker S Registration)
      → Synced reg t
      → Synced reg (apply_parsed reg text arn r t)
  unfolding apply_parsed note_failure
  apply_parsed-Synced arn (err e) t h = h
  apply_parsed-Synced arn (ok fn) t h = apply-Synced fn t h

  poll_mapping-Synced :
      (m : Mapping) (ts : Tracker S Registration × List String)
      → Synced reg ts.0
      → Synced reg (poll_mapping reg text m ts).0
  unfolding poll_mapping
  poll_mapping-Synced m (t, seen) h =
      let arn = to_string m.resource_arn in
      elim (Bool-cases (arn == "")) [
        | inl blank ↦ rw (poll_mapping, blank) h
        | inr named ↦
            rw (poll_mapping, named) (apply_parsed-Synced arn (parse_function arn m.tags) t h)
      ]

  poll_mappings-Synced :
      (ms : List Mapping) (ts : Tracker S Registration × List String)
      → Synced reg ts.0
      → Synced reg (poll_mappings reg text ms ts).0
  unfolding poll_mappings
  poll_mappings-Synced [] ts h = h
  poll_mappings-Synced (m ∷ ms) ts h =
      poll_mappings-Synced ms (poll_mapping reg text m ts) (poll_mapping-Synced m ts h)

  poll_listed-Synced :
      (ms : List Mapping) (t : Tracker S Registration)
      → Synced reg t
      → Synced reg (poll_listed reg text ms t)
  unfolding poll_listed
  poll_listed-Synced ms t h =
      let polled = poll_mappings reg text ms (t, []) in
      remove_missing-Synced reg polled.1 polled.0 (poll_mappings-Synced ms (t, []) h)

  apply-recorded :
      (fn : Function) (t : Tracker S Registration)
      → Settled reg fn.arn (registration_of fn) (apply reg text fn t)
  unfolding apply forget_failure registered_as
  apply-recorded fn t = elim (Bool-cases (registered_as fn.arn (registration_of fn) t)) [
    | inl held ↦ elim (Option-cases (lookup fn.arn t.active)) [
      | inl free ↦ absurd (ground (arith, held, free))
      | inr (prev, at) ↦
          inl (ground (arith, held, at, same_registration_lem prev (registration_of fn)))
    ]
    | inr moved ↦
        rw (apply, moved)
          (settle-Settled reg same_registration _ fn.arn fn (registration_of fn) t
            same_registration_lem)
  ]

  apply-others :
      (fn : Function) (t : Tracker S Registration) (j : String)
      → (fn.arn == j) ≡ false
      → lookup j (apply reg text fn t).active ≡ lookup j t.active
  unfolding apply forget_failure
  apply-others fn t j other = elim (Bool-cases (registered_as fn.arn (registration_of fn) t)) [
    | inl held ↦ rw (apply, held) refl
    | inr moved ↦
        rw (apply, moved)
          (settle-others reg same_registration _ fn.arn j fn (registration_of fn) t other)
  ]

  -- When the books agree with the registrar, a function that is applied is then in service at the registrar as it is
  -- tagged, and recorded so; or the registrar has it in service no more, it is not active, and its failure is recorded.
  -- The registrar has every other function in service as it had.
  pub apply-Settled :
      (fn : Function) (t : Tracker S Registration)
      → Synced reg t
      → InService reg fn.arn (registration_of fn) (apply reg text fn t)
        × ((j : String)
            → j ≢ fn.arn
            → reg.holds (apply reg text fn t).state j ≡ reg.holds t.state j)
  apply-Settled fn t h =
      let now = apply-Synced fn t h fn.arn in
      (
        elim (apply-recorded fn t) [
          | inl at ↦ inl (sym now ∙ at, at)
          | inr (gone, noted) ↦ inr (sym now ∙ gone, gone, noted)
        ],
        λ j other.
            sym (apply-Synced fn t h j)
            ∙ (apply-others fn t j (ground (arith, eq_iff fn.arn j, other)) ∙ h j),
      )

  module _ (on_resolved : String → S → S)
      (holds-on_resolved : (account key : String) (s : S)
        → reg.holds (on_resolved account s) key ≡ reg.holds s key) where
    resolve_identity-Synced :
        (answer : Option (Result String String)) (w : Watcher S)
        → Synced reg w.tracker
        → Synced reg (resolve_identity reg text answer on_resolved w).0.tracker
    unfolding resolve_identity
    resolve_identity-Synced none w h key = ground (arith, h key)
    resolve_identity-Synced (some (err e)) w h key = ground (arith, h key)
    resolve_identity-Synced (some (ok account)) w h key =
        ground (arith, h key, holds-on_resolved account key w.tracker.state)

    -- When the registrar describes a function by its registration, and the callback on a resolved account
    -- leaves the registrations alone, a cycle from books that agree with the registrar ends with books
    -- that do, whether it succeeds or fails: each active key is in service exactly as it is recorded, and
    -- no other key is in service.
    pub tagged_cycle-Synced :
        (api : Tagging) (fuel : ℕ) (answer : Option (Result String String)) (w w' : Watcher S)
        (r : Option CycleError)
        → Synced reg w.tracker
        → cycle reg text api fuel answer on_resolved w ≡ some (w', r)
        → Synced reg w'.tracker
    unfolding cycle
    tagged_cycle-Synced api fuel answer w w' r h ran =
        let id = resolve_identity reg text answer on_resolved w in
        let kept = resolve_identity-Synced answer w h in
        let to_end : (z : Watcher S × Option CycleError)
            → z ≡ (w', r)
            → Synced reg z.0.tracker
            → Synced reg w'.tracker =
          λ z same. subst (λ (y : Watcher S × Option CycleError). Synced reg y.0.tracker) same in
        elim (Option-cases id.1) [
          | inr (e, f) ↦ to_end (id.0, some e) (ground (arith, f, ran)) kept
          | inl f ↦ elim (Option-cases (list_tagged api fuel)) [
            | inl short ↦ absurd (ground (arith, f, short, ran))
            | inr (ok ms, l) ↦
                to_end (record id.0 { tracker = poll_listed reg text ms id.0.tracker }, none)
                  (ground (arith, f, l, ran)) (poll_listed-Synced ms id.0.tracker kept)
            | inr (err e, l) ↦
                to_end (id.0, some (CycleError.get_resources e)) (ground (arith, f, l, ran)) kept
          ]
        ]
