-- ===== src/Startup/Adapter/Contract.antt =====
-- The manager behind main.go's adapter keeps the registrar's contract: the registrations that the watcher has made and
-- not undone are what the manager serves.
use tsserve.Base.{
  ℕ, String, ◌≡◌, Bool-cases, true, sym, subst, refl, ap, Option, none, some, Map, lookup, put, has,
  lookup-put, lookup-delete, arith, eq_iff, ◌==◌, if◌then◌else◌, inl, inr, Option-cases,
}
use tsserve.Discovery.Registrar.{Registrar}
use tsserve.Proxy.Backend.{Backend}
use tsserve.Proxy.State.{ServiceDef, Manager}
use tsserve.Proxy.Manager.{RegisterError}
use tsserve.Proxy.Caps.{same_caps}
use tsserve.Proxy.Alone.{register, member_of}
use tsserve.Proxy.Alone.Register.{or_new, record_caps, new_member, Registered, register-Registered}
use tsserve.Startup.Adapter.{Adapted, forward_fatal, forwarded}
use tsserve.Startup.Adapter.Leave.{deregister_served, deregister_served-given}
use tsserve.Startup.Adapter.Kind.{
  ServedAs, ServedAs-ap, asked_by, Kind, Served, described_of, result_state,
}

module _ {D V : Type 0} (kind : Kind D V) (listen : ServiceDef → Manager → Option String)
    (clock : Adapted → ℕ) where
  module _ (key : String) (d : D) (s : Served kind) where
    abbrev serving_as : ServiceDef
    serving_as = kind.service s.adapted.origin d

    abbrev joining : Backend
    joining = kind.backend s.adapted.origin (clock s.adapted) key d

    abbrev outcome : Option (Manager × Option RegisterError)
    outcome =
        register (listen serving_as s.adapted.manager) key serving_as joining s.adapted.manager

    -- A key that is recorded already stays as it is.
    abbrev with_key : Map D → Map D
    with_key given = if has key given then given else put key d given

    new_shown :
        same_caps (record_caps serving_as s.adapted.manager) serving_as.caps ≡ true
        → ServedAs kind.place
            (some (new_member serving_as joining s.adapted.manager))
            (some (kind.asked d))
    new_shown alike =
        let given = kind.service-asked s.adapted.origin d in
        (
          given.0,
          given.1,
          subst (λ c. same_caps (record_caps serving_as s.adapted.manager) c ≡ true) given.2 alike,
          kind.backend-place s.adapted.origin (clock s.adapted) key d,
        )

    pub with_key-shown :
        (m : Manager)
        → ((j : String)
            → member_of m j ≡ (
                if key == j
                then or_new
                    (new_member serving_as joining s.adapted.manager)
                    (member_of s.adapted.manager key)
                else member_of s.adapted.manager j))
        → (member_of s.adapted.manager key ≡ none
            → same_caps (record_caps serving_as s.adapted.manager) serving_as.caps ≡ true)
        → (k : String)
        → ServedAs kind.place (member_of m k) (asked_by kind.asked (lookup k (with_key s.given)))
    unfolding has
    with_key-shown m now alike k = elim (Option-cases (lookup key s.given)) [
      | inl free ↦ elim (Option-cases (member_of s.adapted.manager key)) [
        | inr (b, there) ↦ absurd (
            ServedAs-ap kind.place (member_of s.adapted.manager key) (some b)
              (asked_by kind.asked (lookup key s.given)) none there (ap (asked_by kind.asked) free)
              (s.shown key))
        | inl out ↦ elim (Bool-cases (key == k)) [
          | inl same ↦
              ServedAs-ap kind.place (some (new_member serving_as joining s.adapted.manager))
                (member_of m k) (some (kind.asked d))
                (asked_by kind.asked (lookup k (with_key s.given)))
                (ground (arith, now k, same, out))
                (ground (arith, free, same, lookup-put key k d s.given)) (new_shown (alike out))
          | inr other ↦
              ServedAs-ap kind.place (member_of s.adapted.manager k) (member_of m k)
                (asked_by kind.asked (lookup k s.given))
                (asked_by kind.asked (lookup k (with_key s.given))) (ground (arith, now k, other))
                (ground (arith, free, other, lookup-put key k d s.given)) (s.shown k)
        ]
      ]
      | inr (g, taken) ↦ elim (Option-cases (member_of s.adapted.manager key)) [
        | inl out ↦ absurd (
            ServedAs-ap kind.place (member_of s.adapted.manager key) none
              (asked_by kind.asked (lookup key s.given)) (some (kind.asked g)) out
              (ap (asked_by kind.asked) taken) (s.shown key))
        | inr (b, there) ↦
            ServedAs-ap kind.place (member_of s.adapted.manager k) (member_of m k)
              (asked_by kind.asked (lookup k s.given))
              (asked_by kind.asked (lookup k (with_key s.given)))
              (ground (arith, there, now k, eq_iff key k)) (ground (arith, taken)) (s.shown k)
      ]
    ]

    -- `none` and the error of a call, and the state after it.
    pub finish :
        (r : Option (Manager × Option RegisterError))
        → ((j : String) → Registered key j serving_as joining s.adapted.manager r)
        → Served kind × Option String
    unfolding forward_fatal
    finish none p = absurd (p key)
    finish (some (m, none)) p = (
      record {
        adapted = record s.adapted { manager = m };
        rest = (p key).0;
        given = with_key s.given;
        shown = with_key-shown m (λ j. (p j).1) (p key).2;
      },
      none,
    )
    finish (some (m, some e)) p = (
      record {
        adapted = record s.adapted {
          manager = m;
          fatal_error = forward_fatal (some e) s.adapted.fatal_error;
        };
        rest = (p key).0;
        given = s.given;
        shown = λ k.
            subst (λ b. ServedAs kind.place b (asked_by kind.asked (lookup k s.given)))
              (sym (p k).1) (s.shown k);
      },
      some (kind.text e),
    )

    unfoldable pub register_served : Served kind × Option String
    unfolding finish
    register_served = finish outcome (λ j.
        register-Registered key j serving_as joining s.adapted.manager
          (kind.backend-key s.adapted.origin (clock s.adapted) key d) s.rest
          (listen serving_as s.adapted.manager))

    pub finish-given_ok :
        (r : Option (Manager × Option RegisterError))
        (p : (j : String) → Registered key j serving_as joining s.adapted.manager r)
        → lookup key s.given ≡ none
        → (finish r p).1 ≡ none
        → (finish r p).0.given ≡ put key d s.given
    unfolding finish has
    finish-given_ok none p free fine = absurd (p key)
    finish-given_ok (some (m, none)) p free fine = ground (arith, free)
    finish-given_ok (some (m, some e)) p free fine = absurd (ground arith)

    pub finish-given_err :
        (e : String) (r : Option (Manager × Option RegisterError))
        (p : (j : String) → Registered key j serving_as joining s.adapted.manager r)
        → (finish r p).1 ≡ some e
        → (finish r p).0.given ≡ s.given
    unfolding finish
    finish-given_err e none p bad = absurd (p key)
    finish-given_err e (some (m, none)) p bad = absurd (ground arith)
    finish-given_err e (some (m, some e')) p bad = refl

    pub finish-forwarded :
        (r : Option (Manager × Option RegisterError))
        (p : (j : String) → Registered key j serving_as joining s.adapted.manager r)
        → result_state (forwarded listen s.adapted r) ≡ some (finish r p).0.adapted
    unfolding finish forwarded forward_fatal
    finish-forwarded none p = absurd (p key)
    finish-forwarded (some (m, none)) p = refl
    finish-forwarded (some (m, some e)) p = refl

    pub register_served-given_ok :
        lookup key s.given ≡ none
        → register_served.1 ≡ none
        → register_served.0.given ≡ put key d s.given
    unfolding register_served
    register_served-given_ok free fine =
        finish-given_ok outcome
          (λ j.
            register-Registered key j serving_as joining s.adapted.manager
              (kind.backend-key s.adapted.origin (clock s.adapted) key d) s.rest
              (listen serving_as s.adapted.manager))
          free fine

    pub register_served-given_err :
        (e : String) → register_served.1 ≡ some e → register_served.0.given ≡ s.given
    unfolding register_served
    register_served-given_err e bad =
        finish-given_err e outcome
          (λ j.
            register-Registered key j serving_as joining s.adapted.manager
              (kind.backend-key s.adapted.origin (clock s.adapted) key d) s.rest
              (listen serving_as s.adapted.manager))
          bad

  abbrev in_service : Served kind → String → Option V
  in_service s k = described_of kind (lookup k s.given)

  pub in_service-register_ok :
      (k j : String) (d : D) (s : Served kind)
      → in_service s k ≡ none
      → (register_served k d s).1 ≡ none
      → in_service (register_served k d s).0 j
        ≡ (if k == j then some (kind.described d) else in_service s j)
  in_service-register_ok k j d s free fine = elim (Option-cases (lookup k s.given)) [
    | inr (g, taken) ↦ absurd (ground (arith, taken, free))
    | inl e ↦ ground (arith, register_served-given_ok k d s e fine, lookup-put k j d s.given)
  ]

  pub in_service-register_err :
      (k j : String) (d : D) (s : Served kind) (e : String)
      → (register_served k d s).1 ≡ some e
      → in_service (register_served k d s).0 j ≡ in_service s j
  in_service-register_err k j d s e bad =
      ap (λ g. described_of kind (lookup j g)) (register_served-given_err k d s e bad)

  pub in_service-deregister :
      (k j : String) (s : Served kind)
      → in_service (deregister_served kind listen clock k s) j
        ≡ (if k == j then none else in_service s j)
  in_service-deregister k j s =
      ground (arith, deregister_served-given kind listen clock k s, lookup-delete k j s.given)

  -- The manager, as a watcher's registrar.
  unfoldable pub manager_registrar : Registrar (Served kind) D V String
  unfolding register_served deregister_served
  manager_registrar = record {
    register = register_served;
    deregister = deregister_served kind listen clock;
    holds = in_service;
    described = kind.described;
    holds-register_ok = in_service-register_ok;
    holds-register_err = in_service-register_err;
    holds-deregister = in_service-deregister;
  }
