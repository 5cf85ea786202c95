-- ===== src/Proxy/Alone/Register.antt =====
-- A registration that runs alone puts the backend in service under its key, or changes nothing.
use tsserve.Base.{
  ℕ, String, ◌≡◌, ◌≢◌, refl, sym, subst, ◌∙◌, inl, inr, Bool, true, false, Option, none, some, List,
  lookup, lookup-put, arith, eq_iff, eqb→eq, ◌==◌, if◌then◌else◌, Option-cases, Bool-cases,
}
use tsserve.Proxy.Backend.{Backend}
use tsserve.Proxy.State.{ServiceDef, Manager, serving}
use tsserve.Proxy.Caps.{same_caps}
use tsserve.Proxy.Caps.Laws.{same_caps_lem}
use tsserve.Proxy.Manager.{
  RegisterError, shutting_down, conflict, claim, join, add_member, conflict_with, transition,
  register_pass, release_locked, advertise_locked,
}
use tsserve.Proxy.Manager.Invariant.{Inv}
use tsserve.Proxy.Manager.Invariant.Register.{claim-Inv, add_member-Inv}
use tsserve.Proxy.Manager.Invariant.Claim.{
  Claimed, release_locked-ne-none, release_locked-Inv, advertise_locked-ne-none,
  advertise_locked-Inv,
}
use tsserve.Proxy.Alone.{
  recorded, released, advertise, after_pass, register, PoolMember, as_member, member_of, AtRest,
}
use tsserve.Proxy.Alone.Member.{known, find_member-contains}
use tsserve.Proxy.Alone.Pass.{
  add_member-member_of, claim-Claimed, claim-member_of, SettledBut, release_locked-settled,
  release_locked-member_of, advertise_locked-settled, advertise_locked-member_of,
  advertise_locked-up,
}

-- What is in service is kept where there is something.
abbrev pub or_new : PoolMember → Option PoolMember → Option PoolMember
or_new b none = some b
or_new b (some old) = some old

-- The capabilities of the record that a registration joins or opens.
abbrev pub record_caps : ServiceDef → Manager → List String
record_caps def m = elim (lookup def.service m.services) [
  | none ↦ def.caps
  | some id ↦ (m.records id).caps
]

-- A backend that is put into service.
abbrev pub new_member : ServiceDef → Backend → Manager → PoolMember
new_member def b m = record {
  service = def.service;
  scheme = def.scheme;
  caps = record_caps def m;
  backend = b;
}

-- What a registration of `b` under `key` comes to, for the key `j`: without an error the key is in service, as it was or
-- with `b` under the name, the scheme and the set of capabilities that the registration gives; with an error no key has
-- changed. A panic or an endless wait does not occur.
abbrev pub Registered :
    String
    → String
    → ServiceDef
    → Backend
    → Manager
    → Option (Manager × Option RegisterError)
    → Type 0
Registered key j def b m none = ⊥
Registered key j def b m (some (m', none)) =
    AtRest m'
    × (member_of m' j
        ≡ (if key == j then or_new (new_member def b m) (member_of m key) else member_of m j))
    × (member_of m key ≡ none → same_caps (record_caps def m) def.caps ≡ true)
Registered key j def b m (some (m', some e)) = AtRest m' × (member_of m' j ≡ member_of m j)

recorded_member :
    (key name : String) (m : Manager)
    → Inv m
    → lookup key m.by_key ≡ some name
    → member_of m key ≢ none
unfolding member_of
recorded_member key name m v e gone = elim (known m key v) [
  | inl unknown ↦ ground (arith, e, unknown)
  | inr (n, id, by, at, up, inside) ↦
      ground (arith, e, by, at, gone, find_member-contains key (m.records id).pool.members inside)
]

unserved : (key : String) (m : Manager) → lookup key m.by_key ≡ none → member_of m key ≡ none
unfolding member_of
unserved key m fresh = ground (arith, fresh)

add_member-settled :
    (key : String) (b : Backend) (id : ℕ) (m : Manager)
    → AtRest m
    → (n : String) (i : ℕ) → lookup n (add_member key b id m).services ≡ some i
    → serving ((add_member key b id m).records i) ≡ true
unfolding add_member
add_member-settled key b id m q n i h = ground (arith, q.settled n i, eqb→eq id i)

module _ (key j : String) (def : ServiceDef) (b : Backend) (m : Manager) (own : b.key ≡ key)
    (q : AtRest m) where
  already :
      (name : String)
      → lookup key m.by_key ≡ some name
      → member_of m j
        ≡ (if key == j then or_new (new_member def b m) (member_of m key) else member_of m j)
  already name e = elim (Option-cases (member_of m key)) [
    | inr (old, at) ↦ ground (arith, at, eq_iff key j)
    | inl gone ↦ absurd (recorded_member key name m q.inv e gone)
  ]

  -- The name is free: the claim, and what the listener makes of it.
  module _ (live : m.shutdown ≡ false) (fresh : lookup key m.by_key ≡ none)
      (free : lookup def.service m.services ≡ none) where
    claimed-Inv : Inv (claim def m).0
    claimed-Inv = claim-Inv def m q.inv free live

    claimed : Claimed (claim def m).0 m.next_record
    claimed = claim-Claimed def m q.inv free live

    claimed_record :
        as_member ((claim def m).0.records m.next_record) b
        ≡ record { service = def.service; scheme = def.scheme; caps = def.caps; backend = b }
    unfolding claim
    claimed_record = ground arith

    claimed_live : (claim def m).0.shutdown ≡ false
    unfolding claim
    claimed_live = live

    claimed_fresh : lookup key (claim def m).0.by_key ≡ none
    unfolding claim
    claimed_fresh = fresh

    claimed_others : SettledBut m.next_record (claim def m).0
    unfolding claim
    claimed_others n i h other = ground (
      arith,
      lookup-put def.service n m.next_record m.services,
      q.settled n i,
      eqb→eq m.next_record i,
    )

    opened_Registered :
        (r : Option (Manager × Bool))
        → advertise_locked m.next_record key b (claim def m).0 ≡ r
        → Registered key j def b m (recorded r)
    unfolding recorded
    opened_Registered none e =
        absurd
          (advertise_locked-ne-none m.next_record key b (claim def m).0 claimed-Inv claimed own e)
    opened_Registered (some (m', true)) e = absurd (
        ground (
          arith,
          advertise_locked-up m.next_record (claim def m).0 m' claimed-Inv claimed claimed_live key
              b true own e,
        ))
    opened_Registered (some (m', false)) e = (
      record {
        inv =
            advertise_locked-Inv m.next_record key b (claim def m).0 m' false claimed-Inv claimed
              own claimed_fresh e;
        settled =
            advertise_locked-settled m.next_record (claim def m).0 m' claimed-Inv claimed
              claimed_live key b false own e claimed_others;
      },
      ground (
        arith,
        unserved key m fresh,
        free,
        claimed_record,
        advertise_locked-member_of m.next_record (claim def m).0 m' claimed-Inv claimed claimed_live
            key b false own e j,
        claim-member_of def m q.inv free live j,
      ),
      λ alone. rw (free, record_caps) ((same_caps_lem def.caps def.caps).1 (λ c. refl)),
    )

    failed_Registered :
        (text : String) (r : Option Manager)
        → release_locked m.next_record (claim def m).0 ≡ r
        → Registered key j def b m (released text r)
    unfolding released
    failed_Registered text none e =
        absurd (release_locked-ne-none m.next_record (claim def m).0 claimed-Inv claimed e)
    failed_Registered text (some m') e = (
      record {
        inv = release_locked-Inv m.next_record (claim def m).0 claimed-Inv claimed m' e;
        settled =
            release_locked-settled m.next_record (claim def m).0 m' claimed-Inv claimed claimed_live
              e claimed_others;
      },
      release_locked-member_of m.next_record (claim def m).0 m' claimed-Inv claimed claimed_live e j
          ∙ claim-member_of def m q.inv free live j,
    )

    advertise_Registered :
        (listen : Option String)
        → Registered key j def b m (advertise listen m.next_record key b (claim def m).0)
    unfolding advertise
    advertise_Registered none =
        opened_Registered (advertise_locked m.next_record key b (claim def m).0) refl
    advertise_Registered (some text) =
        failed_Registered text (release_locked m.next_record (claim def m).0) refl

  -- The name is served: the backend joins, or the service is another.
  module _ (live : m.shutdown ≡ false) (fresh : lookup key m.by_key ≡ none) (id : ℕ)
      (held : lookup def.service m.services ≡ some id)
      (agrees : conflict_with (m.records id) key def ≡ none) where
    agreed : ((m.records id).scheme ≡ def.scheme) × (same_caps (m.records id).caps def.caps ≡ true)
    unfolding conflict_with
    agreed =
        (ground (arith, agrees, eq_iff def.scheme (m.records id).scheme), ground (arith, agrees))

    joined : Registered key j def b m (some (add_member key b id m, none))
    joined = (
      record {
        inv =
            add_member-Inv key def b id m q.inv held live own fresh (q.settled def.service id held);
        settled = add_member-settled key b id m q;
      },
      ground (
        arith,
        unserved key m fresh,
        held,
        agreed,
        q.inv.indexed def.service id held,
        add_member-member_of key j b id def.service m q.inv held own fresh
            (q.settled def.service id held),
      ),
      λ alone. rw (held, record_caps) agreed.1,
    )

  -- A registration that runs alone returns, without a panic. Without an error its key is in service: as it was if it was
  -- before, or else with the backend, under the service, the scheme and the set of capabilities of the definition; and
  -- every other key is as it was. With an error every key is as it was.
  pub register-Registered :
      (listen : Option String) → Registered key j def b m (register listen key def b m)
  unfolding register after_pass register_pass claim join transition
  register-Registered listen = elim (Bool-cases m.shutdown) [
    | inl down ↦
        let e : register listen key def b m ≡ some (m, some shutting_down) = ground arith in
        subst (Registered key j def b m) (sym e) (q, refl)
    | inr live ↦ elim (Option-cases (lookup key m.by_key)) [
      | inr (name, by) ↦
          let e : register listen key def b m ≡ some (m, none) = ground (arith, live, by) in
          subst (Registered key j def b m) (sym e)
            (q, already name by, λ alone. absurd (recorded_member key name m q.inv by alone))
      | inl fresh ↦ elim (Option-cases (lookup def.service m.services)) [
        | inl free ↦
            let e : register listen key def b m
                ≡ advertise listen m.next_record key b (claim def m).0 =
              ground (arith, live, fresh, free) in
            subst (Registered key j def b m) (sym e) (advertise_Registered live fresh free listen)
        | inr (id, held) ↦
            let up = q.settled def.service id held in
            elim (Option-cases (conflict_with (m.records id) key def)) [
              | inl agrees ↦
                  let e : register listen key def b m ≡ some (add_member key b id m, none) =
                    ground (arith, live, fresh, held, agrees, up) in
                  subst (Registered key j def b m) (sym e) (joined live fresh id held agrees)
              | inr (c, differs) ↦
                  let e : register listen key def b m ≡ some (m, some (conflict c)) =
                    ground (arith, live, fresh, held, differs, up) in
                  subst (Registered key j def b m) (sym e) (q, refl)
            ]
      ]
    ]
  ]
