-- ===== src/Proxy/Alone/Pass.antt =====
-- The sections of a registration, as the backends under the keys see them.
use tsserve.Base.{
  ℕ, String, ◌≡◌, ◌≢◌, inl, inr, Bool, true, false, none, some, [], contains, lookup, lookup-put,
  lookup-delete, arith, eq_iff, eqb→eq, ◌==◌, if◌then◌else◌,
}
use tsserve.Proxy.Backend.{Backend}
use tsserve.Proxy.Pool.{keys_of, add}
use tsserve.Proxy.State.{ServiceDef, Manager, serving}
use tsserve.Proxy.Manager.{claim, add_member, release_locked, advertise_locked}
use tsserve.Proxy.Manager.Invariant.{Inv, has_member}
use tsserve.Proxy.Manager.Invariant.Claim.{Claimed}
use tsserve.Proxy.Alone.{as_member, find_member, member_of}
use tsserve.Proxy.Alone.Member.{find_member-snoc, known}

module _ (key j : String) (b : Backend) (id : ℕ) (n : String) (m : Manager) (v : Inv m)
    (held : lookup n m.services ≡ some id) (own : b.key ≡ key) (fresh : lookup key m.by_key ≡ none)
    (up : serving (m.records id) ≡ true) where
  absent : contains (keys_of (m.records id).pool.members) b.key ≡ false
  unfolding has_member
  absent = rw own (ground (arith, v.complete key n))

  pub add_member-member_of :
      member_of (add_member key b id m) j
      ≡ (if key == j then some (as_member (m.records id) b) else member_of m j)
  unfolding add_member member_of add
  add_member-member_of = elim (known m j v) [
    | inl e ↦ ground (
      arith,
      e,
      v.indexed n id held,
      lookup-put key j (m.records id).name m.by_key,
      eq_iff key j,
      find_member-snoc key (m.records id).pool.members b absent,
    )
    | inr (name, i, e, at, live, inside) ↦ ground (
      arith,
      e,
      at,
      v.indexed n id held,
      lookup-put key j (m.records id).name m.by_key,
      eq_iff key j,
      eqb→eq id i,
      find_member-snoc j (m.records id).pool.members b absent,
    )
  ]

module _ (def : ServiceDef) (m : Manager) (v : Inv m) (free : lookup def.service m.services ≡ none)
    (live : m.shutdown ≡ false) where
  pub claim-Claimed : Claimed (claim def m).0 m.next_record
  unfolding claim
  claim-Claimed = record {
    allocated = ground arith;
    unready = ground arith;
    waking = ground arith;
    staying = ground arith;
    held = λ _. ground (
      arith,
      lookup-put def.service def.service m.next_record m.services,
      eq_iff def.service def.service,
    );
  }

  pub claim-member_of : (j : String) → member_of (claim def m).0 j ≡ member_of m j
  unfolding claim member_of
  claim-member_of j = elim (known m j v) [
    | inl e ↦ ground (arith, e)
    | inr (name, i, e, at, up, inside) ↦ ground (
      arith,
      e,
      at,
      v.indexed name i at,
      lookup-put def.service name m.next_record m.services,
      eq_iff def.service name,
    )
  ]

-- The other records of the index serve, while this one is being advertised.
abbrev pub SettledBut : ℕ → Manager → Type 0
SettledBut id m =
    (n : String) (i : ℕ) → lookup n m.services ≡ some i → i ≢ id → serving (m.records i) ≡ true

module _ (id : ℕ) (m m' : Manager) (v : Inv m) (c : Claimed m id) (live : m.shutdown ≡ false) where
  at_id : lookup (m.records id).name m.services ≡ some id
  at_id = c.held live

  no_members : (m.records id).pool.members ≡ []
  no_members = (v.pools (m.records id).name id at_id).empty (ground (arith, c.unready))

  module _ (e : release_locked id m ≡ some m') where
    pub release_locked-settled :
        SettledBut id m
        → (n : String) (i : ℕ) → lookup n m'.services ≡ some i
        → serving (m'.records i) ≡ true
    unfolding release_locked
    release_locked-settled others n i h = ground (
      arith,
      at_id,
      c.unready,
      c.waking,
      lookup-delete (m.records id).name n m.services,
      eq_iff (m.records id).name n,
      v.indexed n i,
      eqb→eq id i,
      others n i,
    )

    pub release_locked-member_of : (j : String) → member_of m' j ≡ member_of m j
    unfolding release_locked member_of
    release_locked-member_of j = elim (known m j v) [
      | inl none_known ↦ ground (arith, none_known)
      | inr (name, i, known_as, at, up, inside) ↦ ground (
        arith,
        known_as,
        at,
        at_id,
        c.unready,
        up,
        v.indexed name i at,
        lookup-delete (m.records id).name name m.services,
        eq_iff (m.records id).name name,
        eqb→eq id i,
      )
    ]

  module _ (key : String) (b : Backend) (down : Bool) (own : b.key ≡ key)
      (e : advertise_locked id key b m ≡ some (m', down)) where
    pub advertise_locked-settled :
        SettledBut id m
        → (n : String) (i : ℕ) → lookup n m'.services ≡ some i
        → serving (m'.records i) ≡ true
    unfolding advertise_locked
    advertise_locked-settled others n i h = ground (arith, c.staying, eqb→eq id i, others n i)

    pub advertise_locked-member_of :
        (j : String)
        → member_of m' j ≡ (if key == j then some (as_member (m.records id) b) else member_of m j)
    unfolding advertise_locked member_of add find_member
    advertise_locked-member_of j = elim (known m j v) [
      | inl none_known ↦ ground (
        arith,
        none_known,
        at_id,
        no_members,
        lookup-put key j (m.records id).name m.by_key,
        eq_iff key j,
        eq_iff b.key j,
      )
      | inr (name, i, known_as, at, up, inside) ↦ ground (
        arith,
        known_as,
        at,
        at_id,
        c.unready,
        up,
        no_members,
        lookup-put key j (m.records id).name m.by_key,
        eq_iff key j,
        eq_iff b.key j,
        eqb→eq id i,
      )
    ]

    pub advertise_locked-up : down ≡ false
    unfolding advertise_locked
    advertise_locked-up = ground arith
