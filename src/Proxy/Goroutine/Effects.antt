-- ===== src/Proxy/Goroutine/Effects.antt =====
-- What each critical section leaves alone: the records of others, and the keys that are not its own.
use tsserve.Base.{
  ℕ, ◌<◌, String, ◌≡◌, ◌≢◌, refl, subst, Bool, false, none, some, lookup, lookup-put, lookup-delete,
  eqb→eq, eq_iff, arith, Bool-cases, Option-cases, inl, inr,
}
use tsserve.Proxy.Backend.{Backend}
use tsserve.Proxy.State.{Manager, ServiceDef, serving}
use tsserve.Proxy.Manager.{
  register_pass, claim, join, add_member, advertise_locked, release_locked, deregister_locked,
  withdrawn_locked, close_locked,
}
use tsserve.Proxy.Manager.Invariant.{Inv}
use tsserve.Proxy.Manager.Invariant.Withdraw.{pool_record}
use tsserve.Proxy.Goroutine.Frame.{SameRecord}

pub same : (m : Manager) (id : ℕ) → SameRecord m m id
same m id = record {
  name = refl;
  ready = refl;
  advertised = refl;
  withdrawing = refl;
  closable = refl;
  held = λ h. (h, λ e. e);
  allocated = λ h. h;
}

module _ (m : Manager) (id : ℕ) where
  claim-same :
      (def : ServiceDef)
      → lookup def.service m.services ≡ none
      → id < m.next_record
      → SameRecord m (claim def m).0 id
  unfolding claim
  claim-same def free old = record {
    name = ground (arith, eqb→eq m.next_record id);
    ready = ground (arith, eqb→eq m.next_record id);
    advertised = ground (arith, eqb→eq m.next_record id);
    withdrawing = ground (arith, eqb→eq m.next_record id);
    closable = ground (arith, eqb→eq m.next_record id);
    held = λ h. (
      h,
      λ e. ground (
        arith,
        lookup-put def.service (m.records id).name m.next_record m.services,
        eq_iff def.service (m.records id).name,
      ),
    );
    allocated = λ h. omega arith;
  }

  join-same :
      (key : String) (def : ServiceDef) (b : Backend) (own : ℕ)
      → SameRecord m (join key def b own m).0 id
  unfolding join add_member
  join-same key def b own = record {
    name = ground (arith, eqb→eq own id);
    ready = ground (arith, eqb→eq own id);
    advertised = ground (arith, eqb→eq own id);
    withdrawing = ground (arith, eqb→eq own id);
    closable = ground (arith, eqb→eq own id);
    held = λ h. ground arith;
    allocated = λ h. ground arith;
  }

  pub register_pass-same :
      (key : String) (def : ServiceDef) (b : Backend)
      → id < m.next_record
      → SameRecord m (register_pass key def b m).0 id
  unfolding register_pass
  register_pass-same key def b old = elim (Bool-cases m.shutdown) [
    | inl down ↦
        let e : m ≡ (register_pass key def b m).0 = ground arith in
        subst (λ n. SameRecord m n id) e (same m id)
    | inr live ↦ elim (Option-cases (lookup key m.by_key)) [
      | inr (n, known) ↦
          let e : m ≡ (register_pass key def b m).0 = ground arith in
          subst (λ n. SameRecord m n id) e (same m id)
      | inl fresh ↦ elim (Option-cases (lookup def.service m.services)) [
        | inl free ↦
            let e : (claim def m).0 ≡ (register_pass key def b m).0 = ground arith in
            subst (λ n. SameRecord m n id) e (claim-same def free old)
        | inr (own, held) ↦
            let e : (join key def b own m).0 ≡ (register_pass key def b m).0 = ground arith in
            subst (λ n. SameRecord m n id) e (join-same key def b own)
      ]
    ]
  ]

  module _ (own : ℕ) (other : id ≢ own) where
    pub release_locked-same :
        (n : Manager) → Inv m → release_locked own m ≡ some n → SameRecord m n id
    unfolding release_locked
    release_locked-same n v e = record {
      name = ground (arith, eqb→eq own id);
      ready = ground (arith, eqb→eq own id);
      advertised = ground (arith, eqb→eq own id);
      withdrawing = ground (arith, eqb→eq own id);
      closable = ground (arith, eqb→eq own id);
      held = λ h. (
        ground arith,
        λ l. ground (
          arith,
          lookup-delete (m.records own).name (m.records id).name m.services,
          eq_iff (m.records own).name (m.records id).name,
        ),
      );
      allocated = λ h. ground arith;
    }

    pub advertise_locked-same :
        (key : String) (b : Backend) (n : Manager) (down : Bool)
        → Inv m
        → advertise_locked own key b m ≡ some (n, down)
        → SameRecord m n id
    unfolding advertise_locked
    advertise_locked-same key b n down v e = elim (Bool-cases m.shutdown) [
      | inl closing ↦ release_locked-same n v (ground arith)
      | inr live ↦ record {
        name = ground (arith, eqb→eq own id);
        ready = ground (arith, eqb→eq own id);
        advertised = ground (arith, eqb→eq own id);
        withdrawing = ground (arith, eqb→eq own id);
        closable = ground (arith, eqb→eq own id);
        held = λ h. ground arith;
        allocated = λ h. ground arith;
      }
    ]

    pub withdrawn_locked-same :
        (n : Manager) → withdrawn_locked own (m.records own).name m ≡ some n → SameRecord m n id
    unfolding withdrawn_locked
    withdrawn_locked-same n e = record {
      name = ground (arith, eqb→eq own id);
      ready = ground (arith, eqb→eq own id);
      advertised = ground (arith, eqb→eq own id);
      withdrawing = ground (arith, eqb→eq own id);
      closable = ground (arith, eqb→eq own id);
      held = λ h. (
        ground arith,
        λ l. ground (
          arith,
          lookup-delete (m.records own).name (m.records id).name m.services,
          eq_iff (m.records own).name (m.records id).name,
        ),
      );
      allocated = λ h. ground arith;
    }

  -- A deregistration changes a record only while it serves.
  pub deregister_locked-same :
      (key : String)
      → Inv m
      → (m.shutdown ≡ false → serving (m.records id) ≡ false)
      → SameRecord m (deregister_locked key m).0 id
  unfolding deregister_locked
  deregister_locked-same key v busy = elim (Option-cases (lookup key m.by_key)) [
    | inl e ↦
        let same_m : m ≡ (deregister_locked key m).0 = ground arith in
        subst (λ n. SameRecord m n id) same_m (same m id)
    | inr (name, known) ↦
        let r = pool_record key m v name known in
        record {
          name = ground (arith, r.1, r.2, eqb→eq r.0 id);
          ready = ground (arith, r.1, r.2, eqb→eq r.0 id);
          advertised = ground (arith, r.1, r.2, eqb→eq r.0 id);
          withdrawing = ground (arith, r.1, r.2, eqb→eq r.0 id, v.after_close, busy);
          closable = ground (arith, r.1, r.2, eqb→eq r.0 id);
          held = λ h. ground (arith, r.1, r.2);
          allocated = λ h. ground (arith, r.1, r.2);
        }
  ]

  pub close_locked-same : SameRecord m (close_locked m).0 id
  unfolding close_locked
  close_locked-same = record {
    name = refl;
    ready = refl;
    advertised = refl;
    withdrawing = refl;
    closable = refl;
    held = λ h. absurd (ground arith);
    allocated = λ h. h;
  }

-- A section puts no key into a pool but its own.
module _ (m : Manager) (other : String) (absent : lookup other m.by_key ≡ none) where
  pub register_pass-keeps :
      (key : String) (def : ServiceDef) (b : Backend)
      → other ≢ key
      → lookup other (register_pass key def b m).0.by_key ≡ none
  unfolding register_pass claim join add_member
  register_pass-keeps key def b ne = elim (Option-cases (lookup def.service m.services)) [
    | inl free ↦ ground arith
    | inr (id, held) ↦
        ground (arith, eq_iff key other, lookup-put key other (m.records id).name m.by_key)
  ]

  pub deregister_locked-keeps :
      (key : String) → lookup other (deregister_locked key m).0.by_key ≡ none
  unfolding deregister_locked
  deregister_locked-keeps key = ground (arith, lookup-delete key other m.by_key)

  pub release_locked-keeps :
      (id : ℕ) (n : Manager) → release_locked id m ≡ some n → lookup other n.by_key ≡ none
  unfolding release_locked
  release_locked-keeps id n e = ground arith

  pub withdrawn_locked-keeps :
      (id : ℕ) (name : String) (n : Manager)
      → withdrawn_locked id name m ≡ some n
      → lookup other n.by_key ≡ none
  unfolding withdrawn_locked
  withdrawn_locked-keeps id name n e = ground arith

  pub advertise_locked-keeps :
      (id : ℕ) (key : String) (b : Backend) (n : Manager) (down : Bool)
      → other ≢ key
      → advertise_locked id key b m ≡ some (n, down)
      → lookup other n.by_key ≡ none
  unfolding advertise_locked
  advertise_locked-keeps id key b n down ne e = ground (
    arith,
    eq_iff key other,
    lookup-put key other (m.records id).name m.by_key,
    release_locked-keeps id n,
  )

-- Only `Close` shuts the manager down, and nothing undoes it.
module _ (m : Manager) where
  pub register_pass-shutdown :
      (key : String) (def : ServiceDef) (b : Backend)
      → (register_pass key def b m).0.shutdown ≡ m.shutdown
  unfolding register_pass claim join add_member
  register_pass-shutdown key def b = ground arith

  pub deregister_locked-shutdown :
      (key : String) → (deregister_locked key m).0.shutdown ≡ m.shutdown
  unfolding deregister_locked
  deregister_locked-shutdown key = ground arith

  pub release_locked-shutdown :
      (id : ℕ) (n : Manager) → release_locked id m ≡ some n → n.shutdown ≡ m.shutdown
  unfolding release_locked
  release_locked-shutdown id n e = ground arith

  pub withdrawn_locked-shutdown :
      (id : ℕ) (name : String) (n : Manager)
      → withdrawn_locked id name m ≡ some n
      → n.shutdown ≡ m.shutdown
  unfolding withdrawn_locked
  withdrawn_locked-shutdown id name n e = ground arith

  pub advertise_locked-shutdown :
      (id : ℕ) (key : String) (b : Backend) (n : Manager) (down : Bool)
      → advertise_locked id key b m ≡ some (n, down)
      → (n.shutdown ≡ m.shutdown) × (down ≡ m.shutdown)
  unfolding advertise_locked
  advertise_locked-shutdown id key b n down e = ground (arith, release_locked-shutdown id n)
