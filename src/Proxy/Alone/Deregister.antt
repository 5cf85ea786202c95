-- ===== src/Proxy/Alone/Deregister.antt =====
-- A deregistration that runs alone takes its key out of service, and no other.
use tsserve.Base.{
  ℕ, String, ◌≡◌, ◌≢◌, refl, sym, subst, ◌∙◌, inl, inr, true, false, Option, none, some, [], lookup,
  lookup-delete, arith, eq_iff, eqb→eq, ◌==◌, if◌then◌else◌,
}
use tsserve.Proxy.Pool.{remove, delete_key}
use tsserve.Proxy.Pool.Members.{eq-nil_of_length}
use tsserve.Proxy.State.{Manager, serving}
use tsserve.Proxy.Manager.{Leaving, deregister_locked, withdrawn_locked}
use tsserve.Proxy.Manager.Invariant.{Inv}
use tsserve.Proxy.Manager.Invariant.Withdraw.{
  Withdrawing, deregister_locked-Inv, deregister-Withdrawing, withdrawn_locked-ne-none,
  withdrawn_locked-Inv,
}
use tsserve.Proxy.Alone.{teardown, after_leaving, deregister, member_of, AtRest}
use tsserve.Proxy.Alone.Member.{known, find_member-delete_key}

-- What a deregistration of `key` comes to, for the key `j`. A panic or an endless wait does not occur.
abbrev pub Deregistered : String → String → Manager → Option Manager → Type 0
Deregistered key j m none = ⊥
Deregistered key j m (some m') =
    AtRest m' × (member_of m' j ≡ (if key == j then none else member_of m j))

module _ (key j : String) (m : Manager) (q : AtRest m) where
  -- After the first lock.
  deregister_locked-member_of :
      member_of (deregister_locked key m).0 j ≡ (if key == j then none else member_of m j)
  unfolding deregister_locked member_of remove
  deregister_locked-member_of = elim (known m key q.inv) [
    | inl unknown ↦ ground (arith, unknown, eq_iff key j)
    | inr (name, id, by, at, up, inside) ↦ elim (known m j q.inv) [
      | inl none_known ↦ ground (arith, by, at, up, none_known, lookup-delete key j m.by_key)
      | inr (n, i, by', at', up', inside') ↦ ground (
        arith,
        by,
        at,
        up,
        by',
        at',
        lookup-delete key j m.by_key,
        eqb→eq id i,
        find_member-delete_key key j (m.records id).pool.members,
      )
    ]
  ]

  unknown_settled :
      (deregister_locked key m).1 ≡ Leaving.unknown
      → (n : String) (i : ℕ) → lookup n (deregister_locked key m).0.services ≡ some i
      → serving ((deregister_locked key m).0.records i) ≡ true
  unfolding deregister_locked
  unknown_settled e n i h = ground (arith, q.settled n i)

  left_settled :
      (size : ℕ)
      → (deregister_locked key m).1 ≡ Leaving.left size
      → (n : String) (i : ℕ) → lookup n (deregister_locked key m).0.services ≡ some i
      → serving ((deregister_locked key m).0.records i) ≡ true
  unfolding deregister_locked
  left_settled size e n i h = elim (known m key q.inv) [
    | inl unknown ↦ absurd (ground (arith, unknown))
    | inr (name, id, by, at, up, inside) ↦ ground (arith, by, at, up, q.settled n i, eqb→eq id i)
  ]

  -- The other records serve, while this one's listener is being closed.
  withdraws_settled :
      (id : ℕ) (name : String)
      → (deregister_locked key m).1 ≡ Leaving.withdraws id name
      → (n : String) (i : ℕ) → lookup n (deregister_locked key m).0.services ≡ some i
      → i ≢ id
      → serving ((deregister_locked key m).0.records i) ≡ true
  unfolding deregister_locked
  withdraws_settled id name e n i h other = elim (known m key q.inv) [
    | inl unknown ↦ absurd (ground (arith, unknown))
    | inr (name', id', by, at, up, inside) ↦ ground (arith, by, at, up, q.settled n i, eqb→eq id i)
  ]

  withdraws_name :
      (id : ℕ) (name : String)
      → (deregister_locked key m).1 ≡ Leaving.withdraws id name
      → (((deregister_locked key m).0.records id).name ≡ name)
        × (((deregister_locked key m).0.records id).pool.members ≡ [])
        × ((deregister_locked key m).0.shutdown ≡ false)
  unfolding deregister_locked remove
  withdraws_name id name e = elim (known m key q.inv) [
    | inl unknown ↦ absurd (ground (arith, unknown))
    | inr (name', id', by, at, up, inside) ↦ ground (
      arith,
      by,
      at,
      up,
      q.inv.indexed name' id' at,
      q.inv.after_close,
      eq-nil_of_length (delete_key key (m.records id').pool.members),
    )
  ]

module _ (id : ℕ) (m m' : Manager) (v : Inv m) (w : Withdrawing m id) (live : m.shutdown ≡ false)
    (empty : (m.records id).pool.members ≡ [])
    (e : withdrawn_locked id (m.records id).name m ≡ some m') where
  withdrawn_settled :
      ((n : String) (i : ℕ) → lookup n m.services ≡ some i → i ≢ id → serving (m.records i) ≡ true)
      → (n : String) (i : ℕ) → lookup n m'.services ≡ some i
      → serving (m'.records i) ≡ true
  unfolding withdrawn_locked
  withdrawn_settled others n i h = ground (
    arith,
    w.held live,
    w.waking,
    lookup-delete (m.records id).name n m.services,
    eq_iff (m.records id).name n,
    v.indexed n i,
    eqb→eq id i,
    others n i,
  )

  withdrawn_member_of : (j : String) → member_of m' j ≡ member_of m j
  unfolding withdrawn_locked member_of
  withdrawn_member_of j = elim (known m j v) [
    | inl none_known ↦ ground (arith, none_known)
    | inr (name, i, by, at, up, inside) ↦ ground (
      arith,
      by,
      at,
      up,
      w.held live,
      w.waking,
      v.indexed name i at,
      lookup-delete (m.records id).name name m.services,
      eq_iff (m.records id).name name,
      eqb→eq id i,
    )
  ]

module _ (key j : String) (m : Manager) (q : AtRest m) where
  torn_down :
      (id : ℕ) (name : String) (r : Option Manager)
      → (deregister_locked key m).1 ≡ Leaving.withdraws id name
      → withdrawn_locked id
          ((deregister_locked key m).0.records id).name
          (deregister_locked key m).0
        ≡ r
      → Deregistered key j m r
  torn_down id name none e r = absurd (
      withdrawn_locked-ne-none id (deregister_locked key m).0 (deregister_locked-Inv key m q.inv)
        (deregister-Withdrawing key name m id q.inv e) r)
  torn_down id name (some m') e r =
      let m₁ = (deregister_locked key m).0 in
      let v = deregister_locked-Inv key m q.inv in
      let w = deregister-Withdrawing key name m id q.inv e in
      let (named, empty, live) = withdraws_name key j m q id name e in
      (
        record {
          inv = withdrawn_locked-Inv id m₁ v w m' r;
          settled =
              withdrawn_settled id m₁ m' v w live empty r (withdraws_settled key j m q id name e);
        },
        withdrawn_member_of id m₁ m' v w live empty r j ∙ deregister_locked-member_of key j m q,
      )

  after_Leaving :
      (l : Leaving)
      → (deregister_locked key m).1 ≡ l
      → Deregistered key j m (after_leaving ((deregister_locked key m).0, l))
  unfolding after_leaving teardown
  after_Leaving Leaving.unknown e = (
    record { inv = deregister_locked-Inv key m q.inv; settled = unknown_settled key j m q e },
    deregister_locked-member_of key j m q,
  )
  after_Leaving (Leaving.left size) e = (
    record { inv = deregister_locked-Inv key m q.inv; settled = left_settled key j m q size e },
    deregister_locked-member_of key j m q,
  )
  after_Leaving (Leaving.withdraws id name) e =
      let m₁ = (deregister_locked key m).0 in
      let w = deregister-Withdrawing key name m id q.inv e in
      let (named, empty, live) = withdraws_name key j m q id name e in
      let torn : after_leaving (m₁, Leaving.withdraws id name)
          ≡ withdrawn_locked id (m₁.records id).name m₁ =
        ground (arith, w.closable, named) in
      subst (Deregistered key j m) (sym torn)
        (torn_down id name (withdrawn_locked id (m₁.records id).name m₁) e refl)

  -- A deregistration that runs alone returns, without a panic, and takes exactly its key out of service.
  pub deregister-Deregistered : Deregistered key j m (deregister key m)
  unfolding deregister
  deregister-Deregistered = after_Leaving (deregister_locked key m).1 refl
