-- ===== src/Proxy/Manager/Invariant/Withdraw.antt =====
-- Leaving a pool, withdrawing a service and closing the manager keep the invariant.
use tsserve.Base.{
  ℕ, ◌<◌, String, ◌≡◌, ◌≢◌, refl, true, false, none, some, lookup, lookup-delete, delete-IsMap,
  contains, arith, eq_iff, eqb→eq, subst, inl, inr, Option-cases,
}
use tsserve.Proxy.Pool.{keys_of, delete_key, remove}
use tsserve.Proxy.Pool.Members.{
  contains-delete_key, delete_key-Distinct, eq-nil_of_length, contains-length,
}
use tsserve.Proxy.State.{Manager, opened, serving}
use tsserve.Proxy.Manager.{Leaving, deregister_locked, withdrawn_locked, close_locked}
use tsserve.Proxy.Manager.Invariant.{Inv, has_member}
use tsserve.Proxy.Manager.Invariant.Slots.{slot}

-- The record of a service whose last backend has left, while its listener is being closed.
pub record Withdrawing (m : Manager) (id : ℕ) : Type 0 where
  pub allocated : id < m.next_record
  pub ready : (m.records id).ready ≡ true
  pub waking : (m.records id).withdrawing ≡ some opened
  pub closable : (m.records id).closable ≡ true
  pub held : m.shutdown ≡ false → lookup (m.records id).name m.services ≡ some id

module _ (key : String) (m : Manager) (v : Inv m) where
  -- The record of a key that is recorded.
  module _ (name : String) (known : lookup key m.by_key ≡ some name) where
    pub pool_record :
        (id : ℕ) × (lookup name m.services ≡ some id)
        × (serving (m.records id) ≡ true)
        × (contains (keys_of (m.records id).pool.members) key ≡ true)
    unfolding has_member
    pool_record = elim (slot m name v) [
      | inl e ↦ absurd (ground (arith, v.sound key name known))
      | inr (id, e, _, _, _) ↦
          (id, e, ground (arith, v.sound key name known), ground (arith, v.sound key name known))
    ]

    deregister_known-Inv :
        (id : ℕ)
        → lookup name m.services ≡ some id
        → serving (m.records id) ≡ true
        → Inv (deregister_locked key m).0
    unfolding deregister_locked has_member remove
    deregister_known-Inv id held s = record {
      services_map = ground (arith, v.services_map);
      indexed = λ n i h. ground (arith, v.indexed n i, eqb→eq id i);
      sound = λ k n h. ground (
        arith,
        v.sound k n,
        slot m n v,
        slot m name v,
        lookup-delete key k m.by_key,
        eq_iff key k,
        contains-delete_key key k (m.records id).pool.members,
        contains-length (delete_key key (m.records id).pool.members) k,
      );
      complete = λ k n h. ground (
        arith,
        v.complete k n,
        v.complete key n,
        slot m n v,
        slot m name v,
        lookup-delete key k m.by_key,
        eq_iff key k,
        contains-delete_key key k (m.records id).pool.members,
      );
      pools = λ n i h. ground (
        arith,
        v.pools n i,
        v.pools name id held,
        eqb→eq id i,
        delete_key-Distinct key (m.records id).pool.members (v.pools name id held).distinct,
        eq-nil_of_length (delete_key key (m.records id).pool.members),
      );
      after_close = λ h. ground (arith, v.after_close);
    }

-- Leaving keeps the invariant, for a key that is recorded and one that is not.
pub deregister_locked-Inv : (key : String) (m : Manager) → Inv m → Inv (deregister_locked key m).0
unfolding deregister_locked
deregister_locked-Inv key m v = elim (Option-cases (lookup key m.by_key)) [
  | inl e ↦ let same : m ≡ (deregister_locked key m).0 = ground arith in subst Inv same v
  | inr (name, known) ↦
      let r = pool_record key m v name known in deregister_known-Inv key m v name known r.0 r.1 r.2
]

-- A recorded key leaves a pool: it is never unknown to the index.
pub deregister-ne-unknown :
    (key name : String) (m : Manager)
    → Inv m
    → lookup key m.by_key ≡ some name
    → (deregister_locked key m).1 ≢ Leaving.unknown
unfolding deregister_locked
deregister-ne-unknown key name m v known =
    let r = pool_record key m v name known in ground (arith, r.1, r.2)

-- A record that a deregistration withdraws can be closed, and wakes those that wait on it.
pub deregister-Withdrawing :
    (key name : String) (m : Manager) (id : ℕ)
    → Inv m
    → (deregister_locked key m).1 ≡ Leaving.withdraws id name
    → Withdrawing (deregister_locked key m).0 id
unfolding deregister_locked
deregister-Withdrawing key name m id v e = elim (Option-cases (lookup key m.by_key)) [
  | inl none_known ↦ absurd (ground arith)
  | inr (n, known) ↦
      let r = pool_record key m v n known in
      ground (arith, r.1, r.2, v.pools n r.0 r.1, v.indexed n r.0 r.1)
]

module _ (id : ℕ) (m : Manager) (v : Inv m) (w : Withdrawing m id) where
  -- The second lock of a deregistration does not panic.
  pub withdrawn_locked-ne-none : withdrawn_locked id (m.records id).name m ≢ none
  unfolding withdrawn_locked
  withdrawn_locked-ne-none = ground arith

  pub withdrawn_locked-Inv :
      (m' : Manager) → withdrawn_locked id (m.records id).name m ≡ some m' → Inv m'
  unfolding withdrawn_locked has_member
  withdrawn_locked-Inv m' e = record {
    services_map =
        ground (arith, v.services_map, delete-IsMap (m.records id).name m.services v.services_map);
    indexed = λ n i h.
        ground (arith, v.indexed n i, lookup-delete (m.records id).name n m.services, eqb→eq id i);
    sound = λ k n h. ground (
      arith,
      v.sound k n,
      slot m n v,
      lookup-delete (m.records id).name n m.services,
      eq_iff (m.records id).name n,
      slot m (m.records id).name v,
    );
    complete = λ k n h. ground (
      arith,
      v.complete k n,
      slot m n v,
      lookup-delete (m.records id).name n m.services,
      eq_iff (m.records id).name n,
    );
    pools = λ n i h.
        ground (arith, v.pools n i, lookup-delete (m.records id).name n m.services, eqb→eq id i);
    after_close = λ h. ground (arith, v.after_close);
  }

pub close_locked-Inv : (m : Manager) → Inv m → Inv (close_locked m).0
unfolding close_locked has_member
close_locked-Inv m v = record {
  services_map = tt;
  indexed = λ n i h. absurd (ground arith);
  sound = λ k n h. ground arith;
  complete = λ k n h. ground arith;
  pools = λ n i h. absurd (ground arith);
  after_close = λ h. (refl, refl);
}
