-- ===== src/Proxy/Manager/Invariant/Claim.antt =====
-- The record of a name that a registration has claimed, while its listener is being opened.
use tsserve.Base.{
  ℕ, ◌<◌, String, ◌≡◌, ◌≢◌, false, none, some, lookup, lookup-delete, delete-IsMap, lookup-put,
  Bool, arith, eq_iff, eqb→eq, Bool-cases, inl, inr,
}
use tsserve.Proxy.Backend.{Backend}
use tsserve.Proxy.Pool.{add}
use tsserve.Proxy.State.{Manager, opened}
use tsserve.Proxy.Manager.{release_locked, advertise_locked}
use tsserve.Proxy.Manager.Invariant.{Inv, has_member}
use tsserve.Proxy.Manager.Invariant.Slots.{slot}

pub record Claimed (m : Manager) (id : ℕ) : Type 0 where
  pub allocated : id < m.next_record
  pub unready : (m.records id).ready ≡ false
  pub waking : (m.records id).advertised ≡ opened
  pub staying : (m.records id).withdrawing ≡ none
  pub held : m.shutdown ≡ false → lookup (m.records id).name m.services ≡ some id

module _ (id : ℕ) (m : Manager) (v : Inv m) (c : Claimed m id) where
  -- Releasing a claim does not panic.
  pub release_locked-ne-none : release_locked id m ≢ none
  unfolding release_locked
  release_locked-ne-none = ground arith

  pub release_locked-Inv : (m' : Manager) → release_locked id m ≡ some m' → Inv m'
  unfolding release_locked has_member
  release_locked-Inv m' e = record {
    services_map =
        ground (arith, v.services_map, delete-IsMap (m.records id).name m.services v.services_map);
    indexed = λ n i h.
        ground (arith, v.indexed n i, lookup-delete (m.records id).name n m.services, eqb→eq id i);
    sound = λ k n h. ground (
      arith,
      v.sound k n,
      slot m n v,
      lookup-delete (m.records id).name n m.services,
      eq_iff (m.records id).name n,
      slot m (m.records id).name v,
    );
    complete = λ k n h. ground (
      arith,
      v.complete k n,
      slot m n v,
      lookup-delete (m.records id).name n m.services,
      eq_iff (m.records id).name n,
    );
    pools = λ n i h. ground (arith, v.pools n i, lookup-delete (m.records id).name n m.services);
    after_close = λ h. ground (arith, v.after_close);
  }

module _ (id : ℕ) (key : String) (b : Backend) (m : Manager) (v : Inv m) (c : Claimed m id)
    (own : b.key ≡ key) where
  -- A listener that has opened does not panic the section that records it.
  pub advertise_locked-ne-none : advertise_locked id key b m ≢ none
  unfolding advertise_locked
  advertise_locked-ne-none = ground (arith, release_locked-ne-none id m v c)

  module _ (live : m.shutdown ≡ false) (fresh : lookup key m.by_key ≡ none) where
    advertise_live-Inv :
        (m' : Manager) (down : Bool) → advertise_locked id key b m ≡ some (m', down) → Inv m'
    unfolding advertise_locked has_member add
    advertise_live-Inv m' down e = record {
      services_map = ground (arith, v.services_map);
      indexed = λ n i h. ground (arith, v.indexed n i, eqb→eq id i);
      sound = λ k n h. ground (
        arith,
        v.sound k n,
        slot m n v,
        slot m (m.records id).name v,
        c.held live,
        lookup-put key k (m.records id).name m.by_key,
        eq_iff key k,
      );
      complete = λ k n h. ground (
        arith,
        v.complete k n,
        slot m n v,
        slot m (m.records id).name v,
        c.held live,
        lookup-put key k (m.records id).name m.by_key,
        eq_iff key k,
      );
      pools = λ n i h.
          ground (arith, v.pools n i, v.pools (m.records id).name id (c.held live), eqb→eq id i);
      after_close = λ h. ground arith;
    }

-- Recording the outcome of a listen call keeps the invariant, also after the manager has shut down.
pub advertise_locked-Inv :
    (id : ℕ) (key : String) (b : Backend) (m m' : Manager) (down : Bool)
    → Inv m
    → Claimed m id
    → b.key ≡ key
    → lookup key m.by_key ≡ none
    → advertise_locked id key b m ≡ some (m', down)
    → Inv m'
unfolding advertise_locked
advertise_locked-Inv id key b m m' down v c own fresh e = elim (Bool-cases m.shutdown) [
  | inl closing ↦ release_locked-Inv id m v c m' (ground arith)
  | inr live ↦ advertise_live-Inv id key b m v c own live fresh m' down e
]
