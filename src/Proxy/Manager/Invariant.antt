-- ===== src/Proxy/Manager/Invariant.antt =====
-- What holds of the manager between any two critical sections.
pub mod Slots
pub mod Register
pub mod Claim
pub mod Withdraw
use tsserve.Base.{
  ℕ, ◌<◌, String, ◌≡◌, Bool, true, false, ◌&&◌, [], none, some, lookup, contains, Distinct, IsMap,
  length,
}
use tsserve.Proxy.Pool.{keys_of}
use tsserve.Proxy.State.{AdvertisedService, Manager, serving}

-- A serving record has members, under distinct keys, and any other has none. A record that has been
-- served can be closed.
pub record IsCoherent (r : AdvertisedService) : Type 0 where
  pub distinct : Distinct (keys_of r.pool.members)
  pub filled : serving r ≡ true → 0 < length r.pool.members
  pub empty : serving r ≡ false → r.pool.members ≡ []
  pub can_close : r.ready ≡ true → r.closable ≡ true

-- The key is in the pool of the record that the index holds under the name, and that record serves.
unfoldable pub has_member : Manager → String → String → Bool
unfolding lookup contains keys_of
has_member m n k = elim (lookup n m.services) [
  | none ↦ false
  | some id ↦ serving (m.records id) && contains (keys_of (m.records id).pool.members) k
]

pub record Inv (m : Manager) : Type 0 where
  pub services_map : IsMap m.services
  -- the index holds allocated records under their own names
  pub indexed :
      (n : String) (id : ℕ)
      → lookup n m.services ≡ some id
      → (id < m.next_record) × ((m.records id).name ≡ n)
  -- a key is recorded under a name exactly while it is a member of that service
  pub sound : (k n : String) → lookup k m.by_key ≡ some n → has_member m n k ≡ true
  pub complete : (k n : String) → has_member m n k ≡ true → lookup k m.by_key ≡ some n
  pub pools : (n : String) (id : ℕ) → lookup n m.services ≡ some id → IsCoherent (m.records id)
  pub after_close : m.shutdown ≡ true → (m.services ≡ []) × (m.by_key ≡ [])
