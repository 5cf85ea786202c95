-- ===== src/Proxy/Manager/Invariant/Slots.antt =====
-- What the index holds under a name, as one case split.
use tsserve.Base.{ℕ, ◌<◌, String, ◌≡◌, ◌⊎◌, inl, inr, none, some, lookup, Option-cases}
use tsserve.Proxy.State.{Manager}
use tsserve.Proxy.Manager.Invariant.{Inv, IsCoherent}

abbrev pub Slot : Manager → String → Type 0
Slot m n =
    (lookup n m.services ≡ none)
    ⊎ ((id : ℕ) × (lookup n m.services ≡ some id)
        × (id < m.next_record)
        × ((m.records id).name ≡ n)
        × IsCoherent (m.records id))

pub slot : (m : Manager) (n : String) → Inv m → Slot m n
slot m n v = elim (Option-cases (lookup n m.services)) [
  | inl e ↦ inl e
  | inr (id, e) ↦ inr (id, e, (v.indexed n id e).0, (v.indexed n id e).1, v.pools n id e)
]
