-- ===== src/Proxy/Alone/Member.antt =====
-- The backend under a key, as joining and leaving a pool change it.
use tsserve.Base.{
  ℕ, String, ◌≡◌, refl, ◌≢◌, ◌⊎◌, inl, inr, true, false, none, some, List, [], ◌∷◌, ◌++◌, contains,
  lookup, arith, eq_iff, ◌==◌, if◌then◌else◌, Option-cases,
}
use tsserve.Proxy.Backend.{Backend}
use tsserve.Proxy.Pool.{keys_of, delete_key}
use tsserve.Proxy.State.{Manager, serving}
use tsserve.Proxy.Manager.Invariant.{Inv}
use tsserve.Proxy.Manager.Invariant.Withdraw.{pool_record}
use tsserve.Proxy.Alone.{find_member}

pub find_member-snoc :
    (key : String) (bs : List Backend) (b : Backend)
    → contains (keys_of bs) b.key ≡ false
    → find_member key (bs ++ b ∷ []) ≡ (if b.key == key then some b else find_member key bs)
unfolding find_member contains keys_of
find_member-snoc key [] b fresh = refl
find_member-snoc key (c ∷ bs) b fresh =
    ground
      (arith, find_member-snoc key bs b, eq_iff c.key key, eq_iff b.key key, eq_iff c.key b.key)

pub find_member-delete_key :
    (key j : String) (bs : List Backend)
    → find_member j (delete_key key bs) ≡ (if key == j then none else find_member j bs)
unfolding find_member delete_key
find_member-delete_key key j [] = ground arith
find_member-delete_key key j (b ∷ bs) =
    ground (arith, find_member-delete_key key j bs, eq_iff b.key key, eq_iff b.key j, eq_iff key j)

pub find_member-contains :
    (key : String) (bs : List Backend)
    → contains (keys_of bs) key ≡ true
    → find_member key bs ≢ none
unfolding find_member contains keys_of
find_member-contains key [] h e = absurd (ground arith)
find_member-contains key (b ∷ bs) h e = ground (arith, find_member-contains key bs)

-- What the manager keeps for a key, as one case split.
abbrev pub Known : Manager → String → Type 0
Known m key =
    (lookup key m.by_key ≡ none)
    ⊎ ((name : String) × (id : ℕ) × (lookup key m.by_key ≡ some name)
        × (lookup name m.services ≡ some id)
        × (serving (m.records id) ≡ true)
        × (contains (keys_of (m.records id).pool.members) key ≡ true))

pub known : (m : Manager) (key : String) → Inv m → Known m key
known m key v = elim (Option-cases (lookup key m.by_key)) [
  | inl e ↦ inl e
  | inr (name, e) ↦
      let (id, held, up, inside) = pool_record key m v name e in inr (name, id, e, held, up, inside)
]
