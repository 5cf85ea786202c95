-- ===== src/Proxy/Pool.antt =====
-- proxy/pool.go: the backend pool. The member slice is copy-on-write, so a value is a snapshot that a
-- reader loads; the round-robin position is a 64-bit counter that wraps.
pub mod Rotation
pub mod Members
use tsserve.Base.{
  ℕ, ◌+◌, ◌-◌, ◌%◌, ◌^◌, String, Bool, List, [], ◌∷◌, ◌++◌, length, map, ◌==◌, if◌then◌else◌,
}
use tsserve.Proxy.Backend.{Backend}

pub record BackendPool : Type 0 where
  pub members : List Backend
  pub next : ℕ

abbrev pub u64_mod : ℕ
u64_mod = 2 ^ 64

unfoldable pub new_backend_pool : BackendPool
new_backend_pool = record { members = []; next = 0 }

unfoldable pub keys_of : List Backend → List String
keys_of [] = []
keys_of (b ∷ bs) = b.key ∷ keys_of bs

unfoldable pub delete_key : String → List Backend → List Backend
delete_key key [] = []
delete_key key (b ∷ bs) = let rest = delete_key key bs in if b.key == key then rest else b ∷ rest

-- The new pool and its size.
unfoldable pub add : BackendPool → Backend → BackendPool × ℕ
add p b = let members = p.members ++ b ∷ [] in (record p { members = members }, length members)

unfoldable pub remove : BackendPool → String → BackendPool × ℕ
unfolding delete_key
remove p key =
    let members = delete_key key p.members in (record p { members = members }, length members)

-- `p.next.Add(1) - 1`, both in 64 bits.
unfoldable pub position : ℕ → ℕ
position next = ((next + 1) % u64_mod + u64_mod - 1) % u64_mod

-- The members and the index that the call is assigned, and the pool with its position advanced.
unfoldable pub rotation : BackendPool → (List Backend × ℕ) × BackendPool
unfolding position
rotation p = elim p.members [
  | [] ↦ (([], 0), p)
  | b ∷ bs ↦
      ((b ∷ bs, position p.next % length (b ∷ bs)), record p { next = (p.next + 1) % u64_mod })
]
