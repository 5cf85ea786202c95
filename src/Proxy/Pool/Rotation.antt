-- ===== src/Proxy/Pool/Rotation.antt =====
-- Consecutive requests take consecutive members.
use native.Mathlib.Nat.{mod-lt, mod-eq_of_lt, mod-add-mod}
use tsserve.Base.{ℕ, ◌+◌, ◌%◌, ◌^◌, ◌<◌, ◌≡◌, refl, sym, List, [], ◌∷◌, length, arith}
use tsserve.Proxy.Backend.{Backend}
use tsserve.Proxy.Pool.{BackendPool, u64_mod, position, rotation}

position_lem : (n : ℕ) → n < 2 ^ 64 → position n ≡ n
unfolding position
position_lem n h = omega arith

abbrev pub Assigned : BackendPool → Type 0
Assigned p =
    ((rotation p).0.1 < length p.members)
    × ((rotation p).0.0 ≡ p.members)
    × ((rotation p).1.members ≡ p.members)
    × ((rotation (rotation p).1).0.1 ≡ ((rotation p).0.1 + 1) % length p.members)

position-next :
    (n len : ℕ) → n + 1 < 2 ^ 64 → position ((n + 1) % u64_mod) % len ≡ (position n % len + 1) % len
position-next n len room =
    let wrap : (n + 1) % u64_mod ≡ n + 1 = mod-eq_of_lt room in
    rw (wrap, position_lem (n + 1) room, position_lem n (omega arith)) (sym (mod-add-mod n len 1))

members-Assigned :
    (ms : List Backend) (n : ℕ)
    → 0 < length ms
    → n + 1 < 2 ^ 64
    → Assigned (record { members = ms; next = n })
unfolding rotation
members-Assigned [] n h room = absurd (omega arith)
members-Assigned (b ∷ bs) n h room =
    let len = length (b ∷ bs) in
    (mod-lt (position n) (omega arith), refl, refl, position-next n len room)

-- While the 64-bit position does not wrap, a call on a pool that is not empty is assigned an index within it and leaves
-- the members as they are, and the next call is assigned the index after it, modulo the pool's size.
pub rotation_lem : (p : BackendPool) → 0 < length p.members → p.next + 1 < 2 ^ 64 → Assigned p
rotation_lem p h room = members-Assigned p.members p.next h room
