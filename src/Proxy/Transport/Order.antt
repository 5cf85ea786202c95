-- ===== src/Proxy/Transport/Order.antt =====
-- The loop's order is the pool's, from the assigned member round to the one before it.
use native.Mathlib.Nat.{mod-eq_of_lt, mod-eq-sub-mod}
use tsserve.Base.{
  ℕ, zero, suc, ◌+◌, ◌-◌, ◌%◌, ◌<◌, ◌≤◌, ◌≡◌, ◌∙◌, refl, inl, inr, some, List, ◌++◌, length,
  get_elem?-some, drop_first, take, drop_first-get_elem?, get_elem?-take, length-take,
  drop_first-length, arith, ltb, ltb→lt, Bool-cases,
}
use tsserve.Proxy.Backend.{Backend}
use tsserve.Proxy.Transport.{order}

-- The passes that come round to the first members.
order-wrapped :
    (start i n : ℕ) (ms : List Backend)
    → start < length ms
    → length ms ≤ start + i
    → i + n ≡ length ms
    → order start i n ms ≡ some (drop_first (start + i - length ms) (take start ms))
unfolding order
order-wrapped start i zero ms s w e =
    rw
      (drop_first-length (take start ms) (start + i - length ms)
        (omega (arith, length-take ms start (omega arith))))
      refl
order-wrapped start i (suc n) ms s w e =
    let j = start + i - length ms in
    let at : (start + i) % length ms ≡ j = mod-eq-sub-mod w ∙ mod-eq_of_lt (omega arith) in
    let (b, here) = get_elem?-some ms j (omega arith) in
    let rest = order-wrapped start (i + 1) n ms s (omega arith) (omega arith) in
    let next : start + (i + 1) - length ms ≡ suc j = omega arith in
    let front =
      drop_first-get_elem? (take start ms) j b (get_elem?-take ms start j (omega arith) ∙ here) in
    rw (order, at, here, rest, next, front) refl

-- The passes up to the last member, and those that come round.
order-straight :
    (start i n : ℕ) (ms : List Backend)
    → start < length ms
    → start + i ≤ length ms
    → i + n ≡ length ms
    → order start i n ms ≡ some (drop_first (start + i) ms ++ take start ms)
unfolding order
order-straight start i zero ms s w e =
    let none_start : start ≡ 0 = omega arith in
    rw (drop_first-length ms (start + i) (omega arith), none_start) refl
order-straight start i (suc n) ms s w e = elim (Bool-cases (ltb (start + i) (length ms))) [
  | inl inside ↦
      let j = start + i in
      let at : j % length ms ≡ j = mod-eq_of_lt (ltb→lt j (length ms) inside) in
      let (b, here) = get_elem?-some ms j (ltb→lt j (length ms) inside) in
      let rest = order-straight start (i + 1) n ms s (ground arith) (omega arith) in
      let next : start + (i + 1) ≡ suc j = omega arith in
      rw (order, at, here, rest, next, drop_first-get_elem? ms j b here) refl
  | inr round ↦
      let none_left : start + i - length ms ≡ 0 = ground arith in
      order-wrapped start i (suc n) ms s (ground arith) e
      ∙ (rw (none_left, drop_first-length ms (start + i) (ground arith)) refl)
]

-- From an index within the pool, the loop visits the members from that index on and then those before it, and
-- never reads out of range.
pub order_lem :
    (start : ℕ) (ms : List Backend)
    → start < length ms
    → order start 0 (length ms) ms ≡ some (drop_first start ms ++ take start ms)
order_lem start ms s =
    let still : start + 0 ≡ start = omega arith in
    rw still at (order-straight start 0 (length ms) ms s (omega arith) (omega arith))
