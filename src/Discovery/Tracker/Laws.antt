-- ===== src/Discovery/Tracker/Laws.antt =====
-- The books agree with the registrar.
use tsserve.Base.{
  String, ◌≡◌, refl, ◌⊎◌, inl, inr, Bool, true, false, ◌==◌, not, ◌&&◌, none, some, List, [], ◌∷◌,
  Map, lookup, has, contains, lookup-put, lookup-delete, if◌then◌else◌, arith, eq_iff, Option-cases,
  Bool-cases,
}
use tsserve.Discovery.Registrar.{Registrar}
use tsserve.Discovery.Tracker.{Tracker, drop, enlist, settle, drop_unseen, remove_missing}

module _ {S D V : Type 0} (reg : Registrar S D V String) where
  -- A key is recorded with exactly what is in service for it.
  abbrev pub Synced : Tracker S V → Type 0
  Synced t = (k : String) → lookup k t.active ≡ reg.holds t.state k

  pub drop-Synced : (key : String) (t : Tracker S V) → Synced t → Synced (drop reg key t)
  unfolding drop
  drop-Synced key t h k =
      ground (arith, h k, lookup-delete key k t.active, reg.holds-deregister key k t.state)

  pub enlist-Synced :
      (describe : String → String) (key : String) (d : D) (v : V) (t : Tracker S V)
      → reg.described d ≡ v
      → lookup key t.active ≡ none
      → Synced t
      → Synced (enlist reg describe key d v t)
  unfolding enlist
  enlist-Synced describe key d v t at free h k =
      elim (Option-cases (reg.register key d t.state).1) [
        | inl fine ↦ ground (
          arith,
          fine,
          h k,
          h key,
          lookup-put key k v t.active,
          reg.holds-register_ok key k d t.state (ground (arith, h key)) fine,
        )
        | inr (e, bad) ↦ ground (arith, bad, h k, reg.holds-register_err key k d t.state e bad)
      ]

  pub settle-Synced :
      (same : V → V → Bool) (describe : String → String) (key : String) (d : D) (v : V)
      (t : Tracker S V)
      → reg.described d ≡ v
      → Synced t
      → Synced (settle reg same describe key d v t)
  unfolding settle drop
  settle-Synced same describe key d v t at h k = elim (Option-cases (lookup key t.active)) [
    | inl free ↦ ground (arith, free, enlist-Synced describe key d v t at free h k)
    | inr (prev, held) ↦ ground (
      arith,
      held,
      h k,
      enlist-Synced describe key d v (drop reg key t) at
          (ground (arith, lookup-delete key key t.active, eq_iff key key)) (drop-Synced key t h) k,
    )
  ]

  pub drop_unseen-Synced :
      (seen : List String) (es : Map V) (t : Tracker S V)
      → Synced t
      → Synced (drop_unseen reg seen es t)
  unfolding drop_unseen
  drop_unseen-Synced seen [] t h j = h j
  drop_unseen-Synced seen ((k, v) ∷ es) t h j = ground (
    arith,
    drop_unseen-Synced seen es t h j,
    drop_unseen-Synced seen es (drop reg k t) (drop-Synced k t h) j,
  )

  pub remove_missing-Synced :
      (seen : List String) (t : Tracker S V) → Synced t → Synced (remove_missing reg seen t)
  unfolding remove_missing
  remove_missing-Synced seen t h k = drop_unseen-Synced seen t.active t h k

  lookup-drop_unseen :
      (seen : List String) (es : Map V) (t : Tracker S V) (k : String)
      → lookup k (drop_unseen reg seen es t).active
        ≡ (if has k es && not (contains seen k) then none else lookup k t.active)
  unfolding drop_unseen drop lookup has
  lookup-drop_unseen seen [] t k = refl
  lookup-drop_unseen seen ((j, v) ∷ es) t k = ground (
    arith,
    lookup-drop_unseen seen es t k,
    lookup-drop_unseen seen es (drop reg j t) k,
    lookup-delete j k t.active,
    eq_iff j k,
  )

  -- The entries of the keys that are seen stay as they are, and the others go.
  pub lookup-remove_missing :
      (seen : List String) (t : Tracker S V) (k : String)
      → lookup k (remove_missing reg seen t).active
        ≡ (if contains seen k then lookup k t.active else none)
  unfolding remove_missing has
  lookup-remove_missing seen t k = ground (arith, lookup-drop_unseen seen t.active t k)

  -- A key is active like its last registration, or it is not active and its failure is recorded.
  abbrev pub Settled : String → V → Tracker S V → Type 0
  Settled key v t =
      (lookup key t.active ≡ some v) ⊎ ((lookup key t.active ≡ none) × (has key t.failed ≡ true))

  enlist-Settled :
      (describe : String → String) (key : String) (d : D) (v : V) (t : Tracker S V)
      → lookup key t.active ≡ none
      → Settled key v (enlist reg describe key d v t)
  unfolding enlist has
  enlist-Settled describe key d v t free = elim (Option-cases (reg.register key d t.state).1) [
    | inl fine ↦ inl (ground (arith, fine, lookup-put key key v t.active, eq_iff key key))
    | inr (e, bad) ↦ inr (
      ground (arith, bad),
      ground (arith, bad, lookup-put key key (describe e) t.failed, eq_iff key key),
    )
  ]

  pub settle-Settled :
      (same : V → V → Bool) (describe : String → String) (key : String) (d : D) (v : V)
      (t : Tracker S V)
      → ((a b : V) → same a b ≡ true → a ≡ b)
      → Settled key v (settle reg same describe key d v t)
  unfolding settle drop has
  settle-Settled same describe key d v t sound = elim (Option-cases (lookup key t.active)) [
    | inl free ↦ rw (settle, free) (enlist-Settled describe key d v t free)
    | inr (prev, held) ↦ elim (Bool-cases (same prev v)) [
      | inl alike ↦ inl (ground (arith, held, alike, sound prev v alike))
      | inr moved ↦
          rw (settle, held, moved)
            (enlist-Settled describe key d v (drop reg key t)
              (ground (arith, lookup-delete key key t.active, eq_iff key key)))
    ]
  ]

  enlist-others :
      (describe : String → String) (key j : String) (d : D) (v : V) (t : Tracker S V)
      → (key == j) ≡ false
      → lookup j (enlist reg describe key d v t).active ≡ lookup j t.active
  unfolding enlist
  enlist-others describe key j d v t other = elim (Option-cases (reg.register key d t.state).1) [
    | inl fine ↦ ground (arith, fine, other, lookup-put key j v t.active)
    | inr (e, bad) ↦ ground (arith, bad)
  ]

  -- The entries of the other keys stay as they are.
  pub settle-others :
      (same : V → V → Bool) (describe : String → String) (key j : String) (d : D) (v : V)
      (t : Tracker S V)
      → (key == j) ≡ false
      → lookup j (settle reg same describe key d v t).active ≡ lookup j t.active
  unfolding settle drop
  settle-others same describe key j d v t other = elim (Option-cases (lookup key t.active)) [
    | inl free ↦ ground (arith, free, enlist-others describe key j d v t other)
    | inr (prev, held) ↦ ground (
      arith,
      held,
      other,
      enlist-others describe key j d v (drop reg key t) other,
      lookup-delete key j t.active,
    )
  ]
