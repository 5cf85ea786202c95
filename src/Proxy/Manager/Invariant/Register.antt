-- ===== src/Proxy/Manager/Invariant/Register.antt =====
-- A pass of register's loop keeps the invariant.
use tsserve.Base.{
  subst, Bool-cases, eqb→eq, contains-append, length-append, ℕ, String, ◌≡◌, refl, true, false, [],
  ◌∷◌, none, some, lookup, put-IsMap, lookup-put, contains, arith, eq_iff, Option-cases, inl, inr,
}
use tsserve.Proxy.Backend.{Backend}
use tsserve.Proxy.Pool.{keys_of, add}
use tsserve.Proxy.Pool.Members.{keys_of-snoc, snoc-Distinct}
use tsserve.Proxy.State.{AdvertisedService, Manager, ServiceDef, serving}
use tsserve.Proxy.Manager.{claim, join, add_member, register_pass}
use tsserve.Proxy.Manager.Invariant.Slots.{slot}
use tsserve.Proxy.Manager.Invariant.{Inv, IsCoherent, has_member}

module _ (def : ServiceDef) (m : Manager) (v : Inv m) (free : lookup def.service m.services ≡ none)
    (live : m.shutdown ≡ false) where
  pub claim-Inv : Inv (claim def m).0
  unfolding claim has_member keys_of contains
  claim-Inv = record {
    services_map = put-IsMap def.service m.next_record m.services v.services_map;
    indexed = λ n id h. ground (
      arith,
      lookup-put def.service n m.next_record m.services,
      v.indexed n id,
      eq_iff def.service n,
    );
    sound = λ k n h. ground (
      arith,
      v.sound k n h,
      lookup-put def.service n m.next_record m.services,
      slot m n v,
      eq_iff def.service n,
    );
    complete = λ k n h.
        ground
          (arith, lookup-put def.service n m.next_record m.services, v.complete k n, slot m n v);
    pools = λ n id h.
        ground
          (arith, lookup-put def.service n m.next_record m.services, v.pools n id, v.indexed n id);
    after_close = λ h. ground arith;
  }

module _ (key : String) (def : ServiceDef) (b : Backend) (id : ℕ) (m : Manager) (v : Inv m)
    (held : lookup def.service m.services ≡ some id) (live : m.shutdown ≡ false)
    (own_key : b.key ≡ key) (fresh : lookup key m.by_key ≡ none) where
  absent :
      serving (m.records id) ≡ true → contains (keys_of (m.records id).pool.members) key ≡ false
  unfolding has_member
  absent s = ground (arith, v.complete key def.service)

  join-IsCoherent :
      (r : AdvertisedService)
      → r ≡ m.records id
      → serving r ≡ true
      → IsCoherent (record r { pool = (add r.pool b).0 })
  unfolding add
  join-IsCoherent r e s = record {
    distinct =
        snoc-Distinct r.pool.members b (rw e (v.pools def.service id held).distinct)
          (rw (own_key, e) (absent (rw e at s)));
    filled = λ _. rw (length-append r.pool.members (b ∷ [])) (omega arith);
    empty = λ h. cc;
    can_close = rw e (v.pools def.service id held).can_close;
  }

  pub add_member-Inv : serving (m.records id) ≡ true → Inv (add_member key b id m)
  unfolding add_member has_member
  add_member-Inv s = record {
    services_map = v.services_map;
    indexed = λ n i h. ground (arith, v.indexed n i h, eqb→eq id i);
    sound = λ k n h. ground (
      arith,
      v.sound k n,
      slot m n v,
      slot m def.service v,
      lookup-put key k (m.records id).name m.by_key,
      eq_iff key k,
      keys_of-snoc (m.records id).pool.members b,
      contains-append (keys_of (m.records id).pool.members) (key ∷ []) k,
    );
    complete = λ k n h. ground (
      arith,
      v.complete k n,
      slot m n v,
      slot m def.service v,
      lookup-put key k (m.records id).name m.by_key,
      eq_iff key k,
      keys_of-snoc (m.records id).pool.members b,
      contains-append (keys_of (m.records id).pool.members) (key ∷ []) k,
    );
    pools = λ n i h. ground (arith, v.pools n i h, join-IsCoherent (m.records id) refl s);
    after_close = λ h. cc;
  }

  join-Inv : Inv (join key def b id m).0
  unfolding join
  join-Inv = ground (arith, add_member-Inv)

-- A pass of register's loop keeps the invariant, whether it is refused, joins, claims or waits.
pub register_pass-Inv :
    (key : String) (def : ServiceDef) (b : Backend) (m : Manager)
    → b.key ≡ key
    → Inv m
    → Inv (register_pass key def b m).0
unfolding register_pass
register_pass-Inv key def b m own v = elim (Bool-cases m.shutdown) [
  | inl down ↦ let e : m ≡ (register_pass key def b m).0 = ground arith in subst Inv e v
  | inr live ↦ elim (Option-cases (lookup key m.by_key)) [
    | inr (n, known) ↦ let e : m ≡ (register_pass key def b m).0 = ground arith in subst Inv e v
    | inl fresh ↦ elim (Option-cases (lookup def.service m.services)) [
      | inl free ↦
          let e : (claim def m).0 ≡ (register_pass key def b m).0 = ground arith in
          subst Inv e (claim-Inv def m v free live)
      | inr (id, held) ↦
          let e : (join key def b id m).0 ≡ (register_pass key def b m).0 = ground arith in
          subst Inv e (join-Inv key def b id m v held live own fresh)
    ]
  ]
]
