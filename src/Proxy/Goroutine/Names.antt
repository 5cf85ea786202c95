-- ===== src/Proxy/Goroutine/Names.antt =====
-- One listener to a name: while a record's listener is not shut, the index holds the record.
use tsserve.Base.{
  ℕ, ◌<◌, ◌≤◌, String, ◌≡◌, ◌≢◌, ◌⊎◌, Bool, true, false, some, none, lookup, lookup-put,
  lookup-delete, eqb→eq, eq_iff, arith, Bool-cases, inl, inr, Option-cases, subst,
}
use tsserve.Proxy.Backend.{Backend}
use tsserve.Proxy.State.{Manager, ServiceDef, serving, update}
use tsserve.Proxy.Manager.{
  register_pass, claim, join, add_member, advertise_locked, release_locked, deregister_locked,
  withdrawn_locked, close_locked,
}
use tsserve.Proxy.Manager.Invariant.{Inv}
use tsserve.Proxy.Manager.Invariant.Withdraw.{pool_record}
use tsserve.Proxy.Goroutine.{Listener, unopened, opening, listening, shut}

abbrev pub Listeners : Type 0
Listeners = ℕ → Listener

abbrev pub live : Listener → Bool
live shut = false
live unopened = true
live opening = true
live listening = true

pub record Names (m : Manager) (l : Listeners) : Type 0 where
  -- two live listeners do not share a name
  pub unique :
      (a c : ℕ)
      → a < m.next_record
      → c < m.next_record
      → live (l a) ≡ true
      → live (l c) ≡ true
      → (m.records a).name ≡ (m.records c).name
      → a ≡ c
  -- the index holds every live listener, until the manager shuts down
  pub indexed :
      (a : ℕ)
      → a < m.next_record
      → live (l a) ≡ true
      → m.shutdown ≡ false
      → lookup (m.records a).name m.services ≡ some a
  pub future : (a : ℕ) → m.next_record ≤ a → l a ≡ unopened
  -- a serving record's listener is open
  pub opened :
      (n : String) (a : ℕ)
      → lookup n m.services ≡ some a
      → serving (m.records a) ≡ true
      → l a ≡ listening

module _ (m : Manager) (l : Listeners) (v : Inv m) (h : Names m l) where
  -- A name that is free has no live listener.
  free_name :
      (n : String) (a : ℕ)
      → lookup n m.services ≡ none
      → a < m.next_record
      → live (l a) ≡ true
      → m.shutdown ≡ false
      → (m.records a).name ≢ n
  free_name n a free old alive up e = ground (arith, h.indexed a old alive up)

  claim-Names :
      (def : ServiceDef)
      → lookup def.service m.services ≡ none
      → m.shutdown ≡ false
      → Names (claim def m).0 l
  unfolding claim
  claim-Names def free up = record {
    unique = λ a c ha hc la lc e. ground (
      arith,
      h.unique a c,
      free_name def.service a free,
      free_name def.service c free,
      eqb→eq m.next_record a,
      eqb→eq m.next_record c,
    );
    indexed = λ a ha la s. ground (
      arith,
      h.indexed a,
      free_name def.service a free,
      eqb→eq m.next_record a,
      lookup-put def.service (m.records a).name m.next_record m.services,
      eq_iff def.service (m.records a).name,
      lookup-put def.service def.service m.next_record m.services,
      eq_iff def.service def.service,
    );
    future = λ a ha. h.future a (omega arith);
    opened = λ n a e s. ground (
      arith,
      h.opened n a,
      lookup-put def.service n m.next_record m.services,
      v.indexed n a,
      eqb→eq m.next_record a,
    );
  }

  join-Names :
      (key : String) (def : ServiceDef) (b : Backend) (own : ℕ) → Names (join key def b own m).0 l
  unfolding join add_member
  join-Names key def b own = record {
    unique = λ a c ha hc la lc e. ground (arith, h.unique a c, eqb→eq own a, eqb→eq own c);
    indexed = λ a ha la s. ground (arith, h.indexed a, eqb→eq own a);
    future = λ a ha. ground (arith, h.future a);
    opened = λ n a e s. ground (arith, h.opened n a, eqb→eq own a);
  }

  pub register_pass-Names :
      (key : String) (def : ServiceDef) (b : Backend) → Names (register_pass key def b m).0 l
  unfolding register_pass
  register_pass-Names key def b = elim (Bool-cases m.shutdown) [
    | inl down ↦
        let e : m ≡ (register_pass key def b m).0 = ground arith in subst (λ n. Names n l) e h
    | inr up ↦ elim (Option-cases (lookup key m.by_key)) [
      | inr (n, known) ↦
          let e : m ≡ (register_pass key def b m).0 = ground arith in subst (λ n. Names n l) e h
      | inl fresh ↦ elim (Option-cases (lookup def.service m.services)) [
        | inl free ↦
            let e : (claim def m).0 ≡ (register_pass key def b m).0 = ground arith in
            subst (λ n. Names n l) e (claim-Names def free up)
        | inr (own, held) ↦
            let e : (join key def b own m).0 ≡ (register_pass key def b m).0 = ground arith in
            subst (λ n. Names n l) e (join-Names key def b own)
      ]
    ]
  ]

  module _ (own : ℕ) (n : Manager) where
    pub release_locked-Names :
        (m.shutdown ≡ true) ⊎ (l own ≡ shut) → release_locked own m ≡ some n → Names n l
    unfolding release_locked
    release_locked-Names gone e = record {
      unique = λ a c ha hc la lc f. ground (arith, h.unique a c, eqb→eq own a, eqb→eq own c, gone);
      indexed = λ a ha la s. ground (
        arith,
        h.indexed a,
        eqb→eq own a,
        gone,
        lookup-delete (m.records own).name (m.records a).name m.services,
        eq_iff (m.records own).name (m.records a).name,
      );
      future = λ a ha. ground (arith, h.future a);
      opened = λ k a f s.
          ground
            (arith, h.opened k a, eqb→eq own a, lookup-delete (m.records own).name k m.services);
    }

    pub advertise_locked-Names :
        (key : String) (b : Backend) (down : Bool)
        → l own ≡ listening
        → advertise_locked own key b m ≡ some (n, down)
        → Names n l
    unfolding advertise_locked
    advertise_locked-Names key b down accepting e = elim (Bool-cases m.shutdown) [
      | inl closing ↦ release_locked-Names (inl closing) (ground arith)
      | inr up ↦ record {
        unique = λ a c ha hc la lc f. ground (arith, h.unique a c, eqb→eq own a, eqb→eq own c);
        indexed = λ a ha la s. ground (arith, h.indexed a, eqb→eq own a);
        future = λ a ha. ground (arith, h.future a);
        opened = λ k a f s. ground (arith, h.opened k a, eqb→eq own a);
      }
    ]

    pub withdrawn_locked-Names :
        (name : String)
        → l own ≡ shut
        → (m.records own).name ≡ name
        → withdrawn_locked own name m ≡ some n
        → Names n l
    unfolding withdrawn_locked
    withdrawn_locked-Names name gone named e = record {
      unique = λ a c ha hc la lc f. ground (arith, h.unique a c, eqb→eq own a, eqb→eq own c, gone);
      indexed = λ a ha la s. ground (
        arith,
        h.indexed a,
        eqb→eq own a,
        gone,
        lookup-delete name (m.records a).name m.services,
        eq_iff name (m.records a).name,
      );
      future = λ a ha. ground (arith, h.future a);
      opened =
          λ k a f s. ground (arith, h.opened k a, eqb→eq own a, lookup-delete name k m.services);
    }

  pub deregister_locked-Names : (key : String) → Names (deregister_locked key m).0 l
  unfolding deregister_locked
  deregister_locked-Names key = elim (Option-cases (lookup key m.by_key)) [
    | inl e ↦
        let same_m : m ≡ (deregister_locked key m).0 = ground arith in
        subst (λ n. Names n l) same_m h
    | inr (name, known) ↦
        let r = pool_record key m v name known in
        record {
          unique = λ a c ha hc la lc f.
              ground (arith, r.1, r.2, h.unique a c, eqb→eq r.0 a, eqb→eq r.0 c);
          indexed = λ a ha la s. ground (arith, r.1, r.2, h.indexed a, eqb→eq r.0 a);
          future = λ a ha. ground (arith, r.1, r.2, h.future a);
          opened = λ k a f s. ground (arith, r.1, r.2, h.opened k a, eqb→eq r.0 a);
        }
  ]

  pub close_locked-Names : Names (close_locked m).0 l
  unfolding close_locked lookup
  close_locked-Names = record {
    unique = h.unique;
    indexed = λ a ha la s. ground arith;
    future = h.future;
    opened = λ n a e s. ground arith;
  }

  -- A live listener changes state. Only a record that is not serving may leave the open state.
  pub update-Names :
      (id : ℕ) (x : Listener)
      → id < m.next_record
      → live (l id) ≡ true
      → ((n : String)
          → lookup n m.services ≡ some id
          → serving (m.records id) ≡ true
          → x ≡ listening)
      → Names m (update l id x)
  update-Names id x old alive quiet = record {
    unique = λ a c ha hc la lc e. ground (arith, h.unique a c, eqb→eq id a, eqb→eq id c);
    indexed = λ a ha la s. ground (arith, h.indexed a, eqb→eq id a);
    future = λ a ha. ground (arith, h.future a, eqb→eq id a);
    opened = λ n a e s. ground (arith, h.opened n a, eqb→eq id a, quiet n);
  }
