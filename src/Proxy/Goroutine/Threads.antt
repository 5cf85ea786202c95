-- ===== src/Proxy/Goroutine/Threads.antt =====
-- Who owns which record, and which keys are in flight: what every step keeps, whatever it does.
use tsserve.Base.{
  ℕ, ◌<◌, String, ◌≡◌, ◌≢◌, true, ◌||◌, ◌⊎◌, inl, inr, none, some, List, [], ◌∷◌, lookup, eqb,
  eqb→eq, arith, Bool-cases,
}
use tsserve.Proxy.State.{update}
use tsserve.Proxy.Goroutine.{
  Next, discard, withdraw, rest, Goroutine, idle, returned, registering, waiting, claiming,
  in_listen, listened, failed, deregistering, tearing, in_close, withdrawn, shutting, System,
}
use tsserve.Proxy.Goroutine.Stage.{among, owns, next_owns, flight, AllClosable, TearStage, Stage}
use tsserve.Proxy.Goroutine.Frame.{Same, Stage-frame}

pub record Threads (s : System) : Type 0 where
  pub stages : (i : ℕ) → Stage s (s.goroutines i)
  pub owners :
      (i j id : ℕ) → owns (s.goroutines i) id ≡ true → owns (s.goroutines j) id ≡ true → i ≡ j
  pub flights :
      (i j : ℕ) (key : String)
      → flight (s.goroutines i) ≡ some key
      → flight (s.goroutines j) ≡ some key
      → i ≡ j

-- A record that a goroutine owns has been allocated.
AllClosable-allocated :
    (s : System) (ids : List ℕ) (j : ℕ)
    → AllClosable s ids
    → among ids j ≡ true
    → j < s.manager.next_record
AllClosable-allocated s [] j c h = cc
AllClosable-allocated s (id ∷ ids) j (c, d, cs) h =
    ground (arith, c.allocated, AllClosable-allocated s ids j cs, eqb→eq id j)

TearStage-allocated :
    (s : System) (id : ℕ) (k : Next) (j : ℕ)
    → TearStage s id k
    → (eqb id j || next_owns k j) ≡ true
    → j < s.manager.next_record
TearStage-allocated s id discard j c h = ground (arith, c.0)
TearStage-allocated s id (withdraw name) j c h = ground (arith, c.0.allocated)
TearStage-allocated s id (rest ids) j c h = AllClosable-allocated s (id ∷ ids) j c.1 h

pub Stage-allocated :
    (s : System) (g : Goroutine) (j : ℕ) → Stage s g → owns g j ≡ true → j < s.manager.next_record
Stage-allocated s (claiming id key b) j c h = ground (arith, c.claim.allocated)
Stage-allocated s (in_listen id key b) j c h = ground (arith, c.claim.allocated)
Stage-allocated s (listened id key b) j c h = ground (arith, c.claim.allocated)
Stage-allocated s (failed id text) j c h = ground (arith, c.0.allocated)
Stage-allocated s (tearing id k) j c h = TearStage-allocated s id k j c h
Stage-allocated s (in_close id k) j c h = TearStage-allocated s id k j c h
Stage-allocated s (withdrawn id name) j c h = ground (arith, c.0.allocated)
Stage-allocated s idle j c h = cc
Stage-allocated s (returned r) j c h = cc
Stage-allocated s (registering key def b) j c h = cc
Stage-allocated s (waiting id w key def b) j c h = cc
Stage-allocated s (deregistering key) j c h = cc
Stage-allocated s shutting j c h = cc

-- Goroutine `i` steps to `g`, and the other goroutines' records and keys are left alone.
pub record Local (s t : System) (i : ℕ) (g : Goroutine) : Type 0 where
  pub stepped : t.goroutines ≡ update s.goroutines i g
  pub down : s.manager.shutdown ≡ true → t.manager.shutdown ≡ true
  pub stage : Stage t g
  pub takes :
      (id : ℕ)
      → owns g id ≡ true
      → (owns (s.goroutines i) id ≡ true) ⊎ ((j : ℕ) → owns (s.goroutines j) id ≢ true)
  pub flies :
      (key : String)
      → flight g ≡ some key
      → (flight (s.goroutines i) ≡ some key) ⊎ ((j : ℕ) → flight (s.goroutines j) ≢ some key)
  pub spares : (j id : ℕ) → j ≢ i → owns (s.goroutines j) id ≡ true → Same s t id
  pub keeps :
      (j : ℕ) (key : String)
      → j ≢ i
      → flight (s.goroutines j) ≡ some key
      → lookup key s.manager.by_key ≡ none
      → lookup key t.manager.by_key ≡ none

module _ (s t : System) (i : ℕ) (g : Goroutine) (h : Threads s) (l : Local s t i g) where
  at : (j : ℕ) → ((j ≡ i) × (t.goroutines j ≡ g)) ⊎ ((j ≢ i) × (t.goroutines j ≡ s.goroutines j))
  at j = elim (Bool-cases (eqb i j)) [
    | inl e ↦ inl (ground (arith, eqb→eq i j), rw l.stepped (rw e))
    | inr e ↦ inr (ground (arith), rw l.stepped (rw e))
  ]

  Stage-at : (j : ℕ) → Stage t (t.goroutines j)
  Stage-at j = elim (at j) [
    | inl (_, e) ↦ rw e l.stage
    | inr (other, e) ↦ rw e (
        Stage-frame s t l.down (s.goroutines j) (λ id o. l.spares j id other o)
          (λ key f. l.keeps j key other f) (h.stages j))
  ]

  new_owner : (j id : ℕ) → j ≢ i → owns g id ≡ true → owns (s.goroutines j) id ≡ true → ⊥
  new_owner j id other a c = elim (l.takes id a) [
    | inl mine ↦ other (h.owners j i id c mine)
    | inr free ↦ free j c
  ]

  owners_at :
      (j k id : ℕ) → owns (t.goroutines j) id ≡ true → owns (t.goroutines k) id ≡ true → j ≡ k
  owners_at j k id a c = elim (at j) [
    | inl (e, ej) ↦ elim (at k) [
      | inl (f, ek) ↦ ground arith
      | inr (f, ek) ↦ absurd (new_owner k id f (rw ej at a) (rw ek at c))
    ]
    | inr (e, ej) ↦ elim (at k) [
      | inl (f, ek) ↦ absurd (new_owner j id e (rw ek at c) (rw ej at a))
      | inr (f, ek) ↦ h.owners j k id (rw ej at a) (rw ek at c)
    ]
  ]

  new_flight :
      (j : ℕ) (key : String) → j ≢ i → flight g ≡ some key → flight (s.goroutines j) ≡ some key → ⊥
  new_flight j key other a c = elim (l.flies key a) [
    | inl mine ↦ other (h.flights j i key c mine)
    | inr fresh ↦ fresh j c
  ]

  flights_at :
      (j k : ℕ) (key : String)
      → flight (t.goroutines j) ≡ some key
      → flight (t.goroutines k) ≡ some key
      → j ≡ k
  flights_at j k key a c = elim (at j) [
    | inl (e, ej) ↦ elim (at k) [
      | inl (f, ek) ↦ ground arith
      | inr (f, ek) ↦ absurd (new_flight k key f (rw ej at a) (rw ek at c))
    ]
    | inr (e, ej) ↦ elim (at k) [
      | inl (f, ek) ↦ absurd (new_flight j key e (rw ek at c) (rw ej at a))
      | inr (f, ek) ↦ h.flights j k key (rw ej at a) (rw ek at c)
    ]
  ]

  pub Threads-step : Threads t
  Threads-step = record { stages = Stage-at; owners = owners_at; flights = flights_at }
