-- ===== src/Proxy/Goroutine/Safety/Closing.antt =====
-- The section of `Close`: the records that it takes from the index are its own, each once.
use tsserve.Base.{
  ℕ, String, ◌≡◌, ◌≢◌, refl, true, false, ◌&&◌, inl, inr, none, some, List, [], ◌∷◌, Map, IsMap,
  lookup, eqb, eqb→eq, eq_iff, arith, Bool-cases,
}
use tsserve.Proxy.State.{AdvertisedService, serving}
use tsserve.Proxy.Manager.{close_locked, closing}
use tsserve.Proxy.Manager.Invariant.Withdraw.{close_locked-Inv}
use tsserve.Proxy.Manager.Gauges.Kept.{close_locked-Gauged}
use tsserve.Proxy.Goroutine.{shutting, System, next_of_close}
use tsserve.Proxy.Goroutine.Stage.{among, owns, flight, in_serve, Closable, AllClosable, Stage}
use tsserve.Proxy.Goroutine.Effects.{close_locked-same}
use tsserve.Proxy.Goroutine.Names.{close_locked-Names}
use tsserve.Proxy.Goroutine.Safety.{Safe, after_section, section_step}
use tsserve.Proxy.Goroutine.Safety.Leave.{Stage-busy}

-- Every record to close is in the index under its name, and serves.
closing_sound :
    (records : ℕ → AdvertisedService) (entries : Map ℕ) (j : ℕ)
    → IsMap entries
    → ((n : String) (id : ℕ) → lookup n entries ≡ some id → (records id).name ≡ n)
    → among (closing records entries) j ≡ true
    → (lookup (records j).name entries ≡ some j) × (serving (records j) ≡ true)
unfolding closing lookup
closing_sound records [] j u named h = cc
closing_sound records ((n, id) ∷ entries) j u named h =
    elim (Bool-cases (serving (records id) && eqb id j)) [
      | inl this ↦ ground (arith, eqb→eq id j, named n id, eq_iff n n, eq_iff n (records id).name)
      | inr that ↦
          let below =
            closing_sound records entries j u.1
              (λ k i e. named k i (ground (arith, eq_iff n k, u.0))) (ground arith) in
          ground (arith, below, eq_iff n (records j).name, u.0)
    ]

module _ (s : System) (safe : Safe s) where
  Closable-at :
      (n : String) (id : ℕ)
      → lookup n s.manager.services ≡ some id
      → serving (s.manager.records id) ≡ true
      → Closable s id
  Closable-at n id held busy =
      let p = safe.inv.pools n id held in
      record {
        allocated = (safe.inv.indexed n id held).0;
        ready = ground arith;
        staying = ground arith;
        closable = ground (arith, p.can_close);
        state = safe.names.opened n id held busy;
      }

  closing_once :
      (n : String) (id : ℕ) (entries : Map ℕ)
      → lookup n entries ≡ none
      → (s.manager.records id).name ≡ n
      → IsMap entries
      → ((k : String) (j : ℕ) → lookup k entries ≡ some j → (s.manager.records j).name ≡ k)
      → among (closing s.manager.records entries) id ≡ false
  closing_once n id entries free named u names =
      elim (Bool-cases (among (closing s.manager.records entries) id)) [
        | inr out ↦ out
        | inl in_list ↦
            let found = closing_sound s.manager.records entries id u names in_list in
            ground (arith, found.0)
      ]

  closing_all :
      (entries : Map ℕ)
      → IsMap entries
      → ((n : String) (id : ℕ) → lookup n entries ≡ some id → lookup n s.manager.services ≡ some id)
      → AllClosable s (closing s.manager.records entries)
  unfolding closing lookup
  closing_all [] u sub = tt
  closing_all ((n, id) ∷ entries) u sub =
      let sub_rest : (k : String) (i : ℕ)
          → lookup k entries ≡ some i
          → lookup k s.manager.services ≡ some i =
        λ k i e. sub k i (ground (arith, eq_iff n k, u.0)) in
      let below = closing_all entries u.1 sub_rest in
      let here : lookup n s.manager.services ≡ some id = sub n id (ground (arith, eq_iff n n)) in
      elim (Bool-cases (serving (s.manager.records id))) [
        | inr quiet ↦ rw quiet below
        | inl busy ↦ rw busy (
          Closable-at n id here busy,
          closing_once n id entries u.0 (safe.inv.indexed n id here).1 u.1
              (λ k j e. (safe.inv.indexed k j (sub_rest k j e)).1),
          below,
        )
      ]

  -- What `Close` leaves of the records that it tears down.
  after_lock :
      (ids : List ℕ) (t : System)
      → t.manager ≡ (close_locked s.manager).0
      → t.listener ≡ s.listener
      → AllClosable s ids
      → AllClosable t ids
  unfolding close_locked
  after_lock [] t m l c = tt
  after_lock (id ∷ ids) t m l (c, d, cs) = (
    record {
      allocated = rw m c.allocated;
      ready = rw m c.ready;
      staying = rw m c.staying;
      closable = rw m c.closable;
      state = rw l c.state;
    },
    d,
    after_lock ids t m l cs,
  )

module _ (s : System) (i : ℕ) (safe : Safe s) (here : s.goroutines i ≡ shutting) where
  abbrev pub closed : List ℕ → System
  closed ids = after_section s i (next_of_close ids) safe (close_locked s.manager).0

  closed-Stage : (ids : List ℕ) → AllClosable s ids → Stage (closed ids) (next_of_close ids)
  unfolding close_locked
  closed-Stage [] c = tt
  closed-Stage (id ∷ ids) c = (refl, after_lock s safe (id ∷ ids) (closed (id ∷ ids)) refl refl c)

  closed_takes :
      (ids : List ℕ)
      → ((id : ℕ) → among ids id ≡ true → (j : ℕ) → owns (s.goroutines j) id ≢ true)
      → (id : ℕ) → owns (next_of_close ids) id ≡ true
      → (j : ℕ) → owns (s.goroutines j) id ≢ true
  closed_takes [] free id o = cc
  closed_takes (a ∷ ids) free id o = free id o

  closed_out :
      (ids : List ℕ) → (in_serve (next_of_close ids) ≡ false) × (flight (next_of_close ids) ≡ none)
  closed_out [] = (refl, refl)
  closed_out (a ∷ ids) = (refl, refl)

  -- Nobody owns a record that `Close` takes.
  closing_free :
      (id : ℕ)
      → among (closing s.manager.records s.manager.services) id ≡ true
      → (j : ℕ) → owns (s.goroutines j) id ≢ true
  closing_free id a j o =
      let found =
        closing_sound s.manager.records s.manager.services id safe.inv.services_map
          (λ n k e. (safe.inv.indexed n k e).1) a in
      elim (Bool-cases s.manager.shutdown) [
        | inl down ↦
            let gone = (safe.inv.after_close down).0 in
            absurd (unfold lookup in ground (arith, found.0))
        | inr up ↦
            let quiet = Stage-busy s (s.goroutines j) id (safe.threads.stages j) o up in
            cc (found.1)
      ]

  closed_at :
      (ids : List ℕ) → ids ≡ closing s.manager.records s.manager.services → Safe (closed ids)
  closed_at ids e =
      let all = closing_all s safe s.manager.services safe.inv.services_map (λ n id h. h) in
      section_step s i (next_of_close ids) safe (close_locked s.manager).0 (rw here)
        (closed_out ids).0 (close_locked-Inv s.manager safe.inv)
        (close_locked-Gauged s.manager safe.inv safe.gauged)
        (close_locked-Names s.manager s.listener safe.inv safe.names)
        (record {
          stepped = refl;
          down = λ h. unfold close_locked in refl;
          stage = closed-Stage ids (rw e all);
          takes = λ id o. inr (closed_takes ids (λ j a. closing_free j (rw e at a)) id o);
          flies = λ k h. cc ((closed_out ids).1);
          spares = λ j id other o. record {
            record_same = close_locked-same s.manager id;
            listener_same = refl;
          };
          keeps = λ j k other f free. unfold close_locked lookup in refl;
        })

  -- The section of `Close` keeps the system safe.
  pub closed-Safe : Safe (closed (close_locked s.manager).1)
  unfolding close_locked
  closed-Safe = closed_at _ refl
