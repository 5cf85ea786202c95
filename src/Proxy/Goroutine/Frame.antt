-- ===== src/Proxy/Goroutine/Frame.antt =====
-- A goroutine keeps what it relies on while the others leave its own records and its key alone.
use tsserve.Base.{
  ℕ, ◌<◌, String, ◌≡◌, refl, true, false, none, some, List, [], ◌∷◌, lookup, eqb, arith, ◌||◌,
}
use tsserve.Proxy.Backend.{Backend}
use tsserve.Proxy.State.{Manager}
use tsserve.Proxy.Manager.Invariant.Claim.{Claimed}
use tsserve.Proxy.Manager.Invariant.Withdraw.{Withdrawing}
use tsserve.Proxy.Goroutine.{
  Listener, Next, discard, withdraw, rest, Goroutine, idle, returned, registering, waiting,
  claiming, in_listen, listened, failed, deregistering, tearing, in_close, withdrawn, shutting,
  System,
}
use tsserve.Proxy.Goroutine.Stage.{
  among, owns, next_owns, flight, Claiming, Closable, AllClosable, TearStage, Stage,
}

-- The managers agree on a record, but for its pool, and on its place in the index while they serve.
pub record SameRecord (m n : Manager) (id : ℕ) : Type 0 where
  pub name : (n.records id).name ≡ (m.records id).name
  pub ready : (n.records id).ready ≡ (m.records id).ready
  pub advertised : (n.records id).advertised ≡ (m.records id).advertised
  pub withdrawing : (n.records id).withdrawing ≡ (m.records id).withdrawing
  pub closable : (n.records id).closable ≡ (m.records id).closable
  pub held :
      n.shutdown ≡ false
      → (m.shutdown ≡ false)
        × (lookup (m.records id).name m.services ≡ some id
            → lookup (m.records id).name n.services ≡ some id)
  pub allocated : id < m.next_record → id < n.next_record

pub record Same (s t : System) (id : ℕ) : Type 0 where
  pub record_same : SameRecord s.manager t.manager id
  pub listener_same : t.listener id ≡ s.listener id

module _ (m n : Manager) (id : ℕ) (f : SameRecord m n id) where
  pub Claimed-frame : Claimed m id → Claimed n id
  Claimed-frame c = record {
    allocated = f.allocated c.allocated;
    unready = ground (arith, f.ready, c.unready);
    waking = ground (arith, f.advertised, c.waking);
    staying = ground (arith, f.withdrawing, c.staying);
    held = λ h. ground (arith, f.name, (f.held h).1, c.held (f.held h).0);
  }

  pub Withdrawing-frame : Withdrawing m id → Withdrawing n id
  Withdrawing-frame c = record {
    allocated = f.allocated c.allocated;
    ready = ground (arith, f.ready, c.ready);
    waking = ground (arith, f.withdrawing, c.waking);
    closable = ground (arith, f.closable, c.closable);
    held = λ h. ground (arith, f.name, (f.held h).1, c.held (f.held h).0);
  }

module _ (s t : System) where
  Closable-frame : (id : ℕ) → Same s t id → Closable s id → Closable t id
  Closable-frame id f c = record {
    allocated = f.record_same.allocated c.allocated;
    ready = ground (arith, f.record_same.ready, c.ready);
    staying = ground (arith, f.record_same.withdrawing, c.staying);
    closable = ground (arith, f.record_same.closable, c.closable);
    state = ground (arith, f.listener_same, c.state);
  }

  AllClosable-frame :
      (ids : List ℕ)
      → ((id : ℕ) → among ids id ≡ true → Same s t id)
      → AllClosable s ids
      → AllClosable t ids
  AllClosable-frame [] f c = tt
  AllClosable-frame (id ∷ ids) f (c, d, cs) = (
    Closable-frame id (f id (ground arith)) c,
    d,
    AllClosable-frame ids (λ j h. f j (ground arith)) cs,
  )

  Claiming-frame :
      {id : ℕ} {l : Listener} (key : String) (b : Backend)
      → Same s t id
      → (lookup key s.manager.by_key ≡ none → lookup key t.manager.by_key ≡ none)
      → Claiming s id key b l
      → Claiming t id key b l
  Claiming-frame {id} {l} key b f g c = record {
    claim = Claimed-frame s.manager t.manager id f.record_same c.claim;
    state = ground (arith, f.listener_same, c.state);
    own = c.own;
    fresh = g c.fresh;
  }

  module _ (down : s.manager.shutdown ≡ true → t.manager.shutdown ≡ true) where
    TearStage-frame :
        (id : ℕ) (k : Next)
        → ((j : ℕ) → (eqb id j || next_owns k j) ≡ true → Same s t j)
        → TearStage s id k
        → TearStage t id k
    TearStage-frame id discard f (a, b, c, d) =
        let own = f id (ground arith) in
        (
          own.record_same.allocated a,
          down b,
          ground (arith, own.listener_same, c),
          ground (arith, own.record_same.ready, d),
        )
    TearStage-frame id (withdraw name) f (a, b, c) =
        let own = f id (ground arith) in
        (
          Withdrawing-frame s.manager t.manager id own.record_same a,
          ground (arith, own.listener_same, b),
          ground (arith, own.record_same.name, c),
        )
    TearStage-frame id (rest ids) f (a, b) = (down a, AllClosable-frame (id ∷ ids) f b)

    -- A step that leaves a goroutine's records alone, and puts no key in flight into a pool.
    pub Stage-frame :
        (g : Goroutine)
        → ((id : ℕ) → owns g id ≡ true → Same s t id)
        → ((key : String)
            → flight g ≡ some key
            → lookup key s.manager.by_key ≡ none
            → lookup key t.manager.by_key ≡ none)
        → Stage s g
        → Stage t g
    Stage-frame (claiming id key b) f k h =
        Claiming-frame key b (f id (ground arith)) (k key refl) h
    Stage-frame (in_listen id key b) f k h =
        Claiming-frame key b (f id (ground arith)) (k key refl) h
    Stage-frame (listened id key b) f k h =
        Claiming-frame key b (f id (ground arith)) (k key refl) h
    Stage-frame (failed id text) f k h =
        let own = f id (ground arith) in
        (
          Claimed-frame s.manager t.manager id own.record_same h.0,
          ground (arith, own.listener_same, h.1),
        )
    Stage-frame (tearing id n) f k h = TearStage-frame id n f h
    Stage-frame (in_close id n) f k h = TearStage-frame id n f h
    Stage-frame (withdrawn id name) f k h =
        let own = f id (ground arith) in
        (
          Withdrawing-frame s.manager t.manager id own.record_same h.0,
          ground (arith, own.listener_same, h.1),
          ground (arith, own.record_same.name, h.2),
        )
    Stage-frame (registering key def b) f k h = h
    Stage-frame (waiting id w key def b) f k h = h
    Stage-frame idle f k h = tt
    Stage-frame (returned r) f k h = tt
    Stage-frame (deregistering key) f k h = tt
    Stage-frame shutting f k h = tt
