-- ===== src/Proxy/Goroutine/Safety/Serve.antt =====
-- The steps at the serve-config lock: around `ListenService`, and around a listener's `Close`.
use tsserve.Base.{
  ℕ, ◌<◌, String, ◌≡◌, refl, true, false, ◌||◌, Option, none, some, List, [], ◌∷◌, lookup, eqb,
  eqb→eq, arith, ◌⊎◌, inl, inr,
}
use tsserve.Proxy.Backend.{Backend}
use tsserve.Proxy.State.{serving}
use tsserve.Proxy.Goroutine.{
  Listener, unopened, opening, listening, shut, Next, discard, withdraw, rest, Goroutine, claiming,
  in_listen, listened, failed, tearing, in_close, System, can_tear, after_close,
}
use tsserve.Proxy.Goroutine.Stage.{
  among, owns, next_owns, flight, in_serve, Claiming, AllClosable, TearStage, Stage,
}
use tsserve.Proxy.Goroutine.Safety.{Safe, after_serve, serve_step, take, give}

module _ (s : System) (i : ℕ) (safe : Safe s) where
  -- A claim is moved on by its listener's new state.
  reclaim :
      {id : ℕ} {key : String} {b : Backend} {l : Listener} (g' : Goroutine) (x : Listener)
      (mu : Option ℕ)
      → Claiming s id key b l
      → Claiming (after_serve s i g' safe id x mu) id key b x
  reclaim {id} g' x mu c = record {
    claim = record {
      allocated = c.claim.allocated;
      unready = c.claim.unready;
      waking = c.claim.waking;
      staying = c.claim.staying;
      held = c.claim.held;
    };
    state = ground arith;
    own = c.own;
    fresh = c.fresh;
  }

  module _ (id : ℕ) (key : String) (b : Backend) where
    -- Entering `ListenService` keeps the system safe.
    pub claiming-Safe :
        s.goroutines i ≡ claiming id key b
        → s.serve_mu ≡ none
        → Safe (after_serve s i (in_listen id key b) safe id opening (some i))
    claiming-Safe here free =
        let st = safe.threads.stages i in
        let c : Claiming s id key b unopened = rw here at st in
        serve_step s i (in_listen id key b) safe id opening (some i) (rw here (ground arith))
          c.claim.allocated (rw c.state) (λ n held busy. absurd (ground (arith, c.claim.unready)))
          (take free (rw here) refl refl) (λ j o. rw here o) (λ k f. rw here f)
          (reclaim (in_listen id key b) opening (some i) c)

    -- Leaving it with an open listener keeps the system safe.
    pub listen-Safe :
        s.goroutines i ≡ in_listen id key b
        → Safe (after_serve s i (listened id key b) safe id listening none)
    listen-Safe here =
        let st = safe.threads.stages i in
        let c : Claiming s id key b opening = rw here at st in
        serve_step s i (listened id key b) safe id listening none (rw here (ground arith))
          c.claim.allocated (rw c.state) (λ n held busy. refl) (give (rw here) refl refl)
          (λ j o. rw here o) (λ k f. rw here f) (reclaim (listened id key b) listening none c)

    -- Leaving it with an error keeps the system safe.
    pub listen_failed-Safe :
        (text : String)
        → s.goroutines i ≡ in_listen id key b
        → Safe (after_serve s i (failed id text) safe id shut none)
    listen_failed-Safe text here =
        let st = safe.threads.stages i in
        let c : Claiming s id key b opening = rw here at st in
        let d = reclaim (failed id text) shut none c in
        serve_step s i (failed id text) safe id shut none (rw here (ground arith)) c.claim.allocated
          (rw c.state) (λ n held busy. absurd (ground (arith, c.claim.unready)))
          (give (rw here) refl refl) (λ j o. rw here o) (λ k f. cc) (d.claim, d.state)

  -- The record that a teardown works on: allocated, with an open listener, and not to be joined.
  tear_facts :
      (id : ℕ) (k : Next)
      → TearStage s id k
      → (id < s.manager.next_record)
        × (s.listener id ≡ listening)
        × ((n : String)
            → lookup n s.manager.services ≡ some id
            → serving (s.manager.records id) ≡ false)
  unfolding lookup
  tear_facts id discard c = (c.0, c.2, λ n held. ground (arith, c.3))
  tear_facts id (withdraw name) c = (c.0.allocated, c.1, λ n held. ground (arith, c.0.waking))
  tear_facts id (rest ids) c =
      let gone = (safe.inv.after_close c.0).0 in
      (c.1.0.allocated, c.1.0.state, λ n held. ground (arith, held))

  -- A teardown does not call an unset `cancel`.
  pub tearing-ne-panics :
      (id : ℕ) (k : Next) → s.goroutines i ≡ tearing id k → can_tear s id k ≡ true
  tearing-ne-panics id discard here = refl
  tearing-ne-panics id (withdraw name) here =
      let st = safe.threads.stages i in
      let c : TearStage s id (withdraw name) = rw here at st in c.0.closable
  tearing-ne-panics id (rest ids) here =
      let st = safe.threads.stages i in
      let c : TearStage s id (rest ids) = rw here at st in c.1.0.closable

  AllClosable-after :
      (g' : Goroutine) (id : ℕ) (x : Listener) (mu : Option ℕ) (ids : List ℕ)
      → (x ≡ listening) ⊎ (among ids id ≡ false)
      → AllClosable s ids
      → AllClosable (after_serve s i g' safe id x mu) ids
  AllClosable-after g' id x mu [] e c = tt
  AllClosable-after g' id x mu (a ∷ ids) e (c, d, cs) = (
    record {
      allocated = c.allocated;
      ready = c.ready;
      staying = c.staying;
      closable = c.closable;
      state = ground (arith, c.state, eqb→eq id a);
    },
    d,
    AllClosable-after g' id x mu ids (ground arith) cs,
  )

  in_close_stage :
      (id : ℕ) (k : Next)
      → TearStage s id k
      → TearStage (after_serve s i (in_close id k) safe id (s.listener id) (some i)) id k
  in_close_stage id discard (a, b, c, d) = (a, b, ground arith, d)
  in_close_stage id (withdraw name) (a, b, c) = (
    record {
      allocated = a.allocated;
      ready = a.ready;
      waking = a.waking;
      closable = a.closable;
      held = a.held;
    },
    ground arith,
    c,
  )
  in_close_stage id (rest ids) (a, b) = (
    a,
    AllClosable-after (in_close id (rest ids)) id (s.listener id) (some i) (id ∷ ids)
        (inl b.0.state) b,
  )

  -- Entering a listener's `Close` keeps the system safe.
  pub tearing-Safe :
      (id : ℕ) (k : Next)
      → s.goroutines i ≡ tearing id k
      → s.serve_mu ≡ none
      → Safe (after_serve s i (in_close id k) safe id (s.listener id) (some i))
  tearing-Safe id k here free =
      let st = safe.threads.stages i in
      let c : TearStage s id k = rw here at st in
      let f = tear_facts id k c in
      serve_step s i (in_close id k) safe id (s.listener id) (some i) (rw here (ground arith)) f.0
        (rw f.1) (λ n held busy. f.1) (take free (rw here) refl refl) (λ j o. rw here o)
        (λ k' g. cc) (in_close_stage id k c)

  after_close-Stage :
      (id : ℕ) (k : Next)
      → TearStage s id k
      → Stage (after_serve s i (after_close id k) safe id shut none) (after_close id k)
  after_close-Stage id discard c = tt
  after_close-Stage id (withdraw name) (a, b, c) = (
    record {
      allocated = a.allocated;
      ready = a.ready;
      waking = a.waking;
      closable = a.closable;
      held = a.held;
    },
    ground arith,
    c,
  )
  after_close-Stage id (rest []) (a, b) = tt
  after_close-Stage id (rest (j ∷ ids)) (a, b) =
      (a, AllClosable-after (tearing j (rest ids)) id shut none (j ∷ ids) (inr b.1) b.2)

  after_close_owns :
      (id : ℕ) (k : Next) (j : ℕ)
      → owns (after_close id k) j ≡ true
      → (eqb id j || next_owns k j) ≡ true
  after_close_owns id discard j o = cc
  after_close_owns id (withdraw name) j o = ground arith
  after_close_owns id (rest []) j o = cc
  after_close_owns id (rest (a ∷ ids)) j o = ground arith

  after_close_out :
      (id : ℕ) (k : Next)
      → (in_serve (after_close id k) ≡ false) × (flight (after_close id k) ≡ none)
  after_close_out id discard = (refl, refl)
  after_close_out id (withdraw name) = (refl, refl)
  after_close_out id (rest []) = (refl, refl)
  after_close_out id (rest (a ∷ ids)) = (refl, refl)

  -- Leaving a listener's `Close` keeps the system safe.
  pub in_close-Safe :
      (id : ℕ) (k : Next)
      → s.goroutines i ≡ in_close id k
      → Safe (after_serve s i (after_close id k) safe id shut none)
  in_close-Safe id k here =
      let st = safe.threads.stages i in
      let c : TearStage s id k = rw here at st in
      let f = tear_facts id k c in
      serve_step s i (after_close id k) safe id shut none (rw here (ground arith)) f.0 (rw f.1)
        (λ n held busy. absurd (ground (arith, f.2 n held)))
        (give (rw here) (after_close_out id k).0 refl) (λ j o. rw here (after_close_owns id k j o))
        (λ k' g. cc ((after_close_out id k).1)) (after_close-Stage id k c)
