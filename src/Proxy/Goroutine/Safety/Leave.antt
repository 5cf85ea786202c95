-- ===== src/Proxy/Goroutine/Safety/Leave.antt =====
-- The sections of a deregistration and of `Close`.
use tsserve.Base.{
  ℕ, String, ◌≡◌, ◌≢◌, refl, true, false, ◌||◌, ◌⊎◌, inl, inr, none, some, lookup, eqb, eqb→eq,
  arith, Option-cases,
}
use tsserve.Proxy.State.{Manager, serving}
use tsserve.Proxy.Manager.{Leaving, deregister_locked, withdrawn_locked}
use tsserve.Proxy.Manager.Invariant.{Inv}
use tsserve.Proxy.Manager.Invariant.Withdraw.{
  Withdrawing, pool_record, deregister_locked-Inv, deregister-Withdrawing, withdrawn_locked-ne-none,
  withdrawn_locked-Inv,
}
use tsserve.Proxy.Manager.Gauges.Kept.{deregister_locked-Gauged, withdrawn_locked-Gauged}
use tsserve.Proxy.Goroutine.{
  Goroutine, idle, returned, registering, waiting, claiming, in_listen, listened, failed,
  deregistering, tearing, in_close, withdrawn, shutting, System, Next, discard, withdraw, rest,
  shut, after_leaving,
}
use tsserve.Proxy.Goroutine.Stage.{owns, next_owns, flight, in_serve, TearStage, Stage}
use tsserve.Proxy.Goroutine.Effects.{
  deregister_locked-same, deregister_locked-keeps, deregister_locked-shutdown,
  withdrawn_locked-same, withdrawn_locked-keeps, withdrawn_locked-shutdown,
}
use tsserve.Proxy.Goroutine.Names.{deregister_locked-Names, withdrawn_locked-Names}
use tsserve.Proxy.Goroutine.Safety.{Safe, after_section, section_step, owner-Local}

-- A record that a goroutine owns does not serve, until the manager shuts down.
TearStage-busy :
    (s : System) (id : ℕ) (k : Next) (j : ℕ)
    → TearStage s id k
    → (eqb id j || next_owns k j) ≡ true
    → s.manager.shutdown ≡ false
    → serving (s.manager.records j) ≡ false
TearStage-busy s id discard j c o up = ground (arith, c.1)
TearStage-busy s id (withdraw name) j c o up = ground (arith, eqb→eq id j, c.0.waking)
TearStage-busy s id (rest ids) j c o up = ground (arith, c.0)

pub Stage-busy :
    (s : System) (g : Goroutine) (j : ℕ)
    → Stage s g
    → owns g j ≡ true
    → s.manager.shutdown ≡ false
    → serving (s.manager.records j) ≡ false
Stage-busy s (claiming id key b) j c o up = ground (arith, eqb→eq id j, c.claim.unready)
Stage-busy s (in_listen id key b) j c o up = ground (arith, eqb→eq id j, c.claim.unready)
Stage-busy s (listened id key b) j c o up = ground (arith, eqb→eq id j, c.claim.unready)
Stage-busy s (failed id text) j c o up = ground (arith, eqb→eq id j, c.0.unready)
Stage-busy s (tearing id k) j c o up = TearStage-busy s id k j c o up
Stage-busy s (in_close id k) j c o up = TearStage-busy s id k j c o up
Stage-busy s (withdrawn id name) j c o up = ground (arith, eqb→eq id j, c.0.waking)
Stage-busy s idle j c o up = cc
Stage-busy s (returned r) j c o up = cc
Stage-busy s (registering key def b) j c o up = cc
Stage-busy s (waiting id w key def b) j c o up = cc
Stage-busy s (deregistering key) j c o up = cc
Stage-busy s shutting j c o up = cc

-- A record that a deregistration withdraws was serving: nobody owned it, and its listener is open.
withdraws-serving :
    (key name : String) (m : Manager) (id : ℕ)
    → Inv m
    → (deregister_locked key m).1 ≡ Leaving.withdraws id name
    → (lookup name m.services ≡ some id)
      × (serving (m.records id) ≡ true)
      × ((m.records id).name ≡ name)
      × (((deregister_locked key m).0.records id).name ≡ name)
      × (m.shutdown ≡ false)
unfolding deregister_locked
withdraws-serving key name m id v e = elim (Option-cases (lookup key m.by_key)) [
  | inl unknown ↦ absurd (ground arith)
  | inr (n, known) ↦
      let r = pool_record key m v n known in
      (
        ground (arith, r.1, r.2),
        ground (arith, r.1, r.2),
        ground (arith, r.1, r.2, v.indexed n r.0 r.1),
        ground (arith, r.1, r.2, v.indexed n r.0 r.1),
        ground (arith, r.1, v.after_close),
      )
]

module _ (s : System) (i : ℕ) (safe : Safe s) where
  module _ (key : String) (here : s.goroutines i ≡ deregistering key) where
    abbrev pub left : Leaving → System
    left l = after_section s i (after_leaving l) safe (deregister_locked key s.manager).0

    -- Nobody owns the record of a serving service.
    unowned :
        (id : ℕ)
        → serving (s.manager.records id) ≡ true
        → s.manager.shutdown ≡ false
        → (j : ℕ) → owns (s.goroutines j) id ≢ true
    unowned id busy up j o =
        let quiet = Stage-busy s (s.goroutines j) id (safe.threads.stages j) o up in cc

    leaving-Stage :
        (l : Leaving) → (deregister_locked key s.manager).1 ≡ l → Stage (left l) (after_leaving l)
    leaving-Stage (Leaving.withdraws id name) e =
        let f = withdraws-serving key name s.manager id safe.inv e in
        (
          deregister-Withdrawing key name s.manager id safe.inv e,
          safe.names.opened name id f.0 f.1,
          f.3,
        )
    leaving-Stage Leaving.unknown e = tt
    leaving-Stage (Leaving.left n) e = tt

    leaving_takes :
        (l : Leaving)
        → (deregister_locked key s.manager).1 ≡ l
        → (id : ℕ) → owns (after_leaving l) id ≡ true
        → (owns (s.goroutines i) id ≡ true) ⊎ ((j : ℕ) → owns (s.goroutines j) id ≢ true)
    leaving_takes (Leaving.withdraws own name) e id o =
        let f = withdraws-serving key name s.manager own safe.inv e in
        let same_id : own ≡ id = ground (arith, eqb→eq own id) in
        inr (unowned id (rw (← same_id) f.1) f.4)
    leaving_takes Leaving.unknown e id o = cc
    leaving_takes (Leaving.left n) e id o = cc

    leaving_flies : (l : Leaving) → flight (after_leaving l) ≡ none
    leaving_flies (Leaving.withdraws id name) = refl
    leaving_flies _ = refl

    leaving_out : (l : Leaving) → in_serve (after_leaving l) ≡ false
    leaving_out (Leaving.withdraws id name) = refl
    leaving_out _ = refl

    leaving_at : (l : Leaving) → (deregister_locked key s.manager).1 ≡ l → Safe (left l)
    leaving_at l e =
        section_step s i (after_leaving l) safe (deregister_locked key s.manager).0 (rw here)
          (leaving_out l) (deregister_locked-Inv key s.manager safe.inv)
          (deregister_locked-Gauged key s.manager safe.inv safe.gauged)
          (deregister_locked-Names s.manager s.listener safe.inv safe.names key)
          (record {
            stepped = refl;
            down = λ h. rw (deregister_locked-shutdown s.manager key) h;
            stage = leaving-Stage l e;
            takes = leaving_takes l e;
            flies = λ k h. cc (leaving_flies l);
            spares = λ j id other o. record {
              record_same =
                  deregister_locked-same s.manager id key safe.inv
                    (Stage-busy s (s.goroutines j) id (safe.threads.stages j) o);
              listener_same = refl;
            };
            keeps = λ j k other f free. deregister_locked-keeps s.manager k free key;
          })

    -- The first lock of a deregistration keeps the system safe.
    pub leaving-Safe : Safe (left (deregister_locked key s.manager).1)
    leaving-Safe = leaving_at _ refl

  module _ (id : ℕ) (name : String) (here : s.goroutines i ≡ withdrawn id name) where
    closed_claim :
        Withdrawing s.manager id × (s.listener id ≡ shut) × ((s.manager.records id).name ≡ name)
    closed_claim = let st = safe.threads.stages i in rw here at st

    -- The second lock of a deregistration keeps the system safe.
    pub withdrawn-Safe :
        (m : Manager)
        → withdrawn_locked id name s.manager ≡ some m
        → Safe (after_section s i (returned none) safe m)
    withdrawn-Safe m e =
        let c = closed_claim in
        let f : withdrawn_locked id (s.manager.records id).name s.manager ≡ some m = rw c.2 e in
        section_step s i (returned none) safe m (rw here) refl
          (withdrawn_locked-Inv id s.manager safe.inv c.0 m f)
          (withdrawn_locked-Gauged id s.manager m safe.inv c.0 f safe.gauged)
          (withdrawn_locked-Names s.manager s.listener safe.inv safe.names id m name c.1 c.2 e)
          (owner-Local s i (returned none) safe id m (rw here (ground arith))
            (λ j other. withdrawn_locked-same s.manager j id other m f)
            (λ k g free. withdrawn_locked-keeps s.manager k free id name m e)
            (withdrawn_locked-shutdown s.manager id name m e) tt (λ j o. cc) refl)

    -- Nor does it panic.
    pub withdrawn-ne-panics : withdrawn_locked id name s.manager ≢ none
    withdrawn-ne-panics e =
        let c = closed_claim in withdrawn_locked-ne-none id s.manager safe.inv c.0 (rw c.2 e)
