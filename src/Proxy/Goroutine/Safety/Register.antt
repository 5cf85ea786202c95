-- ===== src/Proxy/Goroutine/Safety/Register.antt =====
-- The sections of a registration: a pass of the loop, and recording or abandoning a listen call.
use tsserve.Base.{
  lookup-put, eq_iff, ℕ, String, ◌≡◌, ◌≢◌, refl, Bool, true, false, ◌⊎◌, inl, inr, Option, none,
  some, lookup, eqb, eqb→eq, arith, Option-cases, if◌then◌else◌,
}
use tsserve.Proxy.Backend.{Backend}
use tsserve.Proxy.State.{Manager, ServiceDef}
use tsserve.Proxy.Manager.{
  Attempt, RegisterError, register_pass, claim, join, advertise_locked, release_locked,
}
use tsserve.Proxy.Manager.Invariant.Register.{register_pass-Inv}
use tsserve.Proxy.Manager.Invariant.Claim.{
  advertise_locked-ne-none, release_locked-ne-none, Claimed, release_locked-Inv,
  advertise_locked-Inv,
}
use tsserve.Proxy.Manager.Gauges.Kept.{
  release_locked-Gauged, register_pass-Gauged, advertise_locked-Gauged,
}
use tsserve.Proxy.Goroutine.{
  Goroutine, returned, registering, listened, failed, tearing, discard, System, listening, shut,
  after_pass,
}
use tsserve.Proxy.Goroutine.Stage.{owns, flight, in_serve, Claiming, Stage}
use tsserve.Proxy.Goroutine.Effects.{
  register_pass-same, register_pass-keeps, register_pass-shutdown, advertise_locked-shutdown,
  release_locked-shutdown, release_locked-same, release_locked-keeps, advertise_locked-same,
  advertise_locked-keeps,
}
use tsserve.Proxy.Goroutine.Threads.{Local, Stage-allocated}
use tsserve.Proxy.Goroutine.Names.{
  register_pass-Names, release_locked-Names, advertise_locked-Names,
}
use tsserve.Proxy.Goroutine.Safety.{Safe, after_section, section_step, owner-Local}

-- A pass that claims the name leaves a claim on the next record, for a key that is in no pool.
register_pass-Claimed :
    (key : String) (def : ServiceDef) (b : Backend) (m : Manager) (id : ℕ)
    → (register_pass key def b m).1 ≡ Attempt.claimed id
    → Claimed (register_pass key def b m).0 id
      × (id ≡ m.next_record)
      × (lookup key (register_pass key def b m).0.by_key ≡ none)
unfolding register_pass claim join
register_pass-Claimed key def b m id e = elim (Option-cases (lookup def.service m.services)) [
  | inl free ↦ (
    record {
      allocated = ground arith;
      unready = ground arith;
      waking = ground arith;
      staying = ground arith;
      held = λ h. ground (
        arith,
        lookup-put def.service def.service m.next_record m.services,
        eq_iff def.service def.service,
      );
    },
    ground arith,
    ground arith,
  )
  | inr (own, held) ↦ absurd (ground arith)
]

module _ (s : System) (i : ℕ) (safe : Safe s) where
  module _ (key : String) (def : ServiceDef) (b : Backend)
      (here : s.goroutines i ≡ registering key def b) where
    abbrev pub passed : Attempt → System
    passed a = after_section s i (after_pass key def b a) safe (register_pass key def b s.manager).0

    own_key : b.key ≡ key
    own_key = let st = safe.threads.stages i in rw here at st

    pass-Stage :
        (a : Attempt)
        → (register_pass key def b s.manager).1 ≡ a
        → Stage (passed a) (after_pass key def b a)
    pass-Stage (Attempt.refused e) f = tt
    pass-Stage Attempt.member f = tt
    pass-Stage (Attempt.claimed id) f =
        let c = register_pass-Claimed key def b s.manager id f in
        record {
          claim = c.0;
          state = safe.names.future id (omega (arith, c.1));
          own = own_key;
          fresh = c.2;
        }
    pass-Stage (Attempt.waits id w) f = own_key

    pass_takes :
        (a : Attempt)
        → (register_pass key def b s.manager).1 ≡ a
        → (id : ℕ) → owns (after_pass key def b a) id ≡ true
        → (owns (s.goroutines i) id ≡ true) ⊎ ((j : ℕ) → owns (s.goroutines j) id ≢ true)
    pass_takes (Attempt.claimed own) f id h =
        let c = register_pass-Claimed key def b s.manager own f in
        inr λ j o.
          let old = Stage-allocated s (s.goroutines j) id (safe.threads.stages j) o in
          absurd (omega (arith, c.1, eqb→eq own id h))
    pass_takes (Attempt.refused e) f id h = cc
    pass_takes Attempt.member f id h = cc
    pass_takes (Attempt.waits own w) f id h = cc

    pass_flies :
        (a : Attempt) (k : String)
        → flight (after_pass key def b a) ≡ some k
        → flight (s.goroutines i) ≡ some k
    pass_flies (Attempt.claimed own) k h = rw here h
    pass_flies (Attempt.waits own w) k h = rw here h
    pass_flies (Attempt.refused e) k h = cc
    pass_flies Attempt.member k h = cc

    out_of_serve : (a : Attempt) → in_serve (after_pass key def b a) ≡ false
    out_of_serve (Attempt.claimed own) = refl
    out_of_serve _ = refl

    pass-Local :
        (a : Attempt)
        → (register_pass key def b s.manager).1 ≡ a
        → Local s (passed a) i (after_pass key def b a)
    pass-Local a f = record {
      stepped = refl;
      down = λ h. rw (register_pass-shutdown s.manager key def b) h;
      stage = pass-Stage a f;
      takes = pass_takes a f;
      flies = λ k h. inl (pass_flies a k h);
      spares = λ j id other o. record {
        record_same =
            register_pass-same s.manager id key def b
              (Stage-allocated s (s.goroutines j) id (safe.threads.stages j) o);
        listener_same = refl;
      };
      keeps = λ j k other fl free.
          register_pass-keeps s.manager k free key def b
            λ e. other (safe.threads.flights j i k fl (rw (here, e)));
    }

    pass_at : (a : Attempt) → (register_pass key def b s.manager).1 ≡ a → Safe (passed a)
    pass_at a f =
        section_step s i (after_pass key def b a) safe (register_pass key def b s.manager).0
          (rw here) (out_of_serve a) (register_pass-Inv key def b s.manager own_key safe.inv)
          (register_pass-Gauged key def b s.manager safe.inv safe.gauged)
          (register_pass-Names s.manager s.listener safe.inv safe.names key def b) (pass-Local a f)

    -- A pass of register's loop keeps the system safe.
    pub pass-Safe : Safe (passed (register_pass key def b s.manager).1)
    pass-Safe = pass_at _ refl

module _ (s : System) (i : ℕ) (safe : Safe s) (m : Manager) where
  module _ (id : ℕ) (key : String) (b : Backend) (here : s.goroutines i ≡ listened id key b) where
    held_claim : Claiming s id key b listening
    held_claim = let st = safe.threads.stages i in rw here at st

    recorded-Safe :
        (g' : Goroutine) (down : Bool)
        → advertise_locked id key b s.manager ≡ some (m, down)
        → in_serve g' ≡ false
        → Stage (after_section s i g' safe m) g'
        → ((j : ℕ) → owns g' j ≡ true → eqb id j ≡ true)
        → flight g' ≡ none
        → Safe (after_section s i g' safe m)
    recorded-Safe g' down e out st takes landed =
        let c = held_claim in
        section_step s i g' safe m (rw here) out
          (advertise_locked-Inv id key b s.manager m down safe.inv c.claim c.own c.fresh e)
          (advertise_locked-Gauged id key b s.manager m down safe.inv c.claim e safe.gauged)
          (advertise_locked-Names s.manager s.listener safe.inv safe.names id m key b down c.state
            e)
          (owner-Local s i g' safe id m (rw here (ground arith))
            (λ j other. advertise_locked-same s.manager j id other key b m down safe.inv e)
            (λ k f free.
              advertise_locked-keeps s.manager k free id key b m down
                (λ same_key. f (rw (here, same_key))) e)
            (advertise_locked-shutdown s.manager id key b m down e).0 st
            (λ j o. rw here (takes j o)) landed)

    discard-Stage :
        advertise_locked id key b s.manager ≡ some (m, true)
        → Stage (after_section s i (tearing id discard) safe m) (tearing id discard)
    unfolding advertise_locked release_locked
    discard-Stage e =
        let c = held_claim in
        (
          ground (arith, c.claim.allocated),
          ground (arith, advertise_locked-shutdown s.manager id key b m true e),
          c.state,
          ground (arith, c.claim.unready),
        )

    -- Recording the outcome of a listen call keeps the system safe.
    pub listened-Safe :
        (down : Bool)
        → advertise_locked id key b s.manager ≡ some (m, down)
        → Safe (after_section s i (if down then tearing id discard else returned none) safe m)
    listened-Safe true e =
        recorded-Safe (tearing id discard) true e refl (discard-Stage e) (λ j o. ground arith) refl
    listened-Safe false e = recorded-Safe (returned none) false e refl tt (λ j o. cc) refl

    -- Nor does it panic.
    pub listened-ne-panics : advertise_locked id key b s.manager ≢ none
    listened-ne-panics =
        let c = held_claim in advertise_locked-ne-none id key b s.manager safe.inv c.claim c.own

  module _ (id : ℕ) (text : String) (here : s.goroutines i ≡ failed id text) where
    lost_claim : Claimed s.manager id × (s.listener id ≡ shut)
    lost_claim = let st = safe.threads.stages i in rw here at st

    -- Abandoning a failed claim keeps the system safe.
    pub failed-Safe :
        (r : Option RegisterError)
        → release_locked id s.manager ≡ some m
        → Safe (after_section s i (returned r) safe m)
    failed-Safe r e =
        let c = lost_claim in
        section_step s i (returned r) safe m (rw here) refl
          (release_locked-Inv id s.manager safe.inv c.0 m e)
          (release_locked-Gauged id s.manager m safe.inv c.0 e safe.gauged)
          (release_locked-Names s.manager s.listener safe.inv safe.names id m (inr c.1) e)
          (owner-Local s i (returned r) safe id m (rw here (ground arith))
            (λ j other. release_locked-same s.manager j id other m safe.inv e)
            (λ k f free. release_locked-keeps s.manager k free id m e)
            (release_locked-shutdown s.manager id m e) tt (λ j o. cc) refl)

    pub failed-ne-panics : release_locked id s.manager ≢ none
    failed-ne-panics = release_locked-ne-none id s.manager safe.inv lost_claim.0
