-- ===== src/Proxy/Goroutine/Safety/Steps.antt =====
-- Every step of every goroutine keeps the system safe, and none panics.
use tsserve.Base.{
  ℕ, String, ◌≡◌, ◌≢◌, refl, subst, Bool, true, false, some, arith, Bool-cases, Option-cases, ◌⊎◌,
  inl, inr,
}
use tsserve.Proxy.Backend.{Backend}
use tsserve.Proxy.State.{Manager, ServiceDef, update}
use tsserve.Proxy.Manager.{Wait, advertise_locked, release_locked, withdrawn_locked, listen_error}
use tsserve.Proxy.Goroutine.{
  Goroutine, idle, returned, registering, waiting, claiming, in_listen, listened, failed,
  deregistering, tearing, in_close, withdrawn, shutting, System, Choice, proceed, fail,
  call_register, call_deregister, call_close, serve_exits, Move, blocked, panics, moves,
  serve_returns, wakes, run, advance,
}
use tsserve.Proxy.Goroutine.Frame.{Stage-frame}
use tsserve.Proxy.Goroutine.Stage.{owns, flight, in_serve, Stage}
use tsserve.Proxy.Goroutine.Effects.{same}
use tsserve.Proxy.Goroutine.Safety.{Safe, after_section, section_step}
use tsserve.Proxy.Goroutine.Safety.Register.{
  pass-Safe, listened-Safe, listened-ne-panics, failed-Safe, failed-ne-panics,
}
use tsserve.Proxy.Goroutine.Safety.Leave.{leaving-Safe, withdrawn-Safe, withdrawn-ne-panics}
use tsserve.Proxy.Goroutine.Safety.Closing.{closed-Safe}
use tsserve.Proxy.Goroutine.Safety.Serve.{
  claiming-Safe, listen-Safe, listen_failed-Safe, tearing-Safe, tearing-ne-panics, in_close-Safe,
}

-- What the callers promise: a backend carries its key, and a key is not registered by two goroutines at
-- once.
abbrev pub Disciplined : System → Choice → Type 0
Disciplined s (call_register key def b) =
    (b.key ≡ key) × ((j : ℕ) → flight (s.goroutines j) ≢ some key)
Disciplined s _ = Unit

-- A goroutine that holds nothing moves on, and the manager stays as it is.
quiet_step :
    (s : System) (i : ℕ) (g' : Goroutine) (safe : Safe s)
    → in_serve (s.goroutines i) ≡ false
    → in_serve g' ≡ false
    → ((id : ℕ) → owns g' id ≡ false)
    → ((key : String)
        → flight g' ≡ some key
        → (flight (s.goroutines i) ≡ some key) ⊎ ((j : ℕ) → flight (s.goroutines j) ≢ some key))
    → Stage (after_section s i g' safe s.manager) g'
    → Safe (after_section s i g' safe s.manager)
quiet_step s i g' safe out out' idle_hands flies st =
    section_step s i g' safe s.manager out out' safe.inv safe.gauged safe.names (record {
      stepped = refl;
      down = λ h. h;
      stage = st;
      takes = λ id o. absurd (ground (arith, idle_hands id));
      flies = flies;
      spares = λ j id other o. record { record_same = same s.manager id; listener_same = refl };
      keeps = λ j k other f free. free;
    })

-- The Serve of a record returns: no call of the manager relies on it.
exited-Safe : (s : System) (exited : ℕ → Bool) → Safe s → Safe (record s { exited = exited })
exited-Safe s exited safe = record {
  inv = safe.inv;
  gauged = safe.gauged;
  threads = record {
    stages = λ i.
        Stage-frame s (record s { exited = exited }) (λ h. h) (s.goroutines i)
          (λ id o. record { record_same = same s.manager id; listener_same = refl })
          (λ key f free. free) (safe.threads.stages i);
    owners = safe.threads.owners;
    flights = safe.threads.flights;
  };
  names = safe.names;
  locked = record { holds = safe.locked.holds; held = safe.locked.held };
}

abbrev state_of : Move → System → System
state_of (moves t) d = t
state_of blocked d = d
state_of panics d = d

moved : (s t : System) (m : Move) → m ≡ moves t → state_of m s ≡ t
moved s t m e = rw e

module _ (i : ℕ) (c : Choice) (s t : System) (safe : Safe s) (d : Disciplined s c) where
  start-Safe :
      (c' : Choice) (g : Goroutine)
      → c ≡ c'
      → s.goroutines i ≡ g
      → in_serve g ≡ false
      → run i c' s idle ≡ moves t
      → Safe t
  unfolding run serve_returns
  start-Safe (call_register key def b) g ec here out e =
      let p : Disciplined s (call_register key def b) = subst (Disciplined s) ec d in
      subst Safe (moved s t _ e) (
        quiet_step s i (registering key def b) safe (rw here out) refl (λ id. refl)
          (λ k f. inr (λ j h. p.1 j (ground arith))) p.0)
  start-Safe (call_deregister key) g ec here out e =
      subst Safe (moved s t _ e)
        (quiet_step s i (deregistering key) safe (rw here out) refl (λ id. refl) (λ k f. cc) tt)
  start-Safe call_close g ec here out e =
      subst Safe (moved s t _ e)
        (quiet_step s i shutting safe (rw here out) refl (λ id. refl) (λ k f. cc) tt)
  start-Safe (serve_exits id) g ec here out e = elim (Bool-cases (s.manager.records id).ready) [
    | inr early ↦ absurd (ground arith)
    | inl ready ↦ elim (Option-cases s.serve_mu) [
      | inl free ↦ subst Safe (ground arith) (exited-Safe s (update s.exited id true) safe)
      | inr (j, taken) ↦ absurd (ground arith)
    ]
  ]
  start-Safe proceed g ec here out e = cc
  start-Safe (fail text) g ec here out e = cc

  waiting-Safe :
      (id : ℕ) (w : Wait) (key : String) (def : ServiceDef) (b : Backend)
      → s.goroutines i ≡ waiting id w key def b
      → run i c s (waiting id w key def b) ≡ moves t
      → Safe t
  unfolding run
  waiting-Safe id w key def b here e = elim (Bool-cases (wakes (s.manager.records id) w)) [
    | inl awake ↦
        let st = safe.threads.stages i in
        subst Safe (moved s t _ (rw awake at e)) (
          quiet_step s i (registering key def b) safe (rw here) refl (λ a. refl)
            (λ k f. inl (rw here f)) (rw here at st))
    | inr asleep ↦ let stuck = (rw asleep at e) in cc
  ]

  listening-Safe :
      (c' : Choice) (id : ℕ) (key : String) (b : Backend)
      → s.goroutines i ≡ in_listen id key b
      → run i c' s (in_listen id key b) ≡ moves t
      → Safe t
  unfolding run
  listening-Safe proceed id key b here e =
      subst Safe (moved s t _ e) (listen-Safe s i safe id key b here)
  listening-Safe (fail text) id key b here e =
      subst Safe (moved s t _ e) (listen_failed-Safe s i safe id key b text here)
  listening-Safe (call_register k def o) id key b here e = cc
  listening-Safe (call_deregister k) id key b here e = cc
  listening-Safe call_close id key b here e = cc
  listening-Safe (serve_exits a) id key b here e = cc

  run-Safe : (g : Goroutine) → s.goroutines i ≡ g → run i c s g ≡ moves t → Safe t
  unfolding run
  run-Safe idle here e = start-Safe c idle refl here refl e
  run-Safe (returned r) here e = start-Safe c (returned r) refl here refl e
  run-Safe (registering key def b) here e =
      subst Safe (moved s t _ e) (pass-Safe s i safe key def b here)
  run-Safe (waiting id w key def b) here e = waiting-Safe id w key def b here e
  run-Safe (claiming id key b) here e = elim (Option-cases s.serve_mu) [
    | inl free ↦ subst Safe (ground (arith)) (claiming-Safe s i safe id key b here free)
    | inr (j, taken) ↦ absurd (ground arith)
  ]
  run-Safe (in_listen id key b) here e = listening-Safe c id key b here e
  run-Safe (listened id key b) here e = elim (Option-cases (advertise_locked id key b s.manager)) [
    | inl none_left ↦ absurd (ground arith)
    | inr ((m, down), f) ↦
        subst Safe (ground (arith)) (listened-Safe s i safe m id key b here down f)
  ]
  run-Safe (failed id text) here e = elim (Option-cases (release_locked id s.manager)) [
    | inl none_left ↦ absurd (ground arith)
    | inr (m, f) ↦
        subst Safe (ground (arith))
          (failed-Safe s i safe m id text here (some (listen_error text)) f)
  ]
  run-Safe (deregistering key) here e = subst Safe (moved s t _ e) (leaving-Safe s i safe key here)
  run-Safe (tearing id k) here e = elim (Option-cases s.serve_mu) [
    | inl free ↦
        subst Safe (ground (arith, tearing-ne-panics s i safe id k here))
          (tearing-Safe s i safe id k here free)
    | inr (j, taken) ↦ absurd (ground (arith, tearing-ne-panics s i safe id k here))
  ]
  run-Safe (in_close id k) here e = subst Safe (moved s t _ e) (in_close-Safe s i safe id k here)
  run-Safe (withdrawn id name) here e = elim (Option-cases (withdrawn_locked id name s.manager)) [
    | inl none_left ↦ absurd (ground arith)
    | inr (m, f) ↦ subst Safe (ground (arith)) (withdrawn-Safe s i safe id name here m f)
  ]
  run-Safe shutting here e = subst Safe (moved s t _ e) (closed-Safe s i safe here)

-- A step of any goroutine keeps the system safe.
pub advance-Safe :
    (i : ℕ) (c : Choice) (s t : System)
    → Safe s
    → Disciplined s c
    → advance i c s ≡ moves t
    → Safe t
unfolding advance
advance-Safe i c s t safe d e = run-Safe i c s t safe d (s.goroutines i) refl e

module _ (i : ℕ) (c : Choice) (s : System) (safe : Safe s) where
  run-ne-panics : (g : Goroutine) → s.goroutines i ≡ g → run i c s g ≢ panics
  unfolding run serve_returns
  run-ne-panics idle here = ground arith
  run-ne-panics (returned r) here = ground arith
  run-ne-panics (registering key def b) here = ground arith
  run-ne-panics (waiting id w key def b) here = ground arith
  run-ne-panics (claiming id key b) here = ground arith
  run-ne-panics (in_listen id key b) here = ground arith
  run-ne-panics (listened id key b) here = ground (
    arith,
    λ (m : Manager). listened-ne-panics s i safe m id key b here,
    listened-ne-panics s i safe s.manager id key b here,
  )
  run-ne-panics (failed id text) here =
      ground (arith, failed-ne-panics s i safe s.manager id text here)
  run-ne-panics (deregistering key) here = ground arith
  run-ne-panics (tearing id k) here = ground (arith, tearing-ne-panics s i safe id k here)
  run-ne-panics (in_close id k) here = ground arith
  run-ne-panics (withdrawn id name) here = ground (arith, withdrawn-ne-panics s i safe id name here)
  run-ne-panics shutting here = ground arith

  pub advance-ne-panics : advance i c s ≢ panics
  unfolding advance
  advance-ne-panics = run-ne-panics (s.goroutines i) refl
