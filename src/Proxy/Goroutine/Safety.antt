-- ===== src/Proxy/Goroutine/Safety.antt =====
-- The invariant of the whole system of goroutines, and the two kinds of step that keep it: a critical
-- section of the manager, and a step at the serve-config lock.
pub mod Register
pub mod Leave
pub mod Closing
pub mod Serve
pub mod Steps
use tsserve.Base.{
  ℕ, ◌<◌, ◌≤◌, String, ◌≡◌, ◌≢◌, refl, sym, subst, ap, Bool, true, false, ◌||◌, ◌⊎◌, inl, inr,
  Option, none, some, lookup, eqb, eqb→eq, arith, Bool-cases,
}
use tsserve.Proxy.State.{serving, update}
use tsserve.Proxy.State
use tsserve.Proxy.Manager.Invariant.{Inv}
use tsserve.Proxy.Manager.Gauges.{Gauged}
use tsserve.Proxy.Goroutine.{Goroutine, System, Listener, listening}
use tsserve.Proxy.Goroutine.Stage.{owns, flight, in_serve, Stage}
use tsserve.Proxy.Goroutine.Frame.{Same, SameRecord}
use tsserve.Proxy.Goroutine.Effects.{same}
use tsserve.Proxy.Goroutine.Threads.{Threads, Local, Threads-step}
use tsserve.Proxy.Goroutine.Names.{Names, live, update-Names}

-- The serve-config lock is held exactly by the goroutine inside it.
pub record Locked (s : System) : Type 0 where
  pub holds : (i : ℕ) → in_serve (s.goroutines i) ≡ true → s.serve_mu ≡ some i
  pub held : (i : ℕ) → s.serve_mu ≡ some i → in_serve (s.goroutines i) ≡ true

pub record Safe (s : System) : Type 0 where
  pub inv : Inv s.manager
  pub gauged : Gauged s.manager
  pub threads : Threads s
  pub names : Names s.manager s.listener
  pub locked : Locked s

module _ (s : System) (i : ℕ) (g' : Goroutine) (safe : Safe s) where
  -- After a section of the manager by goroutine `i`, which is then at `g'`.
  abbrev pub after_section : State.Manager → System
  after_section m = record s { manager = m; goroutines = update s.goroutines i g' }

  pub section_step :
      (m : State.Manager)
      → in_serve (s.goroutines i) ≡ false
      → in_serve g' ≡ false
      → Inv m
      → Gauged m
      → Names m s.listener
      → Local s (after_section m) i g'
      → Safe (after_section m)
  section_step m out out' v g n l = record {
    inv = v;
    gauged = g;
    threads = Threads-step s (after_section m) i g' safe.threads l;
    names = n;
    locked = record {
      holds = λ j h. ground (arith, safe.locked.holds j, eqb→eq i j);
      held = λ j h. ground (arith, safe.locked.held j h, eqb→eq i j);
    };
  }

  -- After a step by goroutine `i` that changes the listener of a record that it owns.
  abbrev pub after_serve : ℕ → Listener → Option ℕ → System
  after_serve id x mu = record s {
    listener = update s.listener id x;
    serve_mu = mu;
    goroutines = update s.goroutines i g';
  }

  -- The lock is taken when it is free, or given back.
  pub data LockStep (mu : Option ℕ) : Type 0 where
    take :
        s.serve_mu ≡ none
        → in_serve (s.goroutines i) ≡ false
        → in_serve g' ≡ true
        → mu ≡ some i
        → LockStep mu
    give : in_serve (s.goroutines i) ≡ true → in_serve g' ≡ false → mu ≡ none → LockStep mu

  Locked-step : (id : ℕ) (x : Listener) (mu : Option ℕ) → LockStep mu → Locked (after_serve id x mu)
  Locked-step id x mu (take free out into e) = record {
    holds = λ j h. ground (arith, safe.locked.holds j, eqb→eq i j);
    held = λ j h. ground (arith, eqb→eq i j);
  }
  Locked-step id x mu (give out into e) = record {
    holds = λ j h. ground (arith, safe.locked.holds j, safe.locked.holds i out, eqb→eq i j);
    held = λ j h. ground arith;
  }

  pub serve_step :
      (id : ℕ) (x : Listener) (mu : Option ℕ)
      → owns (s.goroutines i) id ≡ true
      → id < s.manager.next_record
      → live (s.listener id) ≡ true
      → ((n : String)
          → lookup n s.manager.services ≡ some id
          → serving (s.manager.records id) ≡ true
          → x ≡ listening)
      → LockStep mu
      → ((j : ℕ) → owns g' j ≡ true → owns (s.goroutines i) j ≡ true)
      → ((key : String) → flight g' ≡ some key → flight (s.goroutines i) ≡ some key)
      → Stage (after_serve id x mu) g'
      → Safe (after_serve id x mu)
  serve_step id x mu mine old alive quiet lock takes flies st = record {
    inv = safe.inv;
    gauged = safe.gauged;
    threads = Threads-step s (after_serve id x mu) i g' safe.threads (record {
      stepped = refl;
      down = λ h. h;
      stage = st;
      takes = λ j h. inl (takes j h);
      flies = λ key h. inl (flies key h);
      spares = λ j a other o. record {
        record_same = same s.manager a;
        listener_same = ground (
          arith,
          eqb→eq id a,
          λ (e : id ≡ a).
              other
                (safe.threads.owners j i a o (subst (λ t. owns (s.goroutines i) t ≡ true) e mine)),
        );
      };
      keeps = λ j key other f h. h;
    });
    names = update-Names s.manager s.listener safe.inv safe.names id x old alive quiet;
    locked = Locked-step id x mu lock;
  }

-- A section by the owner of one record spares the records of the others.
pub owner-Local :
    (s : System) (i : ℕ) (g' : Goroutine) (safe : Safe s) (id : ℕ) (m : State.Manager)
    → owns (s.goroutines i) id ≡ true
    → ((j : ℕ) → j ≢ id → SameRecord s.manager m j)
    → ((key : String)
        → flight (s.goroutines i) ≢ some key
        → lookup key s.manager.by_key ≡ none
        → lookup key m.by_key ≡ none)
    → m.shutdown ≡ s.manager.shutdown
    → Stage (after_section s i g' safe m) g'
    → ((j : ℕ) → owns g' j ≡ true → owns (s.goroutines i) j ≡ true)
    → flight g' ≡ none
    → Local s (after_section s i g' safe m) i g'
owner-Local s i g' safe id m mine others keys down st takes landed = record {
  stepped = refl;
  down = λ h. rw down h;
  stage = st;
  takes = λ j h. inl (takes j h);
  flies = λ key h. cc;
  spares = λ j a other o. record {
    record_same = others a λ e. other (safe.threads.owners j i a o (rw e mine));
    listener_same = refl;
  };
  keeps = λ j key other fl free. keys key (λ f. other (safe.threads.flights j i key fl f)) free;
}
