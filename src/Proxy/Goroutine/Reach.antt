-- ===== src/Proxy/Goroutine/Reach.antt =====
-- What holds in every state that the goroutines reach from a new manager.
use tsserve.Base.{ℕ, ◌≡◌, refl, sym, subst, Bool, false, none, lookup, arith, count_if}
use tsserve.Proxy.State.{new_manager}
use tsserve.Proxy.Manager.Invariant.{has_member}
use tsserve.Proxy.Goroutine.{unopened, idle, System, Choice, moves, advance}
use tsserve.Proxy.Goroutine.Safety.{Safe}
use tsserve.Proxy.Goroutine.Safety.Steps.{Disciplined, advance-Safe}

-- A new manager that nobody has called.
unfoldable pub initial : Bool → System
unfolding new_manager
initial with_metrics = record {
  manager = new_manager with_metrics;
  listener = λ _. unopened;
  serve_mu = none;
  exited = λ _. false;
  goroutines = λ _. idle;
}

-- Any interleaving of disciplined steps.
pub data Reach (with_metrics : Bool) : System → Type 0 where
  start : (s : System) → s ≡ initial with_metrics → Reach with_metrics s
  step :
      {s : System} (i : ℕ) (c : Choice) (t : System)
      → Reach with_metrics s
      → Disciplined s c
      → advance i c s ≡ moves t
      → Reach with_metrics t

initial-Safe : (b : Bool) → Safe (initial b)
unfolding initial has_member count_if lookup
initial-Safe b = record {
  inv = record {
    services_map = tt;
    indexed = λ n id h. ground arith;
    sound = λ k n h. ground arith;
    complete = λ k n h. ground arith;
    pools = λ n id h. ground arith;
    after_close = λ h. (refl, refl);
  };
  gauged = λ g e. record {
    active = ground arith;
    sizes = λ n id h. ground arith;
    absent = λ n h. ground arith;
    unready = λ n id h. ground arith;
  };
  threads = record { stages = λ i. tt; owners = λ i j id a. cc; flights = λ i j k a. cc };
  names = record {
    unique = λ a c h. ground arith;
    indexed = λ a h. ground arith;
    future = λ a h. refl;
    opened = λ n a h. ground arith;
  };
  locked = record { holds = λ i h. cc; held = λ i h. cc };
}

pub Reach-Safe : {b : Bool} {s : System} → Reach b s → Safe s
Reach-Safe {b} (start s e) = subst Safe (sym e) (initial-Safe b)
Reach-Safe (step {s} i c t r d e) = advance-Safe i c s t (Reach-Safe r) d e
