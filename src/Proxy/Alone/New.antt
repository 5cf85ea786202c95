-- ===== src/Proxy/Alone/New.antt =====
-- A new manager is at rest.
use tsserve.Base.{Bool, arith, refl, lookup}
use tsserve.Proxy.State.{new_manager}
use tsserve.Proxy.Manager.Invariant.{Inv, has_member}
use tsserve.Proxy.Alone.{AtRest}

new_manager-Inv : (with_metrics : Bool) → Inv (new_manager with_metrics)
unfolding new_manager has_member
new_manager-Inv with_metrics = record {
  services_map = tt;
  indexed = λ n id h. absurd (ground arith);
  sound = λ k n h. absurd (ground arith);
  complete = λ k n h. absurd (ground arith);
  pools = λ n id h. absurd (ground arith);
  after_close = λ h. (refl, refl);
}

pub new_manager-AtRest : (with_metrics : Bool) → AtRest (new_manager with_metrics)
unfolding new_manager lookup
new_manager-AtRest with_metrics = record {
  inv = new_manager-Inv with_metrics;
  settled = λ n id h. absurd (ground arith);
}
