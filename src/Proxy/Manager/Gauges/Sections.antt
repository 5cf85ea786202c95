-- ===== src/Proxy/Manager/Gauges/Sections.antt =====
-- The sections of advertising and withdrawing keep the gauges in step with the index.
use tsserve.Base.{
  ℕ, ◌≡◌, String, true, false, some, lookup, lookup-put, lookup-delete, count_same, count_if,
  count_one_more, count_if-delete, arith, eq_iff, eqb→eq, Bool,
}
use tsserve.Proxy.Backend.{Backend}
use tsserve.Proxy.Pool.{add, remove}
use tsserve.Proxy.State.{Manager, Gauges, serving}
use tsserve.Proxy.Manager.{
  advertise_locked, release_locked, deregister_locked, withdrawn_locked, close_locked,
}
use tsserve.Proxy.Manager.Invariant.{Inv}
use tsserve.Proxy.Manager.Invariant.Claim.{Claimed, release_locked-Inv}
use tsserve.Proxy.Manager.Invariant.Withdraw.{Withdrawing, withdrawn_locked-Inv}
use tsserve.Proxy.Manager.Gauges.{Shows}

module _ (m m' : Manager) (v : Inv m) (g g' : Gauges) (wired : m.metrics ≡ some g)
    (h : Shows m g) where
  module _ (id : ℕ) (c : Claimed m id) where
    pub release_locked-Shows : release_locked id m ≡ some m' → m'.metrics ≡ some g' → Shows m' g'
    unfolding release_locked
    release_locked-Shows e w = record {
      active = ground (
        arith,
        h.active,
        count_if-delete (λ i. (m.records i).ready) m.services (m.records id).name id v.services_map,
        count_same (λ i. (m.records i).ready) (λ i. (m'.records i).ready) m'.services
            (release_locked-Inv id m v c m' e).services_map (λ n i l. ground (arith, eqb→eq id i)),
      );
      sizes = λ n i l s.
          ground (arith, h.sizes n i, lookup-delete (m.records id).name n m.services, eqb→eq id i);
      absent = λ n l. ground (
        arith,
        h.absent n,
        h.unready n id,
        eq_iff (m.records id).name n,
        lookup-delete (m.records id).name n m.services,
      );
      unready = λ n i l t.
          ground
            (arith, h.unready n i, lookup-delete (m.records id).name n m.services, eqb→eq id i);
    }

    pub advertise_live-Shows :
        (key : String) (b : Backend) (down : Bool)
        → m.shutdown ≡ false
        → advertise_locked id key b m ≡ some (m', down)
        → m'.metrics ≡ some g'
        → Shows m' g'
    unfolding advertise_locked add
    advertise_live-Shows key b down live e w = record {
      active = ground (
        arith,
        h.active,
        count_one_more (λ i. (m.records i).ready) (λ i. (m'.records i).ready) m.services
            (m.records id).name id v.services_map (c.held live) c.unready (ground (arith))
            (λ n i other l. ground (arith, eqb→eq id i, v.indexed n i l)),
      );
      sizes = λ n i l s. ground (
        arith,
        h.sizes n i,
        v.indexed n i,
        eqb→eq id i,
        eq_iff (m.records id).name n,
        c.held live,
        lookup-put (m.records id).name n (add (m.records id).pool b).1 g.backends,
      );
      absent = λ n l. ground (
        arith,
        h.absent n,
        c.held live,
        eq_iff (m.records id).name n,
        lookup-put (m.records id).name n (add (m.records id).pool b).1 g.backends,
      );
      unready = λ n i l t. ground (
        arith,
        h.unready n i,
        v.indexed n i,
        eqb→eq id i,
        c.held live,
        eq_iff (m.records id).name n,
        lookup-put (m.records id).name n (add (m.records id).pool b).1 g.backends,
      );
    }

  module _ (id : ℕ) (d : Withdrawing m id) where
    pub withdrawn_locked-Shows :
        withdrawn_locked id (m.records id).name m ≡ some m' → m'.metrics ≡ some g' → Shows m' g'
    unfolding withdrawn_locked
    withdrawn_locked-Shows e w = record {
      active = ground (
        arith,
        h.active,
        d.ready,
        count_if-delete (λ i. (m.records i).ready) m.services (m.records id).name id v.services_map,
        count_same (λ i. (m.records i).ready) (λ i. (m'.records i).ready) m'.services
            (withdrawn_locked-Inv id m v d m' e).services_map
            (λ n i l. ground (arith, eqb→eq id i)),
      );
      sizes = λ n i l s. ground (
        arith,
        h.sizes n i,
        lookup-delete (m.records id).name n m.services,
        lookup-delete (m.records id).name n g.backends,
        eqb→eq id i,
      );
      absent = λ n l. ground (
        arith,
        h.absent n,
        h.unready n id,
        eq_iff (m.records id).name n,
        lookup-delete (m.records id).name n m.services,
        lookup-delete (m.records id).name n g.backends,
      );
      unready = λ n i l t. ground (
        arith,
        h.unready n i,
        lookup-delete (m.records id).name n m.services,
        lookup-delete (m.records id).name n g.backends,
        eqb→eq id i,
      );
    }

module _ (m : Manager) (v : Inv m) (g g' : Gauges) (wired : m.metrics ≡ some g)
    (h : Shows m g) where
  pub close_locked-Shows : (close_locked m).0.metrics ≡ some g' → Shows (close_locked m).0 g'
  unfolding close_locked count_if lookup
  close_locked-Shows w = record {
    active = ground arith;
    sizes = λ n i l s. ground arith;
    absent = λ n l. ground arith;
    unready = λ n i l t. ground arith;
  }

  module _ (key name : String) (id : ℕ) (known : lookup key m.by_key ≡ some name)
      (held : lookup name m.services ≡ some id) (s : serving (m.records id) ≡ true) where
    pub deregister_known-Shows :
        (deregister_locked key m).0.metrics ≡ some g' → Shows (deregister_locked key m).0 g'
    unfolding deregister_locked remove
    deregister_known-Shows w = record {
      active = ground (
        arith,
        h.active,
        count_same (λ i. (m.records i).ready) (λ i. ((deregister_locked key m).0.records i).ready)
            m.services v.services_map (λ n i l. ground (arith, eqb→eq id i)),
      );
      sizes = λ n i l t. ground (
        arith,
        h.sizes n i,
        v.indexed n i,
        v.indexed name id held,
        eqb→eq id i,
        eq_iff name n,
        lookup-put name n (remove (m.records id).pool key).1 g.backends,
      );
      absent = λ n l. ground (
        arith,
        h.absent n,
        eq_iff name n,
        lookup-put name n (remove (m.records id).pool key).1 g.backends,
      );
      unready = λ n i l t. ground (
        arith,
        h.unready n i,
        eqb→eq id i,
        eq_iff name n,
        lookup-put name n (remove (m.records id).pool key).1 g.backends,
      );
    }
