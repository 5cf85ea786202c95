-- ===== src/Proxy/Manager/Gauges.antt =====
-- The gauges show the index: `Active` its size in advertised services, `Backends` the size of each
-- serving pool.
pub mod Sections
pub mod Kept
use tsserve.Base.{
  ℕ, ◌<◌, ◌+◌, String, ◌≡◌, ◌≢◌, refl, true, false, [], none, some, lookup, put, delete, lookup-put,
  lookup-delete, delete-absent, count_if, count_same, count_one_more, count_if-delete, length,
  arith, eq_iff, eqb, eqb→eq, if◌then◌else◌, subst, Bool-cases, inl, inr, Option-cases,
}
use tsserve.Base.Int.{pos}
use tsserve.Proxy.Backend.{Backend}
use tsserve.Proxy.Pool.{add, remove}
use tsserve.Proxy.State.{Manager, Gauges, ServiceDef, serving}
use tsserve.Proxy.Manager.{
  claim, add_member, register_pass, join, advertise_locked, release_locked, deregister_locked,
  withdrawn_locked, close_locked,
}
use tsserve.Proxy.Manager.Invariant.{Inv, IsCoherent}
use tsserve.Proxy.Manager.Invariant.Slots.{slot}
use tsserve.Proxy.Manager.Invariant.Claim.{Claimed}
use tsserve.Proxy.Manager.Invariant.Withdraw.{Withdrawing, pool_record}

-- How many services in the index have an open listener.
abbrev pub ready_count : Manager → ℕ
ready_count m = count_if (λ id. (m.records id).ready) m.services

pub record Shows (m : Manager) (g : Gauges) : Type 0 where
  pub active : g.active ≡ pos (ready_count m)
  pub sizes :
      (n : String) (id : ℕ)
      → lookup n m.services ≡ some id
      → serving (m.records id) ≡ true
      → lookup n g.backends ≡ some (length (m.records id).pool.members)
  pub absent : (n : String) → lookup n m.services ≡ none → lookup n g.backends ≡ none
  pub unready :
      (n : String) (id : ℕ)
      → lookup n m.services ≡ some id
      → (m.records id).ready ≡ false
      → lookup n g.backends ≡ none

abbrev pub Gauged : Manager → Type 0
Gauged m = (g : Gauges) → m.metrics ≡ some g → Shows m g

-- Each section below starts from a manager whose collector is wired and shows the index.
module _ (m : Manager) (v : Inv m) (g : Gauges) (wired : m.metrics ≡ some g) (h : Shows m g) where
  pub claim-Shows :
      (def : ServiceDef) → lookup def.service m.services ≡ none → Shows (claim def m).0 g
  unfolding claim put count_if
  claim-Shows def free = record {
    active = ground (
      arith,
      h.active,
      delete-absent def.service m.services free,
      count_same (λ id. (m.records id).ready) (λ id. ((claim def m).0.records id).ready) m.services
          v.services_map (λ n i l. ground (arith, v.indexed n i l, eqb→eq m.next_record i)),
    );
    sizes = λ n i l s.
        ground
          (arith, h.sizes n i, lookup-put def.service n m.next_record m.services, v.indexed n i);
    absent = λ n l. ground (arith, h.absent n, lookup-put def.service n m.next_record m.services);
    unready = λ n i l s. ground (
      arith,
      h.unready n i,
      h.absent n,
      lookup-put def.service n m.next_record m.services,
      v.indexed n i,
      eq_iff def.service n,
    );
  }

  module _ (key : String) (b : Backend) (id : ℕ) (name : String)
      (held : lookup name m.services ≡ some id) where
    pub add_member-Shows :
        serving (m.records id) ≡ true
        → (g' : Gauges) → (add_member key b id m).metrics ≡ some g'
        → Shows (add_member key b id m) g'
    unfolding add_member add
    add_member-Shows s g' e = record {
      active = ground (
        arith,
        h.active,
        count_same (λ i. (m.records i).ready) (λ i. ((add_member key b id m).records i).ready)
            m.services v.services_map (λ n i l. ground (arith, eqb→eq id i)),
      );
      sizes = λ n i l t. ground (
        arith,
        h.sizes n i,
        v.indexed n i l,
        v.indexed name id held,
        eqb→eq id i,
        eq_iff (m.records id).name n,
        lookup-put (m.records id).name n (add (m.records id).pool b).1 g.backends,
      );
      absent = λ n l. ground (
        arith,
        h.absent n,
        v.indexed name id held,
        eq_iff (m.records id).name n,
        lookup-put (m.records id).name n (add (m.records id).pool b).1 g.backends,
      );
      unready = λ n i l t. ground (
        arith,
        h.unready n i,
        v.indexed n i l,
        v.indexed name id held,
        eq_iff (m.records id).name n,
        lookup-put (m.records id).name n (add (m.records id).pool b).1 g.backends,
      );
    }
