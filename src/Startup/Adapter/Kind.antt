-- ===== src/Startup/Adapter/Kind.antt =====
-- What main.go's adapter is asked to serve, and the state of the adapter with the registrations that it has made.
use tsserve.Base.{ℕ, String, ◌≡◌, List, true, subst, Option, none, some, Map, lookup}
use tsserve.Proxy.Backend.{Origin, Backend}
use tsserve.Proxy.State.{ServiceDef}
use tsserve.Proxy.Manager.{RegisterError}
use tsserve.Proxy.Caps.{same_caps}
use tsserve.Proxy.Alone.{PoolMember, member_of, AtRest}
use tsserve.Startup.Adapter.{Adapted}

-- What a registration asks the manager to serve.
pub record Asked : Type 0 where
  pub service : String
  pub scheme : String
  pub caps : List String
  pub place : String

-- The member in service is the one that a registration asks for: its service, its scheme, its set of capabilities and
-- the place that its requests go to.
abbrev pub ServedAs : (Backend → String) → Option PoolMember → Option Asked → Type 0
ServedAs place none none = Unit
ServedAs place none (some a) = ⊥
ServedAs place (some b) none = ⊥
ServedAs place (some b) (some a) =
    (b.service ≡ a.service)
    × (b.scheme ≡ a.scheme)
    × (same_caps b.caps a.caps ≡ true)
    × (place b.backend ≡ a.place)

pub ServedAs-ap :
    (place : Backend → String) (x y : Option PoolMember) (a b : Option Asked)
    → x ≡ y
    → a ≡ b
    → ServedAs place x a
    → ServedAs place y b
ServedAs-ap place x y a b p q h =
    subst (λ u. ServedAs place u b) p (subst (λ v. ServedAs place x v) q h)

abbrev pub asked_by : {D : Type 0} → (D → Asked) → Option D → Option Asked
asked_by asked none = none
asked_by asked (some d) = some (asked d)

-- What a watcher's registrations are made of: the service and the backend that a registration `d` stands for, the place
-- that a backend's requests go to, what a registration asks for, and how the watcher describes it.
pub record Kind (D V : Type 0) : Type 0 where
  pub service : Origin → D → ServiceDef
  pub backend : Origin → ℕ → String → D → Backend
  pub place : Backend → String
  pub asked : D → Asked
  pub described : D → V
  pub text : RegisterError → String
  pub backend-key : (o : Origin) (now : ℕ) (key : String) (d : D) → (backend o now key d).key ≡ key
  pub backend-place :
      (o : Origin) (now : ℕ) (key : String) (d : D) → place (backend o now key d) ≡ (asked d).place
  pub service-asked :
      (o : Origin) (d : D)
      → ((service o d).service ≡ (asked d).service)
        × ((service o d).scheme ≡ (asked d).scheme)
        × ((service o d).caps ≡ (asked d).caps)

module _ {D V : Type 0} (kind : Kind D V) where
  -- The adapter's state, with the registrations that it has made.
  pub record Served : Type 0 where
    pub adapted : Adapted
    pub rest : AtRest adapted.manager
    pub given : Map D
    pub shown :
        (k : String)
        → ServedAs kind.place (member_of adapted.manager k) (asked_by kind.asked (lookup k given))

abbrev pub described_of : {D V : Type 0} → Kind D V → Option D → Option V
described_of kind none = none
described_of kind (some d) = some (kind.described d)

abbrev pub result_state : Option (Adapted × Option RegisterError) → Option Adapted
result_state none = none
result_state (some (a, r)) = some a
