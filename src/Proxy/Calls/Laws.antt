-- ===== src/Proxy/Calls/Laws.antt =====
-- What a snapshot shows.
use Prim.Native.String.{◌++◌}
use tsserve.Base.{
  ℕ, true, false, String, ◌≡◌, refl, sym, subst, Bool, Option, none, some, List, [], ◌∷◌, Map,
  IsMap, lookup, ◌==◌, if◌then◌else◌, arith, eq_iff,
}
use tsserve.Proxy.Backend.{Backend, target_url}
use tsserve.Proxy.State.{AdvertisedService, Manager, serving}
use tsserve.Proxy.Goroutine.{System}
use tsserve.Proxy.Goroutine.Reach.{Reach, Reach-Safe}
use tsserve.Proxy.Calls.{
  BackendView, ServiceView, backend_views, view_of, insert_view, views, snapshot,
}

-- The view of a service in a snapshot.
abbrev pub shown : String → List ServiceView → Option ServiceView
shown name [] = none
shown name (v ∷ vs) = if v.service == name then some v else shown name vs

shown-insert_view :
    (v : ServiceView) (vs : List ServiceView) (name : String)
    → shown v.service vs ≡ none
    → shown name (insert_view v vs) ≡ (if v.service == name then some v else shown name vs)
unfolding insert_view
shown-insert_view v [] name h = refl
shown-insert_view v (w ∷ ws) name h =
    let alone : shown v.service ws ≡ none = ground (arith, h) in
    ground (
      arith,
      h,
      shown-insert_view v ws name alone,
      eq_iff v.service name,
      eq_iff w.service name,
      eq_iff w.service v.service,
    )

shown-views :
    (records : ℕ → AdvertisedService) (services : Map ℕ) (name : String)
    → IsMap services
    → ((n : String) (id : ℕ) → lookup n services ≡ some id → (records id).name ≡ n)
    → shown name (views records services) ≡ elim (lookup name services) [
      | none ↦ none
      | some id ↦ if serving (records id) then some (view_of (records id)) else none
    ]
unfolding views lookup view_of
shown-views records [] name u named = refl
shown-views records ((n, id) ∷ rest) name u named =
    let others : (k : String) (j : ℕ) → lookup k rest ≡ some j → (records j).name ≡ k =
      λ k j e. named k j (ground (arith, e, u.0, eq_iff n k)) in
    let mine : (records id).name ≡ n = named n id (ground (arith, eq_iff n n)) in
    let alone : shown n (views records rest) ≡ none =
      ground (arith, u.0, shown-views records rest n u.1 others) in
    ground (
      arith,
      mine,
      alone,
      shown-views records rest name u.1 others,
      shown-insert_view (view_of (records id)) (views records rest) name (rw mine alone),
      eq_iff n name,
    )

-- Where a member's requests go, as it is shown: the name of its function, or the address behind the service's scheme.
abbrev pub shown_target : String → Backend → String
shown_target scheme b = elim b.invoker [ some f ↦ b.target | none ↦ scheme ++ "://" ++ b.addr ]

-- The views are those of the members, in order.
abbrev pub ShowsMembers : String → List BackendView → List Backend → Type 0
ShowsMembers scheme [] [] = Unit
ShowsMembers scheme [] (b ∷ bs) = ⊥
ShowsMembers scheme (v ∷ vs) [] = ⊥
ShowsMembers scheme (v ∷ vs) (b ∷ bs) =
    (v.key ≡ b.key)
    × (v.backend ≡ shown_target scheme b)
    × (v.registered_at ≡ b.registered_at)
    × (v.origin ≡ b.origin)
    × ShowsMembers scheme vs bs

-- A record of the index, if it is serving, is what the snapshot shows; nothing is shown for another.
abbrev pub ShowsRecord : String → Option ServiceView → Option AdvertisedService → Type 0
ShowsRecord name none none = Unit
ShowsRecord name (some v) none = ⊥
ShowsRecord name none (some r) = serving r ≡ false
ShowsRecord name (some v) (some r) =
    (serving r ≡ true)
    × (v.service ≡ name)
    × (v.scheme ≡ r.scheme)
    × (v.caps ≡ r.caps)
    × ShowsMembers r.scheme v.backends r.pool.members

abbrev pub record_at : (ℕ → AdvertisedService) → Option ℕ → Option AdvertisedService
record_at records none = none
record_at records (some id) = some (records id)

-- The record that the index holds under a name.
abbrev pub record_of : Manager → String → Option AdvertisedService
record_of m name = record_at m.records (lookup name m.services)

backend_views-ShowsMembers :
    (scheme : String) (bs : List Backend) → ShowsMembers scheme (backend_views scheme bs) bs
unfolding backend_views target_url
backend_views-ShowsMembers scheme [] = tt
backend_views-ShowsMembers scheme (b ∷ bs) =
    (refl, refl, refl, refl, backend_views-ShowsMembers scheme bs)

view_of-ShowsRecord :
    (name : String) (r : AdvertisedService) (b : Bool)
    → r.name ≡ name
    → serving r ≡ b
    → ShowsRecord name (if b then some (view_of r) else none) (some r)
unfolding view_of
view_of-ShowsRecord name r true named up =
    (up, named, refl, refl, backend_views-ShowsMembers r.scheme r.pool.members)
view_of-ShowsRecord name r false named down = down

held-ShowsRecord :
    (records : ℕ → AdvertisedService) (name : String) (o : Option ℕ)
    → ((id : ℕ) → o ≡ some id → (records id).name ≡ name)
    → ShowsRecord name
        (elim o [
          | none ↦ none
          | some id ↦ if serving (records id) then some (view_of (records id)) else none
        ])
        (record_at records o)
held-ShowsRecord records name none named = tt
held-ShowsRecord records name (some id) named =
    view_of-ShowsRecord name (records id) (serving (records id)) (named id refl) refl

-- In every state reached by disciplined calls, a snapshot shows a service exactly while the index holds a serving
-- record under its name, with that record's scheme and capabilities and, in order, each of its members: its key, its
-- function or its address behind the scheme, when it was registered, and its origin.
pub snapshot_lem :
    {b : Bool} {s : System}
    → Reach b s
    → (name : String)
    → ShowsRecord name (shown name (snapshot s.manager)) (record_of s.manager name)
unfolding snapshot
snapshot_lem {s = s} r name =
    let inv = (Reach-Safe r).inv in
    let shows =
      shown-views s.manager.records s.manager.services name inv.services_map
        (λ n id e. (inv.indexed n id e).1) in
    subst (λ v. ShowsRecord name v (record_of s.manager name)) (sym shows)
      (held-ShowsRecord s.manager.records name (lookup name s.manager.services)
        (λ id e. (inv.indexed name id e).1))
