-- ===== src/Proxy/Goroutine/Promises.antt =====
-- What the manager promises its callers and its node, in every interleaving.
use tsserve.Base.{
  ℕ, ◌<◌, String, ◌≡◌, ◌≢◌, ◌↔◌, Bool, true, false, not, Option, none, some, lookup, arith, length,
  ◌⊎◌, inl, inr, Bool-cases, Option-cases,
}
use tsserve.Base.Int.{pos}
use tsserve.Proxy.Backend.{Backend}
use tsserve.Proxy.State.{Manager, Gauges, serving}
use tsserve.Proxy.Manager.Invariant.{has_member}
use tsserve.Proxy.Manager.Gauges.{ready_count}
use tsserve.Proxy.Goroutine.{
  Listener, shut, claiming, in_listen, System, Choice, panics, advance, is_open,
}
use tsserve.Proxy.Goroutine.Stage.{owns, in_serve, Claiming}
use tsserve.Proxy.Goroutine.Names.{live}
use tsserve.Proxy.Goroutine.Safety.Steps.{advance-ne-panics}
use tsserve.Proxy.Goroutine.Reach.{Reach, Reach-Safe}

-- The size of the pool of the record that the index holds under a name.
abbrev pub pool_size : Manager → String → Option ℕ
pool_size m name = elim (lookup name m.services) [
  | none ↦ none
  | some id ↦ some (length (m.records id).pool.members)
]

abbrev pub is_serving : Manager → String → Bool
is_serving m name = elim (lookup name m.services) [
  | none ↦ false
  | some id ↦ serving (m.records id)
]

-- In no interleaving of disciplined calls does a goroutine panic: no channel is closed twice, and no
-- `cancel` or `closeFn` is called before it is set.
pub never_panics :
    {b : Bool} {s : System} → Reach b s → (i : ℕ) (c : Choice) → advance i c s ≢ panics
never_panics {s = s} r i c = advance-ne-panics i c s (Reach-Safe r)

-- In every state reached by disciplined calls, when a goroutine is about to call ListenService for a
-- record, or is inside the call, every other record allocated under the same name has its listener shut.
pub one_listener :
    {b : Bool} {s : System}
    → Reach b s
    → (i id : ℕ) (key : String) (o : Backend)
    → (s.goroutines i ≡ claiming id key o) ⊎ (s.goroutines i ≡ in_listen id key o)
    → (other : ℕ) → other < s.manager.next_record
    → other ≢ id
    → (s.manager.records other).name ≡ (s.manager.records id).name
    → s.listener other ≡ shut
one_listener {s = s} r i id key o at other old ne named =
    let safe = Reach-Safe r in
    let st = safe.threads.stages i in
    let facts : (id < s.manager.next_record) × (live (s.listener id) ≡ true) = elim at [
      | inl e ↦
          let c : Claiming s id key o Listener.unopened = rw e at st in
          (c.claim.allocated, rw c.state)
      | inr e ↦
          let c : Claiming s id key o Listener.opening = rw e at st in
          (c.claim.allocated, rw c.state)
    ] in
    elim (Bool-cases (live (s.listener other))) [
      | inl alive ↦ absurd (ne (safe.names.unique other id old facts.0 alive facts.1 named))
      | inr gone ↦ ground arith
    ]

-- In every state reached by disciplined calls, at most one goroutine is inside the serve-config lock.
pub serve_exclusive :
    {b : Bool} {s : System}
    → Reach b s
    → (i j : ℕ) → in_serve (s.goroutines i) ≡ true
    → in_serve (s.goroutines j) ≡ true
    → i ≡ j
serve_exclusive {s = s} r i j a c =
    let safe = Reach-Safe r in ground (arith, safe.locked.holds i a, safe.locked.holds j c)

-- In every state reached by disciplined calls, no record is owned by two goroutines, where a goroutine owns
-- the record that it advertises and those that it tears down.
pub one_teardown :
    {b : Bool} {s : System}
    → Reach b s
    → (i j id : ℕ) → owns (s.goroutines i) id ≡ true
    → owns (s.goroutines j) id ≡ true
    → i ≡ j
one_teardown r i j id = (Reach-Safe r).threads.owners i j id

-- In every state reached by disciplined calls, a key is recorded under a name exactly while it is in the
-- pool of the serving record that the index holds under that name.
pub recorded_iff_member :
    {b : Bool} {s : System}
    → Reach b s
    → (key name : String)
    → (lookup key s.manager.by_key ≡ some name) ↔ (has_member s.manager name key ≡ true)
recorded_iff_member r key name =
    let safe = Reach-Safe r in (safe.inv.sound key name, safe.inv.complete key name)

-- In every state reached by disciplined calls, a service that the index holds and that serves has at least one backend,
-- and its listener is open exactly while the Serve that the manager started on it has not returned: no call of the
-- manager, and no interleaving of them, closes it.
pub serving_has_backend :
    {b : Bool} {s : System}
    → Reach b s
    → (name : String) (id : ℕ) → lookup name s.manager.services ≡ some id
    → serving (s.manager.records id) ≡ true
    → (0 < length (s.manager.records id).pool.members) × (is_open s id ≡ not (s.exited id))
unfolding is_open
serving_has_backend r name id held busy =
    let safe = Reach-Safe r in
    ((safe.inv.pools name id held).filled busy, ground (arith, safe.names.opened name id held busy))

-- In every state reached by disciplined calls, the active gauge is the number of services in the index
-- whose listener has opened.
pub active_gauge_counts :
    {b : Bool} {s : System} {g : Gauges}
    → Reach b s
    → s.manager.metrics ≡ some g
    → g.active ≡ pos (ready_count s.manager)
active_gauge_counts {g = g} r wired = ((Reach-Safe r).gauged g wired).active

-- In every state reached by disciplined calls, the backends gauge of a name is the size of the pool while
-- the index holds a serving record under it, and absent while the index holds none.
pub backends_gauge_shows :
    {b : Bool} {s : System} {g : Gauges}
    → Reach b s
    → s.manager.metrics ≡ some g
    → (name : String) → (lookup name s.manager.services ≡ none) ⊎ (is_serving s.manager name ≡ true)
    → lookup name g.backends ≡ pool_size s.manager name
backends_gauge_shows {s = s} {g = g} r wired name at =
    let shows = (Reach-Safe r).gauged g wired in
    elim (Option-cases (lookup name s.manager.services)) [
      | inl free ↦ ground (arith, shows.absent name)
      | inr (id, held) ↦ ground (arith, shows.sizes name id)
    ]
