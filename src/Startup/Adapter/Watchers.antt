-- ===== src/Startup/Adapter/Watchers.antt =====
-- The three watchers over the manager, with no assumption on the registrar left: what a watcher has active is what the
-- manager serves.
use tsserve.Base.{ℕ, String, ◌≡◌, refl, Option, some, List, Map, lookup, Result}
use tsserve.Labels as Labels
use tsserve.Discovery.Registrar.{Registrar}
use tsserve.Discovery.Tracker.{Tracker}
use tsserve.Discovery.Tracker.Laws.{Synced}
use tsserve.Ecs.Types.{Api}
use tsserve.Ecs.Tasks as EcsTasks
use tsserve.Ecs.Watcher as Ecs
use tsserve.Ecs.Watcher.Laws.{cycle-Synced}
use tsserve.Docker.Watcher as Docker
use tsserve.Docker.Watcher.Laws.{take_turns-Synced}
use tsserve.Lambda.Function.{Function}
use tsserve.Lambda.Watcher as Lambda
use tsserve.Proxy.State.{ServiceDef, Manager}
use tsserve.Proxy.Manager.{RegisterError}
use tsserve.Proxy.Alone.{member_of}
use tsserve.Startup.Adapter.{Adapted, account_resolved}
use tsserve.Startup.Adapter.Kind.{Kind, Served, ServedAs, asked_by, described_of}
use tsserve.Startup.Adapter.Driven.{container_kind, ecs_kind, docker_kind}
use tsserve.Startup.Adapter.Contract.{manager_registrar}

unfoldable pub resolved : {D V : Type 0} {kind : Kind D V} → String → Served kind → Served kind
unfolding account_resolved
resolved account s = record s { adapted = account_resolved account s.adapted }

-- A key is active exactly as the adapter has registered it, and the manager serves for it a member under the service and
-- the scheme of that registration, with its set of capabilities and its place; it serves none for another key.
abbrev pub ServedAlike : {D V : Type 0} → Kind D V → Map V → String → (Map D) → Manager → Type 0
ServedAlike kind active k given m =
    (lookup k active ≡ described_of kind (lookup k given))
    × ServedAs kind.place (member_of m k) (asked_by kind.asked (lookup k given))

module _ {D V : Type 0} (kind : Kind D V) (listen : ServiceDef → Manager → Option String)
    (clock : Adapted → ℕ) where
  abbrev reg : Registrar (Served kind) D V String
  reg = manager_registrar kind listen clock

  Synced-ServedAlike :
      (t : Tracker (Served kind) V) (k : String)
      → Synced reg t
      → ServedAlike kind t.active k t.state.given t.state.adapted.manager
  unfolding manager_registrar
  Synced-ServedAlike t k h = (h k, t.state.shown k)

  holds-resolved :
      (account key : String) (s : Served kind)
      → (manager_registrar kind listen clock).holds (resolved account s) key
        ≡ (manager_registrar kind listen clock).holds s key
  unfolding manager_registrar resolved
  holds-resolved account key s = refl

module _ (listen : ServiceDef → Manager → Option String) (clock : Adapted → ℕ)
    (text : RegisterError → String) where
  ecs_kind-described :
      (def : Labels.ServiceDef) (ip : String)
      → (manager_registrar (ecs_kind text) listen clock).described (def, ip)
        ≡ EcsTasks.backend_addr ip def.port
  unfolding manager_registrar container_kind
  ecs_kind-described def ip = refl

  -- A cycle of the ECS watcher over the manager, failing or not, ends with a key active exactly when the manager serves
  -- a backend for it: under the service and the scheme of the recorded registration, with its set of capabilities, at
  -- its address.
  pub ecs_cycle-ServedAlike :
      (api : Api) (fuel : ℕ) (answer : Option (Result String String))
      (w w' : Ecs.Watcher (Served (ecs_kind text))) (r : Option EcsTasks.CycleError) (k : String)
      → Synced (manager_registrar (ecs_kind text) listen clock) w.tracker
      → Ecs.cycle (manager_registrar (ecs_kind text) listen clock) api fuel answer resolved w
        ≡ some (w', r)
      → ServedAlike
          (ecs_kind text)
          w'.tracker.active
          k
          w'.tracker.state.given
          w'.tracker.state.adapted.manager
  ecs_cycle-ServedAlike api fuel answer w w' r k h ran =
      Synced-ServedAlike (ecs_kind text) listen clock w'.tracker k (
        cycle-Synced (manager_registrar (ecs_kind text) listen clock) ecs_kind-described resolved
          (holds-resolved (ecs_kind text) listen clock) api fuel answer w w' r h ran)

  docker_kind-described :
      (def : Labels.ServiceDef) (ip : String)
      → (manager_registrar (docker_kind text) listen clock).described (def, ip)
        ≡ Docker.backend_addr ip def.port
  unfolding manager_registrar container_kind
  docker_kind-described def ip = refl

  -- Every sequence of Docker events and sweeps over the manager ends with a container active exactly when the manager
  -- serves a backend for it: under the service and the scheme of the recorded registration, with its set of
  -- capabilities, at its address.
  pub docker_turns-ServedAlike :
      (quoted : String → String) (us : List Docker.Turn)
      (t : Tracker (Served (docker_kind text)) String) (k : String)
      → Synced (manager_registrar (docker_kind text) listen clock) t
      → ServedAlike
          (docker_kind text)
          (Docker.take_turns (manager_registrar (docker_kind text) listen clock) quoted us t).active
          k
          (Docker.take_turns
            (manager_registrar (docker_kind text) listen clock)
            quoted
            us
            t).state.given
          (Docker.take_turns
            (manager_registrar (docker_kind text) listen clock)
            quoted
            us
            t).state.adapted.manager
  docker_turns-ServedAlike quoted us t k h =
      let reg = manager_registrar (docker_kind text) listen clock in
      Synced-ServedAlike (docker_kind text) listen clock (Docker.take_turns reg quoted us t) k
        (take_turns-Synced reg quoted docker_kind-described us t h)
