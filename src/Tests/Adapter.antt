-- ===== src/Tests/Adapter.antt =====
-- Runs of the watchers over the manager.
use tsserve.Base.{
  ℕ, String, ◌≡◌, refl, true, false, Option, none, some, List, [], ◌∷◌, lookup, ok, contains,
}
use tsserve.Base.Text.{has_prefix, parse_uint16, split, trim_space}
use tsserve.Labels as Labels
use tsserve.Discovery.Tracker.{Tracker}
use tsserve.Docker.Watcher as Docker
use tsserve.Ecs.Tasks as EcsTasks
use tsserve.Ecs.Watcher as Ecs
use tsserve.Lambda.Function.{Function}
use tsserve.Lambda.Watcher as Lambda
use tsserve.Tests.Cluster.{api, cluster}
use tsserve.Tests.Lambda.{tagging, region}
use tsserve.Proxy.Backend.{Backend}
use tsserve.Proxy.State.{ServiceDef, Manager, new_manager}
use tsserve.Proxy.Manager.{RegisterError}
use tsserve.Proxy.Alone.{PoolMember, register, deregister, member_of, AtRest}
use tsserve.Proxy.Alone.New.{new_manager-AtRest}
use tsserve.Proxy.Alone.Register.{Registered, register-Registered}
use tsserve.Proxy.Alone.Deregister.{Deregistered, deregister-Deregistered}
use tsserve.Tests.Docker.{inspect, quoted}
use tsserve.Startup.Adapter.{Adapted}
use tsserve.Startup.Adapter.Kind.{Kind, Served}
use tsserve.Startup.Adapter.Contract.{manager_registrar}
use tsserve.Startup.Adapter.Driven.{container_kind, function_kind, docker_kind, ecs_kind}
use tsserve.Startup.Adapter.Watchers.{
  resolved, ServedAlike, docker_turns-ServedAlike, ecs_cycle-ServedAlike,
}

abbrev web : ServiceDef
web = record {
  service = "svc:web";
  port = 80;
  network = "";
  scheme = "http";
  caps = [];
  origin = record { account = ""; cluster = ""; region = "" };
}

abbrev backend : Backend
backend = record {
  key = "c1";
  addr = "172.17.0.2:80";
  registered_at = 5;
  origin = web.origin;
  invoker = none;
  target = "";
}

-- The backend that a call leaves under a key.
abbrev served : String → Option (Manager × Option RegisterError) → Option PoolMember
served key none = none
served key (some (m, r)) = member_of m key

register_run :
    served "c1" (register none "c1" web backend (new_manager true))
    ≡ some (record { service = "svc:web"; scheme = "http"; caps = []; backend = backend })
unfolding register new_manager member_of lookup
register_run = refl

register-Registered_example :
    Registered "c1" "c1" web backend
      (new_manager true)
      (register none "c1" web backend (new_manager true))
register-Registered_example =
    register-Registered "c1" "c1" web backend (new_manager true) refl (new_manager-AtRest true) none

abbrev after_register : Manager
after_register = elim (register none "c1" web backend (new_manager true)) [
  | none ↦ new_manager true
  | some (m, r) ↦ m
]

abbrev new_adapter : Adapted
new_adapter = record { manager = new_manager true; fatal_error = none; origin = web.origin }

abbrev text : RegisterError → String
text e = "refused"

abbrev opens : ServiceDef → Manager → Option String
opens def m = none

abbrev noon : Adapted → ℕ
noon a = 12

nothing_served : Served (docker_kind text)
unfolding new_manager member_of lookup
nothing_served = record {
  adapted = new_adapter;
  rest = new_manager-AtRest true;
  given = [];
  shown = λ k. tt;
}

abbrev turns : List Docker.Turn
turns =
    Docker.event inspect (record { action = Docker.start; actor = "c1" })
    ∷ Docker.event inspect (record { action = Docker.start; actor = "c2" })
    ∷ Docker.tick inspect (ok (record { id = "c2"; labels = none } ∷ []))
    ∷ []

abbrev idle : Tracker (Served (docker_kind text)) String
idle = record { state = nothing_served; active = []; failed = [] }

-- The container that Docker no longer lists has left the manager, and the other is served.
docker_run :
    (member_of
      (Docker.take_turns
        (manager_registrar (docker_kind text) opens noon)
        quoted
        turns
        idle).state.adapted.manager
      "c1")
    ≡ none
unfolding Docker.take_turns manager_registrar container_kind lookup Labels.value_of nothing_served
    contains Labels.validate_service has_prefix parse_uint16 new_manager member_of register
    deregister Labels.parse_caps split trim_space
docker_run = refl

docker_turns-ServedAlike_example :
    ServedAlike
      (docker_kind text)
      (Docker.take_turns (manager_registrar (docker_kind text) opens noon) quoted turns idle).active
      "c2"
      (Docker.take_turns
        (manager_registrar (docker_kind text) opens noon)
        quoted
        turns
        idle).state.given
      (Docker.take_turns
        (manager_registrar (docker_kind text) opens noon)
        quoted
        turns
        idle).state.adapted.manager
unfolding manager_registrar nothing_served lookup
docker_turns-ServedAlike_example =
    docker_turns-ServedAlike opens noon text quoted turns idle "c2" (λ k. refl)

none_served : {D V : Type 0} (kind : Kind D V) → Served kind
unfolding new_manager member_of lookup
none_served kind = record {
  adapted = new_adapter;
  rest = new_manager-AtRest true;
  given = [];
  shown = λ k. tt;
}

abbrev polling : Ecs.Watcher (Served (ecs_kind text))
polling = record {
  cfg = cluster;
  tracker = record { state = none_served (ecs_kind text); active = []; failed = [] };
  task_defs = [];
  host_ips = [];
  healthy = false;
  account_resolved = false;
}

polled : Ecs.Watcher (Served (ecs_kind text)) × Option EcsTasks.CycleError
unfolding Ecs.cycle
polled =
    elim (Ecs.cycle (manager_registrar (ecs_kind text) opens noon) api 2 (some (ok "123")) resolved
      polling) [ none ↦ (polling, none) | some r ↦ r ]

ecs_cycle-ServedAlike_example :
    ServedAlike
      (ecs_kind text)
      polled.0.tracker.active
      "t1#web"
      polled.0.tracker.state.given
      polled.0.tracker.state.adapted.manager
unfolding polled Ecs.cycle manager_registrar container_kind lookup Labels.value_of none_served
    contains resolved Labels.validate_service has_prefix parse_uint16 new_manager member_of register
    deregister Labels.parse_caps split trim_space
ecs_cycle-ServedAlike_example =
    ecs_cycle-ServedAlike opens noon text api 2 (some (ok "123")) polling polled.0 polled.1 "t1#web"
      (λ k. refl) refl

tagging_watcher : Lambda.Watcher (Served (function_kind text))
tagging_watcher = record {
  cfg = region;
  tracker = record { state = none_served (function_kind text); active = []; failed = [] };
  healthy = false;
  account_resolved = false;
}

tagged : Lambda.Watcher (Served (function_kind text)) × Option Lambda.CycleError
unfolding Lambda.cycle
tagged =
    elim (Lambda.cycle (manager_registrar (function_kind text) opens noon) (λ e. "bad tags") tagging
      1 none resolved tagging_watcher) [ none ↦ (tagging_watcher, none) | some r ↦ r ]

abbrev resizer : Function
resizer = record {
  arn = "arn:g";
  qualifier = "live";
  service = "svc:resize";
  caps = "app:edit" ∷ [];
}

after_register-AtRest : AtRest after_register
unfolding register new_manager
after_register-AtRest =
    (register-Registered "c1" "c1" web backend (new_manager true) refl (new_manager-AtRest true)
      none).0

deregister-Deregistered_example :
    Deregistered "c1" "c1" after_register (deregister "c1" after_register)
deregister-Deregistered_example =
    deregister-Deregistered "c1" "c1" after_register after_register-AtRest
