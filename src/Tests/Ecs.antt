-- ===== src/Tests/Ecs.antt =====
-- ecs/ at concrete inputs: a cluster whose tasks run one labelled container.
use tsserve.Base.{
  ◌≡◌, ◌≢◌, refl, String, Bool, false, Option, none, some, List, [], ◌∷◌, length, lookup, Map,
  Distinct, All, contains, ok, arith, if◌then◌else◌, eqb,
}
use tsserve.Base.Text.{has_prefix, parse_uint16}
use tsserve.Labels as Labels
use tsserve.Discovery.Registrar.{Registrar}
use tsserve.Discovery.Paging.{Pages}
use tsserve.Ecs.Types.{Task, TaskDefinition}
use tsserve.Ecs.Cache.{lookup_host_ip}
use tsserve.Ecs.Cache.Laws.{IsFresh}
use tsserve.Ecs.Resolve.{resolve_backend}
use tsserve.Ecs.Resolve.Laws.{resolve_backend_transparent}
use tsserve.Ecs.Account as Account
use tsserve.Ecs.Account.Laws.{plan_lem, Complete, names}
use tsserve.Ecs.Registry.{ReaderStatus, Registry}
use tsserve.Ecs.Registry.Laws.{health_at}
use tsserve.Ecs.Tasks as EcsTasks
use tsserve.Ecs.Watcher as Ecs
use tsserve.Ecs.Watcher.Laws.{poll_listed-seen}
use tsserve.Ecs.Watcher.Listing.{cycle-ne-none}
use tsserve.Ecs.Watcher.Outcome.{record_outcome-health_at}
use tsserve.Tests.Cluster.{api, cluster}
use tsserve.Tests.Registrar.{map_register, map_registrar}

abbrev by_address : Labels.ServiceDef × String → String
by_address (def, ip) = EcsTasks.backend_addr ip def.port

container_registrar : Registrar (Map String) (Labels.ServiceDef × String) String String
container_registrar = map_registrar by_address

pages : Pages (EcsTasks.task_page api) none (("t1" ∷ []) ∷ ("t2" ∷ []) ∷ [])
pages = Pages.more refl refl (Pages.last refl refl)

abbrev fresh : Ecs.Watcher (Map String)
fresh = record {
  cfg = cluster;
  tracker = record { state = []; active = []; failed = [] };
  task_defs = [];
  host_ips = [];
  healthy = false;
  account_resolved = false;
}

abbrev unchanged : String → Map String → Map String
unchanged account s = s

cycle-ne-none_example : Ecs.cycle container_registrar api 2 (some (ok "123")) unchanged fresh ≢ none
cycle-ne-none_example =
    cycle-ne-none container_registrar api (("t1" ∷ []) ∷ ("t2" ∷ []) ∷ []) (some (ok "123"))
      unchanged fresh pages

polled : Ecs.Watcher (Map String) × Option EcsTasks.CycleError
unfolding Ecs.cycle container_registrar
polled = elim (Ecs.cycle container_registrar api 2 (some (ok "123")) unchanged fresh) [
  | none ↦ (fresh, none)
  | some r ↦ r
]

polled_serves : lookup "t1#web" polled.0.tracker.active ≡ some "10.0.0.9:8080"
unfolding polled Ecs.cycle container_registrar map_registrar map_register lookup Labels.value_of
    Labels.validate_service has_prefix parse_uint16
polled_serves = refl

-- A key that was active before and is not listed any more.
abbrev stale : Ecs.Watcher (Map String)
stale = record fresh {
  tracker = record {
    state = ("t0#web", "10.0.0.8:80") ∷ [];
    active = ("t0#web", "10.0.0.8:80") ∷ [];
    failed = [];
  };
}

poll_listed-seen_example :
    lookup "t0#web" (Ecs.poll_listed container_registrar api ("t1" ∷ []) stale).0.tracker.active
    ≡ none
unfolding Ecs.poll_listed container_registrar map_registrar map_register lookup Labels.value_of
    Labels.validate_service has_prefix parse_uint16
poll_listed-seen_example =
    poll_listed-seen container_registrar (λ def ip. refl) api ("t1" ∷ []) stale "t0#web" refl refl

abbrev three : List String
three = "a" ∷ "b" ∷ "c" ∷ []

abbrev reader : ReaderStatus
reader = record {
  mode = "ecs";
  name = "prod";
  account = "";
  cluster = "prod";
  region = "";
  poll_interval = 10;
  last_poll_start = 0;
  last_poll_ok = 0;
  last_error = "";
  polls = 0;
  healthy = false;
}

abbrev never : EcsTasks.CycleError → Bool
never e = false

abbrev says : EcsTasks.CycleError → String
says e = "throttled"

abbrev outcome : Ecs.Watcher (Map String) × Registry
unfolding Ecs.record_outcome
outcome = Ecs.record_outcome never says 5 none (fresh, reader ∷ [])

record_outcome-health_at_example :
    (outcome.0.cfg.reader ≡ some 0) × (health_at outcome.1 0 ≡ some outcome.0.healthy)
unfolding Ecs.record_outcome
record_outcome-health_at_example =
    record_outcome-health_at never says 5 0 none fresh (reader ∷ []) refl refl

abbrev known : Map String
known = ("ci-1", "10.0.0.1") ∷ []

known-IsFresh : IsFresh api known
unfolding lookup lookup_host_ip
known-IsFresh arn ip h = ground arith

abbrev prod : Account.Account
prod = record {
  name = "prod";
  region = "";
  profile = "";
  config_file = "";
  access_key_id = "";
  secret_access_key = "";
  cluster = "main";
}

abbrev defaults : Account.Defaults
defaults = record {
  region = "eu-west-1";
  profile = "";
  config_file = "";
  cluster = "";
  poll_interval = 10;
}

abbrev spec : Account.WatcherSpec
spec = record {
  name = "prod";
  cluster = "main";
  region = "eu-west-1";
  profile = "";
  config_file = "";
  access_key_id = "";
  secret_access_key = "";
  poll_interval = 10;
}

plan_lem_example :
    (length (spec ∷ []) ≡ (if eqb (length (prod ∷ [])) 0 then 1 else length (prod ∷ [])))
    × All Complete (spec ∷ [])
    × Distinct (names (spec ∷ []))
unfolding Account.plan contains
plan_lem_example = plan_lem (prod ∷ []) defaults (spec ∷ []) refl

abbrev bridged : TaskDefinition
bridged = record { network_mode = "bridge"; container_definitions = [] }

abbrev bound : Task
bound = record {
  arn = some "t1";
  last_status = some "RUNNING";
  task_definition_arn = some "web:1";
  container_instance_arn = some "ci-1";
  attachments = [];
  containers =
      record {
        name = some "web";
        network_bindings = record { container_port = some 80; host_port = some 32768 } ∷ [];
      }
      ∷ [];
}

resolve_backend_transparent_example :
    ((resolve_backend api bound bridged "web" 80 known).1
      ≡ (resolve_backend api bound bridged "web" 80 []).1)
    × IsFresh api (resolve_backend api bound bridged "web" 80 known).0
resolve_backend_transparent_example =
    resolve_backend_transparent api bound bridged "web" 80 known known-IsFresh

bound_resolves :
    (resolve_backend api bound bridged "web" 80 known).1
    ≡ ok (record { host = "10.0.0.1"; port = 32768 })
unfolding resolve_backend lookup
bound_resolves = refl
