-- ===== src/Ecs/Watcher.antt =====
-- ecs/watcher.go: the watcher of one cluster. `Api` answers for one cycle, the registrar and the
-- callbacks of the configuration are arguments, and log lines are left out. `reader` is the reader's handle
-- in the registry.
pub mod Laws
pub mod Listing
pub mod Outcome
use tsserve.Base.{
  ℕ, zero, suc, ◌+◌, ◌-◌, String, Bool, true, false, not, ◌&&◌, Option, none, some, List, [], ◌∷◌,
  Map, contains, Result, ok, err, ◌==◌, if◌then◌else◌, ltb, length,
}
use tsserve.Labels as Labels
use tsserve.Discovery.Registrar.{Registrar}
use tsserve.Discovery.Tracker.{Tracker, settle, remove_missing}
use tsserve.Ecs.Tasks.{
  registration_key, backend_addr, chunk, list_all_task_arns, CycleError, identity, list_tasks,
  describe_tasks, is_running,
}
use tsserve.Ecs.Types.{Api, Task, TaskDefinition, ContainerDefinition}
use tsserve.Ecs.Cache.{CacheError, task_def_get}
use tsserve.Ecs.Resolve.{Backend, ResolveError, resolve_backend, deref_arn}
use tsserve.Ecs.Registry.{Registry, poll_started, poll_succeeded, poll_failed}

pub record Config : Type 0 where
  pub cluster : String
  pub poll_interval : ℕ
  pub retry_interval : ℕ
  pub account : String
  pub reader : Option ℕ

pub record Watcher (S : Type 0) : Type 0 where
  pub cfg : Config
  pub tracker : Tracker S String
  pub task_defs : Map TaskDefinition
  pub host_ips : Map String
  pub healthy : Bool
  pub account_resolved : Bool

-- `NewWatcher`, whose intervals are in nanoseconds; `none` is the error on a missing cluster.
unfoldable pub new_watcher : {S : Type 0} → Config → S → Option (Watcher S)
new_watcher cfg s =
    if cfg.cluster == ""
    then none
    else some (record {
      cfg = record cfg {
        poll_interval = if ltb 0 cfg.poll_interval then cfg.poll_interval else 10000000000;
        retry_interval = if ltb 0 cfg.retry_interval then cfg.retry_interval else 120000000000;
      };
      tracker = record { state = s; active = []; failed = [] };
      task_defs = [];
      host_ips = [];
      healthy = false;
      account_resolved = false;
    })

unfoldable pub next_interval : {S : Type 0} → Watcher S → ℕ
next_interval w =
    let p = w.cfg.poll_interval in
    let r = w.cfg.retry_interval in if w.healthy then p else if ltb p r then r else p

module _ {S : Type 0} (reg : Registrar S (Labels.ServiceDef × String) String String) where
  -- The rest of a container's pass once its backend is resolved.
  unfoldable pub apply_resolved :
      String → Labels.ServiceDef → Result ResolveError Backend → Watcher S → Watcher S
  unfolding settle backend_addr
  apply_resolved key def (err e) w = w
  apply_resolved key def (ok b) w = record w {
    tracker =
        settle reg (λ prev addr. prev == addr) (λ e. e) key (record def { port = b.port }, b.host)
          (backend_addr b.host b.port) w.tracker;
  }

  -- The rest of a container's pass once its labels are parsed, with the keys seen so far.
  unfoldable pub apply_parsed :
      Api
      → Task
      → TaskDefinition
      → String
      → Result Labels.Error Labels.ServiceDef
      → Watcher S × List String
      → Watcher S × List String
  unfolding apply_resolved resolve_backend registration_key deref_arn
  apply_parsed api task td name (err e) ws = ws
  apply_parsed api task td name (ok def) (w, seen) =
      let key = registration_key (deref_arn task.arn) name in
      let (hosts, r) = resolve_backend api task td name def.port w.host_ips in
      (apply_resolved key def r (record w { host_ips = hosts }), key ∷ seen)

  -- One container of the loop of `applyTask`.
  unfoldable pub apply_container :
      Api
      → Task
      → TaskDefinition
      → ContainerDefinition
      → Watcher S × List String
      → Watcher S × List String
  unfolding Labels.parse apply_parsed
  apply_container api task td cd ws = elim cd.name [
    | none ↦ ws
    | some name ↦ apply_parsed api task td name (Labels.parse cd.docker_labels) ws
  ]

  unfoldable pub apply_task :
      Api
      → Task
      → TaskDefinition
      → List ContainerDefinition
      → Watcher S × List String
      → Watcher S × List String
  unfolding apply_container
  apply_task api task td [] ws = ws
  apply_task api task td (cd ∷ cds) ws =
      apply_task api task td cds (apply_container api task td cd ws)

  unfoldable pub apply_defined :
      Api
      → Task
      → Result CacheError TaskDefinition
      → Watcher S × List String
      → Watcher S × List String
  unfolding apply_task
  apply_defined api task (err e) ws = ws
  apply_defined api task (ok td) ws = apply_task api task td td.container_definitions ws

  -- One task of a batch.
  unfoldable pub poll_task : Api → Task → Watcher S × List String → Watcher S × List String
  unfolding task_def_get apply_defined is_running
  poll_task api task (w, seen) =
      if not (is_running task) then (w, seen) else elim task.task_definition_arn [
        | none ↦ (w, seen)
        | some arn ↦
            let (defs, r) = task_def_get api arn w.task_defs in
            apply_defined api task r (record w { task_defs = defs }, seen)
      ]

  unfoldable pub poll_tasks : Api → List Task → Watcher S × List String → Watcher S × List String
  unfolding poll_task
  poll_tasks api [] ws = ws
  poll_tasks api (task ∷ tasks) ws = poll_tasks api tasks (poll_task api task ws)

  -- The loop over the batches, which the first failing one ends.
  unfoldable pub poll_batches :
      Api
      → List (List String)
      → Watcher S × List String
      → (Watcher S × List String) × Option CycleError
  unfolding poll_tasks
  poll_batches api [] ws = (ws, none)
  poll_batches api (batch ∷ batches) ws = elim (api.describe_tasks batch) [
    | err e ↦ (ws, some (describe_tasks e))
    | ok tasks ↦ poll_batches api batches (poll_tasks api tasks ws)
  ]

  -- `ResolveAccount`'s answer in this cycle, where the configuration has it, and what
  -- `OnAccountResolved` does to the registrar.
  unfoldable pub resolve_identity :
      Option (Result String String) → (String → S → S) → Watcher S → Watcher S × Option CycleError
  resolve_identity answer on_resolved w = if w.account_resolved then (w, none) else elim answer [
    | none ↦ (w, none)
    | some (err e) ↦ (w, some (identity e))
    | some (ok account) ↦ (
      record w {
        account_resolved = true;
        tracker = record w.tracker { state = on_resolved account w.tracker.state };
        cfg = record w.cfg { account = account };
      },
      none,
    )
  ]

  -- The part of a cycle after its tasks are listed.
  unfoldable pub poll_listed : Api → List String → Watcher S → Watcher S × Option CycleError
  unfolding poll_batches chunk remove_missing
  poll_listed api arns w =
      let ((w', seen), r) = poll_batches api (chunk arns 100) (w, []) in
      elim r [
        | some e ↦ (w', some e)
        | none ↦ (record w' { tracker = remove_missing reg seen w'.tracker }, none)
      ]

  -- One cycle; `none` is a listing with more pages than the fuel.
  unfoldable pub cycle :
      Api
      → ℕ
      → Option (Result String String)
      → (String → S → S)
      → Watcher S
      → Option (Watcher S × Option CycleError)
  unfolding resolve_identity list_all_task_arns poll_listed
  cycle api fuel answer on_resolved w =
      let (w', r) = resolve_identity answer on_resolved w in
      elim r [
        | some e ↦ some (w', some e)
        | none ↦ elim (list_all_task_arns api fuel) [
          | none ↦ none
          | some (err e) ↦ some (w', some (list_tasks e))
          | some (ok arns) ↦ some (poll_listed api arns w')
        ]
      ]

-- What `reportCycle` records of an outcome: the watcher's health and the reader's status. `is_canceled`
-- is `errors.Is(err, context.Canceled)`, and `text` the error's message.
unfoldable pub record_outcome :
    {S : Type 0}
    → (CycleError → Bool)
    → (CycleError → String)
    → ℕ
    → Option CycleError
    → Watcher S × Registry
    → Watcher S × Registry
unfolding poll_succeeded poll_failed
record_outcome is_canceled text now none (w, g) =
    (record w { healthy = true }, poll_succeeded w.cfg.reader now g)
record_outcome is_canceled text now (some e) (w, g) =
    if is_canceled e
    then (w, g)
    else (record w { healthy = false }, poll_failed w.cfg.reader (some (text e)) g)

-- `reportCycle`, at its two readings of the clock. `down` is `ctx.Err() != nil` at its start.
unfoldable pub report_cycle :
    {S : Type 0}
    → (Watcher S → Option (Watcher S × Option CycleError))
    → (CycleError → Bool)
    → (CycleError → String)
    → Bool
    → ℕ
    → ℕ
    → Watcher S × Registry
    → Option (Watcher S × Registry)
unfolding record_outcome poll_started
report_cycle run is_canceled text down start finish (w, g) =
    if down then some (w, g) else elim (run w) [
      | none ↦ none
      | some (w', r) ↦
          some (record_outcome is_canceled text finish r (w', poll_started w.cfg.reader start g))
    ]
