-- ===== src/Ecs/Watcher/Laws.antt =====
-- A cycle keeps the watcher's books in step with the registrar.
use tsserve.Base.{
  ℕ, ◌≡◌, subst, String, inl, inr, false, Option, none, some, List, [], ◌∷◌, contains, lookup,
  Result, ok, err, arith, Option-cases, Bool-cases, Result-cases, ◌==◌,
}
use tsserve.Labels as Labels
use tsserve.Discovery.Registrar.{Registrar}
use tsserve.Discovery.Tracker.Laws.{
  Synced, settle-Synced, remove_missing-Synced, lookup-remove_missing,
}
use tsserve.Ecs.Types.{Api, Task, TaskDefinition, ContainerDefinition}
use tsserve.Ecs.Cache.{CacheError, task_def_get}
use tsserve.Ecs.Resolve.{Backend, ResolveError, resolve_backend, deref_arn}
use tsserve.Ecs.Tasks.{
  backend_addr, registration_key, is_running, chunk, CycleError, list_all_task_arns,
}
use tsserve.Ecs.Watcher.{
  Watcher, apply_resolved, apply_parsed, apply_container, apply_task, apply_defined, poll_task,
  poll_tasks, poll_batches, resolve_identity, poll_listed, cycle,
}

module _ {S : Type 0} (reg : Registrar S (Labels.ServiceDef × String) String String)
    (described : (def : Labels.ServiceDef) (ip : String)
      → reg.described (def, ip) ≡ backend_addr ip def.port) where
  abbrev Kept : Watcher S × List String → Type 0
  Kept ws = Synced reg ws.0.tracker

  apply_resolved-Kept :
      (key : String) (def : Labels.ServiceDef) (r : Result ResolveError Backend) (w : Watcher S)
      → Synced reg w.tracker
      → Synced reg (apply_resolved reg key def r w).tracker
  unfolding apply_resolved
  apply_resolved-Kept key def (err e) w h = h
  apply_resolved-Kept key def (ok b) w h =
      settle-Synced reg (λ prev addr. prev == addr) (λ e. e) key
        (record def { port = b.port }, b.host) (backend_addr b.host b.port) w.tracker
        (described (record def { port = b.port }) b.host) h

  apply_parsed-Kept :
      (api : Api) (task : Task) (td : TaskDefinition) (name : String)
      (r : Result Labels.Error Labels.ServiceDef) (ws : Watcher S × List String)
      → Kept ws
      → Kept (apply_parsed reg api task td name r ws)
  unfolding apply_parsed
  apply_parsed-Kept api task td name (err e) ws h = h
  apply_parsed-Kept api task td name (ok def) (w, seen) h =
      let r = resolve_backend api task td name def.port w.host_ips in
      apply_resolved-Kept (registration_key (deref_arn task.arn) name) def r.1
        (record w { host_ips = r.0 }) h

  apply_task-Kept :
      (api : Api) (task : Task) (td : TaskDefinition) (cds : List ContainerDefinition)
      (ws : Watcher S × List String)
      → Kept ws
      → Kept (apply_task reg api task td cds ws)
  unfolding apply_task apply_container
  apply_task-Kept api task td [] ws h = h
  apply_task-Kept api task td (cd ∷ cds) ws h = elim (Option-cases cd.name) [
    | inl e ↦ rw e (apply_task-Kept api task td cds ws h)
    | inr (name, e) ↦ rw e (
        apply_task-Kept api task td cds
          (apply_parsed reg api task td name (Labels.parse cd.docker_labels) ws)
          (apply_parsed-Kept api task td name (Labels.parse cd.docker_labels) ws h))
  ]

  apply_defined-Kept :
      (api : Api) (task : Task) (r : Result CacheError TaskDefinition)
      (ws : Watcher S × List String)
      → Kept ws
      → Kept (apply_defined reg api task r ws)
  unfolding apply_defined
  apply_defined-Kept api task (err e) ws h = h
  apply_defined-Kept api task (ok td) ws h =
      apply_task-Kept api task td td.container_definitions ws h

  poll_task-Kept :
      (api : Api) (task : Task) (ws : Watcher S × List String)
      → Kept ws
      → Kept (poll_task reg api task ws)
  unfolding poll_task
  poll_task-Kept api task (w, seen) h = elim (Bool-cases (is_running task)) [
    | inr off ↦ rw (poll_task, off) h
    | inl on ↦ elim (Option-cases task.task_definition_arn) [
      | inl e ↦ rw (poll_task, on, e) h
      | inr (arn, e) ↦
          let r = task_def_get api arn w.task_defs in
          rw (poll_task, on, e)
            (apply_defined-Kept api task r.1 (record w { task_defs = r.0 }, seen) h)
    ]
  ]

  poll_tasks-Kept :
      (api : Api) (tasks : List Task) (ws : Watcher S × List String)
      → Kept ws
      → Kept (poll_tasks reg api tasks ws)
  unfolding poll_tasks
  poll_tasks-Kept api [] ws h = h
  poll_tasks-Kept api (task ∷ tasks) ws h =
      poll_tasks-Kept api tasks (poll_task reg api task ws) (poll_task-Kept api task ws h)

  poll_batches-Kept :
      (api : Api) (batches : List (List String)) (ws : Watcher S × List String)
      → Kept ws
      → Kept (poll_batches reg api batches ws).0
  unfolding poll_batches
  poll_batches-Kept api [] ws h = h
  poll_batches-Kept api (batch ∷ batches) ws h = elim (Result-cases (api.describe_tasks batch)) [
    | inr (e, f) ↦ rw (poll_batches, f) h
    | inl (tasks, f) ↦
        rw (poll_batches, f)
          (poll_batches-Kept api batches (poll_tasks reg api tasks ws)
            (poll_tasks-Kept api tasks ws h))
  ]

  poll_listed-Synced :
      (api : Api) (arns : List String) (w : Watcher S)
      → Synced reg w.tracker
      → Synced reg (poll_listed reg api arns w).0.tracker
  unfolding poll_listed
  poll_listed-Synced api arns w h =
      let polled = poll_batches reg api (chunk arns 100) (w, []) in
      let kept = poll_batches-Kept api (chunk arns 100) (w, []) h in
      elim (Option-cases polled.1) [
        | inr (e, f) ↦ rw (poll_listed, f) kept
        | inl f ↦ rw (poll_listed, f) (remove_missing-Synced reg polled.0.1 polled.0.0.tracker kept)
      ]

  -- After a cycle without an error, every active key is one that the cycle saw.
  pub poll_listed-seen :
      (api : Api) (arns : List String) (w : Watcher S) (key : String)
      → (poll_listed reg api arns w).1 ≡ none
      → contains (poll_batches reg api (chunk arns 100) (w, [])).0.1 key ≡ false
      → lookup key (poll_listed reg api arns w).0.tracker.active ≡ none
  unfolding poll_listed
  poll_listed-seen api arns w key fine unseen =
      let polled = poll_batches reg api (chunk arns 100) (w, []) in
      elim (Option-cases polled.1) [
        | inr (e, f) ↦ ground (arith, f)
        | inl f ↦ ground (arith, f, lookup-remove_missing reg polled.0.1 polled.0.0.tracker key)
      ]

  module _ (on_resolved : String → S → S)
      (holds-on_resolved : (account key : String) (s : S)
        → reg.holds (on_resolved account s) key ≡ reg.holds s key) where
    resolve_identity-Synced :
        (answer : Option (Result String String)) (w : Watcher S)
        → Synced reg w.tracker
        → Synced reg (resolve_identity reg answer on_resolved w).0.tracker
    unfolding resolve_identity
    resolve_identity-Synced none w h key = ground (arith, h key)
    resolve_identity-Synced (some (err e)) w h key = ground (arith, h key)
    resolve_identity-Synced (some (ok account)) w h key =
        ground (arith, h key, holds-on_resolved account key w.tracker.state)

    -- When the registrar describes a backend by its address, and the callback on a resolved account
    -- leaves the registrations alone, a cycle from books that agree with the registrar ends with books
    -- that do, whether it succeeds or fails: each active key is in service at exactly its recorded address,
    -- and no other key is in service.
    pub cycle-Synced :
        (api : Api) (fuel : ℕ) (answer : Option (Result String String)) (w w' : Watcher S)
        (r : Option CycleError)
        → Synced reg w.tracker
        → cycle reg api fuel answer on_resolved w ≡ some (w', r)
        → Synced reg w'.tracker
    unfolding cycle
    cycle-Synced api fuel answer w w' r h ran =
        let id = resolve_identity reg answer on_resolved w in
        let kept = resolve_identity-Synced answer w h in
        elim (Option-cases id.1) [
          | inr (e, f) ↦
              let same : (id.0, some e) ≡ (w', r) = ground (arith, f, ran) in
              subst (λ (z : Watcher S × Option CycleError). Synced reg z.0.tracker) same kept
          | inl f ↦ elim (Option-cases (list_all_task_arns api fuel)) [
            | inl short ↦ absurd (ground (arith, f, short, ran))
            | inr (ok arns, l) ↦
                let same : poll_listed reg api arns id.0 ≡ (w', r) = ground (arith, f, l, ran) in
                subst (λ (z : Watcher S × Option CycleError). Synced reg z.0.tracker) same
                  (poll_listed-Synced api arns id.0 kept)
            | inr (err e, l) ↦
                let same : (id.0, some (CycleError.list_tasks e)) ≡ (w', r) =
                  ground (arith, f, l, ran) in
                subst (λ (z : Watcher S × Option CycleError). Synced reg z.0.tracker) same kept
          ]
        ]
