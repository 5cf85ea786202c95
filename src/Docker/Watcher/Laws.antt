-- ===== src/Docker/Watcher/Laws.antt =====
-- An event and a sweep keep the watcher's books in step with the registrar.
use Prim.Native.String.{◌++◌}
use tsserve.Base.{
  ◌≡◌, String, inl, inr, false, none, List, [], ◌∷◌, has, contains, lookup, Result, ok, err, arith,
  Bool-cases, ◌==◌,
}
use tsserve.Labels as Labels
use tsserve.Discovery.Registrar.{Registrar}
use tsserve.Discovery.Tracker.{Tracker, note_failure, forget_failure}
use tsserve.Discovery.Tracker.Laws.{
  Synced, drop-Synced, settle-Synced, remove_missing-Synced, lookup-remove_missing,
}
use tsserve.Docker.Watcher.{
  Inspect, IpError, InspectError, Action, Summary, Turn, event, tick, start, die, stop, kill,
  destroy, other, backend_addr, register_at, resolve_ip, register, deregister, start_inspected,
  inspect_labels, handle_event, sweep_parsed, sweep, ids_of, reconcile, take_turn, take_turns,
}

module _ {S : Type 0} (reg : Registrar S (Labels.ServiceDef × String) String String)
    (quoted : String → String)
    (described : (def : Labels.ServiceDef) (ip : String)
      → reg.described (def, ip) ≡ backend_addr ip def.port) where
  register_at-Synced :
      (id : String) (def : Labels.ServiceDef) (r : Result IpError String) (t : Tracker S String)
      → Synced reg t
      → Synced reg (register_at reg quoted id def r t)
  unfolding register_at note_failure
  register_at-Synced id def (err e) t h = h
  register_at-Synced id def (ok ip) t h =
      settle-Synced reg (λ prev addr. prev == addr) (λ e. "register: " ++ e) id (def, ip)
        (backend_addr ip def.port) t (described def ip) h

  register-Synced :
      (inspect : Inspect) (id : String) (def : Labels.ServiceDef) (t : Tracker S String)
      → Synced reg t
      → Synced reg (register reg quoted inspect id def t)
  unfolding register
  register-Synced inspect id def t h =
      register_at-Synced id def (resolve_ip inspect id def.network) t h

  deregister-Synced :
      (id : String) (t : Tracker S String) → Synced reg t → Synced reg (deregister reg quoted id t)
  unfolding deregister forget_failure
  deregister-Synced id t h k = drop-Synced reg id t h k

  start_inspected-Synced :
      (inspect : Inspect) (id : String) (r : Result InspectError Labels.ServiceDef)
      (t : Tracker S String)
      → Synced reg t
      → Synced reg (start_inspected reg quoted inspect id r t)
  unfolding start_inspected
  start_inspected-Synced inspect id (err e) t h = h
  start_inspected-Synced inspect id (ok def) t h = register-Synced inspect id def t h

  handle_action-Synced :
      (inspect : Inspect) (a : Action) (id : String) (t : Tracker S String)
      → Synced reg t
      → Synced reg (handle_event reg quoted inspect (record { action = a; actor = id }) t)
  unfolding handle_event
  handle_action-Synced inspect start id t h =
      start_inspected-Synced inspect id (inspect_labels inspect id) t h
  handle_action-Synced inspect die id t h = deregister-Synced id t h
  handle_action-Synced inspect stop id t h = deregister-Synced id t h
  handle_action-Synced inspect kill id t h = deregister-Synced id t h
  handle_action-Synced inspect destroy id t h = deregister-Synced id t h
  handle_action-Synced inspect other id t h = h

  sweep_parsed-Synced :
      (inspect : Inspect) (id : String) (r : Result Labels.Error Labels.ServiceDef)
      (t : Tracker S String)
      → Synced reg t
      → Synced reg (sweep_parsed reg quoted inspect id r t)
  unfolding sweep_parsed
  sweep_parsed-Synced inspect id (err e) t h = h
  sweep_parsed-Synced inspect id (ok def) t h = elim (Bool-cases (has id t.active)) [
    | inl held ↦ rw (sweep_parsed, held) h
    | inr free ↦ rw (sweep_parsed, free) (register-Synced inspect id def t h)
  ]

  sweep-Synced :
      (inspect : Inspect) (cs : List Summary) (t : Tracker S String)
      → Synced reg t
      → Synced reg (sweep reg quoted inspect cs t)
  unfolding sweep
  sweep-Synced inspect [] t h = h
  sweep-Synced inspect (c ∷ cs) t h =
      sweep-Synced inspect cs (sweep_parsed reg quoted inspect c.id (Labels.parse c.labels) t)
        (sweep_parsed-Synced inspect c.id (Labels.parse c.labels) t h)

  reconcile-Synced :
      (inspect : Inspect) (listed : Result String (List Summary)) (t : Tracker S String)
      → Synced reg t
      → Synced reg (reconcile reg quoted inspect listed t).0
  unfolding reconcile
  reconcile-Synced inspect (err e) t h = h
  reconcile-Synced inspect (ok cs) t h =
      remove_missing-Synced reg (ids_of cs) (sweep reg quoted inspect cs t)
        (sweep-Synced inspect cs t h)

  take_turn-Synced :
      (u : Turn) (t : Tracker S String) → Synced reg t → Synced reg (take_turn reg quoted u t)
  unfolding take_turn
  take_turn-Synced (event inspect msg) t h = handle_action-Synced inspect msg.action msg.actor t h
  take_turn-Synced (tick inspect listed) t h = reconcile-Synced inspect listed t h

  -- When the registrar describes a backend by its address, every sequence of events and sweeps from books that agree
  -- with the registrar ends with books that do: each active container is in service at exactly its
  -- recorded address, and no other container is in service.
  pub take_turns-Synced :
      (us : List Turn) (t : Tracker S String)
      → Synced reg t
      → Synced reg (take_turns reg quoted us t)
  unfolding take_turns
  take_turns-Synced [] t h = h
  take_turns-Synced (u ∷ us) t h =
      take_turns-Synced us (take_turn reg quoted u t) (take_turn-Synced u t h)

  -- After a sweep, no container is active that Docker did not list.
  reconcile-unlisted :
      (inspect : Inspect) (cs : List Summary) (t : Tracker S String) (id : String)
      → contains (ids_of cs) id ≡ false
      → lookup id (reconcile reg quoted inspect (ok cs) t).0.active ≡ none
  unfolding reconcile
  reconcile-unlisted inspect cs t id gone =
      ground (arith, gone, lookup-remove_missing reg (ids_of cs) (sweep reg quoted inspect cs t) id)
