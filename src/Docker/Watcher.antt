-- ===== src/Docker/Watcher.antt =====
-- docker/watcher.go: the watcher of one daemon. `Inspect` answers while one call of the watcher runs; log lines
-- and the wait before an inspection are left out. An error keeps its message.
pub mod Laws
use Prim.Native.String.{◌++◌}
use tsserve.Base.{
  ℕ, String, Bool, true, false, Option, none, some, List, [], ◌∷◌, Map, lookup, has, delete, Result,
  ok, err, ◌==◌, if◌then◌else◌,
}
use tsserve.Base.Text.{itoa}
use tsserve.Labels as Labels
use tsserve.Discovery.Registrar.{Registrar}
use tsserve.Discovery.Tracker.{Tracker, note_failure, forget_failure, drop, settle, remove_missing}

-- What the watcher reads of `ContainerInspect`'s answer: the labels of the configuration, and the address on
-- each network of the network settings, with `none` for a nil pointer.
pub record Inspection : Type 0 where
  pub config : Option (Option (Map String))
  pub networks : Option (Map (Option String))

abbrev pub Inspect : Type 0
Inspect = String → Result String Inspection

pub data IpError : Type 0 where
  inspect_failed : String → IpError
  no_network_settings : IpError
  not_attached : String → IpError
  no_ip_yet : String → IpError

-- The address of an inspected container on a network.
unfoldable pub network_ip : String → Inspection → Result IpError String
unfolding lookup
network_ip network insp = elim insp.networks [
  | none ↦ err no_network_settings
  | some nets ↦ elim (lookup network nets) [
    | none ↦ err (not_attached network)
    | some none ↦ err (not_attached network)
    | some (some ip) ↦ if ip == "" then err (no_ip_yet network) else ok ip
  ]
]

unfoldable pub resolve_ip : Inspect → String → String → Result IpError String
unfolding network_ip
resolve_ip inspect id network = elim (inspect id) [
  | err e ↦ err (inspect_failed e)
  | ok insp ↦ network_ip network insp
]

-- `err.Error()` of a failed `resolveIP`; `quoted` is `%q`.
unfoldable pub ip_error_text : (String → String) → IpError → String
ip_error_text quoted (inspect_failed e) = e
ip_error_text quoted no_network_settings = "no network settings"
ip_error_text quoted (not_attached network) = "container not attached to network " ++ quoted network
ip_error_text quoted (no_ip_yet network) =
    "container has no IP on network " ++ quoted network ++ " yet"

pub data InspectError : Type 0 where
  not_inspected : String → InspectError
  no_config : String → InspectError
  bad_labels : Labels.Error → InspectError

unfoldable pub inspect_labels : Inspect → String → Result InspectError Labels.ServiceDef
unfolding Labels.parse
inspect_labels inspect id = elim (inspect id) [
  | err e ↦ err (not_inspected e)
  | ok insp ↦ elim insp.config [
    | none ↦ err (no_config id)
    | some labels ↦ elim (Labels.parse labels) [ err e ↦ err (bad_labels e) | ok def ↦ ok def ]
  ]
]

unfoldable pub backend_addr : String → ℕ → String
unfolding itoa
backend_addr ip port = ip ++ ":" ++ itoa port

pub data Action : Type 0 where
  start die stop kill destroy other : Action

pub record Event : Type 0 where
  pub action : Action
  pub actor : String

pub record Summary : Type 0 where
  pub id : String
  pub labels : Option (Map String)

-- The listed containers, which is what `seen` holds after the loop.
unfoldable pub ids_of : List Summary → List String
ids_of [] = []
ids_of (c ∷ cs) = c.id ∷ ids_of cs

module _ {S : Type 0} (reg : Registrar S (Labels.ServiceDef × String) String String)
    (quoted : String → String) where
  -- The rest of `register` once the address is resolved.
  unfoldable pub register_at :
      String → Labels.ServiceDef → Result IpError String → Tracker S String → Tracker S String
  unfolding note_failure ip_error_text settle backend_addr
  register_at id def (err e) t = note_failure id ("resolve-ip: " ++ ip_error_text quoted e) t
  register_at id def (ok ip) t =
      settle reg (λ prev addr. prev == addr) (λ e. "register: " ++ e) id (def, ip)
        (backend_addr ip def.port) t

  unfoldable pub register :
      Inspect → String → Labels.ServiceDef → Tracker S String → Tracker S String
  unfolding register_at resolve_ip
  register inspect id def t = register_at id def (resolve_ip inspect id def.network) t

  unfoldable pub deregister : String → Tracker S String → Tracker S String
  unfolding drop forget_failure
  deregister id t = forget_failure id (drop reg id t)

  unfoldable pub start_inspected :
      Inspect → String → Result InspectError Labels.ServiceDef → Tracker S String → Tracker S String
  unfolding register
  start_inspected inspect id (err e) t = t
  start_inspected inspect id (ok def) t = register inspect id def t

  unfoldable pub handle_event : Inspect → Event → Tracker S String → Tracker S String
  unfolding start_inspected inspect_labels deregister
  handle_event inspect msg t = elim msg.action [
    | start ↦ start_inspected inspect msg.actor (inspect_labels inspect msg.actor) t
    | other ↦ t
    | _ ↦ deregister msg.actor t
  ]

  -- One listed container whose labels are parsed.
  unfoldable pub sweep_parsed :
      Inspect → String → Result Labels.Error Labels.ServiceDef → Tracker S String → Tracker S String
  unfolding has register
  sweep_parsed inspect id (err e) t = t
  sweep_parsed inspect id (ok def) t = if has id t.active then t else register inspect id def t

  -- The loop over the listed containers.
  unfoldable pub sweep : Inspect → List Summary → Tracker S String → Tracker S String
  unfolding sweep_parsed Labels.parse
  sweep inspect [] t = t
  sweep inspect (c ∷ cs) t = sweep inspect cs (sweep_parsed inspect c.id (Labels.parse c.labels) t)

  -- The error is that of `ContainerList`.
  unfoldable pub reconcile :
      Inspect → Result String (List Summary) → Tracker S String → Tracker S String × Option String
  unfolding sweep remove_missing ids_of
  reconcile inspect (err e) t = (t, some e)
  reconcile inspect (ok cs) t = (remove_missing reg (ids_of cs) (sweep inspect cs t), none)

-- What `Run`'s select receives: an event, or the tick of a sweep with the containers that Docker lists then, each
-- with the answers of `ContainerInspect`.
pub data Turn : Type 0 where
  event : Inspect → Event → Turn
  tick : Inspect → Result String (List Summary) → Turn

unfoldable pub take_turn :
    {S : Type 0}
    → Registrar S (Labels.ServiceDef × String) String String
    → (String → String)
    → Turn
    → Tracker S String
    → Tracker S String
unfolding handle_event reconcile
take_turn reg quoted (event inspect msg) t = handle_event reg quoted inspect msg t
take_turn reg quoted (tick inspect listed) t = (reconcile reg quoted inspect listed t).0

-- The turns of `Run`'s loop.
unfoldable pub take_turns :
    {S : Type 0}
    → Registrar S (Labels.ServiceDef × String) String String
    → (String → String)
    → List Turn
    → Tracker S String
    → Tracker S String
unfolding take_turn
take_turns reg quoted [] t = t
take_turns reg quoted (u ∷ us) t = take_turns reg quoted us (take_turn reg quoted u t)
