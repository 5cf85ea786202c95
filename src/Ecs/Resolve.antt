-- ===== src/Ecs/Resolve.antt =====
-- ecs/resolve.go: the address of a labelled container, by the task definition's network mode.
pub mod Laws
use tsserve.Base.{
  ℕ, ◌%◌, ◌^◌, String, Bool, true, false, Option, none, some, List, [], ◌∷◌, Map, Result, ok, err,
  ◌==◌, eqb, if◌then◌else◌, ◌&&◌, ◌||◌, not,
}
use tsserve.Ecs.Types.{Api, Task, TaskDefinition, Attachment, KeyValue, Container, Binding}
use tsserve.Ecs.Cache.{HostError, host_ip_get, invalidate}

pub record Backend : Type 0 where
  pub host : String
  pub port : ℕ

pub data ResolveError : Type 0 where
  no_eni : String → ResolveError
  no_binding : String → String → ℕ → ResolveError
  no_container_instance : ResolveError
  host_lookup : HostError → ResolveError
  unsupported_mode : String → String → ResolveError

-- `errors.Is(err, errNoBackend)`
unfoldable pub is_no_backend : ResolveError → Bool
is_no_backend (no_eni arn) = true
is_no_backend (no_binding arn name port) = true
is_no_backend no_container_instance = true
is_no_backend (host_lookup e) = false
is_no_backend (unsupported_mode mode arn) = false

unfoldable pub deref_arn : Option String → String
deref_arn none = "<nil>"
deref_arn (some arn) = arn

-- The pointer is set, and to this text.
abbrev pub points_to : Option String → String → Bool
points_to none t = false
points_to (some s) t = s == t

unfoldable pub detail_ip : List KeyValue → Option String
detail_ip [] = none
detail_ip (kv ∷ kvs) =
    let rest = detail_ip kvs in
    if points_to kv.name "privateIPv4Address"
    then elim kv.value [ none ↦ rest | some ip ↦ some ip ]
    else rest

unfoldable pub attachment_ip : List Attachment → Option String
unfolding detail_ip
attachment_ip [] = none
attachment_ip (a ∷ as') =
    let rest = attachment_ip as' in
    if points_to a.kind "ElasticNetworkInterface"
    then elim (detail_ip a.details) [ none ↦ rest | some ip ↦ some ip ]
    else rest

unfoldable pub awsvpc_ip : Task → Result ResolveError String
unfolding attachment_ip deref_arn
awsvpc_ip task = elim (attachment_ip task.attachments) [
  | none ↦ err (no_eni (deref_arn task.arn))
  | some ip ↦ ok ip
]

-- `uint16(x)` of an int32
abbrev pub to_u16 : ℕ → ℕ
to_u16 n = n % 2 ^ 16

unfoldable pub binding_port : ℕ → List Binding → Option ℕ
binding_port port [] = none
binding_port port (b ∷ bs) =
    let rest = binding_port port bs in
    elim b.container_port [
      | none ↦ rest
      | some c ↦
          if not (eqb (to_u16 c) port)
          then rest
          else elim b.host_port [ none ↦ rest | some h ↦ if eqb h 0 then rest else some (to_u16 h) ]
    ]

unfoldable pub container_port : String → ℕ → List Container → Option ℕ
unfolding binding_port
container_port name port [] = none
container_port name port (c ∷ cs) =
    let rest = container_port name port cs in
    if points_to c.name name
    then elim (binding_port port c.network_bindings) [ none ↦ rest | some h ↦ some h ]
    else rest

unfoldable pub bridge_host_port : Task → String → ℕ → Result ResolveError ℕ
unfolding container_port deref_arn
bridge_host_port task name port = elim (container_port name port task.containers) [
  | none ↦ err (no_binding (deref_arn task.arn) name port)
  | some h ↦ ok h
]

-- A host's address through the cache, with a failure's entry dropped, at the given port.
at_host : Api → Task → ℕ → Map String → Map String × Result ResolveError Backend
unfolding host_ip_get invalidate
at_host api task port hosts = elim task.container_instance_arn [
  | none ↦ (hosts, err no_container_instance)
  | some arn ↦
      if arn == ""
      then (hosts, err no_container_instance)
      else let (hosts', r) = host_ip_get api arn hosts in
        elim r [
          | err e ↦ (invalidate arn hosts', err (host_lookup e))
          | ok ip ↦ (hosts', ok (record { host = ip; port = port }))
        ]
]

-- The host cache after the call, and its result.
unfoldable pub resolve_backend :
    Api → Task → TaskDefinition → String → ℕ → Map String → Map String × Result ResolveError Backend
unfolding awsvpc_ip bridge_host_port at_host deref_arn
resolve_backend api task td name port hosts =
    let mode = td.network_mode in
    if mode == "awsvpc"
    then elim (awsvpc_ip task) [
      | err e ↦ (hosts, err e)
      | ok ip ↦ (hosts, ok (record { host = ip; port = port }))
    ]
    else if mode == "bridge" || mode == ""
    then elim (bridge_host_port task name port) [
      | err e ↦ (hosts, err e)
      | ok host_port ↦ at_host api task host_port hosts
    ]
    else if mode == "host"
    then at_host api task port hosts
    else (hosts, err (unsupported_mode mode (deref_arn task.arn)))
