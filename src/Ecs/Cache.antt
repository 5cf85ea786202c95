-- ===== src/Ecs/Cache.antt =====
-- ecs/cache.go: the caches of task definitions and of host addresses. A cache's lock is held around each
-- read and each write of its entries; the two are sections of one goroutine, a reader's own watcher.
pub mod Laws
use tsserve.Base.{
  String, Option, none, some, List, [], ◌∷◌, Map, lookup, put, delete, Result, ok, err, ◌==◌,
  if◌then◌else◌,
}
use tsserve.Ecs.Types.{Api, TaskDefinition}

pub data CacheError : Type 0 where
  task_definition_failed empty_response : String → CacheError

-- `taskDefCache.get`: the entries after the call, and its result.
unfoldable pub task_def_get :
    Api → String → Map TaskDefinition → Map TaskDefinition × Result CacheError TaskDefinition
unfolding lookup put
task_def_get api arn entries = elim (lookup arn entries) [
  | some td ↦ (entries, ok td)
  | none ↦ elim (api.describe_task_definition arn) [
    | err e ↦ (entries, err (CacheError.task_definition_failed e))
    | ok none ↦ (entries, err (CacheError.empty_response arn))
    | ok (some td) ↦ (put arn td entries, ok td)
  ]
]

pub data HostError : Type 0 where
  container_instances_failed instance_not_found no_instance_id : String → HostError
  instances_failed no_private_ip : String → HostError

-- `privateIP`, over the first address of the list that is not empty.
unfoldable pub first_ip : List (Option String) → Option String
first_ip [] = none
first_ip (none ∷ is) = first_ip is
first_ip (some ip ∷ is) = let rest = first_ip is in if ip == "" then rest else some ip

unfoldable pub reservation_ip : List (List (Option String)) → Option String
unfolding first_ip
reservation_ip [] = none
reservation_ip (r ∷ rs) =
    let rest = reservation_ip rs in elim (first_ip r) [ none ↦ rest | some ip ↦ some ip ]

instance_ip : Api → String → Result HostError String
unfolding reservation_ip
instance_ip api id = elim (api.describe_instances id) [
  | err e ↦ err (HostError.instances_failed e)
  | ok rs ↦ elim (reservation_ip rs) [ none ↦ err (HostError.no_private_ip id) | some ip ↦ ok ip ]
]

unfoldable pub lookup_host_ip : Api → String → Result HostError String
unfolding instance_ip
lookup_host_ip api arn = elim (api.describe_container_instances arn) [
  | err e ↦ err (HostError.container_instances_failed e)
  | ok [] ↦ err (HostError.instance_not_found arn)
  | ok (none ∷ cs) ↦ err (HostError.no_instance_id arn)
  | ok (some id ∷ cs) ↦ if id == "" then err (HostError.no_instance_id arn) else instance_ip api id
]

-- `hostIPCache.get`
unfoldable pub host_ip_get : Api → String → Map String → Map String × Result HostError String
unfolding lookup put lookup_host_ip
host_ip_get api arn entries = elim (lookup arn entries) [
  | some ip ↦ (entries, ok ip)
  | none ↦ elim (lookup_host_ip api arn) [
    | err e ↦ (entries, err e)
    | ok ip ↦ (put arn ip entries, ok ip)
  ]
]

-- `hostIPCache.invalidate`
unfoldable pub invalidate : String → Map String → Map String
unfolding delete
invalidate arn entries = delete arn entries
