-- ===== src/Ecs/Resolve/Laws.antt =====
-- The cache of host addresses does not show in what a backend resolves to.
use tsserve.Base.{
  ℕ, String, ◌≡◌, refl, inl, inr, [], Map, lookup, lookup-delete, Result, ◌==◌, ◌||◌, arith,
  Bool-cases, Option-cases, Result-cases,
}
use tsserve.Ecs.Types.{Api, Task, TaskDefinition}
use tsserve.Ecs.Cache.{host_ip_get, invalidate, lookup_host_ip}
use tsserve.Ecs.Cache.Laws.{IsFresh, host_ip_get_transparent}
use tsserve.Ecs.Resolve.{
  Backend, ResolveError, resolve_backend, at_host, awsvpc_ip, bridge_host_port,
}

-- What resolving gives without a cache, and that the cache stays current.
abbrev Transparent :
    Api → Map String × Result ResolveError Backend → Result ResolveError Backend → Type 0
Transparent api got want = (got.1 ≡ want) × IsFresh api got.0

none-IsFresh : (api : Api) → IsFresh api []
unfolding lookup
none-IsFresh api arn ip h = cc

invalidate-IsFresh :
    (api : Api) (arn : String) (hosts : Map String)
    → IsFresh api hosts
    → IsFresh api (invalidate arn hosts)
unfolding invalidate
invalidate-IsFresh api arn hosts fresh j ip h =
    ground (arith, lookup-delete arn j hosts, fresh j ip)

at_host_lem :
    (api : Api) (task : Task) (port : ℕ) (hosts : Map String)
    → IsFresh api hosts
    → Transparent api (at_host api task port hosts) (at_host api task port []).1
unfolding at_host
at_host_lem api task port hosts fresh = elim (Option-cases task.container_instance_arn) [
  | inl e ↦ rw (at_host, e) (refl, fresh)
  | inr (arn, e) ↦ elim (Bool-cases (arn == "")) [
    | inl blank ↦ rw (at_host, e, blank) (refl, fresh)
    | inr named ↦
        let cached = host_ip_get_transparent api arn hosts fresh in
        let bare = host_ip_get_transparent api arn [] (none-IsFresh api) in
        elim (Result-cases (lookup_host_ip api arn)) [
          | inl (ip, f) ↦ rw (at_host, e, named, cached.0, bare.0, f) (refl, cached.1)
          | inr (x, f) ↦
              rw (at_host, e, named, cached.0, bare.0, f)
                (refl, invalidate-IsFresh api arn (host_ip_get api arn hosts).0 cached.1)
        ]
  ]
]

-- While every cached address is what a lookup gives, a backend resolves to what it resolves to with an empty cache, and
-- every cached address is still what a lookup gives, in each network mode and on every failure.
pub resolve_backend_transparent :
    (api : Api) (task : Task) (td : TaskDefinition) (name : String) (port : ℕ) (hosts : Map String)
    → IsFresh api hosts
    → ((resolve_backend api task td name port hosts).1
        ≡ (resolve_backend api task td name port []).1)
      × IsFresh api (resolve_backend api task td name port hosts).0
unfolding resolve_backend
resolve_backend_transparent api task td name port hosts fresh =
    let mode = td.network_mode in
    elim (Bool-cases (mode == "awsvpc")) [
      | inl awsvpc ↦ elim (Result-cases (awsvpc_ip task)) [
        | inl (ip, f) ↦ rw (resolve_backend, awsvpc, f) (refl, fresh)
        | inr (x, f) ↦ rw (resolve_backend, awsvpc, f) (refl, fresh)
      ]
      | inr a ↦ elim (Bool-cases (mode == "bridge" || mode == "")) [
        | inl bridge ↦ elim (Result-cases (bridge_host_port task name port)) [
          | inl (host_port, f) ↦
              rw (resolve_backend, a, bridge, f) (at_host_lem api task host_port hosts fresh)
          | inr (x, f) ↦ rw (resolve_backend, a, bridge, f) (refl, fresh)
        ]
        | inr b ↦ elim (Bool-cases (mode == "host")) [
          | inl host ↦ rw (resolve_backend, a, b, host) (at_host_lem api task port hosts fresh)
          | inr other ↦ rw (resolve_backend, a, b, other) (refl, fresh)
        ]
      ]
    ]
