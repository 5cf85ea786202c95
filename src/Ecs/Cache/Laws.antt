-- ===== src/Ecs/Cache/Laws.antt =====
-- The caches are transparent: they answer what the API answers.
use tsserve.Base.{
  String, ◌≡◌, inl, inr, some, Map, lookup, put, lookup-put, ok, arith, eq_iff, Option-cases,
  Result-cases,
}
use tsserve.Ecs.Types.{Api}
use tsserve.Ecs.Cache.{host_ip_get, lookup_host_ip}

-- Every cached address is the one that a lookup would give.
abbrev pub IsFresh : Api → Map String → Type 0
IsFresh api entries =
    (arn ip : String) → lookup arn entries ≡ some ip → lookup_host_ip api arn ≡ ok ip

put-IsFresh :
    (api : Api) (arn ip : String) (entries : Map String)
    → IsFresh api entries
    → lookup_host_ip api arn ≡ ok ip
    → IsFresh api (put arn ip entries)
put-IsFresh api arn ip entries fresh e j w h =
    ground (arith, lookup-put arn j ip entries, fresh j w, eq_iff arn j)

-- While every cached address is what a lookup gives, a read through the cache gives what a lookup gives,
-- and every cached address is still what a lookup gives.
pub host_ip_get_transparent :
    (api : Api) (arn : String) (entries : Map String)
    → IsFresh api entries
    → ((host_ip_get api arn entries).1 ≡ lookup_host_ip api arn)
      × IsFresh api (host_ip_get api arn entries).0
unfolding host_ip_get
host_ip_get_transparent api arn entries fresh = elim (Option-cases (lookup arn entries)) [
  | inr (ip, hit) ↦ ground (arith, fresh arn ip hit, hit)
  | inl miss ↦ elim (Result-cases (lookup_host_ip api arn)) [
    | inl (ip, e) ↦ ground (arith, miss, e, put-IsFresh api arn ip entries fresh e)
    | inr (e, f) ↦ ground (arith, miss, f)
  ]
]
