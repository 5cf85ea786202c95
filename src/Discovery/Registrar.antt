-- ===== src/Discovery/Registrar.antt =====
-- docker/watcher.go, ecs/watcher.go and lambda/watcher.go each declare the registrar that they drive. Its
-- contract is the manager's: a nil error means that the key's backend is in the pool of a serving service,
-- a failed registration leaves the backend recorded nowhere, and an unknown key is deregistered in vain.
use tsserve.Base.{String, ◌≡◌, Option, none, some, ◌==◌, if◌then◌else◌}

pub record Registrar (S D V E : Type 0) : Type 0 where
  pub register : String → D → S → S × Option E
  pub deregister : String → S → S
  -- what is in service for a key
  pub holds : S → String → Option V
  -- what a successful registration puts into service
  pub described : D → V
  pub holds-register_ok :
      (k j : String) (d : D) (s : S)
      → holds s k ≡ none
      → (register k d s).1 ≡ none
      → holds (register k d s).0 j ≡ (if k == j then some (described d) else holds s j)
  pub holds-register_err :
      (k j : String) (d : D) (s : S) (e : E)
      → (register k d s).1 ≡ some e
      → holds (register k d s).0 j ≡ holds s j
  pub holds-deregister :
      (k j : String) (s : S) → holds (deregister k s) j ≡ (if k == j then none else holds s j)
