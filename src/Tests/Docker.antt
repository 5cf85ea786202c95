-- ===== src/Tests/Docker.antt =====
-- docker/watcher.go at concrete inputs: one labelled container.
use tsserve.Base.{◌≡◌, refl, String, some, [], ◌∷◌, lookup, Map, ok}
use tsserve.Base.Text.{has_prefix, parse_uint16}
use tsserve.Labels as Labels
use tsserve.Discovery.Registrar.{Registrar}
use tsserve.Discovery.Tracker.{Tracker}
use tsserve.Docker.Watcher as Docker
use tsserve.Tests.Registrar.{map_register, map_registrar}

docker_address : Labels.ServiceDef × String → String
docker_address (def, ip) = Docker.backend_addr ip def.port

docker_registrar : Registrar (Map String) (Labels.ServiceDef × String) String String
docker_registrar = map_registrar docker_address

abbrev pub inspect : Docker.Inspect
inspect id = ok (record {
  config = some (
      some (
        ("tsserve.enable", "true") ∷ ("tsserve.service", "svc:web") ∷ ("tsserve.port", "80") ∷ []));
  networks = some (("bridge", some "172.17.0.2") ∷ []);
})

abbrev started : Docker.Turn
started = Docker.event inspect (record { action = Docker.start; actor = "c1" })

abbrev swept : Docker.Turn
swept = Docker.tick inspect (ok [])

abbrev nothing : Tracker (Map String) String
nothing = record { state = []; active = []; failed = [] }

abbrev pub quoted : String → String
quoted network = network

started_serves :
    lookup "c1" (Docker.take_turns docker_registrar quoted (started ∷ []) nothing).active
    ≡ some "172.17.0.2:80"
unfolding Docker.take_turns docker_registrar map_registrar map_register lookup Labels.value_of
    Labels.validate_service has_prefix parse_uint16 docker_address
started_serves = refl

abbrev serving_c1 : Tracker (Map String) String
serving_c1 = record {
  state = ("c1", "172.17.0.2:80") ∷ [];
  active = ("c1", "172.17.0.2:80") ∷ [];
  failed = [];
}
