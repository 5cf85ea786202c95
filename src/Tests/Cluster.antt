-- ===== src/Tests/Cluster.antt =====
-- A cluster of two tasks, one of which runs one labelled container, for the tests of ecs/.
use tsserve.Base.{none, some, [], ◌∷◌, ok}
use tsserve.Ecs.Types.{Api}
use tsserve.Ecs.Watcher as Ecs

abbrev pub api : Api
api = record {
  list_tasks = λ token. elim token [
    | none ↦ ok (record { task_arns = "t1" ∷ []; next_token = some "more" })
    | some t ↦ ok (record { task_arns = "t2" ∷ []; next_token = none })
  ];
  describe_tasks = λ arns. ok (
      record {
        arn = some "t1";
        last_status = some "RUNNING";
        task_definition_arn = some "web:1";
        container_instance_arn = none;
        attachments =
            record {
              kind = some "ElasticNetworkInterface";
              details = record { name = some "privateIPv4Address"; value = some "10.0.0.9" } ∷ [];
            }
            ∷ [];
        containers = [];
      }
      ∷ []);
  describe_task_definition = λ arn. ok (
      some (record {
        network_mode = "awsvpc";
        container_definitions =
            record {
              name = some "web";
              docker_labels = some (
                  ("tsserve.enable", "true")
                  ∷ ("tsserve.service", "svc:web")
                  ∷ ("tsserve.port", "8080")
                  ∷ []);
            }
            ∷ [];
      }));
  describe_container_instances = λ arn. ok (some "i-1" ∷ []);
  describe_instances = λ id. ok ((some "10.0.0.1" ∷ []) ∷ []);
}

abbrev pub cluster : Ecs.Config
cluster = record {
  cluster = "prod";
  poll_interval = 10;
  retry_interval = 120;
  account = "";
  reader = some 0;
}
