-- ===== src/Ecs/Types.antt =====
-- The fields of the AWS SDK's ECS and EC2 types that the ecs package reads. A pointer is an option; an
-- int32 is its 32-bit pattern, and the SDK's errors are their texts.
use tsserve.Base.{ℕ, String, Option, List, Map, Result}

pub record KeyValue : Type 0 where
  pub name : Option String
  pub value : Option String

pub record Attachment : Type 0 where
  pub kind : Option String
  pub details : List KeyValue

pub record Binding : Type 0 where
  pub container_port : Option ℕ
  pub host_port : Option ℕ

pub record Container : Type 0 where
  pub name : Option String
  pub network_bindings : List Binding

pub record Task : Type 0 where
  pub arn : Option String
  pub last_status : Option String
  pub task_definition_arn : Option String
  pub container_instance_arn : Option String
  pub attachments : List Attachment
  pub containers : List Container

pub record ContainerDefinition : Type 0 where
  pub name : Option String
  pub docker_labels : Option (Map String)

pub record TaskDefinition : Type 0 where
  pub network_mode : String
  pub container_definitions : List ContainerDefinition

pub record TaskPage : Type 0 where
  pub task_arns : List String
  pub next_token : Option String

-- The calls of `ECSAPI` and `EC2API`, as they answer during one cycle: a container instance by its EC2
-- instance id, and an instance by its private address.
pub record Api : Type 0 where
  pub list_tasks : Option String → Result String TaskPage
  pub describe_tasks : List String → Result String (List Task)
  pub describe_task_definition : String → Result String (Option TaskDefinition)
  pub describe_container_instances : String → Result String (List (Option String))
  pub describe_instances : String → Result String (List (List (Option String)))
