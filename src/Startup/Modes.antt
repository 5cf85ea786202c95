-- ===== src/Startup/Modes.antt =====
-- main.go: how a discovery mode is started from the environment. The parser of durations, the decoders of the
-- accounts, Docker's client, and what the SDK and STS answer are arguments.
pub mod Laws
use Prim.Native.String.{◌++◌ as ◌+++◌}
use tsserve.Base.{
  ℕ, zero, suc, String, Bool, true, false, not, ◌||◌, Option, none, some, List, [], ◌∷◌, length,
  ltb, eqb, Result, ok, err, ◌>>=◌, ◌>>◌, ◌==◌, if◌then◌else◌,
}
use tsserve.Proxy.Backend.{Origin}
use tsserve.Ecs.Registry.{ReaderStatus, Registry, snapshot}
use tsserve.Ecs.Account as EcsAccount
use tsserve.Ecs.Watcher as Ecs
use tsserve.Lambda.Account as LambdaAccount
use tsserve.Lambda.Watcher as Lambda
use tsserve.Startup.Readers.{LoadOption, Built}
use tsserve.Startup.Readers.EcsMode.{build_ecs_watchers}
use tsserve.Startup.Readers.LambdaMode.{build_lambda_watchers}
use tsserve.Startup.Daemon.{Launch, direct, launch_of}

unfoldable pub env_default : (String → String) → String → String → String
env_default env key otherwise = if not (env key == "") then env key else otherwise

pub data StartError : Type 0 where
  bad_interval : String → String → String → StartError
  interval_not_positive : String → StartError
  bad_ecs_accounts : EcsAccount.AccountError → StartError
  bad_lambda_accounts : LambdaAccount.AccountError → StartError
  docker_client : String → StartError
  mode_unknown : String → StartError

-- A duration that `time.ParseDuration` returns: whether it is negative, and its size in nanoseconds.
abbrev pub Duration : Type 0
Duration = Bool × ℕ

-- An interval of the variable `name`, whose text is not empty.
interval_of : String → String → Result String Duration → Result StartError ℕ
interval_of name s (err e) = err (bad_interval name s e)
interval_of name s (ok (negative, n)) =
    if negative || eqb n 0 then err (interval_not_positive name) else ok n

unfoldable pub parse_interval :
    (String → String) → (String → Result String Duration) → String → Result StartError ℕ
unfolding interval_of
parse_interval env parse_duration name =
    let s = env name in if s == "" then ok 0 else interval_of name s (parse_duration s)

pub ecs_error : {A : Type 0} → Result EcsAccount.AccountError A → Result StartError A
ecs_error (ok a) = ok a
ecs_error (err e) = err (bad_ecs_accounts e)

lambda_error : {A : Type 0} → Result LambdaAccount.AccountError A → Result StartError A
lambda_error (ok a) = ok a
lambda_error (err e) = err (bad_lambda_accounts e)

abbrev pub is_configured : {A : Type 0} → List A → Bool
is_configured [] = false
is_configured (a ∷ as') = true

-- The watchers that a mode has started.
pub data Started : Type 0 where
  docker_watcher : Started
  ecs_watchers : List (Ecs.Watcher Origin × Bool) → Started
  lambda_watchers : List (Lambda.Watcher Origin × Bool) → Started

unfoldable pub launch : Started → Launch
unfolding launch_of
launch docker_watcher = direct
launch (ecs_watchers ws) = launch_of ws
launch (lambda_watchers ws) = launch_of ws

unfoldable pub ecs_defaults : (String → String) → ℕ → EcsAccount.Defaults
ecs_defaults env interval = record {
  region = env "AWS_REGION";
  profile = env "TSSERVE_ECS_AWS_PROFILE";
  config_file = env "TSSERVE_ECS_AWS_CONFIG_FILE";
  cluster = env "TSSERVE_ECS_CLUSTER";
  poll_interval = interval;
}

lambda_defaults : (String → String) → ℕ → LambdaAccount.Defaults
lambda_defaults env interval = record {
  region = env "AWS_REGION";
  profile = env "TSSERVE_LAMBDA_AWS_PROFILE";
  config_file = env "TSSERVE_LAMBDA_AWS_CONFIG_FILE";
  poll_interval = interval;
}

-- `docker_client_error` is that of `docker.NewWatcher`.
module _ (env : String → String) (parse_duration : String → Result String Duration)
    (docker_client_error : Option String)
    (unmarshal_ecs : String → Result String (List EcsAccount.Account))
    (unmarshal_lambda : String → Result String (List LambdaAccount.Account)) {C : Type 0}
    (load : List LoadOption → Result String C) (caller : C → Result String (Option String)) where
  unfoldable pub start_ecs : Registry → Result StartError (Registry × Started)
  unfolding parse_interval ecs_error ecs_defaults EcsAccount.parse_accounts EcsAccount.plan
      build_ecs_watchers
  start_ecs g = do
    interval ← parse_interval env parse_duration "TSSERVE_ECS_POLL_INTERVAL"
    retry_interval ← parse_interval env parse_duration "TSSERVE_ECS_RETRY_INTERVAL"
    accounts ← ecs_error (EcsAccount.parse_accounts unmarshal_ecs (env "TSSERVE_ECS_ACCOUNTS"))
    specs ← ecs_error (EcsAccount.plan accounts (ecs_defaults env interval))
    let built = build_ecs_watchers load caller (is_configured accounts) retry_interval specs g
    ok (built.readers, ecs_watchers built.watchers)

  unfoldable pub start_lambda : Registry → Result StartError (Registry × Started)
  unfolding parse_interval lambda_error lambda_defaults LambdaAccount.parse_accounts
      LambdaAccount.plan build_lambda_watchers
  start_lambda g = do
    interval ← parse_interval env parse_duration "TSSERVE_LAMBDA_POLL_INTERVAL"
    retry_interval ← parse_interval env parse_duration "TSSERVE_LAMBDA_RETRY_INTERVAL"
    accounts ←
        lambda_error (LambdaAccount.parse_accounts unmarshal_lambda (env "TSSERVE_LAMBDA_ACCOUNTS"))
    specs ← lambda_error (LambdaAccount.plan accounts (lambda_defaults env interval))
    let built = build_lambda_watchers load caller (is_configured accounts) retry_interval specs g
    ok (built.readers, lambda_watchers built.watchers)

  start_docker : Option String → Registry → Result StartError (Registry × Started)
  start_docker none g = ok (g, docker_watcher)
  start_docker (some e) g = err (docker_client e)

  unfoldable pub start_watcher : String → Registry → Result StartError (Registry × Started)
  unfolding start_ecs start_lambda start_docker
  start_watcher mode g =
      if mode == "docker"
      then start_docker docker_client_error g
      else if mode == "ecs"
      then start_ecs g
      else if mode == "lambda"
      then start_lambda g
      else err (mode_unknown mode)

  -- The loop of `startModes`: the first mode that cannot be started ends the process.
  unfoldable pub start_all : List String → Registry → Result StartError (Registry × List Launch)
  unfolding start_watcher launch
  start_all [] g = ok (g, [])
  start_all (mode ∷ modes) g = do
    first ← start_watcher mode g
    rest ← start_all modes first.0
    ok (rest.0, launch first.1 ∷ rest.1)
