-- ===== src/Tests/Startup.antt =====
-- main.go at concrete configurations and results.
use tsserve.Base.{
  String, ◌≡◌, refl, false, Option, none, some, List, [], ◌∷◌, map, contains, Result, ok, err, ◌==◌,
  if◌then◌else◌,
}
use tsserve.Base.Text.{split, trim_space, to_lower}
use tsserve.Ecs.Registry.{Registry}
use tsserve.Ecs.Account as EcsAccount
use tsserve.Lambda.Account as LambdaAccount
use tsserve.Startup.{parse_discovery_modes, run_all, finished, canceled, failed}
use tsserve.Startup.Readers.{LoadOption, with_region, load_options, account_of}
use tsserve.Startup.Readers.EcsMode.{ecs_context}
use tsserve.Startup.Daemon.{
  Daemon, fan_in, idle, start_modes, Event, ends, forwards, happen_all, watch_messages,
}
use tsserve.Startup.Daemon.Laws.{Told, watch_messages-Told}
use tsserve.Startup.Modes.{
  StartError, interval_not_positive, Duration, Started, ecs_defaults, parse_interval, start_ecs,
}
use tsserve.Startup.Modes.Laws.{StartsReaders, start_ecs_lem}

abbrev both : List String
both = "docker" ∷ "ecs" ∷ []

both_parse : parse_discovery_modes " Docker,ecs" ≡ ok both
unfolding parse_discovery_modes contains split trim_space to_lower
both_parse = refl

-- Nil waits for the last watcher.
still_waiting : run_all 3 (finished ∷ canceled ∷ []) ≡ []
unfolding run_all
still_waiting = refl

-- A daemon of ECS, with two readers, and of Lambda, with none: the first failure is heard.
abbrev one_fails : List Event
one_fails = ends 0 canceled ∷ forwards 0 ∷ ends 0 (failed "denied") ∷ forwards 0 ∷ []

abbrev after_failure : Daemon
after_failure = happen_all one_fails (start_modes (fan_in 2 ∷ idle ∷ []))

watch_messages-Told_example : Told (watch_messages after_failure) after_failure
watch_messages-Told_example = watch_messages-Told (fan_in 2 ∷ idle ∷ []) one_fails

failure_heard : watch_messages after_failure ≡ some "denied" ∷ []
unfolding watch_messages happen_all start_modes
failure_heard = refl

-- The mode that started no reader keeps the process up.
idle_holds :
    watch_messages (
      happen_all
        (ends 0 finished ∷ forwards 0 ∷ forwards 1 ∷ [])
        (start_modes (fan_in 1 ∷ idle ∷ [])))
    ≡ []
unfolding watch_messages happen_all start_modes
idle_holds = refl

-- Two accounts that STS answers alike, and one with a name whose region does not load.
abbrev account_of_region : String → String → EcsAccount.Account
account_of_region name region = record {
  name = name;
  region = region;
  profile = "";
  config_file = "";
  access_key_id = "";
  secret_access_key = "";
  cluster = "main";
}

abbrev accounts : List EcsAccount.Account
accounts = account_of_region "" "" ∷ account_of_region "prod" "mars" ∷ account_of_region "" "" ∷ []

abbrev env : String → String
env name =
    if name == "TSSERVE_ECS_ACCOUNTS"
    then "[...]"
    else if name == "AWS_REGION"
    then "eu-west-1"
    else if name == "TSSERVE_ECS_RETRY_INTERVAL"
    then "1m"
    else ""

abbrev a_minute : String → Result String Duration
a_minute s = if s == "1m" then ok (false, 60000000000) else err "invalid duration"

abbrev unmarshal : String → Result String (List EcsAccount.Account)
unmarshal s = ok accounts

abbrev no_accounts : String → Result String (List LambdaAccount.Account)
no_accounts s = err "unexpected end of JSON input"

abbrev load : List LoadOption → Result String (Unit {0})
load (with_region r ∷ opts) = if r == "mars" then err "unknown region" else ok tt
load opts = ok tt

abbrev same_account : Unit {0} → Result String (Option String)
same_account u = ok (some "123456789012")

abbrev specs : List EcsAccount.WatcherSpec
unfolding EcsAccount.spec_of ecs_defaults
specs = map (λ a. EcsAccount.spec_of a (ecs_defaults env 0)) accounts

abbrev ecs_mode : Result StartError (Registry × Started)
ecs_mode = start_ecs env a_minute none unmarshal no_accounts load same_account []

-- The third reader's identity is taken, and it is started; the second is not.
start_ecs_lem_example : StartsReaders ecs_mode 3 (some 0 ∷ some 2 ∷ [])
unfolding EcsAccount.plan EcsAccount.spec_of ecs_defaults EcsAccount.parse_accounts parse_interval
    trim_space contains load_options ecs_context
start_ecs_lem_example =
    start_ecs_lem env a_minute none unmarshal no_accounts load same_account 0 60000000000 accounts
      specs [] refl refl refl refl

unresolved : account_of (ok none) ≡ err "STS returned an empty account id"
unfolding account_of
unresolved = refl

-- An interval of zero is refused.
zero_interval :
    parse_interval (λ name. "0s") (λ s. ok (false, 0)) "TSSERVE_ECS_POLL_INTERVAL"
    ≡ err (interval_not_positive "TSSERVE_ECS_POLL_INTERVAL")
unfolding parse_interval
zero_interval = refl
