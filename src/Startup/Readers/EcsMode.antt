-- ===== src/Startup/Readers/EcsMode.antt =====
-- main.go: the readers of ECS, `buildECSWatchers`.
pub mod Enabled
use Prim.Native.String.{◌++◌ as ◌+++◌}
use tsserve.Base.{
  ℕ, suc, String, Bool, false, Option, none, some, List, [], ◌∷◌, ◌++◌, Result, ok, err,
}
use tsserve.Proxy.Backend.{Origin}
use tsserve.Ecs.Registry.{Registry, add, note_error}
use tsserve.Ecs.Account as EcsAccount
use tsserve.Ecs.Watcher as Ecs
use tsserve.Startup.Readers.{
  AwsContext, LoadOption, load_options, account_of, poll_interval_or_default, display_name,
  Identified, identify, Built,
}

unfoldable pub ecs_context : EcsAccount.WatcherSpec → AwsContext
ecs_context spec = record {
  region = spec.region;
  profile = spec.profile;
  config_file = spec.config_file;
  access_key_id = spec.access_key_id;
  secret_access_key = spec.secret_access_key;
}

module _ {C : Type 0} (load : List LoadOption → Result String C)
    (caller : C → Result String (Option String)) (derive_names : Bool) (retry_interval : ℕ) where
  -- The end of a pass, after `ecs.NewWatcher`.
  ecs_constructed :
      Identified
      → ℕ
      → Option (Ecs.Watcher Origin)
      → Built (Ecs.Watcher Origin)
      → Built (Ecs.Watcher Origin)
  unfolding note_error
  ecs_constructed id h none st = record st {
    readers = note_error (some h) (some "ecs.Watcher: Cluster is required") id.readers;
    identities = id.identities;
  }
  ecs_constructed id h (some w) st = record {
    readers = id.readers;
    identities = id.identities;
    watchers = st.watchers ++ (w, id.is_lazy) ∷ [];
  }

  -- A pass, from the configuration that the SDK loads.
  ecs_loaded :
      EcsAccount.WatcherSpec
      → String
      → ℕ
      → Result String C
      → Registry
      → Built (Ecs.Watcher Origin)
      → Built (Ecs.Watcher Origin)
  unfolding note_error identify account_of ecs_constructed Ecs.new_watcher
  ecs_loaded spec display h (err e) g st = record st {
    readers = note_error (some h) (some ("aws config: " +++ e)) g;
  }
  ecs_loaded spec display h (ok aws) g st =
      let id =
        identify derive_names spec.name display h (account_of (caller aws)) st.identities g in
      ecs_constructed id h
        (Ecs.new_watcher
          (record {
            cluster = spec.cluster;
            poll_interval = spec.poll_interval;
            retry_interval = retry_interval;
            account = id.account;
            reader = some h;
          })
          (record { account = id.account; cluster = spec.cluster; region = spec.region }))
        st

  -- A pass of the loop of `buildECSWatchers`.
  unfoldable pub build_ecs_reader :
      ℕ → EcsAccount.WatcherSpec → Built (Ecs.Watcher Origin) → Built (Ecs.Watcher Origin)
  unfolding add display_name poll_interval_or_default load_options ecs_context ecs_loaded
  build_ecs_reader i spec st =
      let display = display_name derive_names i spec.name in
      let added =
        add
          (record {
            mode = "ecs";
            name = display;
            account = "";
            cluster = spec.cluster;
            region = spec.region;
            poll_interval = poll_interval_or_default spec.poll_interval;
            last_poll_start = 0;
            last_poll_ok = 0;
            last_error = "";
            polls = 0;
            healthy = false;
          })
          st.readers in
      ecs_loaded spec display added.1 (load (load_options (ecs_context spec))) added.0 st

  unfoldable pub build_ecs_from :
      ℕ → List EcsAccount.WatcherSpec → Built (Ecs.Watcher Origin) → Built (Ecs.Watcher Origin)
  unfolding build_ecs_reader
  build_ecs_from i [] st = st
  build_ecs_from i (spec ∷ specs) st = build_ecs_from (suc i) specs (build_ecs_reader i spec st)

  -- `buildECSWatchers`, on the registry that the modes share.
  unfoldable pub build_ecs_watchers :
      List EcsAccount.WatcherSpec → Registry → Built (Ecs.Watcher Origin)
  unfolding build_ecs_from
  build_ecs_watchers specs g =
      build_ecs_from 0 specs (record { readers = g; identities = []; watchers = [] })
