-- ===== src/Startup/Readers/LambdaMode.antt =====
-- main.go: the readers of Lambda, `buildLambdaWatchers`.
use Prim.Native.String.{◌++◌ as ◌+++◌}
use tsserve.Base.{
  ℕ, suc, String, Bool, false, some, List, [], ◌∷◌, ◌++◌, Result, ok, err, if◌then◌else◌, eqb,
  Option,
}
use tsserve.Proxy.Backend.{Origin}
use tsserve.Ecs.Registry.{Registry, add, note_error}
use tsserve.Lambda.Account as LambdaAccount
use tsserve.Lambda.Watcher as Lambda
use tsserve.Startup.Readers.{
  AwsContext, LoadOption, load_options, account_of, display_name, identify, Built,
}

unfoldable pub lambda_context : LambdaAccount.WatcherSpec → AwsContext
lambda_context spec = record {
  region = spec.region;
  profile = spec.profile;
  config_file = spec.config_file;
  access_key_id = spec.access_key_id;
  secret_access_key = spec.secret_access_key;
}

module _ {C : Type 0} (load : List LoadOption → Result String C)
    (caller : C → Result String (Option String)) (derive_names : Bool) (retry_interval : ℕ) where
  -- A pass, from the configuration that the SDK loads.
  lambda_loaded :
      LambdaAccount.WatcherSpec
      → String
      → ℕ
      → Result String C
      → Registry
      → Built (Lambda.Watcher Origin)
      → Built (Lambda.Watcher Origin)
  unfolding note_error identify account_of Lambda.new_watcher
  lambda_loaded spec display h (err e) g st = record st {
    readers = note_error (some h) (some ("aws config: " +++ e)) g;
  }
  lambda_loaded spec display h (ok aws) g st =
      let id =
        identify derive_names spec.name display h (account_of (caller aws)) st.identities g in
      let w =
        Lambda.new_watcher
          (record {
            poll_interval = spec.poll_interval;
            retry_interval = retry_interval;
            account = id.account;
            reader = some h;
          })
          (record { account = id.account; cluster = ""; region = spec.region }) in
      record {
        readers = id.readers;
        identities = id.identities;
        watchers = st.watchers ++ (w, id.is_lazy) ∷ [];
      }

  -- A pass of the loop of `buildLambdaWatchers`.
  unfoldable pub build_lambda_reader :
      ℕ → LambdaAccount.WatcherSpec → Built (Lambda.Watcher Origin) → Built (Lambda.Watcher Origin)
  unfolding add display_name load_options lambda_context lambda_loaded
  build_lambda_reader i spec st =
      let display = display_name derive_names i spec.name in
      let added =
        add
          (record {
            mode = "lambda";
            name = display;
            account = "";
            cluster = "";
            region = spec.region;
            poll_interval =
                if eqb spec.poll_interval 0
                then Lambda.default_poll_interval
                else spec.poll_interval;
            last_poll_start = 0;
            last_poll_ok = 0;
            last_error = "";
            polls = 0;
            healthy = false;
          })
          st.readers in
      lambda_loaded spec display added.1 (load (load_options (lambda_context spec))) added.0 st

  unfoldable pub build_lambda_from :
      ℕ
      → List LambdaAccount.WatcherSpec
      → Built (Lambda.Watcher Origin)
      → Built (Lambda.Watcher Origin)
  unfolding build_lambda_reader
  build_lambda_from i [] st = st
  build_lambda_from i (spec ∷ specs) st =
      build_lambda_from (suc i) specs (build_lambda_reader i spec st)

  -- `buildLambdaWatchers`.
  unfoldable pub build_lambda_watchers :
      List LambdaAccount.WatcherSpec → Registry → Built (Lambda.Watcher Origin)
  unfolding build_lambda_from
  build_lambda_watchers specs g =
      build_lambda_from 0 specs (record { readers = g; identities = []; watchers = [] })
