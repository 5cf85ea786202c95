-- ===== src/Startup/Readers.antt =====
-- main.go: what the readers of ECS and Lambda share when they are started from their descriptions. What the SDK makes
-- of a configuration's options, and what STS answers, are arguments.
pub mod EcsMode
pub mod LambdaMode
use Prim.Native.String.{◌++◌ as ◌+++◌}
use tsserve.Base.{
  ℕ, suc, ◌+◌, String, Bool, true, false, not, ◌&&◌, Option, none, some, List, [], ◌∷◌, ◌++◌,
  Result, ok, err, ◌==◌, if◌then◌else◌, ltb, eqb,
}
use tsserve.Base.Text.{itoa}
use tsserve.Startup.{claim}
use tsserve.Proxy.Backend.{Origin}
use tsserve.Ecs.Registry.{ReaderStatus, Registry, add, note_error, set_account}
use tsserve.Ecs.Account as EcsAccount
use tsserve.Ecs.Watcher as Ecs
use tsserve.Lambda.Account as LambdaAccount
use tsserve.Lambda.Watcher as Lambda

pub record AwsContext : Type 0 where
  pub region : String
  pub profile : String
  pub config_file : String
  pub access_key_id : String
  pub secret_access_key : String

-- The options that depend on the context.
pub data LoadOption : Type 0 where
  with_region with_shared_config_profile with_shared_config_file : String → LoadOption
  with_static_credentials : String → String → LoadOption

abbrev when : Bool → LoadOption → List LoadOption
when true o = o ∷ []
when false o = []

unfoldable pub load_options : AwsContext → List LoadOption
load_options c =
    when (not (c.region == "")) (with_region c.region)
    ++ (when (not (c.profile == "")) (with_shared_config_profile c.profile)
        ++ (when (not (c.config_file == "")) (with_shared_config_file c.config_file)
            ++ when (not (c.access_key_id == "") && not (c.secret_access_key == ""))
                (with_static_credentials c.access_key_id c.secret_access_key)))

-- The resolver that `stsAccountResolver` returns, from the answer of `GetCallerIdentity`.
unfoldable pub account_of : Result String (Option String) → Result String String
account_of (err e) = err e
account_of (ok none) = err "STS returned an empty account id"
account_of (ok (some account)) =
    if account == "" then err "STS returned an empty account id" else ok account

unfoldable pub poll_interval_or_default : ℕ → ℕ
poll_interval_or_default d = if ltb 0 d then d else 10000000000

-- A reader's name in the readers table. `derive_names` says whether accounts are configured.
unfoldable pub display_name : Bool → ℕ → String → String
unfolding itoa
display_name derive_names i name =
    if name == "" then if derive_names then "accounts[" +++ itoa i +++ "]" else "default" else name

-- What the identity of a reader comes to: the account of its configuration, and whether the watcher has to resolve it.
pub record Identified : Type 0 where
  pub identities : List String
  pub readers : Registry
  pub account : String
  pub is_lazy : Bool

-- The eager attempt to resolve an account.
resolve_now : String → ℕ → Result String String → List String → Registry → Identified
unfolding claim note_error set_account
resolve_now display h (err e) identities g = record {
  identities = identities;
  readers = note_error (some h) (some ("resolve account identity: " +++ e)) g;
  account = display;
  is_lazy = true;
}
resolve_now display h (ok account) identities g = record {
  identities = (claim account identities).0;
  readers = set_account (some h) account g;
  account = account;
  is_lazy = false;
}

unfoldable pub identify :
    Bool → String → String → ℕ → Result String String → List String → Registry → Identified
unfolding resolve_now claim
identify derive_names name display h resolved identities g =
    if name == "" && derive_names then resolve_now display h resolved identities g else record {
      identities = if name == "" then identities else (claim name identities).0;
      readers = g;
      account = display;
      is_lazy = false;
    }

-- The readers built so far. A watcher starts on its adapter's origin; the flag says that it resolves its account.
pub record Built (W : Type 0) : Type 0 where
  pub readers : Registry
  pub identities : List String
  pub watchers : List (W × Bool)
