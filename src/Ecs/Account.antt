-- ===== src/Ecs/Account.antt =====
-- ecs/account.go: the accounts to watch, and one watcher's description for each.
pub mod Laws
use tsserve.Base.{
  ℕ, ◌+◌, String, Bool, true, false, not, ◌&&◌, ◌||◌, List, [], ◌∷◌, contains, Result, ok, err,
  ◌>>=◌, ◌>>◌, ◌==◌, if◌then◌else◌,
}
use tsserve.Base.Text.{trim_space}

pub record Account : Type 0 where
  pub name : String
  pub region : String
  pub profile : String
  pub config_file : String
  pub access_key_id : String
  pub secret_access_key : String
  pub cluster : String

pub record Defaults : Type 0 where
  pub region : String
  pub profile : String
  pub config_file : String
  pub cluster : String
  pub poll_interval : ℕ

pub record WatcherSpec : Type 0 where
  pub name : String
  pub cluster : String
  pub region : String
  pub profile : String
  pub config_file : String
  pub access_key_id : String
  pub secret_access_key : String
  pub poll_interval : ℕ

-- An error names the account by its position; its message uses the account's name where it has one.
pub data AccountError : Type 0 where
  invalid_json : String → AccountError
  cluster_required : AccountError
  half_credentials : ℕ → String → AccountError
  account_cluster_required : ℕ → String → AccountError
  duplicate_name : String → AccountError

-- The decoder is `encoding/json`'s, at a list of accounts.
unfoldable pub parse_accounts :
    (String → Result String (List Account)) → String → Result AccountError (List Account)
unfolding trim_space
parse_accounts unmarshal raw =
    if trim_space raw == ""
    then ok []
    else elim (unmarshal raw) [ err e ↦ err (invalid_json e) | ok accounts ↦ ok accounts ]

unfoldable pub first_non_empty : List String → String
first_non_empty [] = ""
first_non_empty (v ∷ vs) = let rest = first_non_empty vs in if v == "" then rest else v

abbrev pub differs : Bool → Bool → Bool
differs a b = (a && not b) || (not a && b)

unfoldable pub spec_of : Account → Defaults → WatcherSpec
unfolding first_non_empty
spec_of a d = record {
  name = a.name;
  cluster = first_non_empty (a.cluster ∷ d.cluster ∷ []);
  region = first_non_empty (a.region ∷ d.region ∷ []);
  profile = first_non_empty (a.profile ∷ d.profile ∷ []);
  config_file = first_non_empty (a.config_file ∷ d.config_file ∷ []);
  access_key_id = a.access_key_id;
  secret_access_key = a.secret_access_key;
  poll_interval = d.poll_interval;
}

-- The loop over the accounts, from position `i` and with the explicit names of those before it.
unfoldable pub plan_from :
    ℕ → List String → Defaults → List Account → Result AccountError (List WatcherSpec)
unfolding spec_of contains
plan_from i seen d [] = ok []
plan_from i seen d (a ∷ as') =
    let spec = spec_of a d in
    let rest = plan_from (i + 1) (if a.name == "" then seen else a.name ∷ seen) d as' in
    if differs (a.access_key_id == "") (a.secret_access_key == "")
    then err (half_credentials i a.name)
    else if spec.cluster == ""
    then err (account_cluster_required i a.name)
    else if not (a.name == "") && contains seen a.name
    then err (duplicate_name a.name)
    else elim rest [ err e ↦ err e | ok specs ↦ ok (spec ∷ specs) ]

unfoldable pub plan : List Account → Defaults → Result AccountError (List WatcherSpec)
unfolding plan_from
plan [] d =
    if d.cluster == ""
    then err cluster_required
    else ok (
        record {
          name = "";
          cluster = d.cluster;
          region = d.region;
          profile = d.profile;
          config_file = d.config_file;
          access_key_id = "";
          secret_access_key = "";
          poll_interval = d.poll_interval;
        }
        ∷ [])
plan (a ∷ as') d = plan_from 0 [] d (a ∷ as')
