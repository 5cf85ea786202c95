-- ===== src/Lambda/Account.antt =====
-- lambda/account.go: the accounts to watch, and one watcher's description for each.
use tsserve.Base.{
  ℕ, ◌+◌, String, not, ◌&&◌, List, [], ◌∷◌, contains, Result, ok, err, ◌==◌, if◌then◌else◌,
}
use tsserve.Base.Text.{trim_space}

pub record Account : Type 0 where
  pub name : String
  pub region : String
  pub profile : String
  pub config_file : String
  pub access_key_id : String
  pub secret_access_key : String

pub record Defaults : Type 0 where
  pub region : String
  pub profile : String
  pub config_file : String
  pub poll_interval : ℕ

pub record WatcherSpec : Type 0 where
  pub name : String
  pub region : String
  pub profile : String
  pub config_file : String
  pub access_key_id : String
  pub secret_access_key : String
  pub poll_interval : ℕ

pub data AccountError : Type 0 where
  invalid_json : String → AccountError
  half_credentials : ℕ → String → AccountError
  duplicate_name : String → AccountError

-- The decoder is `encoding/json`'s, at a list of accounts.
unfoldable pub parse_accounts :
    (String → Result String (List Account)) → String → Result AccountError (List Account)
unfolding trim_space
parse_accounts unmarshal raw =
    if trim_space raw == ""
    then ok []
    else elim (unmarshal raw) [ err e ↦ err (invalid_json e) | ok accounts ↦ ok accounts ]

-- `cmp.Or` of two texts.
abbrev or_text : String → String → String
or_text a b = if a == "" then b else a

unfoldable pub spec_of : Account → Defaults → WatcherSpec
spec_of a d = record {
  name = a.name;
  region = or_text a.region d.region;
  profile = or_text a.profile d.profile;
  config_file = or_text a.config_file d.config_file;
  access_key_id = a.access_key_id;
  secret_access_key = a.secret_access_key;
  poll_interval = d.poll_interval;
}

-- The loop over the accounts, from position `i` and with the explicit names of those before it.
unfoldable pub plan_from :
    ℕ → List String → Defaults → List Account → Result AccountError (List WatcherSpec)
unfolding spec_of contains
plan_from i seen d [] = ok []
plan_from i seen d (a ∷ as') =
    let rest = plan_from (i + 1) (if a.name == "" then seen else a.name ∷ seen) d as' in
    let half =
      if a.access_key_id == ""
      then not (a.secret_access_key == "")
      else a.secret_access_key == "" in
    if half
    then err (half_credentials i a.name)
    else if not (a.name == "") && contains seen a.name
    then err (duplicate_name a.name)
    else elim rest [ err e ↦ err e | ok specs ↦ ok (spec_of a d ∷ specs) ]

unfoldable pub plan : List Account → Defaults → Result AccountError (List WatcherSpec)
unfolding plan_from
plan [] d = ok (
    record {
      name = "";
      region = d.region;
      profile = d.profile;
      config_file = d.config_file;
      access_key_id = "";
      secret_access_key = "";
      poll_interval = d.poll_interval;
    }
    ∷ [])
plan (a ∷ as') d = plan_from 0 [] d (a ∷ as')
