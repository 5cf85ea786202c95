-- ===== src/Lambda/Watcher.antt =====
-- lambda/watcher.go: the watcher of one account and region. The tagging API answers for one cycle; log lines
-- are left out, and an error's message is an argument.
pub mod Laws
use Prim.Native.String.{◌++◌}
use tsserve.Base.{
  ℕ, String, Bool, true, false, not, ◌&&◌, Option, none, some, List, [], ◌∷◌, Map, lookup, Result,
  ok, err, ◌==◌, if◌then◌else◌, ltb,
}
use tsserve.Discovery.Registrar.{Registrar}
use tsserve.Discovery.Tracker.{Tracker, note_failure, forget_failure, settle, remove_missing}
use tsserve.Discovery.Paging.{paginate}
use tsserve.Lambda.Function.{
  Function, Registration, registration_of, same_registration, Tag, to_string, FunctionError,
  parse_function,
}

-- The answer of `GetResources` at a token: the functions' ARNs and tags, and the next token.
pub record Mapping : Type 0 where
  pub resource_arn : Option String
  pub tags : List Tag

abbrev pub Tagging : Type 0
Tagging = Option String → Result String (List Mapping × Option String)

pub record Config : Type 0 where
  pub poll_interval : ℕ
  pub retry_interval : ℕ
  pub account : String
  pub reader : Option ℕ

pub record Watcher (S : Type 0) : Type 0 where
  pub cfg : Config
  pub tracker : Tracker S Registration
  pub healthy : Bool
  pub account_resolved : Bool

abbrev pub default_poll_interval : ℕ
default_poll_interval = 30000000000

-- `NewWatcher`, whose intervals are in nanoseconds.
unfoldable pub new_watcher : {S : Type 0} → Config → S → Watcher S
new_watcher cfg s = record {
  cfg = record cfg {
    poll_interval = if ltb 0 cfg.poll_interval then cfg.poll_interval else default_poll_interval;
    retry_interval = if ltb 0 cfg.retry_interval then cfg.retry_interval else 120000000000;
  };
  tracker = record { state = s; active = []; failed = [] };
  healthy = false;
  account_resolved = false;
}

unfoldable pub next_interval : {S : Type 0} → Watcher S → ℕ
next_interval w =
    let p = w.cfg.poll_interval in
    let r = w.cfg.retry_interval in if w.healthy then p else if ltb p r then r else p

pub data CycleError : Type 0 where
  identity get_resources : String → CycleError

unfoldable pub list_tagged : Tagging → ℕ → Option (Result String (List Mapping))
unfolding paginate
list_tagged api fuel = paginate api fuel none []

-- The key is active with this registration.
unfoldable pub registered_as : {S : Type 0} → String → Registration → Tracker S Registration → Bool
unfolding lookup same_registration
registered_as key want t = elim (lookup key t.active) [
  | none ↦ false
  | some prev ↦ same_registration prev want
]

module _ {S : Type 0} (reg : Registrar S Function Registration String)
    (text : FunctionError → String) where
  unfoldable pub apply : Function → Tracker S Registration → Tracker S Registration
  unfolding registered_as registration_of forget_failure settle
  apply fn t =
      let want = registration_of fn in
      if registered_as fn.arn want t
      then forget_failure fn.arn t
      else settle reg same_registration
          (λ e. "registration failed; will retry next cycle" ++ ": " ++ e) fn.arn fn want t

  -- One tagged function of a cycle that is parsed.
  unfoldable pub apply_parsed :
      String → Result FunctionError Function → Tracker S Registration → Tracker S Registration
  unfolding apply note_failure
  apply_parsed arn (err e) t =
      note_failure arn ("invalid function tags; skipping" ++ ": " ++ text e) t
  apply_parsed arn (ok fn) t = apply fn t

  -- The loop over the mappings, with the keys seen so far.
  unfoldable pub poll_mapping :
      Mapping → Tracker S Registration × List String → Tracker S Registration × List String
  unfolding apply_parsed parse_function
  poll_mapping m (t, seen) =
      let arn = to_string m.resource_arn in
      if arn == "" then (t, seen) else (apply_parsed arn (parse_function arn m.tags) t, arn ∷ seen)

  unfoldable pub poll_mappings :
      List Mapping → Tracker S Registration × List String → Tracker S Registration × List String
  unfolding poll_mapping
  poll_mappings [] ts = ts
  poll_mappings (m ∷ ms) ts = poll_mappings ms (poll_mapping m ts)

  unfoldable pub resolve_identity :
      Option (Result String String) → (String → S → S) → Watcher S → Watcher S × Option CycleError
  resolve_identity answer on_resolved w = if w.account_resolved then (w, none) else elim answer [
    | none ↦ (w, none)
    | some (err e) ↦ (w, some (identity e))
    | some (ok account) ↦ (
      record w {
        account_resolved = true;
        tracker = record w.tracker { state = on_resolved account w.tracker.state };
        cfg = record w.cfg { account = account };
      },
      none,
    )
  ]

  -- The part of a cycle after every page is read.
  unfoldable pub poll_listed : List Mapping → Tracker S Registration → Tracker S Registration
  unfolding poll_mappings remove_missing
  poll_listed ms t = let (t', seen) = poll_mappings ms (t, []) in remove_missing reg seen t'

  -- One cycle; `none` is a listing with more pages than the fuel.
  unfoldable pub cycle :
      Tagging
      → ℕ
      → Option (Result String String)
      → (String → S → S)
      → Watcher S
      → Option (Watcher S × Option CycleError)
  unfolding resolve_identity list_tagged poll_listed
  cycle api fuel answer on_resolved w =
      let (w', r) = resolve_identity answer on_resolved w in
      elim r [
        | some e ↦ some (w', some e)
        | none ↦ elim (list_tagged api fuel) [
          | none ↦ none
          | some (err e) ↦ some (w', some (get_resources e))
          | some (ok ms) ↦ some (record w' { tracker = poll_listed ms w'.tracker }, none)
        ]
      ]
