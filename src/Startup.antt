-- ===== src/Startup.antt =====
-- main.go: the configuration that the process checks at start-up, and how the results of its watchers become one.
pub mod Laws
pub mod Adapter
pub mod Readers
pub mod Daemon
pub mod Modes
use Prim.Native.String.{◌++◌ as ◌+++◌}
use tsserve.Base.{
  ℕ, zero, suc, String, Bool, true, false, not, ◌&&◌, ◌||◌, Option, none, some, List, [], ◌∷◌, ◌++◌,
  contains, Result, ok, err, ◌==◌, if◌then◌else◌,
}
use tsserve.Base.Text.{trim_space, split, to_lower}

pub data ModeError : Type 0 where
  empty_entry : ModeError
  unknown_mode repeated_mode : String → ModeError

abbrev pub is_mode : String → Bool
is_mode mode = mode == "docker" || (mode == "ecs" || mode == "lambda")

-- The loop over the entries, with the modes so far. A text that differs from every mode in ASCII lower case may yet be
-- one in Unicode's: `to_lower` is that of ASCII.
unfoldable pub modes_from : List String → List String → Result ModeError (List String)
unfolding trim_space to_lower contains
modes_from modes [] = ok modes
modes_from modes (entry ∷ entries) =
    let mode = to_lower (trim_space entry) in
    let rest = modes_from (modes ++ mode ∷ []) entries in
    if mode == ""
    then err empty_entry
    else if not (is_mode mode)
    then err (unknown_mode (trim_space entry))
    else if contains modes mode
    then err (repeated_mode (trim_space entry))
    else rest

unfoldable pub parse_discovery_modes : String → Result ModeError (List String)
unfolding modes_from split
parse_discovery_modes raw = modes_from [] (split b',' raw)

keep_tags : List String → List String
unfolding trim_space
keep_tags [] = []
keep_tags (p ∷ ps) =
    let rest = keep_tags ps in let tag = trim_space p in if tag == "" then rest else tag ∷ rest

-- `splitTags`, whose nil slice is the empty list.
unfoldable pub split_tags : String → List String
unfolding keep_tags split
split_tags s = if s == "" then [] else keep_tags (split b',' s)

-- The environment that `validateAuth` reads; a variable that is not set is empty.
pub record AuthEnv : Type 0 where
  pub auth_key : String
  pub client_id : String
  pub client_secret : String
  pub id_token : String
  pub audience : String
  pub tags : String

pub data AuthError : Type 0 where
  exclusive_tokens tags_for_federation tags_for_oauth no_authentication : AuthError

unfoldable pub validate_auth : AuthEnv → Option AuthError
validate_auth e =
    if not (e.client_id == "") && (not (e.id_token == "") || not (e.audience == ""))
    then if not (e.id_token == "") && not (e.audience == "")
      then some exclusive_tokens
      else if e.tags == ""
      then some tags_for_federation
      else none
    else if not (e.client_id == "") && not (e.client_secret == "")
    then if e.tags == "" then some tags_for_oauth else none
    else if not (e.auth_key == "")
    then none
    else some no_authentication

-- What `newIdentityClaims` returns, on the identities claimed so far.
unfoldable pub claim : String → List String → List String × Bool
unfolding contains
claim id identities =
    if contains identities id then (identities, false) else (id ∷ identities, true)

-- A watcher's result: nil, a cancellation, or another error.
pub data Ended : Type 0 where
  finished canceled : Ended
  failed : String → Ended

-- The messages that the coordinator of `runAll` has sent, when `n` results were to come and these came, in this order.
unfoldable pub collect : ℕ → Bool → List Ended → List (Option String)
collect zero reported results = if reported then [] else none ∷ []
collect (suc n) reported [] = []
collect (suc n) reported (finished ∷ results) = collect n reported results
collect (suc n) reported (canceled ∷ results) = collect n reported results
collect (suc n) true (failed e ∷ results) = collect n true results
collect (suc n) false (failed e ∷ results) = some e ∷ collect n true results

-- `runAll`, on so many watchers.
unfoldable pub run_all : ℕ → List Ended → List (Option String)
unfolding collect
run_all n results = collect n false results

-- What `awaitTerminal` receives first.
pub data Terminal : Type 0 where
  shutdown : Terminal
  fatal : String → Terminal
  watchers local_server : Ended → Terminal

-- The error of the process.
unfoldable pub await_terminal : Terminal → Option String
await_terminal shutdown = none
await_terminal (fatal e) = some e
await_terminal (watchers (failed e)) = some e
await_terminal (watchers _) = none
await_terminal (local_server (failed e)) = some ("local server: " +++ e)
await_terminal (local_server _) = none
