-- ===== src/Ecs/Registry.antt =====
-- ecs/registry.go: the status of every reader, in the order in which the readers are added. A reader's
-- handle is the position of its record; every method runs under the registry's lock, and a time is its
-- number of nanoseconds, 0 for the zero time.
pub mod Laws
use tsserve.Base.{
  ℕ, zero, suc, ◌+◌, ◌%◌, ◌^◌, String, Bool, true, false, Option, none, some, List, [], ◌∷◌, ◌++◌,
  length,
}

pub record ReaderStatus : Type 0 where
  pub mode : String
  pub name : String
  pub account : String
  pub cluster : String
  pub region : String
  pub poll_interval : ℕ
  pub last_poll_start : ℕ
  pub last_poll_ok : ℕ
  pub last_error : String
  pub polls : ℕ
  pub healthy : Bool

abbrev pub Registry : Type 0
Registry = List ReaderStatus

abbrev pub new_registry : Registry
new_registry = []

-- The registry, and the reader's handle.
unfoldable pub add : ReaderStatus → Registry → Registry × ℕ
add initial r = (r ++ initial ∷ [], length r)

unfoldable pub snapshot : Option Registry → List ReaderStatus
snapshot none = []
snapshot (some r) = r

unfoldable pub modify : (ReaderStatus → ReaderStatus) → ℕ → Registry → Registry
modify f i [] = []
modify f zero (s ∷ r) = f s ∷ r
modify f (suc i) (s ∷ r) = s ∷ modify f i r

-- A method of a handle that may be nil.
abbrev pub with_handle : Option ℕ → (ReaderStatus → ReaderStatus) → Registry → Registry
unfolding modify
with_handle none f r = r
with_handle (some i) f r = modify f i r

abbrev pub message : Option String → String
message none = ""
message (some e) = e

unfoldable pub poll_started : Option ℕ → ℕ → Registry → Registry
unfolding modify
poll_started h now = with_handle h (λ s. record s { last_poll_start = now })

abbrev pub succeed : ℕ → ReaderStatus → ReaderStatus
succeed now s = record s {
  last_poll_ok = now;
  last_error = "";
  polls = (s.polls + 1) % 2 ^ 64;
  healthy = true;
}

unfoldable pub poll_succeeded : Option ℕ → ℕ → Registry → Registry
unfolding modify
poll_succeeded h now = with_handle h (succeed now)

abbrev pub fail : Option String → ReaderStatus → ReaderStatus
fail e s = record s { last_error = message e; polls = (s.polls + 1) % 2 ^ 64; healthy = false }

unfoldable pub poll_failed : Option ℕ → Option String → Registry → Registry
unfolding modify
poll_failed h e = with_handle h (fail e)

unfoldable pub note_error : Option ℕ → Option String → Registry → Registry
unfolding modify
note_error h e = with_handle h (λ s. record s { last_error = message e; healthy = false })

unfoldable pub set_account : Option ℕ → String → Registry → Registry
unfolding modify
set_account h account = with_handle h (λ s. record s { account = account })
