-- ===== src/Proxy/Alone.antt =====
-- The calls of proxy/manager.go from start to end when no other call of the manager runs: the critical sections in the
-- order in which one goroutine passes them. `none` is a run-time panic, or a wait that nobody ends.
pub mod Member
pub mod Pass
pub mod Register
pub mod Deregister
pub mod New
use tsserve.Base.{
  ℕ, String, ◌≡◌, Bool, true, false, Option, none, some, List, [], ◌∷◌, lookup, ◌==◌, if◌then◌else◌,
}
use tsserve.Proxy.Backend.{Backend}
use tsserve.Proxy.State.{ServiceDef, AdvertisedService, Manager, serving}
use tsserve.Proxy.Manager.{
  RegisterError, shutting_down, Attempt, Leaving, register_pass, release_locked, advertise_locked,
  deregister_locked, withdrawn_locked, listen_error,
}
use tsserve.Proxy.Manager.Invariant.{Inv}

-- The end of `advertise` after a listener that opened.
recorded : Option (Manager × Bool) → Option (Manager × Option RegisterError)
recorded none = none
recorded (some (m, down)) = some (m, if down then some shutting_down else none)

-- The end of `advertise` after a listener that failed.
released : String → Option Manager → Option (Manager × Option RegisterError)
unfolding listen_error
released text none = none
released text (some m) = some (m, some (listen_error text))

-- `advertise`, from the error of `ListenService`.
unfoldable pub advertise :
    Option String → ℕ → String → Backend → Manager → Option (Manager × Option RegisterError)
unfolding recorded released advertise_locked release_locked
advertise none id key b m = recorded (advertise_locked id key b m)
advertise (some text) id key b m = released text (release_locked id m)

after_pass :
    Option String → String → Backend → Manager × Attempt → Option (Manager × Option RegisterError)
unfolding advertise
after_pass listen key b (m, Attempt.refused e) = some (m, some e)
after_pass listen key b (m, Attempt.member) = some (m, none)
after_pass listen key b (m, Attempt.claimed id) = advertise listen id key b m
after_pass listen key b (m, Attempt.waits id w) = none

unfoldable pub register :
    Option String
    → String
    → ServiceDef
    → Backend
    → Manager
    → Option (Manager × Option RegisterError)
unfolding after_pass register_pass
register listen key def b m = after_pass listen key b (register_pass key def b m)

-- `cancel` and `closeFn` of the record are called, then its name is given up.
teardown : ℕ → String → Manager → Option Manager
unfolding withdrawn_locked
teardown id name m = if (m.records id).closable then withdrawn_locked id name m else none

after_leaving : Manager × Leaving → Option Manager
unfolding teardown
after_leaving (m, Leaving.unknown) = some m
after_leaving (m, Leaving.left size) = some m
after_leaving (m, Leaving.withdraws id name) = teardown id name m

unfoldable pub deregister : String → Manager → Option Manager
unfolding after_leaving deregister_locked
deregister key m = after_leaving (deregister_locked key m)

-- The member of a pool under a key.
unfoldable pub find_member : String → List Backend → Option Backend
find_member key [] = none
find_member key (b ∷ bs) = if b.key == key then some b else find_member key bs

-- A backend in service, with what the record that serves it advertises.
pub record PoolMember : Type 0 where
  pub service : String
  pub scheme : String
  pub caps : List String
  pub backend : Backend

abbrev pub as_member : AdvertisedService → Backend → PoolMember
as_member r b = record { service = r.name; scheme = r.scheme; caps = r.caps; backend = b }

abbrev pub member_at : AdvertisedService → Option Backend → Option PoolMember
member_at r none = none
member_at r (some b) = some (as_member r b)

-- What the manager serves for a key: what the key is recorded for.
unfoldable pub member_of : Manager → String → Option PoolMember
unfolding lookup find_member
member_of m key = elim (lookup key m.by_key) [
  | none ↦ none
  | some name ↦ elim (lookup name m.services) [
    | none ↦ none
    | some id ↦ member_at (m.records id) (find_member key (m.records id).pool.members)
  ]
]

-- The manager between calls: the invariant holds, and no record of the index is on its way in or out.
pub record AtRest (m : Manager) : Type 0 where
  pub inv : Inv m
  pub settled :
      (n : String) (id : ℕ) → lookup n m.services ≡ some id → serving (m.records id) ≡ true
