-- ===== src/Proxy/Goroutine/Stage.antt =====
-- What a goroutine may rely on at each point of its call, and which records are its own.
use tsserve.Base.{
  ℕ, ◌<◌, String, ◌≡◌, Bool, true, false, ◌||◌, Option, none, some, List, [], ◌∷◌, lookup, eqb,
}
use tsserve.Proxy.Backend.{Backend}
use tsserve.Proxy.Manager.Invariant.Claim.{Claimed}
use tsserve.Proxy.Manager.Invariant.Withdraw.{Withdrawing}
use tsserve.Proxy.Goroutine.{
  Listener, unopened, opening, listening, shut, Next, discard, withdraw, rest, Goroutine, idle,
  returned, registering, waiting, claiming, in_listen, listened, failed, deregistering, tearing,
  in_close, withdrawn, shutting, System,
}

abbrev pub among : List ℕ → ℕ → Bool
among [] i = false
among (id ∷ ids) i = eqb id i || among ids i

abbrev pub next_owns : Next → ℕ → Bool
next_owns (rest ids) i = among ids i
next_owns discard i = false
next_owns (withdraw name) i = false

-- The record that only this goroutine may change.
abbrev pub owns : Goroutine → ℕ → Bool
owns (claiming id key b) i = eqb id i
owns (in_listen id key b) i = eqb id i
owns (listened id key b) i = eqb id i
owns (failed id text) i = eqb id i
owns (tearing id k) i = eqb id i || next_owns k i
owns (in_close id k) i = eqb id i || next_owns k i
owns (withdrawn id name) i = eqb id i
owns idle i = false
owns (returned r) i = false
owns (registering key def b) i = false
owns (waiting id w key def b) i = false
owns (deregistering key) i = false
owns shutting i = false

-- The key whose registration is in flight.
abbrev pub flight : Goroutine → Option String
flight (registering key def b) = some key
flight (waiting id w key def b) = some key
flight (claiming id key b) = some key
flight (in_listen id key b) = some key
flight (listened id key b) = some key
flight _ = none

-- Inside the serve-config lock.
abbrev pub in_serve : Goroutine → Bool
in_serve (in_listen id key b) = true
in_serve (in_close id k) = true
in_serve _ = false

-- A claim whose listener is in the given state, for a backend that is in no pool.
pub record Claiming (s : System) (id : ℕ) (key : String) (b : Backend) (l : Listener) : Type 0 where
  pub claim : Claimed s.manager id
  pub state : s.listener id ≡ l
  pub own : b.key ≡ key
  pub fresh : lookup key s.manager.by_key ≡ none

-- A record that `Close` tears down.
pub record Closable (s : System) (id : ℕ) : Type 0 where
  pub allocated : id < s.manager.next_record
  pub ready : (s.manager.records id).ready ≡ true
  pub staying : (s.manager.records id).withdrawing ≡ none
  pub closable : (s.manager.records id).closable ≡ true
  pub state : s.listener id ≡ listening

abbrev pub AllClosable : System → List ℕ → Type 0
AllClosable s [] = Unit
AllClosable s (id ∷ ids) = Closable s id × (among ids id ≡ false) × AllClosable s ids

abbrev pub TearStage : System → ℕ → Next → Type 0
TearStage s id discard =
    (id < s.manager.next_record)
    × (s.manager.shutdown ≡ true)
    × (s.listener id ≡ listening)
    × ((s.manager.records id).ready ≡ false)
TearStage s id (withdraw name) =
    Withdrawing s.manager id × (s.listener id ≡ listening) × ((s.manager.records id).name ≡ name)
TearStage s id (rest ids) = (s.manager.shutdown ≡ true) × AllClosable s (id ∷ ids)

abbrev pub Stage : System → Goroutine → Type 0
Stage s (claiming id key b) = Claiming s id key b unopened
Stage s (in_listen id key b) = Claiming s id key b opening
Stage s (listened id key b) = Claiming s id key b listening
Stage s (failed id text) = Claimed s.manager id × (s.listener id ≡ shut)
Stage s (tearing id k) = TearStage s id k
Stage s (in_close id k) = TearStage s id k
Stage s (withdrawn id name) =
    Withdrawing s.manager id × (s.listener id ≡ shut) × ((s.manager.records id).name ≡ name)
Stage s (registering key def b) = b.key ≡ key
Stage s (waiting id w key def b) = b.key ≡ key
Stage s idle = Unit
Stage s (returned r) = Unit
Stage s (deregistering key) = Unit
Stage s shutting = Unit
