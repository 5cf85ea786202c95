-- ===== src/Proxy/Goroutine.antt =====
-- proxy/manager.go: the goroutines that call the manager, each at a point of its call, between which the
-- locks change hands. `serve_mu` holds the goroutine that is inside the serve-config lock, and `listener`
-- the state of each record's listener in the node's serve config. A listener's first `Close` is the one
-- that matters, so the repeated closes of one teardown are one step. The goroutine that runs `httpSrv.Serve`
-- on a record's listener may return at any time once the service is advertised, and closes the listener as it
-- does, in one step that is taken while the serve-config lock is free: `exited` marks the records whose Serve
-- has returned. No call of the manager reads it.
pub mod Stage
pub mod Frame
pub mod Effects
pub mod Threads
pub mod Names
pub mod Safety
pub mod Reach
pub mod Promises
use tsserve.Base.{
  ℕ, String, Bool, true, false, not, ◌||◌, Option, none, some, List, [], ◌∷◌, eqb, if◌then◌else◌,
}
use tsserve.Proxy.Backend.{Backend}
use tsserve.Proxy.State.{ServiceDef, Chan, closed, AdvertisedService, Manager, update}
use tsserve.Proxy.Manager.{
  RegisterError, shutting_down, Wait, on_withdrawing, on_advertised, Attempt, register_pass,
  advertise_locked, release_locked, listen_error, Leaving, deregister_locked, withdrawn_locked,
  close_locked,
}

pub data Listener : Type 0 where
  unopened opening listening shut : Listener

-- What a goroutine does once the listener that it closes is shut.
pub data Next : Type 0 where
  -- the manager shut down while the listener was opened
  discard : Next
  -- the service's last backend left
  withdraw : String → Next
  -- `Close` has these records left
  rest : List ℕ → Next

pub data Goroutine : Type 0 where
  idle : Goroutine
  returned : Option RegisterError → Goroutine
  -- at the head of register's loop
  registering : String → ServiceDef → Backend → Goroutine
  -- at `<-wait`
  waiting : ℕ → Wait → String → ServiceDef → Backend → Goroutine
  -- before the serve-config lock, inside `ListenService`, and after it has succeeded or failed
  claiming : ℕ → String → Backend → Goroutine
  in_listen : ℕ → String → Backend → Goroutine
  listened : ℕ → String → Backend → Goroutine
  failed : ℕ → String → Goroutine
  deregistering : String → Goroutine
  -- before `cancel` and `closeFn`, inside the listener's `Close`, and after it
  tearing : ℕ → Next → Goroutine
  in_close : ℕ → Next → Goroutine
  withdrawn : ℕ → String → Goroutine
  shutting : Goroutine

pub record System : Type 0 where
  pub manager : Manager
  pub listener : ℕ → Listener
  pub serve_mu : Option ℕ
  pub exited : ℕ → Bool
  pub goroutines : ℕ → Goroutine

-- What the environment decides: the next call of a goroutine that has returned, whether `ListenService` fails, and when
-- the Serve of a record returns.
pub data Choice : Type 0 where
  proceed : Choice
  fail : String → Choice
  call_register : String → ServiceDef → Backend → Choice
  call_deregister : String → Choice
  call_close : Choice
  serve_exits : ℕ → Choice

pub data Move : Type 0 where
  blocked panics : Move
  moves : System → Move

abbrev pub go : ℕ → Goroutine → Manager → System → Move
go i g m s = moves (record s { manager = m; goroutines = update s.goroutines i g })

abbrev pub go_serve : ℕ → Goroutine → ℕ → Listener → Option ℕ → System → Move
go_serve i g id l mu s = moves (record s {
  listener = update s.listener id l;
  serve_mu = mu;
  goroutines = update s.goroutines i g;
})

-- `httpSrv.Serve(ln)` returns, and closes the listener that it was handed under the serve-config lock. It runs once the
-- record is advertised.
unfoldable pub serve_returns : ℕ → System → Move
serve_returns id s =
    if (s.manager.records id).ready
    then elim s.serve_mu [
      | some j ↦ blocked
      | none ↦ moves (record s { exited = update s.exited id true })
    ]
    else blocked

-- A listener accepts connections until a teardown or its own Serve closes it.
unfoldable pub is_open : System → ℕ → Bool
is_open s id = elim (s.listener id) [ listening ↦ not (s.exited id) | _ ↦ false ]

abbrev start : ℕ → Choice → System → Move
start i (call_register key def b) s = go i (registering key def b) s.manager s
start i (call_deregister key) s = go i (deregistering key) s.manager s
start i call_close s = go i shutting s.manager s
start i (serve_exits id) s = serve_returns id s
start i _ s = blocked

abbrev after_pass : String → ServiceDef → Backend → Attempt → Goroutine
after_pass key def b (Attempt.refused e) = returned (some e)
after_pass key def b Attempt.member = returned none
after_pass key def b (Attempt.claimed id) = claiming id key b
after_pass key def b (Attempt.waits id w) = waiting id w key def b

abbrev is_closed : Chan → Bool
is_closed closed = true
is_closed _ = false

-- Whether a receive from the channel returns.
abbrev wakes : AdvertisedService → Wait → Bool
wakes r on_advertised = is_closed r.advertised
wakes r on_withdrawing = elim r.withdrawing [ none ↦ false | some ch ↦ is_closed ch ]

abbrev after_listen : ℕ → Choice → ℕ → String → Backend → System → Move
after_listen i proceed id key b s = go_serve i (listened id key b) id listening none s
after_listen i (fail text) id key b s = go_serve i (failed id text) id shut none s
after_listen i _ id key b s = blocked

abbrev after_leaving : Leaving → Goroutine
after_leaving (Leaving.withdraws id name) = tearing id (withdraw name)
after_leaving _ = returned none

-- `cancel` and `closeFn` of the record, which a record that never finished advertising has not set.
abbrev can_tear : System → ℕ → Next → Bool
can_tear s id discard = true
can_tear s id _ = (s.manager.records id).closable

abbrev next_of_close : List ℕ → Goroutine
next_of_close [] = returned none
next_of_close (id ∷ ids) = tearing id (rest ids)

abbrev after_close : ℕ → Next → Goroutine
after_close id discard = returned (some shutting_down)
after_close id (withdraw name) = withdrawn id name
after_close id (rest ids) = next_of_close ids

unfoldable pub run : ℕ → Choice → System → Goroutine → Move
unfolding serve_returns
run i c s idle = start i c s
run i c s (returned r) = start i c s
run i c s (registering key def b) =
    let (m, a) = register_pass key def b s.manager in go i (after_pass key def b a) m s
run i c s (waiting id w key def b) =
    if wakes (s.manager.records id) w then go i (registering key def b) s.manager s else blocked
run i c s (claiming id key b) = elim s.serve_mu [
  | some j ↦ blocked
  | none ↦ go_serve i (in_listen id key b) id opening (some i) s
]
run i c s (in_listen id key b) = after_listen i c id key b s
run i c s (listened id key b) = elim (advertise_locked id key b s.manager) [
  | none ↦ panics
  | some (m, down) ↦ go i (if down then tearing id discard else returned none) m s
]
run i c s (failed id text) = elim (release_locked id s.manager) [
  | none ↦ panics
  | some m ↦ go i (returned (some (listen_error text))) m s
]
run i c s (deregistering key) =
    let (m, l) = deregister_locked key s.manager in go i (after_leaving l) m s
run i c s (tearing id k) =
    if can_tear s id k
    then elim s.serve_mu [
      | some j ↦ blocked
      | none ↦ go_serve i (in_close id k) id (s.listener id) (some i) s
    ]
    else panics
run i c s (in_close id k) = go_serve i (after_close id k) id shut none s
run i c s (withdrawn id name) = elim (withdrawn_locked id name s.manager) [
  | none ↦ panics
  | some m ↦ go i (returned none) m s
]
run i c s shutting = let (m, ids) = close_locked s.manager in go i (next_of_close ids) m s

-- One step of goroutine `i`.
unfoldable pub advance : ℕ → Choice → System → Move
unfolding run
advance i c s = run i c s (s.goroutines i)
