-- ===== src/Startup/Daemon.antt =====
-- main.go: the discovery modes of a running process, whose watchers end in any order, and the messages that reach
-- `awaitTerminal`.
pub mod Reports
pub mod Invariant
pub mod Reads
pub mod Laws
use tsserve.Base.{
  ℕ, zero, suc, String, Bool, true, false, not, ◌&&◌, Option, none, some, List, [], ◌∷◌, ◌++◌, map,
  length, ltb, if◌then◌else◌,
}
use tsserve.Startup.{Ended, finished, canceled, failed, run_all}

-- How a mode reports. A mode of ECS or Lambda that started no reader never sends; the others fan in their readers'
-- results. Docker's goroutine sends its only watcher's result.
pub data Launch : Type 0 where
  idle : Launch
  direct : Launch
  fan_in : ℕ → Launch

-- The end of a mode's start, from its watchers.
unfoldable pub launch_of : {W : Type 0} → List W → Launch
launch_of [] = idle
launch_of (w ∷ ws) = fan_in (length (w ∷ ws))

-- The watchers of a mode.
abbrev pub watchers_of : Launch → ℕ
watchers_of idle = 0
watchers_of direct = 1
watchers_of (fan_in n) = n

-- A mode, with the results of the watchers that have ended; `is_read` says that its `modeResult.Run` has returned.
pub record Mode : Type 0 where
  pub launch : Launch
  pub results : List Ended
  pub is_read : Bool

-- A message on a channel of errors, as the error that is received.
abbrev pub first_message : List (Option String) → Option Ended
first_message [] = none
first_message (none ∷ messages) = some finished
first_message (some e ∷ messages) = some (failed e)

abbrev pub first_result : List Ended → Option Ended
first_result [] = none
first_result (r ∷ rs) = some r

-- What the mode has sent on its channel.
unfoldable pub report : Launch → List Ended → Option Ended
unfolding run_all
report idle results = none
report direct results = first_result results
report (fan_in n) results = first_message (run_all n results)

-- The process: `forwarded` are the results of the modes that the coordinator has received, in order, and `is_stopped`
-- says that the context is done.
pub record Daemon : Type 0 where
  pub modes : List Mode
  pub forwarded : List Ended
  pub is_stopped : Bool

-- `startModes`, once every mode has started.
unfoldable pub start_modes : List Launch → Daemon
start_modes launches = record {
  modes = map (λ l. record { launch = l; results = []; is_read = false }) launches;
  forwarded = [];
  is_stopped = false;
}

-- A watcher of a mode ends; a mode's report is received; a shutdown is asked for; a mode's `Run` returns for it.
pub data Event : Type 0 where
  ends : ℕ → Ended → Event
  forwards cancels : ℕ → Event
  stops : Event

unfoldable pub end_watcher : Ended → Mode → Mode
end_watcher r m =
    if ltb (length m.results) (watchers_of m.launch)
    then record m { results = m.results ++ r ∷ [] }
    else m

unfoldable pub end_at : ℕ → Ended → List Mode → List Mode
unfolding end_watcher
end_at i r [] = []
end_at zero r (m ∷ ms) = end_watcher r m ∷ ms
end_at (suc i) r (m ∷ ms) = m ∷ end_at i r ms

-- The result that a mode's `modeResult.Run` returns now, if it can return.
unfoldable pub mode_result : Mode → Option Ended
unfolding report
mode_result m = if m.is_read then none else report m.launch m.results

-- A mode returns this result, if any.
read_mode : Option Ended → Mode → List Mode → List Mode × List Ended
read_mode none m ms = (m ∷ ms, [])
read_mode (some r) m ms = (record m { is_read = true } ∷ ms, r ∷ [])

-- The modes after the mode at a position is read, and what the coordinator receives.
unfoldable pub read_at : (Mode → Option Ended) → ℕ → List Mode → List Mode × List Ended
unfolding read_mode
read_at ready i [] = ([], [])
read_at ready zero (m ∷ ms) = read_mode (ready m) m ms
read_at ready (suc i) (m ∷ ms) = let rest = read_at ready i ms in (m ∷ rest.0, rest.1)

abbrev pub cancellation : Bool → Mode → Option Ended
cancellation is_stopped m = if is_stopped && not m.is_read then some canceled else none

abbrev receive_from : (Mode → Option Ended) → ℕ → Daemon → Daemon
unfolding read_at
receive_from ready i d =
    let (modes, received) = read_at ready i d.modes in
    record d { modes = modes; forwarded = d.forwarded ++ received }

unfoldable pub happen : Event → Daemon → Daemon
unfolding end_at read_at mode_result
happen (ends i r) d = record d { modes = end_at i r d.modes }
happen (forwards i) d = receive_from mode_result i d
happen (cancels i) d = receive_from (cancellation d.is_stopped) i d
happen stops d = record d { is_stopped = true }

unfoldable pub happen_all : List Event → Daemon → Daemon
unfolding happen
happen_all [] d = d
happen_all (e ∷ es) d = happen_all es (happen e d)

-- What `awaitTerminal` can receive on its channel of the watchers.
unfoldable pub watch_messages : Daemon → List (Option String)
unfolding run_all
watch_messages d = run_all (length d.modes) d.forwarded
