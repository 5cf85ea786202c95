-- ===== src/Ecs/Watcher/Outcome.antt =====
-- What a cycle leaves in the reader's status, and when the next one runs.
use tsserve.Base.{ℕ, ◌≤◌, ◌≡◌, refl, String, Bool, Option, none, some, inl, inr, Bool-cases, arith}
use tsserve.Ecs.Registry.{Registry}
use tsserve.Ecs.Registry.Laws.{health_at, health_at-poll_succeeded, health_at-poll_failed}
use tsserve.Ecs.Tasks.{CycleError}
use tsserve.Ecs.Watcher.{Watcher, next_interval, record_outcome}

-- A watcher never polls faster than its poll interval.
pub next_interval_lem : {S : Type 0} (w : Watcher S) → w.cfg.poll_interval ≤ next_interval w
unfolding next_interval
next_interval_lem w = ground arith

-- When the status page shows a watcher's reader as healthy exactly while the watcher polls at its healthy pace, it
-- still does after the outcome of a cycle is recorded, be it a success, a failure or a cancellation.
pub record_outcome-health_at :
    {S : Type 0} (is_canceled : CycleError → Bool) (text : CycleError → String) (now i : ℕ)
    (r : Option CycleError) (w : Watcher S) (g : Registry)
    → w.cfg.reader ≡ some i
    → health_at g i ≡ some w.healthy
    → let (w', g') = record_outcome is_canceled text now r (w, g) in
      (w'.cfg.reader ≡ some i) × (health_at g' i ≡ some w'.healthy)
unfolding record_outcome
record_outcome-health_at is_canceled text now i none w g mine shown =
    (mine, rw mine (health_at-poll_succeeded i now w.healthy g shown))
record_outcome-health_at is_canceled text now i (some e) w g mine shown =
    elim (Bool-cases (is_canceled e)) [
      | inl down ↦ rw (record_outcome, down) (mine, shown)
      | inr failed ↦
          rw (record_outcome, failed, mine)
            (refl, health_at-poll_failed i (some (text e)) w.healthy g shown)
    ]
