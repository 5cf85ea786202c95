-- ===== src/Discovery/Tracker.antt =====
-- docker/watcher.go, ecs/watcher.go and lambda/watcher.go keep the same books: what each key last registered,
-- and what each failing key's last failure said. The pieces that the three write alike are here.
pub mod Laws
use tsserve.Base.{
  String, Bool, Option, none, some, List, [], ◌∷◌, Map, lookup, put, delete, contains,
  if◌then◌else◌,
}
use tsserve.Discovery.Registrar.{Registrar}

pub record Tracker (S V : Type 0) : Type 0 where
  -- the registrar's state
  pub state : S
  pub active : Map V
  pub failed : Map String

unfoldable pub note_failure : {S V : Type 0} → String → String → Tracker S V → Tracker S V
unfolding put
note_failure key text t = record t { failed = put key text t.failed }

unfoldable pub forget_failure : {S V : Type 0} → String → Tracker S V → Tracker S V
unfolding delete
forget_failure key t = record t { failed = delete key t.failed }

-- The failures of the keys that are seen.
unfoldable pub keep_seen : List String → Map String → Map String
unfolding contains
keep_seen seen [] = []
keep_seen seen ((k, v) ∷ m) =
    let rest = keep_seen seen m in if contains seen k then (k, v) ∷ rest else rest

module _ {S D V : Type 0} (reg : Registrar S D V String) where
  unfoldable pub drop : String → Tracker S V → Tracker S V
  unfolding delete
  drop key t = record t { state = reg.deregister key t.state; active = delete key t.active }

  -- Registers a key that is not active; a failure's text is kept behind the prefix.
  unfoldable pub enlist : (String → String) → String → D → V → Tracker S V → Tracker S V
  unfolding put delete note_failure
  enlist describe key d v t =
      let (s, r) = reg.register key d t.state in
      elim r [
        | some e ↦ note_failure key (describe e) (record t { state = s })
        | none ↦ record { state = s; active = put key v t.active; failed = delete key t.failed }
      ]

  -- Registers a key unless it is registered like that already. A backend that moved is dropped before the
  -- new registration is attempted.
  unfoldable pub settle :
      (V → V → Bool) → (String → String) → String → D → V → Tracker S V → Tracker S V
  unfolding lookup enlist drop
  settle same describe key d v t = elim (lookup key t.active) [
    | none ↦ enlist describe key d v t
    | some prev ↦ if same prev v then t else enlist describe key d v (drop key t)
  ]

  -- The loop over the active entries.
  unfoldable pub drop_unseen : List String → Map V → Tracker S V → Tracker S V
  unfolding contains drop
  drop_unseen seen [] t = t
  drop_unseen seen ((k, v) ∷ es) t =
      let t' : Tracker S V = if contains seen k then t else drop k t in drop_unseen seen es t'

  unfoldable pub remove_missing : List String → Tracker S V → Tracker S V
  unfolding drop_unseen keep_seen
  remove_missing seen t =
      let t' = drop_unseen seen t.active t in record t' { failed = keep_seen seen t'.failed }
