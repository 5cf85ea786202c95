-- ===== src/Ecs/Tasks.antt =====
-- ecs/watcher.go: the tasks of a cluster, their listing in batches, and the keys and addresses of their containers.
pub mod Chunks
use Prim.Native.String.{◌++◌}
use tsserve.Base.{
  ℕ, zero, suc, String, Bool, false, Option, none, some, List, [], ◌∷◌, Result, ok, err, ◌==◌,
  length,
}
use tsserve.Base.Text.{itoa}
use tsserve.Discovery.Paging.{paginate}
use tsserve.Ecs.Types.{Api, Task}

unfoldable pub registration_key : String → String → String
registration_key task_arn container_name = task_arn ++ "#" ++ container_name

-- `fmt.Sprintf("%s:%d", host, port)`
unfoldable pub backend_addr : String → ℕ → String
unfolding itoa
backend_addr host port = host ++ ":" ++ itoa port

-- The first `size` elements and the others.
split_at : {A : Type 0} → ℕ → List A → List A × List A
split_at n [] = ([], [])
split_at zero (x ∷ xs) = ([], x ∷ xs)
split_at (suc n) (x ∷ xs) = let (front, back) = split_at n xs in (x ∷ front, back)

chunk_within : {A : Type 0} → ℕ → List A → ℕ → List (List A)
unfolding split_at
chunk_within zero s size = []
chunk_within (suc fuel) [] size = []
chunk_within (suc fuel) (x ∷ s) size =
    let (front, back) = split_at size (x ∷ s) in front ∷ chunk_within fuel back size

-- The loop of `chunk` advances by at least one element in a pass.
unfoldable pub chunk : {A : Type 0} → List A → ℕ → List (List A)
unfolding chunk_within
chunk s zero = []
chunk s (suc n) = chunk_within (length s) s (suc n)

-- `ListTasks`, at a token.
abbrev pub task_page : Api → Option String → Result String (List String × Option String)
task_page api token = elim (api.list_tasks token) [
  | err e ↦ err e
  | ok page ↦ ok (page.task_arns, page.next_token)
]

unfoldable pub list_all_task_arns : Api → ℕ → Option (Result String (List String))
unfolding paginate
list_all_task_arns api fuel = paginate (task_page api) fuel none []

pub data CycleError : Type 0 where
  identity list_tasks describe_tasks : String → CycleError

unfoldable pub is_running : Task → Bool
is_running task = elim task.last_status [ none ↦ false | some s ↦ s == "RUNNING" ]
