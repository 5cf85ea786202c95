-- ===== src/Ecs/Watcher/Listing.antt =====
-- A listing that ends is read to its end.
use tsserve.Base.{
  String, ◌≡◌, ◌≢◌, inl, inr, Option, none, some, List, [], length, Result, ok, arith, Option-cases,
}
use tsserve.Labels as Labels
use tsserve.Discovery.Registrar.{Registrar}
use tsserve.Discovery.Paging.{Pages, concat, paginate-Pages}
use tsserve.Ecs.Types.{Api}
use tsserve.Ecs.Tasks.{task_page, list_all_task_arns}
use tsserve.Ecs.Watcher.{Watcher, resolve_identity, cycle}

-- When the listing has finitely many pages, the loop reads all of them, in order, within as many passes.
pub list_all_task_arns_lem :
    (api : Api) (pages : List (List String))
    → Pages (task_page api) none pages
    → list_all_task_arns api (length pages) ≡ some (ok (concat pages))
unfolding list_all_task_arns
list_all_task_arns_lem api pages ends = paginate-Pages (task_page api) [] ends

-- When the listing has finitely many pages, a cycle given as many passes returns.
pub cycle-ne-none :
    {S : Type 0} (reg : Registrar S (Labels.ServiceDef × String) String String) (api : Api)
    (pages : List (List String)) (answer : Option (Result String String))
    (on_resolved : String → S → S) (w : Watcher S)
    → Pages (task_page api) none pages
    → cycle reg api (length pages) answer on_resolved w ≢ none
unfolding cycle
cycle-ne-none reg api pages answer on_resolved w ends stuck =
    elim (Option-cases (resolve_identity reg answer on_resolved w).1) [
      | inl f ↦ ground (arith, f, stuck, list_all_task_arns_lem api pages ends)
      | inr (e, f) ↦ ground (arith, f, stuck)
    ]
