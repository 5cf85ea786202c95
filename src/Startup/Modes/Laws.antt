-- ===== src/Startup/Modes/Laws.antt =====
-- Which readers the mode of ECS starts.
use tsserve.Base.{
  ℕ, suc, ◌+◌, ◌≡◌, refl, ap, ◌∙◌, inl, inr, String, Option, some, List, [], ◌∷◌, length, All,
  Result, ok, ◌==◌, eq_iff, if◌then◌else◌, Bool-cases,
}
use tsserve.Ecs.Registry.{Registry}
use tsserve.Ecs.Account as EcsAccount
use tsserve.Ecs.Account.Laws.{Complete, plan_lem}
use tsserve.Lambda.Account as LambdaAccount
use tsserve.Startup.Readers.{LoadOption, load_options}
use tsserve.Startup.Readers.EcsMode.{ecs_context}
use tsserve.Startup.Readers.EcsMode.Enabled.{handles, is_ok, enabled, build_ecs_watchers_lem}
use tsserve.Startup.Modes.{
  StartError, Duration, parse_interval, Started, ecs_watchers, ecs_defaults, ecs_error, start_ecs,
  is_configured,
}

-- The handles of the descriptions whose configuration loads, where the first has the handle `h`.
abbrev pub loaded :
    {C : Type 0}
    → (List LoadOption → Result String C)
    → ℕ
    → List EcsAccount.WatcherSpec
    → List (Option ℕ)
loaded load h [] = []
loaded load h (spec ∷ specs) =
    let rest = loaded load (suc h) specs in
    if is_ok (load (load_options (ecs_context spec))) then some h ∷ rest else rest

-- The mode has started, with so many readers and with watchers of these.
abbrev pub StartsReaders : Result StartError (Registry × Started) → ℕ → List (Option ℕ) → Type 0
StartsReaders (ok (g, ecs_watchers ws)) n hs = (length g ≡ n) × (handles ws ≡ hs)
StartsReaders _ n hs = ⊥

enabled-loaded :
    {C : Type 0} (load : List LoadOption → Result String C) (h : ℕ)
    (specs : List EcsAccount.WatcherSpec)
    → All Complete specs
    → enabled load h specs ≡ loaded load h specs
enabled-loaded load h [] c = refl
enabled-loaded load h (spec ∷ specs) (c, cs) = elim (Bool-cases (spec.cluster == "")) [
  | inl missing ↦ absurd (c.0 ((eq_iff spec.cluster "").0 missing))
  | inr given ↦ elim (Bool-cases (is_ok (load (load_options (ecs_context spec))))) [
    | inl loads ↦
        rw (given, loads) (ap (λ rest. some h ∷ rest) (enabled-loaded load (suc h) specs cs))
    | inr fails ↦ rw (given, fails) (enabled-loaded load (suc h) specs cs)
  ]
]

-- When the intervals and the accounts parse and the accounts make a plan, the mode of ECS starts: every description of
-- the plan has a reader in the table, and a watcher is started for exactly those whose AWS configuration loads. An
-- identity that cannot be resolved yet, or that another reader has, keeps no reader from starting.
pub start_ecs_lem :
    (env : String → String) (parse_duration : String → Result String Duration)
    (docker_client_error : Option String)
    (unmarshal_ecs : String → Result String (List EcsAccount.Account))
    (unmarshal_lambda : String → Result String (List LambdaAccount.Account)) {C : Type 0}
    (load : List LoadOption → Result String C) (caller : C → Result String (Option String))
    (poll retry : ℕ) (accounts : List EcsAccount.Account) (specs : List EcsAccount.WatcherSpec)
    (g : Registry)
    → parse_interval env parse_duration "TSSERVE_ECS_POLL_INTERVAL" ≡ ok poll
    → parse_interval env parse_duration "TSSERVE_ECS_RETRY_INTERVAL" ≡ ok retry
    → EcsAccount.parse_accounts unmarshal_ecs (env "TSSERVE_ECS_ACCOUNTS") ≡ ok accounts
    → EcsAccount.plan accounts (ecs_defaults env poll) ≡ ok specs
    → StartsReaders
        (start_ecs env parse_duration docker_client_error unmarshal_ecs unmarshal_lambda load caller
          g)
        (length g + length specs)
        (loaded load (length g) specs)
unfolding start_ecs ecs_error
start_ecs_lem env parse_duration docker_client_error unmarshal_ecs unmarshal_lambda load caller poll
      retry accounts specs g polls retries parses plans =
    let (n, on) = build_ecs_watchers_lem load caller (is_configured accounts) retry specs g in
    let (_, complete, _) = plan_lem accounts _ specs plans in
    rw (polls, retries, parses, plans) (n, on ∙ enabled-loaded load (length g) specs complete)
