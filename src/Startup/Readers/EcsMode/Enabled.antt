-- ===== src/Startup/Readers/EcsMode/Enabled.antt =====
-- Which readers are started.
use tsserve.Base.{
  ℕ, zero, suc, ◌+◌, String, ◌≡◌, refl, sym, ap, ◌∙◌, inl, inr, Bool, true, false, not, ◌&&◌,
  Option, some, List, [], ◌∷◌, ◌++◌, length, length-append, append_assoc, append_nil, Result, ok,
  err, ◌==◌, if◌then◌else◌, arith, Bool-cases,
}
use tsserve.Proxy.Backend.{Origin}
use tsserve.Ecs.Registry.{ReaderStatus, Registry, add, modify, note_error, set_account}
use tsserve.Ecs.Account as EcsAccount
use tsserve.Ecs.Watcher as Ecs
use tsserve.Startup.Readers.{
  LoadOption, load_options, account_of, Identified, identify, resolve_now, Built,
}
use tsserve.Startup.Readers.EcsMode.{
  ecs_context, ecs_constructed, ecs_loaded, build_ecs_reader, build_ecs_from, build_ecs_watchers,
}

length-modify :
    (f : ReaderStatus → ReaderStatus) (i : ℕ) (g : Registry) → length (modify f i g) ≡ length g
unfolding modify
length-modify f i [] = refl
length-modify f zero (s ∷ g) = refl
length-modify f (suc i) (s ∷ g) = omega (arith, length-modify f i g)

-- The handles of the readers whose watchers are started.
abbrev pub handles : List (Ecs.Watcher Origin × Bool) → List (Option ℕ)
handles [] = []
handles ((w, is_lazy) ∷ ws) = w.cfg.reader ∷ handles ws

handles-append :
    (xs ys : List (Ecs.Watcher Origin × Bool)) → handles (xs ++ ys) ≡ handles xs ++ handles ys
handles-append [] ys = refl
handles-append (x ∷ xs) ys = cc (handles-append xs ys)

abbrev pub is_ok : {C : Type 0} → Result String C → Bool
is_ok (ok c) = true
is_ok (err e) = false

-- The SDK loads the reader's configuration, and the reader has a cluster.
abbrev pub can_start :
    {C : Type 0} → (List LoadOption → Result String C) → EcsAccount.WatcherSpec → Bool
can_start load spec = is_ok (load (load_options (ecs_context spec))) && not (spec.cluster == "")

-- The handles of the descriptions that can start, where the first has the handle `h`.
abbrev pub enabled :
    {C : Type 0}
    → (List LoadOption → Result String C)
    → ℕ
    → List EcsAccount.WatcherSpec
    → List (Option ℕ)
enabled load h [] = []
enabled load h (spec ∷ specs) =
    let rest = enabled load (suc h) specs in if can_start load spec then some h ∷ rest else rest

length-resolve_now :
    (display : String) (h : ℕ) (r : Result String String) (ids : List String) (g : Registry)
    → length (resolve_now display h r ids g).readers ≡ length g
unfolding resolve_now note_error set_account
length-resolve_now display h (err e) ids g = length-modify _ h g
length-resolve_now display h (ok account) ids g = length-modify _ h g

length-identify :
    (derive_names : Bool) (name display : String) (h : ℕ) (r : Result String String)
    (ids : List String) (g : Registry)
    → length (identify derive_names name display h r ids g).readers ≡ length g
unfolding identify
length-identify derive_names name display h r ids g =
    elim (Bool-cases (name == "" && derive_names)) [
      | inl now ↦ rw now (length-resolve_now display h r ids g)
      | inr later ↦ rw later refl
    ]

module _ {C : Type 0} (load : List LoadOption → Result String C)
    (caller : C → Result String (Option String)) (derive_names : Bool) (retry_interval : ℕ) where
  -- A pass adds a reader, and starts its watcher when it can.
  abbrev Passed : Bool → ℕ → Built (Ecs.Watcher Origin) → Built (Ecs.Watcher Origin) → Type 0
  Passed starts h st st' =
      (length st'.readers ≡ suc h)
      × (handles st'.watchers
          ≡ (if starts then handles st.watchers ++ some h ∷ [] else handles st.watchers))

  constructed-Passed :
      (id : Identified) (h : ℕ) (cfg : Ecs.Config) (o : Origin) (st : Built (Ecs.Watcher Origin))
      → length id.readers ≡ suc h
      → cfg.reader ≡ some h
      → Passed
          (not (cfg.cluster == ""))
          h
          st
          (ecs_constructed load caller derive_names retry_interval id h (Ecs.new_watcher cfg o) st)
  unfolding ecs_constructed Ecs.new_watcher note_error
  constructed-Passed id h cfg o st n own = elim (Bool-cases (cfg.cluster == "")) [
    | inl missing ↦ (rw missing (length-modify _ h id.readers ∙ n), rw missing refl)
    | inr given ↦ (
      rw given n,
      rw given
          (handles-append st.watchers _ ∙ ap (λ reader. handles st.watchers ++ reader ∷ []) own),
    )
  ]

  loaded-Passed :
      (spec : EcsAccount.WatcherSpec) (display : String) (h : ℕ) (r : Result String C)
      (g : Registry) (st : Built (Ecs.Watcher Origin))
      → length g ≡ suc h
      → Passed
          (is_ok r && not (spec.cluster == ""))
          h
          st
          (ecs_loaded load caller derive_names retry_interval spec display h r g st)
  unfolding ecs_loaded note_error
  loaded-Passed spec display h (err e) g st n = (length-modify _ h g ∙ n, refl)
  loaded-Passed spec display h (ok aws) g st n =
      let id =
        identify derive_names spec.name display h (account_of (caller aws)) st.identities g in
      constructed-Passed id h
        (record {
          cluster = spec.cluster;
          poll_interval = spec.poll_interval;
          retry_interval = retry_interval;
          account = id.account;
          reader = some h;
        })
        (record { account = id.account; cluster = spec.cluster; region = spec.region }) st
        (length-identify derive_names spec.name display h (account_of (caller aws)) st.identities g
          ∙ n)
        refl

  build_ecs_reader-Passed :
      (i : ℕ) (spec : EcsAccount.WatcherSpec) (st : Built (Ecs.Watcher Origin))
      → Passed
          (can_start load spec)
          (length st.readers)
          st
          (build_ecs_reader load caller derive_names retry_interval i spec st)
  unfolding build_ecs_reader add
  build_ecs_reader-Passed i spec st =
      loaded-Passed spec _ (length st.readers) (load (load_options (ecs_context spec))) _ st
        (omega (arith, length-append {0} st.readers))

  enabled-cons :
      (starts : Bool) (before after : List (Option ℕ)) (h h' : ℕ)
      (specs : List EcsAccount.WatcherSpec)
      → h' ≡ suc h
      → after ≡ (if starts then before ++ some h ∷ [] else before)
      → after ++ enabled load h' specs
        ≡ before
          ++ (if starts then some h ∷ enabled load (suc h) specs else enabled load (suc h) specs)
  enabled-cons true before after h h' specs n on =
      rw (n, on) (append_assoc before (some h ∷ []) (enabled load (suc h) specs))
  enabled-cons false before after h h' specs n on = rw (n, on) refl

  build_ecs_from-enabled :
      (i : ℕ) (specs : List EcsAccount.WatcherSpec) (st : Built (Ecs.Watcher Origin))
      → (length (build_ecs_from load caller derive_names retry_interval i specs st).readers
          ≡ length st.readers + length specs)
        × (handles (build_ecs_from load caller derive_names retry_interval i specs st).watchers
            ≡ handles st.watchers ++ enabled load (length st.readers) specs)
  unfolding build_ecs_from
  build_ecs_from-enabled i [] st = (omega arith, sym (append_nil (handles st.watchers)))
  build_ecs_from-enabled i (spec ∷ specs) st =
      let st' = build_ecs_reader load caller derive_names retry_interval i spec st in
      let (n, on) = build_ecs_reader-Passed i spec st in
      let (m, rest) = build_ecs_from-enabled (suc i) specs st' in
      (
        omega (arith, n, m),
        rest
            ∙ enabled-cons (can_start load spec) (handles st.watchers) (handles st'.watchers)
                (length st.readers) (length st'.readers) specs n on,
      )

  -- Every description gets a reader in the table, in order, and a watcher is started for exactly those whose
  -- configuration loads and which have a cluster: neither an identity that cannot be resolved nor one that is taken
  -- keeps a reader from being started.
  pub build_ecs_watchers_lem :
      (specs : List EcsAccount.WatcherSpec) (g : Registry)
      → (length (build_ecs_watchers load caller derive_names retry_interval specs g).readers
          ≡ length g + length specs)
        × (handles (build_ecs_watchers load caller derive_names retry_interval specs g).watchers
            ≡ enabled load (length g) specs)
  unfolding build_ecs_watchers
  build_ecs_watchers_lem specs g =
      build_ecs_from-enabled 0 specs (record { readers = g; identities = []; watchers = [] })
