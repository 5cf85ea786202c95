-- ===== src/Certs/Loop/Mirrored.antt =====
-- What the event loop may write into the bucket.
use tsserve.Base.{
  String, ◌≡◌, refl, sym, subst, ◌∙◌, ◌⊎◌, inl, inr, not, ◌||◌, Option, List, [], ◌∷◌, Bool-cases,
}
use tsserve.Certs.Names.{Syncer}
use tsserve.Certs.Contract.{Contract}
use tsserve.Certs.Hydrate.{S3Api}
use tsserve.Certs.Sweep.Mirrored.{Mirrored, sync_all-Touched}
use tsserve.Certs.Loop.{
  Input, canceled, changed, events_closed, errors_closed, watch_error, fired, State, receive, turn,
  turns, run,
}
use tsserve.Certs.Loop.Laws.{start}

-- The object under this key mirrors its file as one of the inputs' scans read it.
abbrev pub MirroredBy : Syncer → List Input → String → Option String → Type 0
MirroredBy s [] k o = ⊥
MirroredBy s (canceled scan ∷ is) k o = Mirrored s scan k o ⊎ MirroredBy s is k o
MirroredBy s (fired ctx_done scan ∷ is) k o = Mirrored s scan k o ⊎ MirroredBy s is k o
MirroredBy s (_ ∷ is) k o = MirroredBy s is k o

module _ {B : Type 0} (api : S3Api B) (c : Contract api) (s : Syncer) where
  -- After one input.
  receive-Touched :
      (i : Input) (k : String) (st : State B)
      → (c.object s.bucket (receive api s i st).store k ≡ c.object s.bucket st.store k)
        ⊎ MirroredBy s (i ∷ []) k (c.object s.bucket (receive api s i st).store k)
  unfolding receive
  receive-Touched (canceled scan) k st = elim (sync_all-Touched api c s scan k st.store) [
    | inl same ↦ inl same
    | inr mirrored ↦ inr (inl mirrored)
  ]
  receive-Touched (changed op path) k st = inl refl
  receive-Touched events_closed k st = inl refl
  receive-Touched errors_closed k st = inl refl
  receive-Touched (watch_error e) k st = inl refl
  receive-Touched (fired ctx_done scan) k st = elim (Bool-cases (not st.pending || ctx_done)) [
    | inl idle ↦ inl (rw idle refl)
    | inr due ↦ simp due (elim (sync_all-Touched api c s scan k st.store) [
      | inl same ↦ inl same
      | inr mirrored ↦ inr (inl mirrored)
    ])
  ]

  MirroredBy-cons :
      (i : Input) (is : List Input) (k : String) (o : Option String)
      → MirroredBy s is k o
      → MirroredBy s (i ∷ is) k o
  MirroredBy-cons (canceled scan) is k o h = inr h
  MirroredBy-cons (changed op path) is k o h = h
  MirroredBy-cons events_closed is k o h = h
  MirroredBy-cons errors_closed is k o h = h
  MirroredBy-cons (watch_error e) is k o h = h
  MirroredBy-cons (fired ctx_done scan) is k o h = inr h

  MirroredBy-first :
      (i : Input) (is : List Input) (k : String) (o o' : Option String)
      → o' ≡ o
      → MirroredBy s (i ∷ []) k o
      → MirroredBy s (i ∷ is) k o'
  MirroredBy-first (canceled scan) is k o o' e (inl h) = inl (subst (Mirrored s scan k) (sym e) h)
  MirroredBy-first (canceled scan) is k o o' e (inr h) = absurd h
  MirroredBy-first (changed op path) is k o o' e h = absurd h
  MirroredBy-first events_closed is k o o' e h = absurd h
  MirroredBy-first errors_closed is k o o' e h = absurd h
  MirroredBy-first (watch_error x) is k o o' e h = absurd h
  MirroredBy-first (fired ctx_done scan) is k o o' e (inl h) =
      inl (subst (Mirrored s scan k) (sym e) h)
  MirroredBy-first (fired ctx_done scan) is k o o' e (inr h) = absurd h

  turn-Touched :
      (i : Input) (k : String) (st : State B)
      → (c.object s.bucket (turn api s i st).store k ≡ c.object s.bucket st.store k)
        ⊎ MirroredBy s (i ∷ []) k (c.object s.bucket (turn api s i st).store k)
  unfolding turn
  turn-Touched i k st = elim (Bool-cases st.returned) [
    | inl done ↦ inl (rw done refl)
    | inr going ↦ simp going (receive-Touched i k st)
  ]

  turns-Mirrored :
      (is : List Input) (k : String) (st : State B)
      → (c.object s.bucket (turns api s is st).store k ≡ c.object s.bucket st.store k)
        ⊎ MirroredBy s is k (c.object s.bucket (turns api s is st).store k)
  unfolding turns
  turns-Mirrored [] k st = inl refl
  turns-Mirrored (i ∷ is) k st =
      let st' = turn api s i st in
      elim (turns-Mirrored is k st') [
        | inr later ↦
            inr (MirroredBy-cons i is k (c.object s.bucket (turns api s is st').store k) later)
        | inl kept ↦ elim (turn-Touched i k st) [
          | inl same ↦ inl (kept ∙ same)
          | inr now ↦ inr (
              MirroredBy-first i is k (c.object s.bucket st'.store k)
                (c.object s.bucket (turns api s is st').store k) kept now)
        ]
      ]

  -- Whatever the loop receives, and whatever fails, every object of the bucket is what it was before the loop, or it is
  -- under the key of a certificate file and has the body that one of the sweeps read from that file: the loop writes
  -- nothing else, and deletes nothing.
  pub run-Mirrored :
      (is : List Input) (k : String) (b : B)
      → (c.object s.bucket (run api s is b).1.store k ≡ c.object s.bucket b k)
        ⊎ MirroredBy s is k (c.object s.bucket (run api s is b).1.store k)
  unfolding run
  run-Mirrored is k b = elim (Bool-cases s.watching) [
    | inl on ↦ simp on (turns-Mirrored is k (start api s b))
    | inr off ↦ inl (rw off refl)
  ]
