-- ===== src/Certs/Loop/Laws.antt =====
-- The event loop sweeps when a certificate has changed, and once more at the end.
use tsserve.Base.{
  String, ◌≡◌, refl, ap, ◌∙◌, Bool, true, false, none, some, List, [], ◌∷◌, ◌++◌, All, contains, ok,
  arith, if◌then◌else◌,
}
use tsserve.Certs.Names.{Syncer, is_cert_file, object_key}
use tsserve.Certs.Contract.{Contract}
use tsserve.Certs.Hydrate.{S3Api}
use tsserve.Certs.Sweep.{Scan, sync_all}
use tsserve.Certs.Sweep.Stored.{regular, sync_all-accepted}
use tsserve.Certs.Loop.{
  Op, Input, canceled, changed, events_closed, errors_closed, watch_error, fired, State,
  is_cert_event, receive, turn, turns, run,
}

-- The inputs that end the loop.
abbrev pub is_last_input : Input → Bool
is_last_input (canceled scan) = true
is_last_input (changed op path) = false
is_last_input events_closed = true
is_last_input errors_closed = true
is_last_input (watch_error e) = false
is_last_input (fired ctx_done scan) = false

-- Inputs between which a sweep that is asked for stays so.
abbrev pub is_quiet : Input → Bool
is_quiet (canceled scan) = false
is_quiet (changed op path) = true
is_quiet events_closed = false
is_quiet errors_closed = false
is_quiet (watch_error e) = true
is_quiet (fired ctx_done scan) = ctx_done

module _ {B : Type 0} (api : S3Api B) (s : Syncer) where
  pub turns-append :
      (xs ys : List Input) (st : State B)
      → turns api s (xs ++ ys) st ≡ turns api s ys (turns api s xs st)
  unfolding turns
  turns-append [] ys st = refl
  turns-append (x ∷ xs) ys st = turns-append xs ys (turn api s x st)

  receive-running :
      (i : Input) (st : State B)
      → is_last_input i ≡ false
      → (receive api s i st).returned ≡ st.returned
  unfolding receive
  receive-running (canceled scan) st h = absurd (ground arith)
  receive-running (changed op path) st h = refl
  receive-running events_closed st h = absurd (ground arith)
  receive-running errors_closed st h = absurd (ground arith)
  receive-running (watch_error e) st h = refl
  receive-running (fired ctx_done scan) st h = ground arith

  turn-running :
      (i : Input) (st : State B) → st.returned ≡ false → turn api s i st ≡ receive api s i st
  unfolding turn
  turn-running i st going = ap (λ r. if r then st else receive api s i st) going

  turns-running :
      (is : List Input) (st : State B)
      → All (λ i. is_last_input i ≡ false) is
      → st.returned ≡ false
      → (turns api s is st).returned ≡ false
  unfolding turns
  turns-running [] st all going = going
  turns-running (i ∷ is) st all going =
      turns-running is (turn api s i st) all.1
        (ap (λ t. t.returned) (turn-running i st going) ∙ (receive-running i st all.0 ∙ going))

  turns-snoc :
      (is : List Input) (i : Input) (st : State B)
      → All (λ i. is_last_input i ≡ false) is
      → st.returned ≡ false
      → turns api s (is ++ i ∷ []) st ≡ receive api s i (turns api s is st)
  unfolding turns
  turns-snoc is i st all going =
      turns-append is (i ∷ []) st
      ∙ turn-running i (turns api s is st) (turns-running is st all going)

  abbrev pub start : B → State B
  start b = record { store = b; pending = false; returned = false }

  -- While the loop runs, the end of the context sweeps the directory once more, on the bucket as it stands, and ends the
  -- loop without an error.
  pub run-canceled :
      (is : List Input) (scan : Scan) (b : B)
      → s.watching ≡ true
      → All (λ i. is_last_input i ≡ false) is
      → (run api s (is ++ canceled scan ∷ []) b).0 ≡ none
        × ((run api s (is ++ canceled scan ∷ []) b).1.store
            ≡ (sync_all api s scan (run api s is b).1.store).0)
        × ((run api s (is ++ canceled scan ∷ []) b).1.returned ≡ true)
  unfolding run receive
  run-canceled is scan b watching all =
      let last = turns-snoc is (canceled scan) (start b) all refl in
      (rw watching refl, rw (watching, last) refl, rw (watching, last) refl)

  -- The state of a loop that owes a sweep.
  abbrev active : B → State B
  active b = record { store = b; pending = true; returned = false }

  turn-quiet : (i : Input) (b : B) → is_quiet i ≡ true → turn api s i (active b) ≡ active b
  unfolding turn receive
  turn-quiet (canceled scan) b h = absurd (ground arith)
  turn-quiet (changed op path) b h = refl
  turn-quiet events_closed b h = absurd (ground arith)
  turn-quiet errors_closed b h = absurd (ground arith)
  turn-quiet (watch_error e) b h = refl
  turn-quiet (fired ctx_done scan) b h = rw h refl

  turns-quiet :
      (is : List Input) (b : B)
      → All (λ i. is_quiet i ≡ true) is
      → turns api s is (active b) ≡ active b
  unfolding turns
  turns-quiet [] b all = refl
  turns-quiet (i ∷ is) b all = ap (turns api s is) (turn-quiet i b all.0) ∙ turns-quiet is b all.1

  turn-changed :
      (op : Op) (path : String) (st : State B)
      → is_cert_event op path ≡ true
      → st.returned ≡ false
      → turn api s (changed op path) st ≡ active st.store
  unfolding turn receive
  turn-changed op path st event going = ground (arith, event, going)

  turns-fired :
      (quiet : List Input) (scan : Scan) (b : B)
      → All (λ i. is_quiet i ≡ true) quiet
      → (turns api s (quiet ++ fired false scan ∷ []) (active b)).store ≡ (sync_all api s scan b).0
  unfolding turns turn receive
  turns-fired quiet scan b all =
      rw (turns-append quiet (fired false scan ∷ []) (active b), turns-quiet quiet b all) refl

  -- A certificate's change is swept when the timer next fires in a live context, whatever other changes and errors come
  -- between.
  pub run-fired :
      (is quiet : List Input) (op : Op) (path : String) (scan : Scan) (b : B)
      → s.watching ≡ true
      → All (λ i. is_last_input i ≡ false) is
      → is_cert_event op path ≡ true
      → All (λ i. is_quiet i ≡ true) quiet
      → (run api s (is ++ changed op path ∷ (quiet ++ fired false scan ∷ [])) b).1.store
        ≡ (sync_all api s scan (run api s is b).1.store).0
  unfolding run turns
  run-fired is quiet op path scan b watching all event rests =
      let mid = turns api s is (start b) in
      let later = turns-append is (changed op path ∷ (quiet ++ fired false scan ∷ [])) (start b) in
      let owed = turn-changed op path mid event (turns-running is (start b) all refl) in
      let rest = quiet ++ fired false scan ∷ [] in
      rw (watching, later)
        (ap (λ st. (turns api s rest st).store) owed ∙ turns-fired quiet scan mid.store rests)

module _ {B : Type 0} (api : S3Api B) (c : Contract api) (s : Syncer) where
  -- A certificate that tsnet has written when the context ends is in the bucket when the loop returns, which it does
  -- without an error: each regular certificate file that the final sweep lists and reads is stored when the store
  -- takes it, whatever the loop received before and whatever happens to the other files.
  pub run-stored :
      (is : List Input) (scan : Scan) (es : List (String × Bool)) (j body : String) (b : B)
      → s.watching ≡ true
      → All (λ i. is_last_input i ≡ false) is
      → scan.listing ≡ ok es
      → contains (regular es) j ≡ true
      → is_cert_file j ≡ true
      → scan.read j ≡ some (ok body)
      → ((b : B) → (api.put_object s.bucket (object_key s j) body b).1 ≡ none)
      → ((run api s (is ++ canceled scan ∷ []) b).0 ≡ none)
        × ((run api s (is ++ canceled scan ∷ []) b).1.returned ≡ true)
        × (c.object s.bucket (run api s (is ++ canceled scan ∷ []) b).1.store (object_key s j)
            ≡ some body)
  run-stored is scan es j body b watching all entries h cert read accepts =
      let (fine, at, done) = run-canceled api s is scan b watching all in
      (
        fine,
        done,
        ap (λ store. c.object s.bucket store (object_key s j)) at
            ∙ sync_all-accepted api c s scan es j body (run api s is b).1.store entries h cert read
                accepts,
      )

  -- A certificate's change is in the bucket once the timer has fired in a live context, whatever other changes and
  -- errors came between: each regular certificate file that the sweep lists and reads is stored when the store takes it.
  pub run-fired_stored :
      (is quiet : List Input) (op : Op) (path : String) (scan : Scan) (es : List (String × Bool))
      (j body : String) (b : B)
      → s.watching ≡ true
      → All (λ i. is_last_input i ≡ false) is
      → is_cert_event op path ≡ true
      → All (λ i. is_quiet i ≡ true) quiet
      → scan.listing ≡ ok es
      → contains (regular es) j ≡ true
      → is_cert_file j ≡ true
      → scan.read j ≡ some (ok body)
      → ((b : B) → (api.put_object s.bucket (object_key s j) body b).1 ≡ none)
      → c.object s.bucket
          (run api s (is ++ changed op path ∷ (quiet ++ fired false scan ∷ [])) b).1.store
          (object_key s j)
        ≡ some body
  run-fired_stored is quiet op path scan es j body b watching all event rests entries h cert read
        accepts =
      ap (λ store. c.object s.bucket store (object_key s j))
        (run-fired api s is quiet op path scan b watching all event rests)
      ∙ sync_all-accepted api c s scan es j body (run api s is b).1.store entries h cert read
          accepts
