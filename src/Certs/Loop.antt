-- ===== src/Certs/Loop.antt =====
-- `Run` of certsync/certsync.go: the event loop over the inputs that its `select` receives.
pub mod Laws
pub mod Mirrored
use tsserve.Base.{
  ℕ, String, Bool, true, false, not, ◌&&◌, ◌||◌, Option, none, some, List, [], ◌∷◌, ◌==◌,
  if◌then◌else◌,
}
use tsserve.Base.Text.{split}
use tsserve.Certs.Names.{Syncer, is_cert_file, SyncError, run_before_watch}
use tsserve.Certs.Hydrate.{S3Api}
use tsserve.Certs.Sweep.{Scan, sync_all}

-- The bits of fsnotify's `Op` that the loop tests.
pub record Op : Type 0 where
  pub create : Bool
  pub write : Bool
  pub rename : Bool

last_part : String → List String → String
last_part found [] = found
last_part found (p ∷ ps) = last_part (if p == "" then found else p) ps

-- `filepath.Base`.
unfoldable pub base_name : String → String
unfolding split last_part
base_name path = if path == "" then "." else last_part "/" (split b'/' path)

-- What the `select` receives: a timer that fires may find the context cancelled. A sweep meets a scan.
pub data Input : Type 0 where
  canceled : Scan → Input
  changed : Op → String → Input
  events_closed errors_closed : Input
  watch_error : String → Input
  fired : Bool → Scan → Input

pub record State (B : Type 0) : Type 0 where
  pub store : B
  pub pending : Bool
  pub returned : Bool

-- An event that asks for a sweep.
abbrev pub is_cert_event : Op → String → Bool
is_cert_event op path = (op.create || (op.write || op.rename)) && is_cert_file (base_name path)

module _ {B : Type 0} (api : S3Api B) (s : Syncer) where
  receive : Input → State B → State B
  unfolding sync_all is_cert_file base_name
  receive (canceled scan) st = record st {
    store = (sync_all api s scan st.store).0;
    returned = true;
  }
  receive (changed op path) st = record st { pending = st.pending || is_cert_event op path }
  receive events_closed st = record st { returned = true }
  receive errors_closed st = record st { returned = true }
  receive (watch_error e) st = st
  receive (fired ctx_done scan) st =
      if not st.pending || ctx_done
      then st
      else record st { store = (sync_all api s scan st.store).0; pending = false }

  -- One pass of the loop; after the return nothing is received.
  unfoldable pub turn : Input → State B → State B
  unfolding receive
  turn input st = if st.returned then st else receive input st

  unfoldable pub turns : List Input → State B → State B
  unfolding turn
  turns [] st = st
  turns (i ∷ is) st = turns is (turn i st)

  -- `Run`, which is refused without a watcher.
  unfoldable pub run : List Input → B → Option SyncError × State B
  unfolding turns
  run inputs b =
      let start : State B = record { store = b; pending = false; returned = false } in
      if s.watching
      then (none, turns inputs start)
      else (some run_before_watch, record start { returned = true })
