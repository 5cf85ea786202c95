-- ===== src/Certs/Names.antt =====
-- certsync/certsync.go: the configuration, the names of the mirrored files and their object keys.
use Prim.Native.String.{◌++◌ as ◌+++◌}
use tsserve.Base.{
  String, ◌≡◌, refl, arith, Bool, true, false, not, ◌&&◌, ◌||◌, Option, none, some, List, [], ◌∷◌,
  Map, Result, ok, err, ◌==◌, if◌then◌else◌,
}
use tsserve.Base.Text.{trim_prefix, has_suffix}

-- The errors, with what the wrapped error says.
pub data SyncError : Type 0 where
  dir_required bucket_required watch_called_twice run_before_watch : SyncError
  create_dir_failed watcher_failed read_dir_failed : String → SyncError
  list_failed : String → String → String → SyncError
  watch_failed get_failed read_failed write_failed rename_failed put_failed :
      String → String → SyncError

pub record Config : Type 0 where
  pub dir : String
  pub bucket : String
  pub prefix : String

-- `watching` tells whether the watcher is set.
pub record Syncer : Type 0 where
  pub dir : String
  pub bucket : String
  pub prefix : String
  pub watching : Bool

unfoldable pub new_prefix : String → String
unfolding trim_prefix has_suffix
new_prefix given =
    let prefix = trim_prefix "/" given in
    if not (prefix == "") && not (has_suffix "/" prefix) then prefix +++ "/" else prefix

created : Config → Option String → Result SyncError Syncer
unfolding new_prefix
created cfg (some e) = err (create_dir_failed e)
created cfg none = ok (record {
  dir = cfg.dir;
  bucket = cfg.bucket;
  prefix = new_prefix cfg.prefix;
  watching = false;
})

-- `New`, from the error of `os.MkdirAll`.
unfoldable pub new_syncer : Config → Option String → Result SyncError Syncer
unfolding created
new_syncer cfg made =
    if cfg.dir == ""
    then err dir_required
    else if cfg.bucket == ""
    then err bucket_required
    else created cfg made

unfoldable pub is_cert_file : String → Bool
unfolding has_suffix
is_cert_file name =
    name == "acme-account.key.pem" || (has_suffix ".crt" name || has_suffix ".key" name)

unfoldable pub object_key : Syncer → String → String
object_key s name = s.prefix +++ name

-- What stands under a bare name in the certificate directory.
pub data Entry : Type 0 where
  folder : Entry
  file : String → Entry

abbrev pub Dir : Type 0
Dir = Map Entry

abbrev pub add_error : Option SyncError → List SyncError → List SyncError
add_error none errs = errs
add_error (some e) errs = e ∷ errs

pub no_error :
    (e : Option SyncError) (errs : List SyncError)
    → add_error e errs ≡ []
    → (e ≡ none) × (errs ≡ [])
no_error none errs h = (refl, h)
no_error (some e) errs h = absurd (ground arith)

-- `Watch`, from the errors of `fsnotify.NewWatcher` and of `Add`.
watched : Syncer → Option String → Option String → Syncer × Option SyncError
watched s (some e) added = (s, some (watcher_failed e))
watched s none (some e) = (s, some (watch_failed s.dir e))
watched s none none = (record s { watching = true }, none)

unfoldable pub watch : Syncer → Option String → Option String → Syncer × Option SyncError
unfolding watched
watch s made added = if s.watching then (s, some watch_called_twice) else watched s made added
