-- ===== src/Certs/Sweep.antt =====
-- `syncAll` and `upload` of certsync/certsync.go.
pub mod Laws
pub mod Stored
pub mod Mirrored
use tsserve.Base.{
  String, Bool, true, false, not, ◌||◌, Option, none, some, List, [], ◌∷◌, Result, ok, err,
  if◌then◌else◌,
}
use tsserve.Certs.Names.{
  Syncer, is_cert_file, object_key, Entry, folder, file, SyncError, read_failed, read_dir_failed,
  put_failed, add_error,
}
use tsserve.Certs.Hydrate.{S3Api}

-- What a sweep meets: the entries that `os.ReadDir` lists, with `IsDir`, and the outcome of each later `os.ReadFile`,
-- where `none` is `os.IsNotExist`. tsnet may write between the two.
pub record Scan : Type 0 where
  pub listing : Result String (List (String × Bool))
  pub read : String → Option (Result String String)

module _ {B : Type 0} (api : S3Api B) (s : Syncer) where
  pub stored : String → B × Option String → B × Option SyncError
  stored k (b, none) = (b, none)
  stored k (b, some e) = (b, some (put_failed k e))

  send : String → Option (Result String String) → B → B × Option SyncError
  unfolding stored object_key
  send name none b = (b, none)
  send name (some (err e)) b = (b, some (read_failed name e))
  send name (some (ok body)) b =
      stored (object_key s name) (api.put_object s.bucket (object_key s name) body b)

  unfoldable pub upload : Scan → String → B → B × Option SyncError
  unfolding send
  upload scan name b = send name (scan.read name) b

  -- The body of the loop over the entries.
  unfoldable pub sync_entry : Scan → String × Bool → B → B × Option SyncError
  unfolding upload is_cert_file
  sync_entry scan (name, is_dir) b =
      if is_dir || not (is_cert_file name) then (b, none) else upload scan name b

  unfoldable pub sync_entries : Scan → List (String × Bool) → B → B × List SyncError
  unfolding sync_entry
  sync_entries scan [] b = (b, [])
  sync_entries scan (e ∷ es) b =
      let step = sync_entry scan e b in
      let rest = sync_entries scan es step.0 in (rest.0, add_error step.1 rest.1)

  listed : Scan → Result String (List (String × Bool)) → B → B × List SyncError
  unfolding sync_entries
  listed scan (err e) b = (b, read_dir_failed e ∷ [])
  listed scan (ok entries) b = sync_entries scan entries b

  unfoldable pub sync_all : Scan → B → B × List SyncError
  unfolding listed
  sync_all scan b = listed scan scan.listing b
