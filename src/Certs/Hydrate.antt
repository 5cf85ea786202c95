-- ===== src/Certs/Hydrate.antt =====
-- `Hydrate` and `download` of certsync/certsync.go. The S3 client is the record `S3Api`; a failing call of the file
-- system is one that `Faults` names.
pub mod Disk
pub mod Restored
pub mod Passes
pub mod Effort
use Prim.Native.String.{◌++◌ as ◌+++◌}
use tsserve.Base.{
  ℕ, zero, suc, String, ◌≡◌, Bool, true, false, not, ◌||◌, Option, none, some, List, [], ◌∷◌, ◌++◌,
  lookup, put, delete, contains, All, Result, ok, err, ◌==◌, if◌then◌else◌,
}
use tsserve.Base.Text.{trim_prefix, has_prefix, contains_text}
use tsserve.Certs.Names.{
  Syncer, is_cert_file, Entry, folder, file, Dir, SyncError, list_failed, get_failed, read_failed,
  write_failed, rename_failed, add_error,
}

-- A page of `ListObjectsV2`.
pub record Listing : Type 0 where
  pub contents : List String
  pub is_truncated : Bool
  pub next : Option String

-- The client on the state `B` of the store: a call takes the bucket first. `get_object` answers the body, whose reading
-- may fail in turn.
pub record S3Api (B : Type 0) : Type 0 where
  pub list_objects : String → String → Option String → B → Result String Listing
  pub get_object : String → String → B → Result String (Result String String)
  pub put_object : String → String → String → B → B × Option String

-- What a failing `os.WriteFile` leaves under the name, if it got so far as to open it, and its error.
pub record WriteFault : Type 0 where
  pub left : Option String
  pub cause : String

pub record Faults : Type 0 where
  pub write_fault : String → Option WriteFault
  pub rename_fault : String → Option String

leave : String → Option String → Dir → Dir
unfolding put
leave name none dir = dir
leave name (some part) dir = put name (file part) dir

pub write_as : String → String → Dir → Option Entry → Option WriteFault → Dir × Option String
unfolding put leave
write_as name body dir (some folder) fault = (dir, some "is a directory")
write_as name body dir old (some fault) = (leave name fault.left dir, some fault.cause)
write_as name body dir old none = (put name (file body) dir, none)

-- `os.WriteFile`.
unfoldable pub write_file : Faults → String → String → Dir → Dir × Option String
unfolding lookup write_as
write_file f name body dir = write_as name body dir (lookup name dir) (f.write_fault name)

rename_as :
    String → String → Dir → Option Entry → Option Entry → Option String → Dir × Option String
unfolding put delete
rename_as src dst dir none old fault = (dir, some "no such file or directory")
rename_as src dst dir (some e) (some folder) fault = (dir, some "file exists")
rename_as src dst dir (some e) old (some cause) = (dir, some cause)
rename_as src dst dir (some e) old none = (put dst e (delete src dir), none)

-- `os.Rename` of a file.
unfoldable pub rename : Faults → String → String → Dir → Dir × Option String
unfolding lookup rename_as
rename f src dst dir = rename_as src dst dir (lookup src dir) (lookup dst dir) (f.rename_fault dst)

-- The end of `download`, after `os.Rename`.
renamed : String → Dir × Option String → Dir × Option SyncError
renamed dst (dir, none) = (dir, none)
renamed dst (dir, some e) = (dir, some (rename_failed dst e))

-- From `os.WriteFile` on.
written : Faults → String → Dir × Option String → Dir × Option SyncError
unfolding rename renamed
written f name (dir, some e) = (dir, some (write_failed name e))
written f name (dir, none) = renamed name (rename f (name +++ ".tmp") name dir)

store_body :
    Faults → String → String → Dir → Result String (Result String String) → Dir × Option SyncError
unfolding write_file written
store_body f k name dir (err e) = (dir, some (get_failed k e))
store_body f k name dir (ok (err e)) = (dir, some (read_failed k e))
store_body f k name dir (ok (ok body)) = written f name (write_file f (name +++ ".tmp") body dir)

module _ {B : Type 0} (api : S3Api B) (s : Syncer) (f : Faults) (b : B) where
  unfoldable pub download : String → String → Dir → Dir × Option SyncError
  unfolding store_body
  download k name dir = store_body f k name dir (api.get_object s.bucket k b)

  abbrev pub is_skipped : String → Bool
  is_skipped name = name == "" || (contains_text "/" name || not (is_cert_file name))

  -- The body of the loop over a page.
  unfoldable pub restore_object : String → Dir → Dir × Option SyncError
  unfolding download contains_text is_cert_file trim_prefix
  restore_object k dir =
      let name = trim_prefix s.prefix k in
      if is_skipped name then (dir, none) else download k name dir

  unfoldable pub restore : List String → Dir → Dir × List SyncError
  unfolding restore_object
  restore [] dir = (dir, [])
  restore (k ∷ ks) dir =
      let step = restore_object k dir in
      let rest = restore ks step.0 in (rest.0, add_error step.1 rest.1)

  -- The loop over the pages, with the errors so far; no errors are a nil error. `none` is a loop that the fuel does
  -- not cover.
  unfoldable pub hydrate_from :
      ℕ → Option String → Dir → List SyncError → Option (Dir × List SyncError)
  unfolding restore
  hydrate_from zero token dir errs = none
  hydrate_from (suc fuel) token dir errs = elim (api.list_objects s.bucket s.prefix token b) [
    | err e ↦ some (dir, list_failed s.bucket s.prefix e ∷ [])
    | ok page ↦
        let done = restore page.contents dir in
        let rest = hydrate_from fuel page.next done.0 (errs ++ done.1) in
        if page.is_truncated then rest else some (done.0, errs ++ done.1)
  ]

  unfoldable pub hydrate : ℕ → Dir → Option (Dir × List SyncError)
  unfolding hydrate_from
  hydrate fuel dir = hydrate_from fuel none dir []

-- The pages that a listing has from a token on.
pub data Pages {B : Type 0} (api : S3Api B) (bucket prefix : String) (b : B)
    : Option String → List (List String) → Type 0 where
  last :
      {token : Option String} {page : Listing}
      → api.list_objects bucket prefix token b ≡ ok page
      → page.is_truncated ≡ false
      → Pages api bucket prefix b token (page.contents ∷ [])
  more :
      {token : Option String} {page : Listing} {pages : List (List String)}
      → api.list_objects bucket prefix token b ≡ ok page
      → page.is_truncated ≡ true
      → Pages api bucket prefix b page.next pages
      → Pages api bucket prefix b token (page.contents ∷ pages)
