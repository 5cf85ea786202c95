-- ===== src/Certs/Hydrate/Disk.antt =====
-- What `os.WriteFile`, `os.Rename` and `download` do to the files of the directory.
use Prim.Native.String.{◌++◌ as ◌+++◌}
use tsserve.Base.{
  String, ◌≡◌, refl, inl, inr, true, false, Option, none, some, lookup, delete, lookup-put,
  lookup-delete, Result, ok, err, ◌==◌, arith, eq_iff, Option-cases,
}
use tsserve.Certs.Names.{Syncer, is_cert_file, Entry, folder, file, Dir, SyncError}
use tsserve.Certs.Keys.{is_cert_file-tmp}
use tsserve.Certs.Hydrate.{
  S3Api, WriteFault, Faults, leave, write_as, write_file, rename_as, rename, renamed, written,
  store_body, download,
}

pub write_as-lookup :
    (name j body : String) (dir : Dir) (old : Option Entry) (fault : Option WriteFault)
    → (name == j) ≡ false
    → lookup j (write_as name body dir old fault).0 ≡ lookup j dir
unfolding write_as leave
write_as-lookup name j body dir (some folder) fault h = refl
write_as-lookup name j body dir none (some fault) h = elim (Option-cases fault.left) [
  | inl e ↦ rw (e) refl
  | inr (part, e) ↦ ground (arith, e, lookup-put name j (file part) dir)
]
write_as-lookup name j body dir (some (file old)) (some fault) h = elim (Option-cases fault.left) [
  | inl e ↦ rw (e) refl
  | inr (part, e) ↦ ground (arith, e, lookup-put name j (file part) dir)
]
write_as-lookup name j body dir none none h = ground (arith, lookup-put name j (file body) dir)
write_as-lookup name j body dir (some (file old)) none h =
    ground (arith, lookup-put name j (file body) dir)

pub write_as-ok :
    (name body : String) (dir : Dir) (old : Option Entry) (fault : Option WriteFault)
    → (write_as name body dir old fault).1 ≡ none
    → lookup name (write_as name body dir old fault).0 ≡ some (file body)
unfolding write_as
write_as-ok name body dir (some folder) fault h = absurd (ground arith)
write_as-ok name body dir none (some fault) h = absurd (ground arith)
write_as-ok name body dir (some (file old)) (some fault) h = absurd (ground arith)
write_as-ok name body dir none none h =
    ground (arith, lookup-put name name (file body) dir, eq_iff name name)
write_as-ok name body dir (some (file old)) none h =
    ground (arith, lookup-put name name (file body) dir, eq_iff name name)

rename_as-lookup :
    (src dst j : String) (dir : Dir) (moved old : Option Entry) (fault : Option String)
    → (src == j) ≡ false
    → (dst == j) ≡ false
    → lookup j (rename_as src dst dir moved old fault).0 ≡ lookup j dir
unfolding rename_as
rename_as-lookup src dst j dir none old fault h g = refl
rename_as-lookup src dst j dir (some e) (some folder) fault h g = refl
rename_as-lookup src dst j dir (some e) none (some cause) h g = refl
rename_as-lookup src dst j dir (some e) (some (file old)) (some cause) h g = refl
rename_as-lookup src dst j dir (some e) none none h g =
    ground (arith, lookup-put dst j e (delete src dir), lookup-delete src j dir)
rename_as-lookup src dst j dir (some e) (some (file old)) none h g =
    ground (arith, lookup-put dst j e (delete src dir), lookup-delete src j dir)

rename_as-ok :
    (src dst : String) (dir : Dir) (moved : Entry) (old : Option Entry) (fault : Option String)
    → (rename_as src dst dir (some moved) old fault).1 ≡ none
    → lookup dst (rename_as src dst dir (some moved) old fault).0 ≡ some moved
unfolding rename_as
rename_as-ok src dst dir moved (some folder) fault h = absurd (ground arith)
rename_as-ok src dst dir moved none (some cause) h = absurd (ground arith)
rename_as-ok src dst dir moved (some (file old)) (some cause) h = absurd (ground arith)
rename_as-ok src dst dir moved none none h =
    ground (arith, lookup-put dst dst moved (delete src dir), eq_iff dst dst)
rename_as-ok src dst dir moved (some (file old)) none h =
    ground (arith, lookup-put dst dst moved (delete src dir), eq_iff dst dst)

rename_as-err :
    (src dst e : String) (dir : Dir) (moved old : Option Entry) (fault : Option String)
    → (rename_as src dst dir moved old fault).1 ≡ some e
    → (rename_as src dst dir moved old fault).0 ≡ dir
unfolding rename_as
rename_as-err src dst e dir none old fault h = refl
rename_as-err src dst e dir (some moved) (some folder) fault h = refl
rename_as-err src dst e dir (some moved) none (some cause) h = refl
rename_as-err src dst e dir (some moved) (some (file old)) (some cause) h = refl
rename_as-err src dst e dir (some moved) none none h = absurd (ground arith)
rename_as-err src dst e dir (some moved) (some (file old)) none h = absurd (ground arith)

rename-ok :
    (f : Faults) (src dst : String) (dir : Dir) (moved : Entry)
    → lookup src dir ≡ some moved
    → (rename f src dst dir).1 ≡ none
    → lookup dst (rename f src dst dir).0 ≡ some moved
unfolding rename
rename-ok f src dst dir moved there h =
    rw there (rename_as-ok src dst dir moved (lookup dst dir) (f.rename_fault dst) (rw there at h))

rename-err :
    (f : Faults) (src dst e : String) (dir : Dir)
    → (rename f src dst dir).1 ≡ some e
    → (rename f src dst dir).0 ≡ dir
unfolding rename
rename-err f src dst e dir h =
    rename_as-err src dst e dir (lookup src dir) (lookup dst dir) (f.rename_fault dst) h

module _ (f : Faults) (name j : String) where
  renamed-lookup : (d : Dir × Option String) → lookup j (renamed name d).0 ≡ lookup j d.0
  unfolding renamed
  renamed-lookup (dir, none) = refl
  renamed-lookup (dir, some e) = refl

  written-lookup :
      (d : Dir × Option String)
      → ((name +++ ".tmp") == j) ≡ false
      → (name == j) ≡ false
      → lookup j (written f name d).0 ≡ lookup j d.0
  unfolding written rename
  written-lookup (dir, some e) h g = refl
  written-lookup (dir, none) h g = ground (
    arith,
    renamed-lookup (rename f (name +++ ".tmp") name dir),
    rename_as-lookup (name +++ ".tmp") name j dir (lookup (name +++ ".tmp") dir) (lookup name dir)
        (f.rename_fault name),
  )

pub tmp-ne : (name j : String) → is_cert_file j ≡ true → ((name +++ ".tmp") == j) ≡ false
tmp-ne name j cert = ground (arith, is_cert_file-tmp name, eq_iff (name +++ ".tmp") j)

-- The end of a download from the written file on: an error leaves the file under the name, success puts the body there.
module _ (f : Faults) (name body : String) where
  abbrev Outcome : Dir → Dir × Option SyncError → Type 0
  Outcome dir (dir', none) = lookup name dir' ≡ some (file body)
  Outcome dir (dir', some e) = lookup name dir' ≡ lookup name dir

  renamed-Outcome :
      (dir : Dir) (r : Dir × Option String)
      → (r.1 ≡ none → lookup name r.0 ≡ some (file body))
      → ((e : String) → r.1 ≡ some e → lookup name r.0 ≡ lookup name dir)
      → Outcome dir (renamed name r)
  unfolding renamed
  renamed-Outcome dir (d, none) fine bad = fine refl
  renamed-Outcome dir (d, some e) fine bad = bad e refl

  written-Outcome :
      (dir : Dir) (w : Dir × Option String)
      → lookup name w.0 ≡ lookup name dir
      → (w.1 ≡ none → lookup (name +++ ".tmp") w.0 ≡ some (file body))
      → Outcome dir (written f name w)
  unfolding written
  written-Outcome dir (d, some e) keep fine = keep
  written-Outcome dir (d, none) keep fine =
      let tmp = name +++ ".tmp" in
      renamed-Outcome dir (rename f tmp name d) (rename-ok f tmp name d (file body) (fine refl))
        (λ e bad. rw (rename-err f tmp name e d bad) keep)

  download_body :
      (dir : Dir)
      → is_cert_file name ≡ true
      → Outcome dir (written f name (write_file f (name +++ ".tmp") body dir))
  unfolding write_file
  download_body dir cert =
      let tmp = name +++ ".tmp" in
      written-Outcome dir (write_file f tmp body dir)
        (write_as-lookup tmp name body dir (lookup tmp dir) (f.write_fault tmp)
          (tmp-ne name name cert))
        (write_as-ok tmp body dir (lookup tmp dir) (f.write_fault tmp))

  Outcome-ok :
      (dir : Dir) (d : Dir × Option SyncError)
      → Outcome dir d
      → d.1 ≡ none
      → lookup name d.0 ≡ some (file body)
  Outcome-ok dir (d, none) o h = o
  Outcome-ok dir (d, some e) o h = absurd (ground arith)

  Outcome-err :
      (e : SyncError) (dir : Dir) (d : Dir × Option SyncError)
      → Outcome dir d
      → d.1 ≡ some e
      → lookup name d.0 ≡ lookup name dir
  Outcome-err e dir (d, none) o h = absurd (ground arith)
  Outcome-err e dir (d, some e') o h = o

module _ (f : Faults) (k name : String) (dir : Dir) where
  store_body-lookup :
      (j : String)
      → is_cert_file j ≡ true
      → (name == j) ≡ false
      → (got : Result String (Result String String))
      → lookup j (store_body f k name dir got).0 ≡ lookup j dir
  unfolding store_body write_file
  store_body-lookup j cert other (err e) = refl
  store_body-lookup j cert other (ok (err e)) = refl
  store_body-lookup j cert other (ok (ok body)) =
      let tmp = name +++ ".tmp" in
      rw (written-lookup f name j (write_file f tmp body dir) (tmp-ne name j cert) other)
        (write_as-lookup tmp j body dir (lookup tmp dir) (f.write_fault tmp) (tmp-ne name j cert))

  store_body-err :
      (e : SyncError) (got : Result String (Result String String))
      → is_cert_file name ≡ true
      → (store_body f k name dir got).1 ≡ some e
      → lookup name (store_body f k name dir got).0 ≡ lookup name dir
  unfolding store_body
  store_body-err e (err c) cert h = refl
  store_body-err e (ok (err c)) cert h = refl
  store_body-err e (ok (ok body)) cert h =
      Outcome-err f name body e dir (written f name (write_file f (name +++ ".tmp") body dir))
        (download_body f name body dir cert) h

got_body :
    (f : Faults) (k name : String) (dir : Dir) (got : Result String (Result String String))
    → (store_body f k name dir got).1 ≡ none
    → (body : String) × (got ≡ ok (ok body))
unfolding store_body
got_body f k name dir (err e) h = absurd (ground arith)
got_body f k name dir (ok (err e)) h = absurd (ground arith)
got_body f k name dir (ok (ok body)) h = (body, refl)

module _ {B : Type 0} (api : S3Api B) (s : Syncer) (f : Faults) (b : B) where
  -- A download leaves the other certificate files.
  pub download-lookup :
      (k name j : String) (dir : Dir)
      → is_cert_file j ≡ true
      → (name == j) ≡ false
      → lookup j (download api s f b k name dir).0 ≡ lookup j dir
  unfolding download
  download-lookup k name j dir cert other =
      store_body-lookup f k name dir j cert other (api.get_object s.bucket k b)

  pub download_err :
      (k name : String) (e : SyncError) (dir : Dir)
      → is_cert_file name ≡ true
      → (download api s f b k name dir).1 ≡ some e
      → lookup name (download api s f b k name dir).0 ≡ lookup name dir
  unfolding download
  download_err k name e dir cert h =
      store_body-err f k name dir e (api.get_object s.bucket k b) cert h

  pub download_ok :
      (k name body : String) (dir : Dir)
      → is_cert_file name ≡ true
      → api.get_object s.bucket k b ≡ ok (ok body)
      → (download api s f b k name dir).1 ≡ none
      → lookup name (download api s f b k name dir).0 ≡ some (file body)
  unfolding download store_body
  download_ok k name body dir cert got h = rw got (
      Outcome-ok f name body dir (written f name (write_file f (name +++ ".tmp") body dir))
        (download_body f name body dir cert) (rw got at h))

  -- Without an error a body was read.
  pub download-got :
      (k name : String) (dir : Dir)
      → (download api s f b k name dir).1 ≡ none
      → (body : String) × (api.get_object s.bucket k b ≡ ok (ok body))
  unfolding download
  download-got k name dir h = got_body f k name dir (api.get_object s.bucket k b) h
