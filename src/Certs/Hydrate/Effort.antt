-- ===== src/Certs/Hydrate/Effort.antt =====
-- One bad object does not block the restore of the others.
use Prim.Native.String.{◌++◌ as ◌+++◌}
use tsserve.Base.{
  String, ◌≡◌, refl, sym, ap, subst, ◌∙◌, ◌≢◌, inl, inr, true, false, Option, none, some, List, [],
  ◌∷◌, lookup, put, delete, lookup-put, lookup-delete, contains, All, Result, ok, err, ◌==◌, arith,
  eq_iff, Bool-cases,
}
use tsserve.Base.Text.{trim_prefix, has_prefix, contains_text}
use tsserve.Certs.Names.{Syncer, is_cert_file, object_key, Entry, folder, file, Dir}
use tsserve.Certs.Keys.{key_name, cert-ne-empty}
use tsserve.Certs.Contract.{Contract}
use tsserve.Certs.Hydrate.{
  S3Api, WriteFault, Faults, leave, write_as, write_file, rename_as, rename, renamed, written,
  store_body, download, is_skipped, restore_object, restore,
}
use tsserve.Certs.Hydrate.Disk.{write_as-ok, download_ok}
use tsserve.Certs.Hydrate.Restored.{as_file, restore-Kept}

-- The directory holds no folder.
abbrev pub Flat : Dir → Type 0
Flat dir = (n : String) → lookup n dir ≢ some folder

Flat-put : (name body : String) (dir : Dir) → Flat dir → Flat (put name (file body) dir)
Flat-put name body dir flat n h = ground (arith, lookup-put name n (file body) dir, flat n)

leave-Flat :
    (name : String) (left : Option String) (dir : Dir) → Flat dir → Flat (leave name left dir)
unfolding leave
leave-Flat name none dir flat = flat
leave-Flat name (some part) dir flat = Flat-put name part dir flat

write_as-Flat :
    (name body : String) (dir : Dir) (old : Option Entry) (fault : Option WriteFault)
    → Flat dir
    → Flat (write_as name body dir old fault).0
unfolding write_as
write_as-Flat name body dir (some folder) fault flat = flat
write_as-Flat name body dir none (some fault) flat = leave-Flat name fault.left dir flat
write_as-Flat name body dir (some (file old)) (some fault) flat =
    leave-Flat name fault.left dir flat
write_as-Flat name body dir none none flat = Flat-put name body dir flat
write_as-Flat name body dir (some (file old)) none flat = Flat-put name body dir flat

moved-Flat :
    (src dst : String) (e : Entry) (dir : Dir)
    → lookup src dir ≡ some e
    → Flat dir
    → Flat (put dst e (delete src dir))
moved-Flat src dst e dir at flat n h =
    ground (arith, lookup-put dst n e (delete src dir), lookup-delete src n dir, flat n, flat src)

rename_as-Flat :
    (src dst : String) (dir : Dir) (moved old : Option Entry) (fault : Option String)
    → lookup src dir ≡ moved
    → Flat dir
    → Flat (rename_as src dst dir moved old fault).0
unfolding rename_as
rename_as-Flat src dst dir none old fault at flat = flat
rename_as-Flat src dst dir (some e) (some folder) fault at flat = flat
rename_as-Flat src dst dir (some e) none (some cause) at flat = flat
rename_as-Flat src dst dir (some e) (some (file old)) (some cause) at flat = flat
rename_as-Flat src dst dir (some e) none none at flat = moved-Flat src dst e dir at flat
rename_as-Flat src dst dir (some e) (some (file old)) none at flat =
    moved-Flat src dst e dir at flat

module _ (f : Faults) (k name : String) where
  renamed-Flat : (r : Dir × Option String) → Flat r.0 → Flat (renamed name r).0
  unfolding renamed
  renamed-Flat (dir, none) flat = flat
  renamed-Flat (dir, some e) flat = flat

  written-Flat : (w : Dir × Option String) → Flat w.0 → Flat (written f name w).0
  unfolding written rename
  written-Flat (dir, some e) flat = flat
  written-Flat (dir, none) flat =
      let tmp = name +++ ".tmp" in
      renamed-Flat (rename f tmp name dir) (
        rename_as-Flat tmp name dir (lookup tmp dir) (lookup name dir) (f.rename_fault name) refl
          flat)

  store_body-Flat :
      (dir : Dir) (got : Result String (Result String String))
      → Flat dir
      → Flat (store_body f k name dir got).0
  unfolding store_body write_file
  store_body-Flat dir (err e) flat = flat
  store_body-Flat dir (ok (err e)) flat = flat
  store_body-Flat dir (ok (ok body)) flat =
      let tmp = name +++ ".tmp" in
      written-Flat (write_file f tmp body dir)
        (write_as-Flat tmp body dir (lookup tmp dir) (f.write_fault tmp) flat)

write_as-none :
    (name body : String) (dir : Dir) (old : Option Entry)
    → old ≢ some folder
    → (write_as name body dir old none).1 ≡ none
unfolding write_as
write_as-none name body dir none flat = refl
write_as-none name body dir (some folder) flat = absurd (flat refl)
write_as-none name body dir (some (file old)) flat = refl

rename_as-none :
    (src dst : String) (dir : Dir) (e : Entry) (old : Option Entry)
    → old ≢ some folder
    → (rename_as src dst dir (some e) old none).1 ≡ none
unfolding rename_as
rename_as-none src dst dir e none flat = refl
rename_as-none src dst dir e (some folder) flat = absurd (flat refl)
rename_as-none src dst dir e (some (file old)) flat = refl

renamed-none : (name : String) (r : Dir × Option String) → r.1 ≡ none → (renamed name r).1 ≡ none
unfolding renamed
renamed-none name (d, none) h = refl
renamed-none name (d, some e) h = absurd (ground arith)

written-none :
    (f : Faults) (name : String) (w : Dir × Option String)
    → w.1 ≡ none
    → (rename f (name +++ ".tmp") name w.0).1 ≡ none
    → (written f name w).1 ≡ none
unfolding written
written-none f name (d, some e) wrote moved = absurd (ground arith)
written-none f name (d, none) wrote moved =
    renamed-none name (rename f (name +++ ".tmp") name d) moved

rename-none :
    (f : Faults) (src dst : String) (dir : Dir) (e : Entry)
    → lookup src dir ≡ some e
    → lookup dst dir ≢ some folder
    → f.rename_fault dst ≡ none
    → (rename f src dst dir).1 ≡ none
unfolding rename
rename-none f src dst dir e at flat fine =
    rw (at, fine) (rename_as-none src dst dir e (lookup dst dir) flat)

-- The file system lets a file be written and renamed into place.
abbrev pub Lets : Faults → String → Type 0
Lets f name = (f.write_fault (name +++ ".tmp") ≡ none) × (f.rename_fault name ≡ none)

written_file-none :
    (f : Faults) (name body : String) (dir : Dir)
    → Lets f name
    → Flat dir
    → (written f name (write_file f (name +++ ".tmp") body dir)).1 ≡ none
unfolding write_file
written_file-none f name body dir lets flat =
    let tmp = name +++ ".tmp" in
    let wrote = write_as-none tmp body dir (lookup tmp dir) (flat tmp) in
    let w = write_as tmp body dir (lookup tmp dir) none in
    rw lets.0 (
      written-none f name w wrote (
        rename-none f tmp name w.0 (file body)
          (write_as-ok tmp body dir (lookup tmp dir) none wrote)
          (write_as-Flat tmp body dir (lookup tmp dir) none flat name) lets.1))

module _ {B : Type 0} (api : S3Api B) (s : Syncer) (f : Faults) (b : B) where
  restore_object-Flat :
      (k : String) (dir : Dir) → Flat dir → Flat (restore_object api s f b k dir).0
  unfolding restore_object download
  restore_object-Flat k dir flat =
      elim (Bool-cases (is_skipped api s f b (trim_prefix s.prefix k))) [
        | inl skipped ↦ rw skipped flat
        | inr wanted ↦
            rw wanted
              (store_body-Flat f k (trim_prefix s.prefix k) dir (api.get_object s.bucket k b) flat)
      ]

  download-none :
      (j body : String) (dir : Dir)
      → Lets f j
      → Flat dir
      → api.get_object s.bucket (object_key s j) b ≡ ok (ok body)
      → (download api s f b (object_key s j) j dir).1 ≡ none
  unfolding download store_body
  download-none j body dir lets flat got = rw got (written_file-none f j body dir lets flat)

  restore_object-got :
      (j body : String) (dir : Dir)
      → contains_text "/" j ≡ false
      → is_cert_file j ≡ true
      → Lets f j
      → Flat dir
      → api.get_object s.bucket (object_key s j) b ≡ ok (ok body)
      → lookup j (restore_object api s f b (object_key s j) dir).0 ≡ some (file body)
  unfolding restore_object
  restore_object-got j body dir bare cert lets flat got =
      let name : trim_prefix s.prefix (object_key s j) ≡ j = key_name s j in
      let wanted : is_skipped api s f b j ≡ false = rw (cert-ne-empty j cert, bare, cert) refl in
      rw (name, wanted)
        (download_ok api s f b (object_key s j) j body dir cert got
          (download-none j body dir lets flat got))

module _ {B : Type 0} (api : S3Api B) (c : Contract api) (s : Syncer) (f : Faults) (b : B) where
  -- Whatever becomes of the other objects, a listed certificate that can be read and written is restored.
  pub restore-got :
      (ks : List String) (j body : String) (dir : Dir)
      → All (λ k. has_prefix s.prefix k ≡ true) ks
      → contains_text "/" j ≡ false
      → is_cert_file j ≡ true
      → Lets f j
      → Flat dir
      → api.get_object s.bucket (object_key s j) b ≡ ok (ok body)
      → contains ks (object_key s j) ≡ true
      → lookup j (restore api s f b ks dir).0 ≡ some (file body)
  unfolding restore contains
  restore-got [] j body dir ps bare cert lets flat got h = absurd (ground arith)
  restore-got (k ∷ ks) j body dir ps bare cert lets flat got h =
      let step = (restore_object api s f b k dir).0 in
      elim (Bool-cases (k == object_key s j)) [
        | inr other ↦
            restore-got ks j body step ps.1 bare cert lets
              (restore_object-Flat api s f b k dir flat) got (rw other at h)
        | inl same ↦ elim (restore-Kept api c s f b ks j step ps.1 cert) [
          | inl kept ↦
              kept
              ∙ subst (λ key. lookup j (restore_object api s f b key dir).0 ≡ some (file body))
                  (sym ((eq_iff k (object_key s j)).0 same))
                  (restore_object-got api s f b j body dir bare cert lets flat got)
          | inr (at, there) ↦
              at ∙ ap as_file (c.get_object_lem s.bucket (object_key s j) body b got)
        ]
      ]
