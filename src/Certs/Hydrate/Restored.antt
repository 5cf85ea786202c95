-- ===== src/Certs/Hydrate/Restored.antt =====
-- A restore leaves in each certificate file what it held or the whole object, and without errors it leaves the objects.
use tsserve.Base.{
  String, ◌≡◌, refl, sym, subst, ◌∙◌, ◌≢◌, ◌⊎◌, inl, inr, true, false, Option, none, some, List, [],
  ◌∷◌, lookup, contains, All, ◌==◌, arith, eq_iff, Bool-cases, Option-cases,
}
use tsserve.Base.Text.{trim_prefix, has_prefix, contains_text}
use tsserve.Certs.Names.{Syncer, is_cert_file, object_key, Entry, file, Dir, SyncError, no_error}
use tsserve.Certs.Keys.{append-trim_prefix, key_name, cert-ne-empty}
use tsserve.Certs.Contract.{Contract}
use tsserve.Certs.Hydrate.{S3Api, Faults, download, is_skipped, restore_object, restore}
use tsserve.Certs.Hydrate.Disk.{download-lookup, download_err, download_ok, download-got}

-- A file of an object's body.
abbrev pub as_file : Option String → Option Entry
as_file none = none
as_file (some body) = some (file body)

module _ {B : Type 0} (api : S3Api B) (c : Contract api) (s : Syncer) (f : Faults) (b : B) where
  abbrev pub Kept : String → Dir → Dir → Type 0
  Kept j before after =
      (lookup j after ≡ lookup j before)
      ⊎ ((lookup j after ≡ as_file (c.object s.bucket b (object_key s j)))
          × (lookup j after ≢ none))

  pub Kept-trans : (j : String) (d₁ d₂ d₃ : Dir) → Kept j d₁ d₂ → Kept j d₂ d₃ → Kept j d₁ d₃
  Kept-trans j d₁ d₂ d₃ (inl p) (inl q) = inl (q ∙ p)
  Kept-trans j d₁ d₂ d₃ (inr p) (inl q) = inr (q ∙ p.0, λ absent. p.1 (sym q ∙ absent))
  Kept-trans j d₁ d₂ d₃ p (inr q) = inr q

  -- The key of the name that a listed key stands for.
  key_of_name :
      (k : String) → has_prefix s.prefix k ≡ true → object_key s (trim_prefix s.prefix k) ≡ k
  unfolding object_key
  key_of_name k h = append-trim_prefix s.prefix k h

  download-object :
      (name : String) (dir : Dir)
      → is_cert_file name ≡ true
      → (download api s f b (object_key s name) name dir).1 ≡ none
      → lookup name (download api s f b (object_key s name) name dir).0
        ≡ as_file (c.object s.bucket b (object_key s name))
  download-object name dir cert fine =
      let (body, got) = download-got api s f b (object_key s name) name dir fine in
      rw (c.get_object_lem s.bucket (object_key s name) body b got)
        (download_ok api s f b (object_key s name) name body dir cert got fine)

  download-present :
      (name : String) (dir : Dir)
      → is_cert_file name ≡ true
      → (download api s f b (object_key s name) name dir).1 ≡ none
      → lookup name (download api s f b (object_key s name) name dir).0 ≢ none
  download-present name dir cert fine absent =
      let (body, got) = download-got api s f b (object_key s name) name dir fine in
      ground (arith, absent, download_ok api s f b (object_key s name) name body dir cert got fine)

  download-Kept :
      (name j : String) (dir : Dir)
      → is_cert_file j ≡ true
      → Kept j dir (download api s f b (object_key s name) name dir).0
  download-Kept name j dir cert = elim (Bool-cases (name == j)) [
    | inr other ↦ inl (download-lookup api s f b (object_key s name) name j dir cert other)
    | inl same ↦
        subst (λ n. Kept j dir (download api s f b (object_key s n) n dir).0)
          (sym ((eq_iff name j).0 same))
          (own_Kept (Option-cases (download api s f b (object_key s j) j dir).1))
  ]
    where
      own_Kept :
          ((download api s f b (object_key s j) j dir).1 ≡ none)
            ⊎ ((e : SyncError) × ((download api s f b (object_key s j) j dir).1 ≡ some e))
          → Kept j dir (download api s f b (object_key s j) j dir).0
      own_Kept (inl fine) = inr (download-object j dir cert fine, download-present j dir cert fine)
      own_Kept (inr (e, bad)) = inl (download_err api s f b (object_key s j) j e dir cert bad)

  restore_object-Kept :
      (k j : String) (dir : Dir)
      → has_prefix s.prefix k ≡ true
      → is_cert_file j ≡ true
      → Kept j dir (restore_object api s f b k dir).0
  unfolding restore_object
  restore_object-Kept k j dir p cert =
      elim (Bool-cases (is_skipped api s f b (trim_prefix s.prefix k))) [
        | inl skipped ↦ rw skipped (inl refl)
        | inr wanted ↦ rw wanted (
            subst (λ key. Kept j dir (download api s f b key (trim_prefix s.prefix k) dir).0)
              (key_of_name k p) (download-Kept (trim_prefix s.prefix k) j dir cert))
      ]

  pub restore-Kept :
      (ks : List String) (j : String) (dir : Dir)
      → All (λ k. has_prefix s.prefix k ≡ true) ks
      → is_cert_file j ≡ true
      → Kept j dir (restore api s f b ks dir).0
  unfolding restore
  restore-Kept [] j dir ps cert = inl refl
  restore-Kept (k ∷ ks) j dir ps cert =
      let step = (restore_object api s f b k dir).0 in
      Kept-trans j dir step (restore api s f b ks step).0 (restore_object-Kept k j dir ps.0 cert)
        (restore-Kept ks j step ps.1 cert)

  restore_object-ok :
      (j : String) (dir : Dir)
      → contains_text "/" j ≡ false
      → is_cert_file j ≡ true
      → (restore_object api s f b (object_key s j) dir).1 ≡ none
      → lookup j (restore_object api s f b (object_key s j) dir).0
        ≡ as_file (c.object s.bucket b (object_key s j))
  unfolding restore_object
  restore_object-ok j dir flat cert fine =
      let name : trim_prefix s.prefix (object_key s j) ≡ j = key_name s j in
      let wanted : is_skipped api s f b j ≡ false = rw (cert-ne-empty j cert, flat, cert) refl in
      rw (name, wanted) (download-object j dir cert (rw (name, wanted) at fine))

  pub restore-ok :
      (ks : List String) (j : String) (dir : Dir)
      → All (λ k. has_prefix s.prefix k ≡ true) ks
      → contains_text "/" j ≡ false
      → is_cert_file j ≡ true
      → contains ks (object_key s j) ≡ true
      → (restore api s f b ks dir).1 ≡ []
      → lookup j (restore api s f b ks dir).0 ≡ as_file (c.object s.bucket b (object_key s j))
  unfolding restore contains
  restore-ok [] j dir ps flat cert h fine = absurd (ground arith)
  restore-ok (k ∷ ks) j dir ps flat cert h fine =
      let step = restore_object api s f b k dir in
      let clean = no_error step.1 (restore api s f b ks step.0).1 fine in
      elim (Bool-cases (k == object_key s j)) [
        | inl same ↦
            settled ((eq_iff k (object_key s j)).0 same) clean.0
              (restore-Kept ks j step.0 ps.1 cert)
        | inr other ↦ restore-ok ks j step.0 ps.1 flat cert (rw other at h) clean.1
      ]
    where
      settled :
          k ≡ object_key s j
          → (restore_object api s f b k dir).1 ≡ none
          → Kept j
              (restore_object api s f b k dir).0
              (restore api s f b ks (restore_object api s f b k dir).0).0
          → lookup j (restore api s f b ks (restore_object api s f b k dir).0).0
            ≡ as_file (c.object s.bucket b (object_key s j))
      settled same clean (inr at) = at.0
      settled same clean (inl kept) =
          kept
          ∙ subst
              (λ key.
                (restore_object api s f b key dir).1 ≡ none
                → lookup j (restore_object api s f b key dir).0
                  ≡ as_file (c.object s.bucket b (object_key s j)))
              (sym same) (restore_object-ok j dir flat cert) clean
