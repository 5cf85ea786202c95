-- ===== src/Certs/Sweep/Laws.antt =====
-- What a sweep stores, and what it leaves in the bucket.
use tsserve.Base.{
  String, ◌≡◌, refl, sym, subst, ◌∙◌, ◌⊎◌, inl, inr, Bool, true, not, ◌||◌, Option, none, some,
  List, [], ◌∷◌, Result, ok, err, ◌==◌, if◌then◌else◌, arith, eq_iff, Bool-cases, Option-cases,
  Result-cases,
}
use tsserve.Certs.Names.{Syncer, is_cert_file, object_key}
use tsserve.Certs.Keys.{object_key-eq}
use tsserve.Certs.Contract.{Contract}
use tsserve.Certs.Hydrate.{S3Api}
use tsserve.Certs.Sweep.{Scan, stored, send, upload, sync_entry, sync_entries, listed, sync_all}

module _ {B : Type 0} (api : S3Api B) (c : Contract api) (s : Syncer) where
  abbrev pub holds : B → String → Option String
  holds b j = c.object s.bucket b (object_key s j)

  -- An object is what it was or the body that the scan read from its file.
  abbrev pub Swept : Scan → String → B → B → Type 0
  Swept scan j before after =
      (c.object s.bucket after (object_key s j) ≡ c.object s.bucket before (object_key s j))
      ⊎ ((body : String) × (scan.read j ≡ some (ok body))
          × (c.object s.bucket after (object_key s j) ≡ some body))

  pub stored-state : (k : String) (put : B × Option String) → (stored api s k put).0 ≡ put.0
  unfolding stored
  stored-state k (b', none) = refl
  stored-state k (b', some e) = refl

  pub stored-none :
      (k : String) (put : B × Option String) → (stored api s k put).1 ≡ none → put.1 ≡ none
  unfolding stored
  stored-none k (b', none) h = refl
  stored-none k (b', some e) h = absurd (ground arith)

  pub put-holds :
      (name body j : String) (b : B)
      → (api.put_object s.bucket (object_key s name) body b).1 ≡ none
      → holds (api.put_object s.bucket (object_key s name) body b).0 j
        ≡ (if name == j then some body else holds b j)
  put-holds name body j b fine =
      rw (sym (object_key-eq s name j))
        (c.object-put_ok s.bucket (object_key s name) body (object_key s j) b fine)

  put_cases :
      (name body j : String) (b : B)
      → (holds (api.put_object s.bucket (object_key s name) body b).0 j ≡ holds b j)
        ⊎ (((name == j) ≡ true)
            × (holds (api.put_object s.bucket (object_key s name) body b).0 j ≡ some body))
  put_cases name body j b =
      elim (Option-cases (api.put_object s.bucket (object_key s name) body b).1) [
        | inl fine ↦ elim (Bool-cases (name == j)) [
          | inl same ↦ inr (same, ground (arith, same, put-holds name body j b fine))
          | inr other ↦ inl (ground (arith, other, put-holds name body j b fine))
        ]
        | inr (e, bad) ↦
            elim (c.object-put_err s.bucket (object_key s name) body (object_key s j) e b bad) [
              | inl same ↦ inl same
              | inr (at, put) ↦ inr (rw (sym (object_key-eq s name j)) at, put)
            ]
      ]

  send-Swept :
      (scan : Scan) (name j : String) (b : B) (r : Option (Result String String))
      → scan.read name ≡ r
      → Swept scan j b (send api s name r b).0
  unfolding send
  send-Swept scan name j b none e = inl refl
  send-Swept scan name j b (some (err x)) e = inl refl
  send-Swept scan name j b (some (ok body)) e =
      let k = object_key s name in
      subst (λ b'. Swept scan j b b') (sym (stored-state k (api.put_object s.bucket k body b)))
        (elim (put_cases name body j b) [
          | inl same ↦ inl same
          | inr (at, put) ↦
              inr (body, subst (λ n. scan.read n ≡ some (ok body)) ((eq_iff name j).0 at) e, put)
        ])

  Swept-trans :
      (scan : Scan) (j : String) (b₁ b₂ b₃ : B)
      → Swept scan j b₁ b₂
      → Swept scan j b₂ b₃
      → Swept scan j b₁ b₃
  Swept-trans scan j b₁ b₂ b₃ (inl p) (inl q) = inl (q ∙ p)
  Swept-trans scan j b₁ b₂ b₃ (inr (body, r, p)) (inl q) = inr (body, r, q ∙ p)
  Swept-trans scan j b₁ b₂ b₃ p (inr q) = inr q

  sync_entry-Swept :
      (scan : Scan) (e : String × Bool) (j : String) (b : B)
      → Swept scan j b (sync_entry api s scan e b).0
  unfolding sync_entry upload
  sync_entry-Swept scan (name, is_dir) j b = elim (Bool-cases (is_dir || not (is_cert_file name))) [
    | inl skipped ↦ rw skipped (inl refl)
    | inr wanted ↦ rw wanted (send-Swept scan name j b (scan.read name) refl)
  ]

  pub sync_entries-Swept :
      (scan : Scan) (es : List (String × Bool)) (j : String) (b : B)
      → Swept scan j b (sync_entries api s scan es b).0
  unfolding sync_entries
  sync_entries-Swept scan [] j b = inl refl
  sync_entries-Swept scan (e ∷ es) j b =
      let step = (sync_entry api s scan e b).0 in
      Swept-trans scan j b step (sync_entries api s scan es step).0 (sync_entry-Swept scan e j b)
        (sync_entries-Swept scan es j step)

  -- Whatever fails, a sweep leaves in an object what it was or what the scan read from the object's file.
  pub sync_all-Swept : (scan : Scan) (j : String) (b : B) → Swept scan j b (sync_all api s scan b).0
  unfolding sync_all listed
  sync_all-Swept scan j b = elim (Result-cases scan.listing) [
    | inl (es, at) ↦ rw at (sync_entries-Swept scan es j b)
    | inr (e, bad) ↦ rw bad (inl refl)
  ]
