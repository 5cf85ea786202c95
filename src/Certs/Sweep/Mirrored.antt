-- ===== src/Certs/Sweep/Mirrored.antt =====
-- What a sweep may write into a bucket.
use tsserve.Base.{
  String, ◌≡◌, refl, sym, subst, ◌∙◌, ◌⊎◌, inl, inr, Bool, true, not, ◌||◌, Option, none, some,
  List, [], ◌∷◌, Result, ok, err, ◌==◌, arith, eq_iff, Bool-cases, Option-cases, Result-cases,
}
use tsserve.Certs.Names.{Syncer, is_cert_file, object_key}
use tsserve.Certs.Contract.{Contract}
use tsserve.Certs.Hydrate.{S3Api}
use tsserve.Certs.Sweep.{Scan, send, upload, sync_entry, sync_entries, listed, sync_all}
use tsserve.Certs.Sweep.Laws.{stored-state}

-- The object under this key is what the scan read from the certificate file whose key it is.
abbrev pub Mirrored : Syncer → Scan → String → Option String → Type 0
Mirrored s scan k o =
    (name body : String) × (object_key s name ≡ k)
    × (is_cert_file name ≡ true)
    × (scan.read name ≡ some (ok body))
    × (o ≡ some body)

module _ {B : Type 0} (api : S3Api B) (c : Contract api) (s : Syncer) where
  -- The object is what it was, or mirrors its file.
  abbrev pub Touched : Scan → String → B → B → Type 0
  Touched scan k before after =
      (c.object s.bucket after k ≡ c.object s.bucket before k)
      ⊎ Mirrored s scan k (c.object s.bucket after k)

  Touched-trans :
      (scan : Scan) (k : String) (b₁ b₂ b₃ : B)
      → Touched scan k b₁ b₂
      → Touched scan k b₂ b₃
      → Touched scan k b₁ b₃
  Touched-trans scan k b₁ b₂ b₃ p (inr q) = inr q
  Touched-trans scan k b₁ b₂ b₃ (inl p) (inl q) = inl (q ∙ p)
  Touched-trans scan k b₁ b₂ b₃ (inr (name, body, at, cert, read, put)) (inl q) =
      inr (name, body, at, cert, read, q ∙ put)

  put-Touched :
      (scan : Scan) (name body k : String) (b : B)
      → is_cert_file name ≡ true
      → scan.read name ≡ some (ok body)
      → Touched scan k b (api.put_object s.bucket (object_key s name) body b).0
  put-Touched scan name body k b cert read =
      let own = object_key s name in
      elim (Option-cases (api.put_object s.bucket own body b).1) [
        | inl fine ↦ elim (Bool-cases (own == k)) [
          | inl same ↦ inr (
            name,
            body,
            (eq_iff own k).0 same,
            cert,
            read,
            ground (arith, same, c.object-put_ok s.bucket own body k b fine),
          )
          | inr other ↦ inl (ground (arith, other, c.object-put_ok s.bucket own body k b fine))
        ]
        | inr (e, bad) ↦ elim (c.object-put_err s.bucket own body k e b bad) [
          | inl same ↦ inl same
          | inr (at, put) ↦ inr (name, body, (eq_iff own k).0 at, cert, read, put)
        ]
      ]

  send-Touched :
      (scan : Scan) (name k : String) (b : B) (r : Option (Result String String))
      → is_cert_file name ≡ true
      → scan.read name ≡ r
      → Touched scan k b (send api s name r b).0
  unfolding send
  send-Touched scan name k b none cert e = inl refl
  send-Touched scan name k b (some (err x)) cert e = inl refl
  send-Touched scan name k b (some (ok body)) cert e =
      let own = object_key s name in
      subst (λ b'. Touched scan k b b')
        (sym (stored-state api c s own (api.put_object s.bucket own body b)))
        (put-Touched scan name body k b cert e)

  sync_entry-Touched :
      (scan : Scan) (e : String × Bool) (k : String) (b : B)
      → Touched scan k b (sync_entry api s scan e b).0
  unfolding sync_entry upload
  sync_entry-Touched scan (name, is_dir) k b =
      elim (Bool-cases (is_dir || not (is_cert_file name))) [
        | inl skipped ↦ rw skipped (inl refl)
        | inr wanted ↦
            rw wanted (send-Touched scan name k b (scan.read name) (ground (arith, wanted)) refl)
      ]

  sync_entries-Touched :
      (scan : Scan) (es : List (String × Bool)) (k : String) (b : B)
      → Touched scan k b (sync_entries api s scan es b).0
  unfolding sync_entries
  sync_entries-Touched scan [] k b = inl refl
  sync_entries-Touched scan (e ∷ es) k b =
      let step = (sync_entry api s scan e b).0 in
      Touched-trans scan k b step (sync_entries api s scan es step).0
        (sync_entry-Touched scan e k b) (sync_entries-Touched scan es k step)

  -- Whatever fails, a sweep leaves in an object of the bucket what it was, or what the scan read from the certificate
  -- file whose key it has.
  pub sync_all-Touched :
      (scan : Scan) (k : String) (b : B) → Touched scan k b (sync_all api s scan b).0
  unfolding sync_all listed
  sync_all-Touched scan k b = elim (Result-cases scan.listing) [
    | inl (es, at) ↦ rw at (sync_entries-Touched scan es k b)
    | inr (e, bad) ↦ rw bad (inl refl)
  ]
