-- ===== src/Certs/Sweep/Stored.antt =====
-- The files that a sweep is sure to store.
use tsserve.Base.{
  String, ◌≡◌, refl, sym, subst, ◌∙◌, inl, inr, Bool, true, false, Option, none, some, List, [],
  ◌∷◌, contains, ok, ◌==◌, arith, eq_iff, Bool-cases,
}
use tsserve.Certs.Names.{Syncer, is_cert_file, object_key, no_error}
use tsserve.Certs.Contract.{Contract}
use tsserve.Certs.Hydrate.{S3Api}
use tsserve.Certs.Sweep.{Scan, stored, send, upload, sync_entry, sync_entries, listed, sync_all}
use tsserve.Certs.Sweep.Laws.{holds, stored-state, stored-none, put-holds, sync_entries-Swept}

-- The names of the entries that are no directories.
abbrev pub regular : List (String × Bool) → List String
regular [] = []
regular ((name, true) ∷ es) = regular es
regular ((name, false) ∷ es) = name ∷ regular es

stored-accepted :
    {B : Type 0} (api : S3Api B) (s : Syncer) (k : String) (put : B × Option String)
    → put.1 ≡ none
    → (stored api s k put).1 ≡ none
unfolding stored
stored-accepted api s k (b, none) h = refl
stored-accepted api s k (b, some e) h = absurd (ground arith)

module _ {B : Type 0} (api : S3Api B) (c : Contract api) (s : Syncer) where
  module _ (scan : Scan) (j body : String) (cert : is_cert_file j ≡ true)
      (read : scan.read j ≡ some (ok body)) where
    upload-holds :
        (b : B)
        → (upload api s scan j b).1 ≡ none
        → holds api c s (upload api s scan j b).0 j ≡ some body
    unfolding upload send
    upload-holds b fine =
        let put = api.put_object s.bucket (object_key s j) body b in
        let sent : (stored api s (object_key s j) put).1 ≡ none = rw read at fine in
        rw read (
          rw (stored-state api c s (object_key s j) put) (
            ground (
              arith,
              put-holds api c s j body j b (stored-none api c s (object_key s j) put sent),
              eq_iff j j,
            )))

    -- What later entries leave.
    settled :
        (es : List (String × Bool)) (b : B)
        → holds api c s b j ≡ some body
        → holds api c s (sync_entries api s scan es b).0 j ≡ some body
    settled es b at = elim (sync_entries-Swept api c s scan es j b) [
      | inl same ↦ same ∙ at
      | inr (body', r, put) ↦ ground (arith, read, r, put)
    ]

    sync_entry-own : (b : B) → sync_entry api s scan (j, false) b ≡ upload api s scan j b
    unfolding sync_entry
    sync_entry-own b = rw cert refl

    sync_entries-accepted :
        (es : List (String × Bool)) (b : B)
        → ((b : B) → (upload api s scan j b).1 ≡ none)
        → contains (regular es) j ≡ true
        → holds api c s (sync_entries api s scan es b).0 j ≡ some body
    unfolding sync_entries contains
    sync_entries-accepted [] b accepts h = absurd (ground arith)
    sync_entries-accepted ((name, true) ∷ es) b accepts h =
        sync_entries-accepted es (sync_entry api s scan (name, true) b).0 accepts h
    sync_entries-accepted ((name, false) ∷ es) b accepts h = elim (Bool-cases (name == j)) [
      | inr other ↦
          sync_entries-accepted es (sync_entry api s scan (name, false) b).0 accepts (rw other at h)
      | inl same ↦ settled es (sync_entry api s scan (name, false) b).0 (
          subst (λ n. holds api c s (sync_entry api s scan (n, false) b).0 j ≡ some body)
            (sym ((eq_iff name j).0 same)) (rw (sync_entry-own b) (upload-holds b (accepts b))))
    ]

    sync_entries-clean :
        (es : List (String × Bool)) (b : B)
        → (sync_entries api s scan es b).1 ≡ []
        → contains (regular es) j ≡ true
        → holds api c s (sync_entries api s scan es b).0 j ≡ some body
    unfolding sync_entries contains
    sync_entries-clean [] b clean h = absurd (ground arith)
    sync_entries-clean ((name, true) ∷ es) b clean h =
        let step = sync_entry api s scan (name, true) b in
        sync_entries-clean es step.0 (no_error step.1 (sync_entries api s scan es step.0).1 clean).1
          h
    sync_entries-clean ((name, false) ∷ es) b clean h =
        let step = sync_entry api s scan (name, false) b in
        let none_here = no_error step.1 (sync_entries api s scan es step.0).1 clean in
        elim (Bool-cases (name == j)) [
          | inr other ↦ sync_entries-clean es step.0 none_here.1 (rw other at h)
          | inl same ↦ settled es step.0 (own ((eq_iff name j).0 same) none_here.0)
        ]
      where
        own :
            name ≡ j
            → (sync_entry api s scan (name, false) b).1 ≡ none
            → holds api c s (sync_entry api s scan (name, false) b).0 j ≡ some body
        own same fine =
            subst
              (λ n.
                (sync_entry api s scan (n, false) b).1 ≡ none
                → holds api c s (sync_entry api s scan (n, false) b).0 j ≡ some body)
              (sym same) (rw (sync_entry-own b) (upload-holds b)) fine

  -- Without errors a sweep stores each regular certificate file that it could read.
  pub sync_all-clean :
      (scan : Scan) (es : List (String × Bool)) (j body : String) (b : B)
      → scan.listing ≡ ok es
      → contains (regular es) j ≡ true
      → is_cert_file j ≡ true
      → scan.read j ≡ some (ok body)
      → (sync_all api s scan b).1 ≡ []
      → c.object s.bucket (sync_all api s scan b).0 (object_key s j) ≡ some body
  unfolding sync_all listed
  sync_all-clean scan es j body b entries h cert read clean =
      rw entries (sync_entries-clean scan j body cert read es b (rw entries at clean) h)

  -- One failed upload does not strand the others: whatever the rest of the sweep meets, a regular certificate file that
  -- could be read is stored when the store takes it.
  pub sync_all-accepted :
      (scan : Scan) (es : List (String × Bool)) (j body : String) (b : B)
      → scan.listing ≡ ok es
      → contains (regular es) j ≡ true
      → is_cert_file j ≡ true
      → scan.read j ≡ some (ok body)
      → ((b : B) → (api.put_object s.bucket (object_key s j) body b).1 ≡ none)
      → c.object s.bucket (sync_all api s scan b).0 (object_key s j) ≡ some body
  unfolding sync_all listed upload send
  sync_all-accepted scan es j body b entries h cert read accepts = rw entries (
      sync_entries-accepted scan j body cert read es b
        (λ b. rw read (
          stored-accepted api s (object_key s j) (api.put_object s.bucket (object_key s j) body b)
            (accepts b)))
        h)
