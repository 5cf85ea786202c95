-- ===== src/Certs/RoundTrip.antt =====
-- What `Hydrate` restores of the objects, and that it restores what `syncAll` stored.
use tsserve.Base.{
  String, ◌≡◌, sym, ap, ◌∙◌, Bool, true, false, Option, none, some, List, [], ◌∷◌, ◌++◌, length,
  lookup, contains, All, ok,
}
use tsserve.Base.Text.{has_prefix, contains_text}
use tsserve.Discovery.Paging.{concat}
use tsserve.Certs.Names.{Syncer, is_cert_file, object_key, Entry, file, Dir, SyncError}
use tsserve.Certs.Keys.{has_prefix-append}
use tsserve.Certs.Contract.{Contract}
use tsserve.Certs.Hydrate.{S3Api, Faults, hydrate, Pages}
use tsserve.Certs.Hydrate.Restored.{as_file}
use tsserve.Certs.Hydrate.Passes.{hydrate-Pages}
use tsserve.Certs.Hydrate.Effort.{Flat, Lets, restore-got}
use tsserve.Certs.Sweep.{Scan, sync_all}
use tsserve.Certs.Sweep.Stored.{regular, sync_all-clean}

-- The file under a name when the loop has ended.
abbrev pub file_after : String → Option (Dir × List SyncError) → Option Entry
file_after j none = none
file_after j (some (dir, errs)) = lookup j dir

All-append : (P : String → Type 0) (xs ys : List String) → All P xs → All P ys → All P (xs ++ ys)
All-append P [] ys a b = b
All-append P (x ∷ xs) ys a b = (a.0, All-append P xs ys a.1 b)

module _ {B : Type 0} (api : S3Api B) (c : Contract api) (s : Syncer) (b : B) where
  prefix_of_key : (j : String) → has_prefix s.prefix (object_key s j) ≡ true
  unfolding object_key
  prefix_of_key j = has_prefix-append s.prefix j

  pages-All :
      (token : Option String) (pages : List (List String))
      → Pages api s.bucket s.prefix b token pages
      → All (λ k. has_prefix s.prefix k ≡ true) (concat pages)
  pages-All token _ (Pages.last {page = page} got end) =
      All-append (λ k. has_prefix s.prefix k ≡ true) page.contents []
        (c.contents-All s.bucket s.prefix token b page got) tt
  pages-All token _ (Pages.more {page = page} {pages = pages} got on rest) =
      All-append (λ k. has_prefix s.prefix k ≡ true) page.contents (concat pages)
        (c.contents-All s.bucket s.prefix token b page got) (pages-All page.next pages rest)

  -- A listing that ends is restored as far as it goes: a certificate object that can be read, and whose file can be
  -- written and renamed into place, is the file's body when the loop ends, whatever happens to the other objects.
  pub hydrate-got :
      (f : Faults) (pages : List (List String)) (j body : String) (dir : Dir)
      → Pages api s.bucket s.prefix b none pages
      → contains_text "/" j ≡ false
      → is_cert_file j ≡ true
      → api.get_object s.bucket (object_key s j) b ≡ ok (ok body)
      → Lets f j
      → Flat dir
      → file_after j (hydrate api s f b (length pages) dir) ≡ some (file body)
  hydrate-got f pages j body dir listing bare cert got lets flat =
      rw (hydrate-Pages api s f b pages dir listing) (
        restore-got api c s f b (concat pages) j body dir (pages-All none pages listing) bare cert
          lets flat got
          (c.contains-Pages s.bucket s.prefix (object_key s j) body b pages listing
            (prefix_of_key j) (c.get_object_lem s.bucket (object_key s j) body b got)))

module _ {B : Type 0} (api : S3Api B) (c : Contract api) (s : Syncer) where
  -- Round trip: after a sweep without errors, a restore puts into each certificate file what the sweep read from it, when
  -- its object can be read and its file written.
  pub sync_all-hydrate :
      (scan : Scan) (es : List (String × Bool)) (f : Faults) (pages : List (List String))
      (j body fetched : String) (dir : Dir) (b : B)
      → scan.listing ≡ ok es
      → contains (regular es) j ≡ true
      → scan.read j ≡ some (ok body)
      → (sync_all api s scan b).1 ≡ []
      → contains_text "/" j ≡ false
      → is_cert_file j ≡ true
      → Pages api s.bucket s.prefix (sync_all api s scan b).0 none pages
      → api.get_object s.bucket (object_key s j) (sync_all api s scan b).0 ≡ ok (ok fetched)
      → Lets f j
      → Flat dir
      → file_after j (hydrate api s f (sync_all api s scan b).0 (length pages) dir)
        ≡ some (file body)
  sync_all-hydrate scan es f pages j body fetched dir b entries h read clean bare cert listing got
        lets flat =
      let b' = (sync_all api s scan b).0 in
      let sent = sync_all-clean api c s scan es j body b entries h cert read clean in
      hydrate-got api c s b' f pages j fetched dir listing bare cert got lets flat
      ∙ ap as_file (sym (c.get_object_lem s.bucket (object_key s j) fetched b' got) ∙ sent)
