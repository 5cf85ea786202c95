-- ===== src/Certs/Hydrate/Passes.antt =====
-- The loop over the pages is one restore of all that the pages list.
use tsserve.Base.{
  ℕ, zero, suc, String, ◌≡◌, refl, subst, inl, inr, true, Option, none, some, List, [], ◌∷◌, ◌++◌,
  length, arith, append_nil, append_assoc, Bool-cases, Result-cases,
}
use tsserve.Discovery.Paging.{concat}
use tsserve.Certs.Names.{Syncer, is_cert_file, Dir, SyncError, add_error}
use tsserve.Certs.Contract.{Contract}
use tsserve.Certs.Hydrate.{S3Api, Faults, restore_object, restore, hydrate_from, hydrate, Pages}
use tsserve.Certs.Hydrate.Restored.{Kept, Kept-trans, restore-Kept}

add_error-append :
    (e : Option SyncError) (xs ys : List SyncError) → add_error e (xs ++ ys) ≡ add_error e xs ++ ys
add_error-append none xs ys = refl
add_error-append (some e) xs ys = refl

module _ {B : Type 0} (api : S3Api B) (s : Syncer) (f : Faults) (b : B) where
  restore-append :
      (xs ys : List String) (dir : Dir)
      → restore api s f b (xs ++ ys) dir ≡ (
        (restore api s f b ys (restore api s f b xs dir).0).0,
        (restore api s f b xs dir).1 ++ (restore api s f b ys (restore api s f b xs dir).0).1,
      )
  unfolding restore
  restore-append [] ys dir = refl
  restore-append (x ∷ xs) ys dir =
      let step = restore_object api s f b x dir in
      let mid = restore api s f b xs step.0 in
      rw (restore-append xs ys step.0, add_error-append step.1 mid.1 (restore api s f b ys mid.0).1)
        refl

  hydrate_from-Pages :
      (token : Option String) (pages : List (List String)) (dir : Dir) (errs : List SyncError)
      → Pages api s.bucket s.prefix b token pages
      → hydrate_from api s f b (length pages) token dir errs
        ≡ some (
          (restore api s f b (concat pages) dir).0,
          errs ++ (restore api s f b (concat pages) dir).1,
        )
  unfolding hydrate_from
  hydrate_from-Pages token _ dir errs (Pages.last {page = page} got end) =
      rw (got, end, append_nil page.contents) refl
  hydrate_from-Pages token _ dir errs (Pages.more {page = page} {pages = pages} got on rest) =
      let done = restore api s f b page.contents dir in
      let later = restore api s f b (concat pages) done.0 in
      rw
        (
          got,
          on,
          hydrate_from-Pages page.next pages done.0 (errs ++ done.1) rest,
          restore-append page.contents (concat pages) dir,
          append_assoc errs done.1 later.1,
        )
        refl

  -- When the listing ends, as many passes as it has pages restore each listed key once, in order, and the errors are those
  -- of the restores.
  pub hydrate-Pages :
      (pages : List (List String)) (dir : Dir)
      → Pages api s.bucket s.prefix b none pages
      → hydrate api s f b (length pages) dir ≡ some (restore api s f b (concat pages) dir)
  unfolding hydrate
  hydrate-Pages pages dir listing = hydrate_from-Pages none pages dir [] listing

module _ {B : Type 0} (api : S3Api B) (c : Contract api) (s : Syncer) (f : Faults) (b : B) where
  hydrate_from-Kept :
      (fuel : ℕ) (token : Option String) (j : String) (dir : Dir) (errs : List SyncError)
      (out : Dir × List SyncError)
      → is_cert_file j ≡ true
      → hydrate_from api s f b fuel token dir errs ≡ some out
      → Kept api c s f b j dir out.0
  unfolding hydrate_from
  hydrate_from-Kept zero token j dir errs out cert h = absurd (ground arith)
  hydrate_from-Kept (suc fuel) token j dir errs out cert h =
      elim (Result-cases (api.list_objects s.bucket s.prefix token b)) [
        | inr (e, failed) ↦ inl (ground (arith, failed))
        | inl (page, got) ↦
            let done = restore api s f b page.contents dir in
            let kept =
              restore-Kept api c s f b page.contents j dir
                (c.contents-All s.bucket s.prefix token b page got) cert in
            elim (Bool-cases page.is_truncated) [
              | inr end ↦ subst (λ d. Kept api c s f b j dir d) (ground (arith, got, end)) kept
              | inl on ↦ Kept-trans api c s f b j dir done.0 out.0 kept (
                  hydrate_from-Kept fuel page.next j done.0 (errs ++ done.1) out cert
                    (ground (arith, got, on)))
            ]
      ]

  -- However the calls of the store and of the file system fail, a certificate file is what it was or a whole object.
  pub hydrate-Kept :
      (fuel : ℕ) (j : String) (dir : Dir) (out : Dir × List SyncError)
      → is_cert_file j ≡ true
      → hydrate api s f b fuel dir ≡ some out
      → Kept api c s f b j dir out.0
  unfolding hydrate
  hydrate-Kept fuel j dir out cert h = hydrate_from-Kept fuel none j dir [] out cert h
