-- ===== src/Discovery/Paging.antt =====
-- `listAllTaskArns` of ecs/watcher.go and `listTagged` of lambda/watcher.go: the loop over the pages of an
-- AWS listing. A call takes the token of the page and answers the page and the next token.
use tsserve.Base.{
  ℕ, zero, suc, String, ◌≡◌, refl, Bool, true, false, Option, none, some, List, [], ◌∷◌, ◌++◌,
  length, Result, ok, err, ◌==◌, if◌then◌else◌, append_nil, append_assoc,
}

-- No token, or an empty one.
abbrev pub is_last : Option String → Bool
is_last none = true
is_last (some token) = token == ""

module _ {A : Type 0} (call : Option String → Result String (List A × Option String)) where
  -- `none` is a loop that the fuel does not cover.
  unfoldable pub paginate : ℕ → Option String → List A → Option (Result String (List A))
  paginate zero token all = none
  paginate (suc fuel) token all = elim (call token) [
    | err e ↦ some (err e)
    | ok (page, next) ↦
        if is_last next then some (ok (all ++ page)) else paginate fuel next (all ++ page)
  ]

  -- The pages that the listing has from a token on.
  pub data Pages : Option String → List (List A) → Type 0 where
    last :
        {token next : Option String} {page : List A}
        → call token ≡ ok (page, next)
        → is_last next ≡ true
        → Pages token (page ∷ [])
    more :
        {token next : Option String} {page : List A} {pages : List (List A)}
        → call token ≡ ok (page, next)
        → is_last next ≡ false
        → Pages next pages
        → Pages token (page ∷ pages)

abbrev pub concat : {A : Type 0} → List (List A) → List A
concat [] = []
concat (xs ∷ xss) = xs ++ concat xss

module _ {A : Type 0} (call : Option String → Result String (List A × Option String)) where
  -- When a listing ends, as many passes as it has pages give all of its pages in order.
  pub paginate-Pages :
      {token : Option String} {pages : List (List A)} (all : List A)
      → Pages call token pages
      → paginate call (length pages) token all ≡ some (ok (all ++ concat pages))
  unfolding paginate
  paginate-Pages all (Pages.last {page = page} e end) = rw (e, end, append_nil page) refl
  paginate-Pages all (Pages.more {page = page} {pages = pages} e on rest) =
      rw (e, on) (rw (append_assoc all page (concat pages)) at (paginate-Pages (all ++ page) rest))
