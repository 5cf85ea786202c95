-- ===== src/Certs/Contract.antt =====
-- What certsync relies on of S3: an object is stored whole or not at all, is read as it was stored, and is listed under
-- each prefix that its key has.
use tsserve.Base.{
  String, ◌≡◌, ◌⊎◌, true, Option, none, some, List, All, contains, ok, ◌==◌, if◌then◌else◌,
}
use tsserve.Base.Text.{has_prefix}
use tsserve.Discovery.Paging.{concat}
use tsserve.Certs.Hydrate.{S3Api, Listing, Pages}

pub record Contract {B : Type 0} (api : S3Api B) : Type 0 where
  -- the body of a bucket's object
  pub object : String → B → String → Option String
  pub object-put_ok :
      (bucket k body j : String) (b : B)
      → (api.put_object bucket k body b).1 ≡ none
      → object bucket (api.put_object bucket k body b).0 j
        ≡ (if k == j then some body else object bucket b j)
  -- a call that fails may yet have stored the object
  pub object-put_err :
      (bucket k body j e : String) (b : B)
      → (api.put_object bucket k body b).1 ≡ some e
      → (object bucket (api.put_object bucket k body b).0 j ≡ object bucket b j)
        ⊎ (((k == j) ≡ true) × (object bucket (api.put_object bucket k body b).0 j ≡ some body))
  pub get_object_lem :
      (bucket k body : String) (b : B)
      → api.get_object bucket k b ≡ ok (ok body)
      → object bucket b k ≡ some body
  pub contents-All :
      (bucket prefix : String) (token : Option String) (b : B) (page : Listing)
      → api.list_objects bucket prefix token b ≡ ok page
      → All (λ k. has_prefix prefix k ≡ true) page.contents
  pub contains-Pages :
      (bucket prefix k body : String) (b : B) (pages : List (List String))
      → Pages api bucket prefix b none pages
      → has_prefix prefix k ≡ true
      → object bucket b k ≡ some body
      → contains (concat pages) k ≡ true
