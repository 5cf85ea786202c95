-- ===== src/Tests/CertStore.antt =====
-- A store in memory, which meets what certsync relies on, for the tests of Certs.
use tsserve.Base.{
  String, ◌≡◌, ◌≢◌, ap, subst, inl, inr, true, false, Option, none, some, List, [], ◌∷◌, Map,
  lookup, put, lookup-put, contains, All, append_nil, Result, ok, err, ◌==◌, if◌then◌else◌, arith,
  eq_iff, Bool-cases,
}
use tsserve.Base.Text.{has_prefix}
use tsserve.Discovery.Paging.{concat}
use tsserve.Certs.Hydrate.{S3Api, Listing, Pages}
use tsserve.Certs.Contract.{Contract}

unfoldable pub with_prefix : String → Map String → List String
unfolding has_prefix
with_prefix prefix [] = []
with_prefix prefix ((k, body) ∷ m) =
    let rest = with_prefix prefix m in if has_prefix prefix k then k ∷ rest else rest

unfoldable pub fetch : Option String → Result String (Result String String)
fetch none = err "NoSuchKey"
fetch (some body) = ok (ok body)

unfoldable pub memory : S3Api (Map String)
unfolding with_prefix fetch lookup put
memory = record {
  list_objects = λ bucket prefix token m.
      ok (record { contents = with_prefix prefix m; is_truncated = false; next = none });
  get_object = λ bucket k m. fetch (lookup k m);
  put_object = λ bucket k body m. (put k body m, none);
}

pub with_prefix-All :
    (prefix : String) (m : Map String)
    → All (λ k. has_prefix prefix k ≡ true) (with_prefix prefix m)
unfolding with_prefix
with_prefix-All prefix [] = tt
with_prefix-All prefix ((k, body) ∷ m) = elim (Bool-cases (has_prefix prefix k)) [
  | inl yes_prefix ↦ rw yes_prefix (yes_prefix, with_prefix-All prefix m)
  | inr other ↦ rw other (with_prefix-All prefix m)
]

contains-with_prefix :
    (prefix k body : String) (m : Map String)
    → has_prefix prefix k ≡ true
    → lookup k m ≡ some body
    → contains (with_prefix prefix m) k ≡ true
unfolding with_prefix contains lookup
contains-with_prefix prefix k body [] p at = absurd (ground arith)
contains-with_prefix prefix k body ((j, v) ∷ m) p at = elim (Bool-cases (j == k)) [
  | inl same ↦ ground (arith, same, eq_iff j k, p)
  | inr other ↦
      ground (arith, other, contains-with_prefix prefix k body m p (ground (arith, other)))
]

pub fetch-ok : (o : Option String) (body : String) → fetch o ≡ ok (ok body) → o ≡ some body
unfolding fetch
fetch-ok none body h = absurd (ground arith)
fetch-ok (some b) body h = ground arith

pub ok_injective : (l page : Listing) → ◌≡◌ {A = Result String Listing} (ok l) (ok page) → l ≡ page
ok_injective l page h = cc

pub contains-memory :
    (bucket prefix k body : String) (m : Map String) (pages : List (List String))
    → Pages memory bucket prefix m none pages
    → has_prefix prefix k ≡ true
    → lookup k m ≡ some body
    → contains (concat pages) k ≡ true
unfolding memory
contains-memory bucket prefix k body m _ (Pages.last {page = page} got end) p at =
    rw (append_nil page.contents) (
      subst (λ l. contains l k ≡ true) (ap (λ l. l.contents) (ok_injective _ page got))
        (contains-with_prefix prefix k body m p at))
contains-memory bucket prefix k body m _ (Pages.more got on rest) p at =
    absurd (ground (arith, got, on))

pub none-ne-some : (e : String) → none ≢ some e
none-ne-some e h = cc

unfoldable pub memory-Contract : Contract memory
unfolding memory
memory-Contract = record {
  object = λ bucket m k. lookup k m;
  object-put_ok = λ bucket k body j b fine. lookup-put k j body b;
  object-put_err = λ bucket k body j e b bad. absurd (none-ne-some e bad);
  get_object_lem = λ bucket k body b got. fetch-ok (lookup k b) body got;
  contents-All = λ bucket prefix token b page got.
      subst (λ l. All (λ k. has_prefix prefix k ≡ true) l)
        (ap (λ l. l.contents) (ok_injective _ page got)) (with_prefix-All prefix b);
  contains-Pages = λ bucket prefix k body b pages. contains-memory bucket prefix k body b pages;
}
