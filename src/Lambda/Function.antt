-- ===== src/Lambda/Function.antt =====
-- lambda/watcher.go: a function as its tags describe it, and what a watcher remembers of its registration.
use Prim.Native.Char.{Char, code}
use tsserve.Base.{
  ℕ, suc, String, Bool, false, not, ◌&&◌, ◌||◌, Option, none, some, List, [], ◌∷◌, Map, put, Result,
  ok, err, ◌==◌, if◌then◌else◌, eqb, leb,
}
use tsserve.Labels as Labels
use tsserve.Proxy.Caps.{render_caps}

pub record Function : Type 0 where
  pub service : String
  pub caps : List String
  pub arn : String
  pub qualifier : String

pub record Registration : Type 0 where
  pub service : String
  pub caps : String
  pub qualifier : String

unfoldable pub registration_of : Function → Registration
unfolding render_caps
registration_of fn = record {
  service = fn.service;
  caps = render_caps fn.caps;
  qualifier = fn.qualifier;
}

-- `prev == want` of two registrations.
unfoldable pub same_registration : Registration → Registration → Bool
same_registration a b = a.service == b.service && (a.caps == b.caps && a.qualifier == b.qualifier)

pub record Tag : Type 0 where
  pub key : Option String
  pub value : Option String

-- `aws.ToString`
abbrev pub to_string : Option String → String
to_string none = ""
to_string (some s) = s

-- The map that the loop over the tags fills: a later tag replaces an earlier one of its key.
unfoldable pub tag_values : Map String → List Tag → Map String
unfolding put
tag_values m [] = m
tag_values m (t ∷ ts) = tag_values (put (to_string t.key) (to_string t.value) m) ts

is_alias_char : Char → Bool
is_alias_char ch =
    let c = code ch in
    (leb b'A' c && leb c b'Z')
    || (leb b'a' c && leb c b'z')
    || (leb b'0' c && leb c b'9')
    || eqb c b'_'
    || eqb c b'-'

-- The length of a text of alias characters alone.
alias_length : String → Option ℕ
unfolding is_alias_char
alias_length String.[] = some 0
alias_length (String.◌∷◌ c s) =
    let rest = alias_length s in
    if is_alias_char c then elim rest [ none ↦ none | some n ↦ some (suc n) ] else none

-- `qualifierPattern.MatchString`
unfoldable pub is_qualifier : String → Bool
unfolding alias_length
is_qualifier q =
    q == "$LATEST" || elim (alias_length q) [ none ↦ false | some n ↦ leb 1 n && leb n 128 ]

abbrev pub qualifier_tag : String
qualifier_tag = "tsserve.qualifier"

pub data FunctionError : Type 0 where
  bad_service : Labels.Error → FunctionError
  bad_qualifier : String → FunctionError

unfoldable pub parse_function : String → List Tag → Result FunctionError Function
unfolding tag_values Labels.value_of Labels.validate_service Labels.parse_caps is_qualifier
parse_function arn tags =
    let values = tag_values [] tags in
    let svc = Labels.value_of Labels.service values in
    let q = Labels.value_of qualifier_tag values in
    elim (Labels.validate_service svc) [
      | err e ↦ err (bad_service e)
      | ok u ↦
          if not (q == "") && not (is_qualifier q)
          then err (bad_qualifier q)
          else ok (record {
            service = svc;
            caps = Labels.parse_caps (Labels.value_of Labels.caps values);
            arn = arn;
            qualifier = q;
          })
    ]
