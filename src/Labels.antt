-- ===== src/Labels.antt =====
-- labels/labels.go: the `tsserve.*` vocabulary, parsed and validated. Go's nil map is `none`, a missing
-- key reads as the empty text, and an error keeps what its message quotes.
pub mod Laws
use tsserve.Base.{
  ℕ, String, ◌≡◌, refl, Bool, not, ◌&&◌, Option, none, some, List, [], ◌∷◌, Map, lookup, Result, ok,
  err, ◌>>=◌, ◌>>◌, ◌==◌, eqb, if◌then◌else◌,
}
use tsserve.Base.Text.{trim_space, has_prefix, split, parse_uint16}

abbrev pub enable : String
enable = "tsserve.enable"

abbrev pub service : String
service = "tsserve.service"

abbrev pub port : String
port = "tsserve.port"

abbrev pub network : String
network = "tsserve.network"

abbrev pub scheme : String
scheme = "tsserve.scheme"

abbrev pub caps : String
caps = "tsserve.caps"

pub record ServiceDef : Type 0 where
  pub service : String
  pub port : ℕ
  pub network : String
  pub scheme : String
  pub caps : List String

pub data Error : Type 0 where
  disabled : Error
  missing_label : String → Error
  not_a_service : String → Error
  bad_port : String → Error
  bad_scheme : String → Error

-- `labels[k]`
unfoldable pub value_of : String → Map String → String
unfolding lookup
value_of k labels = elim (lookup k labels) [ none ↦ "" | some v ↦ v ]

unfoldable pub validate_service : String → Result Error Unit
validate_service svc =
    if svc == ""
    then err (missing_label service)
    else if has_prefix "svc:" svc
    then ok tt
    else err (not_a_service svc)

keep_caps : List String → List String
keep_caps [] = []
keep_caps (c ∷ cs) =
    let rest = keep_caps cs in let cap = trim_space c in if cap == "" then rest else cap ∷ rest

unfoldable pub parse_caps : String → List String
unfolding keep_caps
parse_caps raw = keep_caps (split b',' raw)

parse_port : String → Result Error ℕ
parse_port text = if text == "" then err (missing_label port) else elim (parse_uint16 text) [
  | none ↦ err (bad_port text)
  | some n ↦ if eqb n 0 then err (bad_port text) else ok n
]

parse_scheme : String → Result Error String
parse_scheme raw =
    let s = if raw == "" then "http" else raw in
    if not (s == "http") && not (s == "https") then err (bad_scheme s) else ok s

unfoldable pub parse_map : Map String → Result Error ServiceDef
unfolding parse_port parse_scheme
parse_map labels = if not (value_of enable labels == "true") then err disabled else do
  let svc = value_of service labels
  validate_service svc
  n ← parse_port (value_of port labels)
  let net = value_of network labels
  s ← parse_scheme (value_of scheme labels)
  ok (record {
    service = svc;
    port = n;
    network = if net == "" then "bridge" else net;
    scheme = s;
    caps = parse_caps (value_of caps labels);
  })

unfoldable pub parse : Option (Map String) → Result Error ServiceDef
unfolding parse_map
parse none = err disabled
parse (some labels) = parse_map labels
