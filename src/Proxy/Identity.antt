-- ===== src/Proxy/Identity.antt =====
-- proxy/reverseproxy.go: the headers that the rewrite of a request sets. A header map keeps one value for a
-- name, which is what `Get`, `Set` and `Del` of the names below come to; the peer is resolved by an argument,
-- which answers `none` for an error or an unknown node.
pub mod Laws
use tsserve.Base.{
  String, Bool, true, false, not, Option, none, some, List, [], ◌∷◌, Map, lookup, put, delete, ◌==◌,
  if◌then◌else◌,
}
use tsserve.Base.Text.{trim_space, trim_prefix, join, before}

abbrev pub header_node_tags : String
header_node_tags = "Tailscale-Node-Tags"

abbrev pub header_node_name : String
header_node_name = "Tailscale-Node-Name"

-- `Header.Get`
unfoldable pub get : String → Map String → String
unfolding lookup
get name h = elim (lookup name h) [ none ↦ "" | some v ↦ v ]

-- The leftmost entry; a text without a comma is its own.
unfoldable pub first_forwarded_for : String → String
unfolding trim_space before
first_forwarded_for xff = if xff == "" then "" else trim_space (before b',' xff)

unfoldable pub stripped : List String → List String
unfolding trim_prefix
stripped [] = []
stripped (t ∷ ts) = trim_prefix "tag:" t ∷ stripped ts

unfoldable pub format_node_tags : List String → String
unfolding join stripped
format_node_tags tags = join "," (stripped tags)

pub record Node : Type 0 where
  pub tags : List String
  pub computed_name : String

-- `Node.IsTagged`
abbrev pub is_tagged : Node → Bool
is_tagged n = elim n.tags [ [] ↦ false | t ∷ ts ↦ true ]

-- The headers of a resolved peer.
unfoldable pub set_node : Node → Map String → Map String
unfolding put format_node_tags
set_node n out =
    let named = put header_node_name n.computed_name in
    if is_tagged n then named (put header_node_tags (format_node_tags n.tags) out) else named out

-- The outbound headers, from the inbound and the outbound ones.
unfoldable pub inject_node_headers :
    Option (String → Option Node) → Map String → Map String → Map String
unfolding delete get first_forwarded_for set_node
inject_node_headers whois inbound out =
    let bare = delete header_node_name (delete header_node_tags out) in
    elim whois [
      | none ↦ bare
      | some resolve ↦
          let ip = first_forwarded_for (get "X-Forwarded-For" inbound) in
          if ip == "" then bare else elim (resolve ip) [ none ↦ bare | some n ↦ set_node n bare ]
    ]

-- The headers that `Rewrite` sets on the outbound request.
unfoldable pub rewrite :
    Option (String → Option Node) → String → Map String → Map String → Map String
unfolding get put inject_node_headers
rewrite whois in_host inbound out =
    let xff = get "X-Forwarded-For" inbound in
    let forwarded = if xff == "" then out else put "X-Forwarded-For" xff out in
    inject_node_headers whois inbound
      (put "X-Forwarded-Proto" "https" (put "X-Forwarded-Host" in_host forwarded))
