-- ===== src/Proxy/Identity/Laws.antt =====
-- A client cannot speak for its node.
use tsserve.Base.{
  String, ◌≡◌, inl, inr, Option, none, some, Map, lookup, put, delete, lookup-put, lookup-delete,
  ◌==◌, if◌then◌else◌, arith, Option-cases, Bool-cases,
}
use tsserve.Proxy.Identity.{
  header_node_tags, header_node_name, get, first_forwarded_for, format_node_tags, Node, is_tagged,
  set_node, inject_node_headers, rewrite,
}

-- The node headers that a peer is entitled to.
abbrev pub entitled : Option (String → Option Node) → Map String → Option Node
entitled whois inbound = elim whois [
  | none ↦ none
  | some resolve ↦
      let ip = first_forwarded_for (get "X-Forwarded-For" inbound) in
      if ip == "" then none else resolve ip
]

abbrev pub name_of : Option Node → Option String
name_of none = none
name_of (some n) = some n.computed_name

abbrev pub tags_of : Option Node → Option String
tags_of none = none
tags_of (some n) = if is_tagged n then some (format_node_tags n.tags) else none

set_node_lem :
    (n : Node) (out : Map String)
    → lookup header_node_tags out ≡ none
    → (lookup header_node_name (set_node n out) ≡ name_of (some n))
      × (lookup header_node_tags (set_node n out) ≡ tags_of (some n))
unfolding set_node
set_node_lem n out free =
    let tagged = put header_node_tags (format_node_tags n.tags) out in
    elim (Bool-cases (is_tagged n)) [
      | inl on ↦ (
        rw (set_node, on)
            (ground (arith, lookup-put header_node_name header_node_name n.computed_name tagged)),
        rw (set_node, on)
            (ground (
              arith,
              lookup-put header_node_name header_node_tags n.computed_name tagged,
              lookup-put header_node_tags header_node_tags (format_node_tags n.tags) out,
            )),
      )
      | inr off ↦ (
        rw (set_node, off)
            (ground (arith, lookup-put header_node_name header_node_name n.computed_name out)),
        rw (set_node, off)
            (ground
              (arith, free, lookup-put header_node_name header_node_tags n.computed_name out)),
      )
    ]

bare_lem :
    (out : Map String)
    → (lookup header_node_name (delete header_node_name (delete header_node_tags out)) ≡ none)
      × (lookup header_node_tags (delete header_node_name (delete header_node_tags out)) ≡ none)
bare_lem out = (
  ground (arith, lookup-delete header_node_name header_node_name (delete header_node_tags out)),
  ground (
    arith,
    lookup-delete header_node_name header_node_tags (delete header_node_tags out),
    lookup-delete header_node_tags header_node_tags out,
  ),
)

inject_lem :
    (whois : Option (String → Option Node)) (inbound out : Map String)
    → (lookup header_node_name (inject_node_headers whois inbound out)
        ≡ name_of (entitled whois inbound))
      × (lookup header_node_tags (inject_node_headers whois inbound out)
          ≡ tags_of (entitled whois inbound))
unfolding inject_node_headers
inject_lem none inbound out = bare_lem out
inject_lem (some resolve) inbound out =
    let ip = first_forwarded_for (get "X-Forwarded-For" inbound) in
    let bare = delete header_node_name (delete header_node_tags out) in
    elim (Bool-cases (ip == "")) [
      | inl blank ↦ rw (inject_node_headers, blank) (bare_lem out)
      | inr known ↦ elim (Option-cases (resolve ip)) [
        | inl e ↦ rw (inject_node_headers, known, e) (bare_lem out)
        | inr (n, e) ↦ rw (inject_node_headers, known, e) (set_node_lem n bare (bare_lem out).1)
      ]
    ]

-- Whatever node headers the client sends, the outbound request carries the node's name and tags as the peer at the
-- first forwarded address resolves, and neither header when no peer resolves.
pub rewrite_lem :
    (whois : Option (String → Option Node)) (in_host : String) (inbound out : Map String)
    → (lookup header_node_name (rewrite whois in_host inbound out)
        ≡ name_of (entitled whois inbound))
      × (lookup header_node_tags (rewrite whois in_host inbound out)
          ≡ tags_of (entitled whois inbound))
unfolding rewrite
rewrite_lem whois in_host inbound out = inject_lem whois inbound (
    put "X-Forwarded-Proto" "https" (
      put "X-Forwarded-Host" in_host (
        if get "X-Forwarded-For" inbound == ""
        then out
        else put "X-Forwarded-For" (get "X-Forwarded-For" inbound) out)))
