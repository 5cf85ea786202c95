-- ===== src/Labels/Laws.antt =====
-- What a parsed definition satisfies.
use tsserve.Base.{
  ℕ, ◌<◌, ◌≤◌, String, ◌≡◌, ◌≢◌, subst, ◌⊎◌, inl, inr, true, false, some, List, [], ◌∷◌, Map, All,
  ok, ◌==◌, eqb, ltb, if◌then◌else◌, arith, eq_iff, Bool-cases, Option-cases, Result-cases,
}
use tsserve.Base.Text.{has_prefix, parse_uint16, digits, trim_space, split}
use tsserve.Labels.{
  ServiceDef, enable, service, port, network, scheme, caps, value_of, validate_service, keep_caps,
  parse_caps, parse_port, parse_scheme, parse_map, parse,
}

keep_caps-All : (cs : List String) → All (λ c. c ≢ "") (keep_caps cs)
unfolding keep_caps
keep_caps-All [] = tt
keep_caps-All (c ∷ cs) = elim (Bool-cases (trim_space c == "")) [
  | inl blank ↦ rw (keep_caps, blank) (keep_caps-All cs)
  | inr kept ↦
      rw (keep_caps, kept) ((λ e. ground (arith, kept, eq_iff (trim_space c) "")), keep_caps-All cs)
]

parse_port_lem : (text : String) (n : ℕ) → parse_port text ≡ ok n → (0 < n) × (n ≤ 65535)
unfolding parse_port parse_uint16
parse_port_lem text n h = elim (Bool-cases (text == "")) [
  | inl blank ↦ absurd (ground (arith, blank, h))
  | inr full ↦ elim (Option-cases (digits 0 text)) [
    | inl bad ↦ absurd (ground (arith, full, bad, h))
    | inr (v, read) ↦
        let same : v ≡ n = ground (arith, full, read, h) in
        let low : eqb v 0 ≡ false = ground (arith, full, read, h) in
        let high : ltb 65535 v ≡ false = ground (arith, full, read, h) in
        (ground arith, ground arith)
  ]
]

parse_scheme_lem : (raw s : String) → parse_scheme raw ≡ ok s → (s ≡ "http") ⊎ (s ≡ "https")
unfolding parse_scheme
parse_scheme_lem raw s h =
    let used : String = if raw == "" then "http" else raw in
    elim (Bool-cases (used == "http")) [
      | inl http ↦ inl (ground (arith, http, h, eq_iff used "http"))
      | inr other ↦ elim (Bool-cases (used == "https")) [
        | inl https ↦ inr (ground (arith, other, https, h, eq_iff used "https"))
        | inr neither ↦ absurd (ground (arith, other, neither, h))
      ]
    ]

validate_service_lem : (svc : String) → validate_service svc ≡ ok tt → has_prefix "svc:" svc ≡ true
unfolding validate_service
validate_service_lem svc h = ground (arith, h)

network_lem : (net : String) → (if net == "" then "bridge" else net) ≢ ""
network_lem net = elim (Bool-cases (net == "")) [
  | inl blank ↦ rw blank (λ e. ground (arith, e, eq_iff "bridge" ""))
  | inr named ↦ rw named (λ e. ground (arith, e, named, eq_iff net ""))
]

abbrev pub Valid : ServiceDef → Type 0
Valid def =
    (has_prefix "svc:" def.service ≡ true)
    × (0 < def.port)
    × (def.port ≤ 65535)
    × ((def.scheme ≡ "http") ⊎ (def.scheme ≡ "https"))
    × (def.network ≢ "")
    × All (λ c. c ≢ "") def.caps

-- Labels that parse have the service enabled and name a service; the definition has a port from 1 to 65535, the
-- scheme http or https, a network, and capabilities that are not empty.
pub parse_lem :
    (labels : Map String) (def : ServiceDef)
    → parse (some labels) ≡ ok def
    → (value_of enable labels ≡ "true") × Valid def
unfolding parse parse_map parse_caps
parse_lem labels def h =
    let svc = value_of service labels in
    let text = value_of port labels in
    let raw = value_of scheme labels in
    elim (Bool-cases (value_of enable labels == "true")) [
      | inr off ↦ absurd (ground (arith, off, h))
      | inl on ↦ elim (Result-cases (validate_service svc)) [
        | inr (e, bad) ↦ absurd (ground (arith, on, bad, h))
        | inl (u, named) ↦ elim (Result-cases (parse_port text)) [
          | inr (e, bad) ↦ absurd (ground (arith, on, named, bad, h))
          | inl (n, numbered) ↦ elim (Result-cases (parse_scheme raw)) [
            | inr (e, bad) ↦ absurd (ground (arith, on, named, numbered, bad, h))
            | inl (s, plain) ↦
                let net = value_of network labels in
                let read : ServiceDef = record {
                  service = svc;
                  port = n;
                  network = if net == "" then "bridge" else net;
                  scheme = s;
                  caps = parse_caps (value_of caps labels);
                } in
                let same : read ≡ def = ground (arith, on, named, numbered, plain, h) in
                (
                  ground (arith, on, eq_iff (value_of enable labels) "true"),
                  subst Valid same (
                    validate_service_lem svc named,
                    (parse_port_lem text n numbered).0,
                    (parse_port_lem text n numbered).1,
                    parse_scheme_lem raw s plain,
                    network_lem net,
                    keep_caps-All (split b',' (value_of caps labels)),
                  ),
                )
          ]
        ]
      ]
    ]
