-- ===== src/Proxy/Manager/Gauges/Kept.antt =====
-- Whole critical sections keep the gauges in step with the index.
use tsserve.Base.{
  ℕ, ◌≡◌, String, subst, true, none, some, lookup, arith, Bool, Bool-cases, Option-cases, inl, inr,
}
use tsserve.Proxy.Backend.{Backend}
use tsserve.Proxy.State.{Manager, ServiceDef, serving}
use tsserve.Proxy.Manager.{
  register_pass, claim, join, add_member, advertise_locked, release_locked, deregister_locked,
  withdrawn_locked, close_locked,
}
use tsserve.Proxy.Manager.Invariant.{Inv}
use tsserve.Proxy.Manager.Invariant.Claim.{Claimed}
use tsserve.Proxy.Manager.Invariant.Withdraw.{Withdrawing, pool_record}
use tsserve.Proxy.Manager.Gauges.{Gauged, claim-Shows, add_member-Shows}
use tsserve.Proxy.Manager.Gauges.Sections.{
  release_locked-Shows, advertise_live-Shows, withdrawn_locked-Shows, close_locked-Shows,
  deregister_known-Shows,
}

module _ (m : Manager) (v : Inv m) (h : Gauged m) where
  claim-Gauged : (def : ServiceDef) → lookup def.service m.services ≡ none → Gauged (claim def m).0
  unfolding claim
  claim-Gauged def free g e = claim-Shows m v g e (h g e) def free

  join-Gauged :
      (key : String) (def : ServiceDef) (b : Backend) (id : ℕ)
      → lookup def.service m.services ≡ some id
      → Gauged (join key def b id m).0
  unfolding join add_member
  join-Gauged key def b id held g' e = elim (Option-cases m.metrics) [
    | inl unwired ↦ absurd (ground arith)
    | inr (g, wired) ↦ ground (
      arith,
      h g wired,
      λ (s : serving (m.records id) ≡ true).
          add_member-Shows m v g wired (h g wired) key b id def.service held s g',
    )
  ]

-- A pass of register's loop keeps the gauges in step with the index.
pub register_pass-Gauged :
    (key : String) (def : ServiceDef) (b : Backend) (m : Manager)
    → Inv m
    → Gauged m
    → Gauged (register_pass key def b m).0
unfolding register_pass
register_pass-Gauged key def b m v h = elim (Bool-cases m.shutdown) [
  | inl down ↦ let e : m ≡ (register_pass key def b m).0 = ground arith in subst Gauged e h
  | inr live ↦ elim (Option-cases (lookup key m.by_key)) [
    | inr (n, known) ↦ let e : m ≡ (register_pass key def b m).0 = ground arith in subst Gauged e h
    | inl fresh ↦ elim (Option-cases (lookup def.service m.services)) [
      | inl free ↦
          let e : (claim def m).0 ≡ (register_pass key def b m).0 = ground arith in
          subst Gauged e (claim-Gauged m v h def free)
      | inr (id, held) ↦
          let e : (join key def b id m).0 ≡ (register_pass key def b m).0 = ground arith in
          subst Gauged e (join-Gauged m v h key def b id held)
    ]
  ]
]

-- Releasing a claim keeps the gauges in step with the index.
pub release_locked-Gauged :
    (id : ℕ) (m m' : Manager)
    → Inv m
    → Claimed m id
    → release_locked id m ≡ some m'
    → Gauged m
    → Gauged m'
unfolding release_locked
release_locked-Gauged id m m' v c e h g' w = elim (Option-cases m.metrics) [
  | inl unwired ↦ absurd (ground arith)
  | inr (g, wired) ↦ release_locked-Shows m m' v g g' wired (h g wired) id c e w
]

-- Recording the outcome of a listen call keeps the gauges in step with the index.
pub advertise_locked-Gauged :
    (id : ℕ) (key : String) (b : Backend) (m m' : Manager) (down : Bool)
    → Inv m
    → Claimed m id
    → advertise_locked id key b m ≡ some (m', down)
    → Gauged m
    → Gauged m'
unfolding advertise_locked
advertise_locked-Gauged id key b m m' down v c e h g' w = elim (Option-cases m.metrics) [
  | inl unwired ↦ absurd (ground arith)
  | inr (g, wired) ↦ elim (Bool-cases m.shutdown) [
    | inl closing ↦ release_locked-Shows m m' v g g' wired (h g wired) id c (ground arith) w
    | inr live ↦ advertise_live-Shows m m' v g g' wired (h g wired) id c key b down live e w
  ]
]

-- The first lock of a deregistration keeps the gauges in step with the index.
pub deregister_locked-Gauged :
    (key : String) (m : Manager) → Inv m → Gauged m → Gauged (deregister_locked key m).0
unfolding deregister_locked
deregister_locked-Gauged key m v h g' w = elim (Option-cases (lookup key m.by_key)) [
  | inl unknown ↦ let e : m ≡ (deregister_locked key m).0 = ground arith in subst Gauged e h g' w
  | inr (name, known) ↦
      let r = pool_record key m v name known in
      elim (Option-cases m.metrics) [
        | inl unwired ↦ absurd (ground (arith, r.1, r.2))
        | inr (g, wired) ↦
            deregister_known-Shows m v g g' wired (h g wired) key name r.0 known r.1 r.2 w
      ]
]

-- The second lock of a deregistration keeps the gauges in step with the index.
pub withdrawn_locked-Gauged :
    (id : ℕ) (m m' : Manager)
    → Inv m
    → Withdrawing m id
    → withdrawn_locked id (m.records id).name m ≡ some m'
    → Gauged m
    → Gauged m'
unfolding withdrawn_locked
withdrawn_locked-Gauged id m m' v d e h g' w = elim (Option-cases m.metrics) [
  | inl unwired ↦ absurd (ground arith)
  | inr (g, wired) ↦ withdrawn_locked-Shows m m' v g g' wired (h g wired) id d e w
]

-- Closing the manager keeps the gauges in step with the index.
pub close_locked-Gauged : (m : Manager) → Inv m → Gauged m → Gauged (close_locked m).0
unfolding close_locked
close_locked-Gauged m v h g' w = elim (Option-cases m.metrics) [
  | inl unwired ↦ absurd (ground arith)
  | inr (g, wired) ↦ close_locked-Shows m v g g' wired (h g wired) w
]
