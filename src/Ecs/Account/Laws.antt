-- ===== src/Ecs/Account/Laws.antt =====
-- What a plan contains.
use tsserve.Base.{
  ℕ, ◌+◌, ◌≡◌, ◌≢◌, refl, ap, String, true, false, not, ◌&&◌, List, [], ◌∷◌, length, contains,
  Distinct, All, eqb, ok, ◌==◌, if◌then◌else◌, arith, eq_iff,
}
use tsserve.Ecs.Account.{Account, Defaults, WatcherSpec, differs, spec_of, plan_from, plan}

-- The explicit names of a plan.
abbrev pub names : List WatcherSpec → List String
names [] = []
names (s ∷ ss) = if s.name == "" then names ss else s.name ∷ names ss

-- A description that a watcher can be built from.
abbrev pub Complete : WatcherSpec → Type 0
Complete s =
    (s.cluster ≢ "") × (differs (s.access_key_id == "") (s.secret_access_key == "") ≡ false)

-- No name of a list is among those seen.
abbrev Fresh : List String → List String → Type 0
Fresh seen ns = (n : String) → contains ns n ≡ true → contains seen n ≡ false

plan_from_lem :
    (i : ℕ) (seen : List String) (d : Defaults) (accounts : List Account) (specs : List WatcherSpec)
    → plan_from i seen d accounts ≡ ok specs
    → (length specs ≡ length accounts)
      × All Complete specs
      × Distinct (names specs)
      × Fresh seen (names specs)
unfolding plan_from contains spec_of
plan_from_lem i seen d [] [] h = (refl, tt, tt, λ n e. ground arith)
plan_from_lem i seen d [] (s ∷ specs) h = absurd (ground arith)
plan_from_lem i seen d (a ∷ as') [] h = absurd (ground arith)
plan_from_lem i seen d (a ∷ as') (s ∷ specs) h =
    let seen' : List String = if a.name == "" then seen else a.name ∷ seen in
    let rest : plan_from (i + 1) seen' d as' ≡ ok specs = ground arith in
    let head : s ≡ spec_of a d = ground arith in
    let ih = plan_from_lem (i + 1) seen' d as' specs rest in
    let whole : differs (a.access_key_id == "") (a.secret_access_key == "") ≡ false =
      ground arith in
    let placed : ((spec_of a d).cluster == "") ≡ false = ground arith in
    let new : (not (a.name == "") && contains seen a.name) ≡ false = ground arith in
    let named : s.name ≡ a.name = ap (λ (x : WatcherSpec). x.name) head in
    (
      omega (arith, ih.0),
      (((λ e. ground (arith, placed, head, eq_iff (spec_of a d).cluster "")), rw head whole), ih.1),
      ground (arith, ih.2, named, ih.3 a.name, eq_iff a.name a.name),
      λ n e. ground (arith, e, new, named, ih.3 n, eq_iff a.name n),
    )

-- A plan that succeeds has one description for each account, or one when no account is configured; every description has a
-- cluster and both halves of static credentials or neither; and no explicit name is used twice.
pub plan_lem :
    (accounts : List Account) (d : Defaults) (specs : List WatcherSpec)
    → plan accounts d ≡ ok specs
    → (length specs ≡ (if eqb (length accounts) 0 then 1 else length accounts))
      × All Complete specs
      × Distinct (names specs)
unfolding plan
plan_lem [] d [] h = absurd (ground arith)
plan_lem [] d (s ∷ t ∷ specs) h = absurd (ground arith)
plan_lem [] d (s ∷ []) h =
    let placed : (d.cluster == "") ≡ false = ground arith in
    let same : s.cluster ≡ d.cluster = ground arith in
    let whole : (s.access_key_id ≡ "") × (s.secret_access_key ≡ "") =
      (ground arith, ground arith) in
    (
      ground arith,
      (
        (
          (λ e. ground (arith, placed, same, eq_iff d.cluster "")),
          ground (arith, whole, eq_iff "" ""),
        ),
        tt,
      ),
      ground arith,
    )
plan_lem (a ∷ as') d specs h =
    let found = plan_from_lem 0 [] d (a ∷ as') specs h in
    (ground (arith, found.0), found.1, found.2)
