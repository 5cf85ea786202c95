-- ===== src/Startup/Laws.antt =====
-- What the checks of the configuration let through, and what the watchers' results become.
use tsserve.Base.{
  ℕ, zero, suc, ◌≤◌, ltb, length, Bool, if◌then◌else◌, String, ◌≡◌, refl, subst, inl, inr, true,
  Option, none, some, List, [], ◌∷◌, ◌++◌, contains, Distinct, Distinct-snoc, All, ok, ◌==◌, arith,
  Bool-cases,
}
use tsserve.Base.Text.{trim_space, split, to_lower}
use tsserve.Startup.{
  is_mode, modes_from, parse_discovery_modes, Ended, finished, canceled, failed, collect, run_all,
}

-- The modes that a list may hold.
abbrev pub Modes : List String → Type 0
Modes modes = Distinct modes × All (λ mode. is_mode mode ≡ true) modes

All-snoc :
    (modes : List String) (mode : String)
    → All (λ m. is_mode m ≡ true) modes
    → is_mode mode ≡ true
    → All (λ m. is_mode m ≡ true) (modes ++ mode ∷ [])
All-snoc [] mode h k = (k, tt)
All-snoc (m ∷ modes) mode h k = (h.0, All-snoc modes mode h.1 k)

modes_from-Modes :
    (modes entries out : List String) → Modes modes → modes_from modes entries ≡ ok out → Modes out
unfolding modes_from
modes_from-Modes modes [] out h e = let same : modes ≡ out = ground (arith, e) in subst Modes same h
modes_from-Modes modes (entry ∷ entries) out h e =
    let mode = to_lower (trim_space entry) in
    elim (Bool-cases (mode == "")) [
      | inl blank ↦ absurd (ground (arith, e, blank))
      | inr named ↦ elim (Bool-cases (is_mode mode)) [
        | inr unknown ↦ absurd (ground (arith, e, named, unknown))
        | inl known ↦ elim (Bool-cases (contains modes mode)) [
          | inl twice ↦ absurd (ground (arith, e, named, known, twice))
          | inr new ↦
              modes_from-Modes (modes ++ mode ∷ []) entries out
                (Distinct-snoc modes mode h.0 new, All-snoc modes mode h.1 known)
                (ground (arith, e, named, known, new))
        ]
      ]
    ]

-- Discovery modes that parse are distinct, and each is docker, ecs or lambda.
parse_discovery_modes-Modes :
    (raw : String) (modes : List String) → parse_discovery_modes raw ≡ ok modes → Modes modes
unfolding parse_discovery_modes
parse_discovery_modes-Modes raw modes e = modes_from-Modes [] (split b',' raw) modes (tt, tt) e

-- The first failure among the results, if any.
abbrev pub first_failure : List Ended → Option String
first_failure [] = none
first_failure (finished ∷ rs) = first_failure rs
first_failure (canceled ∷ rs) = first_failure rs
first_failure (failed e ∷ rs) = some e

collect_reported : (n : ℕ) (rs : List Ended) → collect n true rs ≡ []
unfolding collect
collect_reported zero rs = refl
collect_reported (suc n) [] = refl
collect_reported (suc n) (finished ∷ rs) = collect_reported n rs
collect_reported (suc n) (canceled ∷ rs) = collect_reported n rs
collect_reported (suc n) (failed e ∷ rs) = collect_reported n rs

-- What has been sent, from the first failure and whether more results are to come.
abbrev pub told : Option String → Bool → List (Option String)
told (some e) more = some e ∷ []
told none more = if more then [] else none ∷ []

-- Whatever the order of the watchers' results, one message at most is sent: the first failure as soon as it comes, and
-- nil only when every watcher has ended and none of them has failed.
pub run_all_lem :
    (n : ℕ) (rs : List Ended)
    → length rs ≤ n
    → run_all n rs ≡ told (first_failure rs) (ltb (length rs) n)
unfolding run_all collect
run_all_lem zero [] h = refl
run_all_lem zero (r ∷ rs) h = absurd (omega (arith, h))
run_all_lem (suc n) [] h = ground arith
run_all_lem (suc n) (finished ∷ rs) h = ground (arith, run_all_lem n rs)
run_all_lem (suc n) (canceled ∷ rs) h = ground (arith, run_all_lem n rs)
run_all_lem (suc n) (failed e ∷ rs) h = rw (collect_reported n rs) refl
