-- ===== src/Startup/Daemon/Reports.antt =====
-- What a mode's report says of its watchers.
use tsserve.Base.{
  ℕ, ◌≤◌, ◌≡◌, refl, ap, inl, inr, String, Bool, true, false, Option, none, some, List, [], ◌∷◌,
  ◌++◌, length, ltb, arith, Bool-cases, Option-cases,
}
use tsserve.Startup.{Ended, finished, canceled, failed}
use tsserve.Startup.Laws.{first_failure, told, run_all_lem}
use tsserve.Startup.Daemon.{Launch, idle, direct, fan_in, watchers_of, first_message, report}

pub first_failure-append :
    (rs xs : List Ended) (e : String)
    → first_failure rs ≡ some e
    → first_failure (rs ++ xs) ≡ some e
first_failure-append [] xs e h = absurd (ground (arith, h))
first_failure-append (finished ∷ rs) xs e h = first_failure-append rs xs e h
first_failure-append (canceled ∷ rs) xs e h = first_failure-append rs xs e h
first_failure-append (failed x ∷ rs) xs e h = h

pub first_failure-append-none :
    (rs xs : List Ended)
    → first_failure (rs ++ xs) ≡ none
    → (first_failure rs ≡ none) × (first_failure xs ≡ none)
first_failure-append-none [] xs h = (refl, h)
first_failure-append-none (finished ∷ rs) xs h = first_failure-append-none rs xs h
first_failure-append-none (canceled ∷ rs) xs h = first_failure-append-none rs xs h
first_failure-append-none (failed x ∷ rs) xs h = absurd (ground (arith, h))

pub first_failure-none-append :
    (rs xs : List Ended) → first_failure rs ≡ none → first_failure (rs ++ xs) ≡ first_failure xs
first_failure-none-append [] xs h = refl
first_failure-none-append (finished ∷ rs) xs h = first_failure-none-append rs xs h
first_failure-none-append (canceled ∷ rs) xs h = first_failure-none-append rs xs h
first_failure-none-append (failed x ∷ rs) xs h = absurd (ground (arith, h))

-- A report that is no failure.
abbrev pub quiet : Option Ended → Bool
quiet none = false
quiet (some finished) = true
quiet (some canceled) = true
quiet (some (failed e)) = false

abbrev pub is_idle : Launch → Bool
is_idle idle = true
is_idle direct = false
is_idle (fan_in n) = false

-- The mode has watchers, or had none to fan in; they have all ended, and none has failed.
abbrev pub HasEnded : Launch → List Ended → Type 0
HasEnded l rs = (is_idle l ≡ false) × (length rs ≡ watchers_of l) × (first_failure rs ≡ none)

report-fan_in :
    (k : ℕ) (rs : List Ended)
    → length rs ≤ k
    → report (fan_in k) rs ≡ first_message (told (first_failure rs) (ltb (length rs) k))
unfolding report
report-fan_in k rs n = ap first_message (run_all_lem k rs n)

pub report-failed :
    (l : Launch) (rs : List Ended) (e : String)
    → length rs ≤ watchers_of l
    → report l rs ≡ some (failed e)
    → first_failure rs ≡ some e
unfolding report
report-failed idle rs e n h = absurd (ground (arith, h))
report-failed direct [] e n h = absurd (ground (arith, h))
report-failed direct (finished ∷ rs) e n h = absurd (ground (arith, h))
report-failed direct (canceled ∷ rs) e n h = absurd (ground (arith, h))
report-failed direct (failed x ∷ rs) e n h = ground (arith, h)
report-failed (fan_in k) rs e n h = elim (Option-cases (first_failure rs)) [
  | inl calm ↦ elim (Bool-cases (ltb (length rs) k)) [
    | inl more ↦ absurd (ground (arith, h, report-fan_in k rs n, calm, more))
    | inr done ↦ absurd (ground (arith, h, report-fan_in k rs n, calm, done))
  ]
  | inr (x, on) ↦ ground (arith, h, report-fan_in k rs n, on)
]

pub report-quiet :
    (l : Launch) (rs : List Ended)
    → length rs ≤ watchers_of l
    → quiet (report l rs) ≡ true
    → HasEnded l rs
unfolding report
report-quiet idle rs n h = absurd (ground (arith, h))
report-quiet direct [] n h = absurd (ground (arith, h))
report-quiet direct (finished ∷ []) n h = (refl, refl, refl)
report-quiet direct (canceled ∷ []) n h = (refl, refl, refl)
report-quiet direct (failed x ∷ rs) n h = absurd (ground (arith, h))
report-quiet direct (r ∷ s ∷ rs) n h = absurd (omega (arith, n))
report-quiet (fan_in k) rs n h = elim (Option-cases (first_failure rs)) [
  | inl calm ↦ elim (Bool-cases (ltb (length rs) k)) [
    | inl more ↦ absurd (ground (arith, h, report-fan_in k rs n, calm, more))
    | inr done ↦ (refl, ground (arith, n, done), calm)
  ]
  | inr (x, on) ↦ absurd (ground (arith, h, report-fan_in k rs n, on))
]
