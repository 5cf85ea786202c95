-- ===== src/Startup/Daemon/Invariant.antt =====
-- What every event keeps of the process.
use tsserve.Base.{
  ℕ, zero, suc, ◌+◌, ◌≤◌, ◌≡◌, refl, ◌⊎◌, inl, inr, String, Bool, true, false, none, some, List, [],
  ◌∷◌, length, length-append, ltb, arith, All, if◌then◌else◌, Bool-cases,
}
use tsserve.Startup.{Ended}
use tsserve.Startup.Laws.{first_failure}
use tsserve.Startup.Daemon.{watchers_of, Mode, report, end_watcher, end_at, Daemon}
use tsserve.Startup.Daemon.Reports.{first_failure-append, quiet, report-quiet}

-- The modes whose `Run` has not returned.
abbrev pub unread : List Mode → ℕ
unread [] = 0
unread (m ∷ ms) = (if m.is_read then 0 else 1) + unread ms

-- A watcher of some mode has failed first, with this error.
abbrev pub Fails : String → List Mode → Type 0
Fails e [] = ⊥
Fails e (m ∷ ms) = (first_failure m.results ≡ some e) ⊎ Fails e ms

-- A mode with the results that the coordinator has received: unless the process stops, a mode that has been read has
-- ended without a failure, or a failure has been received.
abbrev pub Sound : Bool → List Ended → Mode → Type 0
Sound stopped received m =
    (length m.results ≤ watchers_of m.launch)
    × (stopped ≡ false
        → m.is_read ≡ true
        → first_failure received ≡ none
        → quiet (report m.launch m.results) ≡ true)

abbrev pub Inv : Daemon → Type 0
Inv d =
    (length d.forwarded + unread d.modes ≡ length d.modes)
    × All (Sound d.is_stopped d.forwarded) d.modes
    × ((e : String) → first_failure d.forwarded ≡ some e → Fails e d.modes)

pub length-end_at : (i : ℕ) (r : Ended) (ms : List Mode) → length (end_at i r ms) ≡ length ms
unfolding end_at
length-end_at i r [] = refl
length-end_at zero r (m ∷ ms) = refl
length-end_at (suc i) r (m ∷ ms) = omega (arith, length-end_at i r ms)

pub unread-end_at : (i : ℕ) (r : Ended) (ms : List Mode) → unread (end_at i r ms) ≡ unread ms
unfolding end_at end_watcher
unread-end_at i r [] = refl
unread-end_at zero r (m ∷ ms) = elim (Bool-cases (ltb (length m.results) (watchers_of m.launch))) [
  | inl room ↦ rw room refl
  | inr full ↦ rw full refl
]
unread-end_at (suc i) r (m ∷ ms) = omega (arith, unread-end_at i r ms)

end_watcher-Sound :
    (s : Bool) (received : List Ended) (r : Ended) (m : Mode)
    → Sound s received m
    → Sound s received (end_watcher r m)
unfolding end_watcher
end_watcher-Sound s received r m (n, calm) =
    elim (Bool-cases (ltb (length m.results) (watchers_of m.launch))) [
      | inl room ↦ rw room (
        ground (arith, room, length-append {0} m.results (r ∷ [])),
        λ on read none.
            let (_, all, _) = report-quiet m.launch m.results n (calm on read none) in
            absurd (ground (arith, room, all)),
      )
      | inr full ↦ rw full (n, calm)
    ]

pub end_at-Sound :
    (s : Bool) (received : List Ended) (i : ℕ) (r : Ended) (ms : List Mode)
    → All (Sound s received) ms
    → All (Sound s received) (end_at i r ms)
unfolding end_at
end_at-Sound s received i r [] h = tt
end_at-Sound s received zero r (m ∷ ms) (h, hs) = (end_watcher-Sound s received r m h, hs)
end_at-Sound s received (suc i) r (m ∷ ms) (h, hs) = (h, end_at-Sound s received i r ms hs)

pub end_at-Fails :
    (e : String) (i : ℕ) (r : Ended) (ms : List Mode) → Fails e ms → Fails e (end_at i r ms)
unfolding end_at end_watcher
end_at-Fails e i r [] h = h
end_at-Fails e zero r (m ∷ ms) (inl h) =
    elim (Bool-cases (ltb (length m.results) (watchers_of m.launch))) [
      | inl room ↦ rw room (inl (first_failure-append m.results (r ∷ []) e h))
      | inr full ↦ rw full (inl h)
    ]
end_at-Fails e zero r (m ∷ ms) (inr h) = inr h
end_at-Fails e (suc i) r (m ∷ ms) (inl h) = inl h
end_at-Fails e (suc i) r (m ∷ ms) (inr h) = inr (end_at-Fails e i r ms h)
