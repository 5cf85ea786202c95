-- ===== src/Ecs/Registry/Laws.antt =====
-- A reader's handle writes to its own record.
use tsserve.Base.{
  ℕ, zero, suc, ◌+◌, ◌%◌, ◌^◌, ◌≡◌, ◌≢◌, refl, String, Bool, true, false, Option, none, some, [],
  ◌∷◌, ◌++◌, length, get_elem?, eqb, if◌then◌else◌, arith,
}
use tsserve.Ecs.Registry.{
  ReaderStatus, Registry, add, modify, succeed, fail, poll_succeeded, poll_failed,
}

get_elem?-modify :
    (f : ReaderStatus → ReaderStatus) (i j : ℕ) (r : Registry)
    → get_elem? (modify f i r) j ≡ (
        if eqb i j
        then elim (get_elem? r j) [ none ↦ none | some s ↦ some (f s) ]
        else get_elem? r j)
unfolding modify
get_elem?-modify f i j [] = ground arith
get_elem?-modify f zero zero (s ∷ r) = refl
get_elem?-modify f zero (suc j) (s ∷ r) = ground arith
get_elem?-modify f (suc i) zero (s ∷ r) = ground arith
get_elem?-modify f (suc i) (suc j) (s ∷ r) = ground (arith, get_elem?-modify f i j r)

get_elem?-snoc : (r : Registry) (s : ReaderStatus) → get_elem? (r ++ s ∷ []) (length r) ≡ some s
get_elem?-snoc [] s = refl
get_elem?-snoc (x ∷ r) s = get_elem?-snoc r s

-- The handle that `add` returns leads to the status that was added.
pub add-get_elem? : (s : ReaderStatus) (r : Registry) → get_elem? (add s r).0 (add s r).1 ≡ some s
unfolding add
add-get_elem? s r = get_elem?-snoc r s

-- A poll that fails after one that succeeded keeps the time of the success, counts both polls, and leaves the reader
-- unhealthy with the failure's message; every other reader's status is untouched.
pub poll_failed-poll_succeeded :
    (i j now : ℕ) (e : String) (r : Registry) (s : ReaderStatus)
    → get_elem? r i ≡ some s
    → j ≢ i
    → (get_elem? (poll_failed (some i) (some e) (poll_succeeded (some i) now r)) i
        ≡ some (record s {
          last_poll_ok = now;
          last_error = e;
          polls = ((s.polls + 1) % 2 ^ 64 + 1) % 2 ^ 64;
          healthy = false;
        }))
      × (get_elem? (poll_failed (some i) (some e) (poll_succeeded (some i) now r)) j
          ≡ get_elem? r j)
unfolding poll_succeeded poll_failed
poll_failed-poll_succeeded i j now e r s at other =
    let g = poll_succeeded (some i) now r in
    (
      ground
          (arith, get_elem?-modify (succeed now) i i r, get_elem?-modify (fail (some e)) i i g, at),
      ground (
        arith,
        get_elem?-modify (succeed now) i j r,
        get_elem?-modify (fail (some e)) i j g,
        other,
      ),
    )

-- Whether the reader at a handle shows as healthy.
abbrev pub health_at : Registry → ℕ → Option Bool
health_at r i = elim (get_elem? r i) [ none ↦ none | some s ↦ some s.healthy ]

pub health_at-poll_succeeded :
    (i now : ℕ) (b : Bool) (r : Registry)
    → health_at r i ≡ some b
    → health_at (poll_succeeded (some i) now r) i ≡ some true
unfolding poll_succeeded
health_at-poll_succeeded i now b r at = ground (arith, get_elem?-modify (succeed now) i i r, at)

pub health_at-poll_failed :
    (i : ℕ) (e : Option String) (b : Bool) (r : Registry)
    → health_at r i ≡ some b
    → health_at (poll_failed (some i) e r) i ≡ some false
unfolding poll_failed
health_at-poll_failed i e b r at = ground (arith, get_elem?-modify (fail e) i i r, at)
