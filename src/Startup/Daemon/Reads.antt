-- ===== src/Startup/Daemon/Reads.antt =====
-- What the coordinator's reads keep.
use tsserve.Base.{
  ℕ, zero, suc, ◌+◌, ◌≡◌, refl, sym, ap, subst, ◌∙◌, inl, inr, String, Bool, true, false, not, ◌&&◌,
  Option, none, some, List, [], ◌∷◌, ◌++◌, length, arith, All, Bool-cases, Option-cases,
}
use tsserve.Startup.{Ended, finished, canceled, failed}
use tsserve.Startup.Laws.{first_failure}
use tsserve.Startup.Daemon.{Mode, report, mode_result, read_mode, read_at, cancellation}
use tsserve.Startup.Daemon.Reports.{first_failure-append-none, quiet, report-failed}
use tsserve.Startup.Daemon.Invariant.{unread, Fails, Sound}

module _ (ready : Mode → Option Ended) where
  pub length-read_at : (i : ℕ) (ms : List Mode) → length (read_at ready i ms).0 ≡ length ms
  unfolding read_at read_mode
  length-read_at i [] = refl
  length-read_at zero (m ∷ ms) = elim (Option-cases (ready m)) [
    | inl waits ↦ rw waits refl
    | inr (r, on) ↦ rw on refl
  ]
  length-read_at (suc i) (m ∷ ms) = omega (arith, length-read_at i ms)

  pub unread-read_at :
      ((m : Mode) (r : Ended) → ready m ≡ some r → m.is_read ≡ false)
      → (i : ℕ) (ms : List Mode)
      → length (read_at ready i ms).1 + unread (read_at ready i ms).0 ≡ unread ms
  unfolding read_at read_mode
  unread-read_at once i [] = refl
  unread-read_at once zero (m ∷ ms) = elim (Option-cases (ready m)) [
    | inl waits ↦ rw waits (omega arith)
    | inr (r, on) ↦ rw (on, once m r on) (omega arith)
  ]
  unread-read_at once (suc i) (m ∷ ms) = omega (arith, unread-read_at once i ms)

  pub read_at-Fails :
      (e : String) (i : ℕ) (ms : List Mode) → Fails e ms → Fails e (read_at ready i ms).0
  unfolding read_at read_mode
  read_at-Fails e i [] h = h
  read_at-Fails e zero (m ∷ ms) h = elim (Option-cases (ready m)) [
    | inl waits ↦ rw waits h
    | inr (r, on) ↦ rw on h
  ]
  read_at-Fails e (suc i) (m ∷ ms) (inl h) = inl h
  read_at-Fails e (suc i) (m ∷ ms) (inr h) = inr (read_at-Fails e i ms h)

  -- Once the process stops, a mode may be read before it has ended.
  pub read_at-stopped :
      (old new : List Ended) (i : ℕ) (ms : List Mode)
      → All (Sound true old) ms
      → All (Sound true new) (read_at ready i ms).0
  unfolding read_at read_mode
  read_at-stopped old new i [] h = tt
  read_at-stopped old new zero (m ∷ ms) (h, hs) = elim (Option-cases (ready m)) [
    | inl waits ↦ rw waits ((h.0, λ on. absurd (ground (arith, on))), later ms hs)
    | inr (r, on) ↦ rw on ((h.0, λ on. absurd (ground (arith, on))), later ms hs)
  ]
    where
      later : (ns : List Mode) → All (Sound true old) ns → All (Sound true new) ns
      later [] k = tt
      later (n ∷ ns) (k, ks) = ((k.0, λ on. absurd (ground (arith, on))), later ns ks)
  read_at-stopped old new (suc i) (m ∷ ms) (h, hs) =
      ((h.0, λ on. absurd (ground (arith, on))), read_at-stopped old new i ms hs)

pub mode_result-once : (m : Mode) (r : Ended) → mode_result m ≡ some r → m.is_read ≡ false
unfolding mode_result
mode_result-once m r h = ground arith

pub cancellation-once :
    (s : Bool) (m : Mode) (r : Ended) → cancellation s m ≡ some r → m.is_read ≡ false
cancellation-once s m r h = ground arith

mode_result-report :
    (m : Mode) (r : Ended) → mode_result m ≡ some r → report m.launch m.results ≡ some r
unfolding mode_result
mode_result-report m r h = ground arith

quiet-some : (r : Ended) → first_failure (r ∷ []) ≡ none → quiet (some r) ≡ true
quiet-some finished h = refl
quiet-some canceled h = refl
quiet-some (failed e) h = absurd (ground (arith, h))

Sound-more : (s : Bool) (old xs : List Ended) (m : Mode) → Sound s old m → Sound s (old ++ xs) m
Sound-more s old xs m (n, calm) =
    (n, λ on read none. calm on read (first_failure-append-none old xs none).0)

pub All-Sound-more :
    (s : Bool) (old xs : List Ended) (ms : List Mode)
    → All (Sound s old) ms
    → All (Sound s (old ++ xs)) ms
All-Sound-more s old xs [] h = tt
All-Sound-more s old xs (m ∷ ms) (h, hs) = (Sound-more s old xs m h, All-Sound-more s old xs ms hs)

pub read_at-Sound :
    (s : Bool) (old : List Ended) (i : ℕ) (ms : List Mode)
    → All (Sound s old) ms
    → All (Sound s (old ++ (read_at mode_result i ms).1)) (read_at mode_result i ms).0
unfolding read_at read_mode
read_at-Sound s old i [] h = tt
read_at-Sound s old zero (m ∷ ms) (h, hs) = elim (Option-cases (mode_result m)) [
  | inl waits ↦ rw waits (Sound-more s old [] m h, All-Sound-more s old [] ms hs)
  | inr (r, on) ↦ rw on (
    (
      h.0,
      λ going read none.
          subst (λ o. quiet o ≡ true) (sym (mode_result-report m r on))
            (quiet-some r (first_failure-append-none old (r ∷ []) none).1),
    ),
    All-Sound-more s old (r ∷ []) ms hs,
  )
]
read_at-Sound s old (suc i) (m ∷ ms) (h, hs) =
    (Sound-more s old (read_at mode_result i ms).1 m h, read_at-Sound s old i ms hs)

first_failure-single : (r : Ended) (e : String) → first_failure (r ∷ []) ≡ some e → r ≡ failed e
first_failure-single finished e h = absurd (ground (arith, h))
first_failure-single canceled e h = absurd (ground (arith, h))
first_failure-single (failed x) e h = ground (arith, h)

pub read_at-failure :
    (s : Bool) (old : List Ended) (e : String) (i : ℕ) (ms : List Mode)
    → All (Sound s old) ms
    → first_failure (read_at mode_result i ms).1 ≡ some e
    → Fails e ms
unfolding read_at read_mode
read_at-failure s old e i [] h f = absurd (ground (arith, f))
read_at-failure s old e zero (m ∷ ms) (h, hs) f = elim (Option-cases (mode_result m)) [
  | inl waits ↦ absurd (ground (arith, f, waits))
  | inr (r, on) ↦
      let same = first_failure-single r e (ground (arith, f, on)) in
      inl
        (report-failed m.launch m.results e h.0 (mode_result-report m r on ∙ ap (λ x. some x) same))
]
read_at-failure s old e (suc i) (m ∷ ms) (h, hs) f = inr (read_at-failure s old e i ms hs f)

pub cancellation-calm :
    (s : Bool) (i : ℕ) (ms : List Mode) → first_failure (read_at (cancellation s) i ms).1 ≡ none
unfolding read_at read_mode
cancellation-calm s i [] = refl
cancellation-calm s zero (m ∷ ms) = elim (Bool-cases (s && not m.is_read)) [
  | inl on ↦ rw (on, first_failure) refl
  | inr off ↦ rw (off, first_failure) refl
]
cancellation-calm s (suc i) (m ∷ ms) = cancellation-calm s i ms

-- Before the process stops, no mode is canceled.
pub cancellation-going : (i : ℕ) (ms : List Mode) → read_at (cancellation false) i ms ≡ (ms, [])
unfolding read_at read_mode
cancellation-going i [] = refl
cancellation-going zero (m ∷ ms) = refl
cancellation-going (suc i) (m ∷ ms) = cc (cancellation-going i ms)
