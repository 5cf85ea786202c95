-- ===== src/Startup/Daemon/Laws.antt =====
-- What the process hears from its discovery modes.
use tsserve.Base.{
  ℕ, ◌<◌, ◌≡◌, refl, sym, subst, ◌∙◌, inl, inr, String, Bool, true, false, Option, none, some, List,
  [], ◌∷◌, ◌++◌, length, length-append, ltb, arith, All, Bool-cases, Option-cases,
}
use tsserve.Startup.{Ended}
use tsserve.Startup.Laws.{first_failure, run_all_lem}
use tsserve.Startup.Daemon.{
  Launch, Mode, mode_result, read_at, cancellation, Daemon, start_modes, Event, ends, forwards,
  cancels, stops, happen, happen_all, watch_messages,
}
use tsserve.Startup.Daemon.Reports.{
  first_failure-append, first_failure-none-append, HasEnded, report-quiet,
}
use tsserve.Startup.Daemon.Invariant.{
  unread, Fails, Sound, Inv, length-end_at, unread-end_at, end_at-Sound, end_at-Fails,
}
use tsserve.Startup.Daemon.Reads.{
  length-read_at, unread-read_at, read_at-Fails, read_at-stopped, mode_result-once,
  cancellation-once, read_at-Sound, read_at-failure, cancellation-calm, cancellation-going,
  All-Sound-more,
}

-- The first failure of what has been received and of what is received now.
received-Fails :
    (old new : List Ended) (before after : List Mode)
    → ((e : String) → first_failure old ≡ some e → Fails e before)
    → ((e : String) → Fails e before → Fails e after)
    → ((e : String) → first_failure new ≡ some e → Fails e after)
    → (e : String) → first_failure (old ++ new) ≡ some e
    → Fails e after
received-Fails old new before after was kept is_new e h = elim (Option-cases (first_failure old)) [
  | inl calm ↦ is_new e (sym (first_failure-none-append old new calm) ∙ h)
  | inr (x, on) ↦ kept e (was e (on ∙ (sym (first_failure-append old new x on) ∙ h)))
]

forwards-Inv : (i : ℕ) (d : Daemon) → Inv d → Inv (happen (forwards i) d)
unfolding happen
forwards-Inv i d (counted, sound, fails) =
    let step = read_at mode_result i d.modes in
    (
      omega (
        arith,
        counted,
        length-read_at mode_result i d.modes,
        unread-read_at mode_result mode_result-once i d.modes,
        length-append {0} d.forwarded step.1,
      ),
      read_at-Sound d.is_stopped d.forwarded i d.modes sound,
      received-Fails d.forwarded step.1 d.modes step.0 fails
          (λ e. read_at-Fails mode_result e i d.modes)
          (λ e f.
            read_at-Fails mode_result e i d.modes
              (read_at-failure d.is_stopped d.forwarded e i d.modes sound f)),
    )

cancels-Sound :
    (s : Bool) (old : List Ended) (i : ℕ) (ms : List Mode)
    → All (Sound s old) ms
    → All (Sound s (old ++ (read_at (cancellation s) i ms).1)) (read_at (cancellation s) i ms).0
cancels-Sound true old i ms h =
    read_at-stopped (cancellation true) old (old ++ (read_at (cancellation true) i ms).1) i ms h
cancels-Sound false old i ms h = rw (cancellation-going i ms) (All-Sound-more false old [] ms h)

cancels-Inv : (i : ℕ) (d : Daemon) → Inv d → Inv (happen (cancels i) d)
unfolding happen
cancels-Inv i d (counted, sound, fails) =
    let ready = cancellation d.is_stopped in
    let step = read_at ready i d.modes in
    (
      omega (
        arith,
        counted,
        length-read_at ready i d.modes,
        unread-read_at ready (cancellation-once d.is_stopped) i d.modes,
        length-append {0} d.forwarded step.1,
      ),
      cancels-Sound d.is_stopped d.forwarded i d.modes sound,
      received-Fails d.forwarded step.1 d.modes step.0 fails (λ e. read_at-Fails ready e i d.modes)
          (λ e f. absurd (ground (arith, f, cancellation-calm d.is_stopped i d.modes))),
    )

All-stopped :
    (s : Bool) (old : List Ended) (ms : List Mode) → All (Sound s old) ms → All (Sound true old) ms
All-stopped s old [] h = tt
All-stopped s old (m ∷ ms) (h, hs) =
    ((h.0, λ on. absurd (ground (arith, on))), All-stopped s old ms hs)

happen-Inv : (ev : Event) (d : Daemon) → Inv d → Inv (happen ev d)
unfolding happen
happen-Inv (ends i r) d (counted, sound, fails) = (
  omega (arith, counted, length-end_at i r d.modes, unread-end_at i r d.modes),
  end_at-Sound d.is_stopped d.forwarded i r d.modes sound,
  λ e f. end_at-Fails e i r d.modes (fails e f),
)
happen-Inv (forwards i) d h = forwards-Inv i d h
happen-Inv (cancels i) d h = cancels-Inv i d h
happen-Inv stops d (counted, sound, fails) =
    (counted, All-stopped d.is_stopped d.forwarded d.modes sound, fails)

start_modes-Inv : (launches : List Launch) → Inv (start_modes launches)
unfolding start_modes
start_modes-Inv [] = (refl, tt, λ e f. absurd (ground (arith, f)))
start_modes-Inv (l ∷ ls) =
    let (counted, sound, fails) = start_modes-Inv ls in
    (
      omega (arith, counted),
      ((omega arith, λ on read. absurd (ground (arith, read))), sound),
      λ e f. absurd (ground (arith, f)),
    )

happen_all-Inv : (es : List Event) (d : Daemon) → Inv d → Inv (happen_all es d)
unfolding happen_all
happen_all-Inv [] d h = h
happen_all-Inv (ev ∷ es) d h = happen_all-Inv es (happen ev d) (happen-Inv ev d h)

-- What has been sent to `awaitTerminal`.
abbrev pub Told : List (Option String) → Daemon → Type 0
Told [] d = (first_failure d.forwarded ≡ none) × (0 < unread d.modes)
Told (none ∷ []) d = d.is_stopped ≡ false → All (λ m. HasEnded m.launch m.results) d.modes
Told (some e ∷ []) d = Fails e d.modes
Told (x ∷ y ∷ messages) d = ⊥

unread-HasEnded :
    (s : Bool) (old : List Ended) (ms : List Mode)
    → unread ms ≡ 0
    → All (Sound s old) ms
    → first_failure old ≡ none
    → s ≡ false
    → All (λ m. HasEnded m.launch m.results) ms
unread-HasEnded s old [] u h calm going = tt
unread-HasEnded s old (m ∷ ms) u (h, hs) calm going = (
  report-quiet m.launch m.results h.0 (h.1 going (ground (arith, u)) calm),
  unread-HasEnded s old ms (ground (arith, u)) hs calm going,
)

-- In whatever order the watchers end, the modes' reports are received, and a shutdown is asked for, one message at
-- most is sent. It is a failure only if a watcher's failure is the first of its mode. It is nil, before a shutdown,
-- only if no mode is idle and all its watchers have ended without a failure. And there is none only while no failure
-- has been received and some mode's report is still to be received: so a mode that started no reader keeps the
-- process up, and hides no failure.
pub watch_messages-Told :
    (launches : List Launch) (es : List Event)
    → Told
        (watch_messages (happen_all es (start_modes launches)))
        (happen_all es (start_modes launches))
unfolding watch_messages
watch_messages-Told launches es =
    let d = happen_all es (start_modes launches) in
    let (counted, sound, fails) =
      happen_all-Inv es (start_modes launches) (start_modes-Inv launches) in
    let said = run_all_lem (length d.modes) d.forwarded (omega (arith, counted)) in
    subst (λ messages. Told messages d) (sym said)
      (elim (Option-cases (first_failure d.forwarded)) [
        | inr (e, on) ↦ rw on (fails e on)
        | inl calm ↦ elim (Bool-cases (ltb (length d.forwarded) (length d.modes))) [
          | inl more ↦ rw (calm, more) (calm, ground (arith, counted, more))
          | inr done ↦
              rw (calm, done)
                (unread-HasEnded d.is_stopped d.forwarded d.modes (ground (arith, counted, done))
                  sound calm)
        ]
      ])
