-- ===== src/Local/Laws.antt =====
-- The bounds of what the status page prints, and of the port.
use tsserve.Base.{
  ℕ, ◌+◌, ◌*◌, ◌/◌, ◌%◌, ◌≤◌, ◌<◌, ◌≡◌, ◌⊎◌, inl, inr, String, Bool, true, false, ok, ◌==◌, arith,
  ltb, if◌then◌else◌, eq_iff, Bool-cases, Option-cases,
}
use tsserve.Local.{
  second, max_duration, round_second, Span, just_now, seconds, minutes, hours, days, span_of, atoi,
  in_range, parse_traefik_port,
}

-- Rounding moves a duration by half a second at most.
round_second_bounds :
    (d : ℕ)
    → d + second ≤ max_duration
    → (2 * round_second d ≤ 2 * d + second)
      × (2 * d < 2 * round_second d + second)
      × (round_second d % second ≡ 0)
unfolding round_second
round_second_bounds d h = ground arith

in_range_bounds : (z : Bool × ℕ) (n : ℕ) → in_range z ≡ ok n → (0 < n) × (n ≤ 65535)
unfolding in_range
in_range_bounds (true, m) n h = absurd (ground arith)
in_range_bounds (false, m) n h = ground arith

-- A span of so many seconds, in its units.
abbrev pub Shows : Span → ℕ → Type 0
Shows just_now s = s < 1
Shows (seconds n) s = (n ≡ s) × (0 < n) × (n < 60)
Shows (minutes m n) s = (60 * m + n ≡ s) × (0 < m) × (m < 60) × (n < 60)
Shows (hours h m) s =
    (3600 * h + 60 * m ≤ s) × (s < 3600 * h + 60 * m + 60) × (0 < h) × (h < 24) × (m < 60)
Shows (days d h) s =
    (86400 * d + 3600 * h ≤ s) × (s < 86400 * d + 3600 * h + 3600) × (0 < d) × (h < 24)

-- The whole number of seconds that is nearest to a duration, the greater of two that are as near.
abbrev pub nearest : ℕ → ℕ
nearest d = (2 * d + second) / (2 * second)

round_second-nearest : (d : ℕ) → d + second ≤ max_duration → round_second d / second ≡ nearest d
round_second-nearest d h =
    let (up, down, whole) = round_second_bounds d h in ground (arith, up, down, whole)

-- A duration of a second or more is shown in units that are in range, and the whole number of seconds nearest to it
-- lies within the last unit shown; a shorter one is shown as no time.
pub span_of-Shows :
    (d : ℕ) → d + second ≤ max_duration → Shows (span_of d) (if ltb d second then 0 else nearest d)
unfolding span_of
span_of-Shows d high = elim (Bool-cases (ltb d second)) [
  | inl short ↦ rw (short, span_of) (omega arith)
  | inr long ↦
      let same = round_second-nearest d high in
      let (up, down, whole) = round_second_bounds d high in
      elim (Bool-cases (ltb (round_second d) (60 * second))) [
        | inl a ↦ rw (long, a, ← same) (ground (arith, long, a))
        | inr a ↦ elim (Bool-cases (ltb (round_second d) (3600 * second))) [
          | inl b ↦ rw (long, a, b, ← same) (ground (arith, long, a, b))
          | inr b ↦ elim (Bool-cases (ltb (round_second d) (86400 * second))) [
            | inl c ↦ rw (long, a, b, c, ← same) (ground (arith, long, a, b, c))
            | inr c ↦ rw (long, a, b, c, ← same) (ground (arith, long, a, b, c))
          ]
        ]
      ]
]

-- A port that parses is 0, for an empty text, or a port number.
pub parse_traefik_port_lem :
    (s : String) (n : ℕ)
    → parse_traefik_port s ≡ ok n
    → ((s ≡ "") × (n ≡ 0)) ⊎ ((0 < n) × (n ≤ 65535))
unfolding parse_traefik_port
parse_traefik_port_lem s n h = elim (Bool-cases (s == "")) [
  | inl empty ↦ inl ((eq_iff s "").0 empty, ground (arith, empty))
  | inr full ↦ elim (Option-cases (atoi s)) [
    | inl bad ↦ absurd (ground (arith, full, bad))
    | inr (z, at) ↦ inr (in_range_bounds z n (ground (arith, full, at)))
  ]
]
