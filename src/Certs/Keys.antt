-- ===== src/Certs/Keys.antt =====
-- The names of the mirrored files and their object keys.
use Prim.Native.Char.{code}
use Prim.Native.String.{◌++◌ as ◌+++◌}
use Prim.Native.String.append
use text.Mathlib.TextEquality.{Char-path}
use tsserve.Base.{
  ℕ, String, ◌≡◌, refl, ap, subst, sym, ◌∙◌, inl, inr, ◌≢◌, true, false, some, ◌==◌, eqb, eqb→eq,
  arith, eq_iff, Bool-cases, Option-cases,
}
use tsserve.Base.Text.{strip_prefix, trim_prefix, has_prefix, has_suffix}
use tsserve.Certs.Names.{Syncer, is_cert_file, object_key}

pub strip_prefix-append : (p n : String) → strip_prefix p (p +++ n) ≡ some n
unfolding strip_prefix
strip_prefix-append String.[] n = rw append.nil refl
strip_prefix-append (String.◌∷◌ c p) n = rw append.cons (ground (arith, strip_prefix-append p n))

pub append-strip_prefix : (p k n : String) → strip_prefix p k ≡ some n → k ≡ p +++ n
unfolding strip_prefix
append-strip_prefix String.[] k n h = rw append.nil (cc)
append-strip_prefix (String.◌∷◌ c p) String.[] n h = absurd (ground arith)
append-strip_prefix (String.◌∷◌ c p) (String.◌∷◌ d k) n h =
    elim (Bool-cases (eqb (code c) (code d))) [
      | inl same ↦ rw append.cons (
          cc (
            Char-path c d (eqb→eq (code c) (code d) same),
            append-strip_prefix p k n (ground (arith, same)),
          ))
      | inr other ↦ absurd (ground (arith, other))
    ]

pub trim_prefix-append : (p n : String) → trim_prefix p (p +++ n) ≡ n
unfolding trim_prefix
trim_prefix-append p n = ground (arith, strip_prefix-append p n)

pub has_prefix-append : (p n : String) → has_prefix p (p +++ n) ≡ true
unfolding has_prefix trim_prefix
has_prefix-append p n = ground (arith, strip_prefix-append p n)

pub append-trim_prefix : (p k : String) → has_prefix p k ≡ true → p +++ trim_prefix p k ≡ k
unfolding has_prefix trim_prefix
append-trim_prefix p k h = elim (Option-cases (strip_prefix p k)) [
  | inl none_left ↦ absurd (ground (arith, none_left))
  | inr (n, at) ↦ rw (trim_prefix, at) (sym (append-strip_prefix p k n at))
]

pub append_cancel : (p m n : String) → p +++ m ≡ p +++ n → m ≡ n
append_cancel p m n h =
    sym (trim_prefix-append p m) ∙ (ap (trim_prefix p) h ∙ trim_prefix-append p n)

-- The name under an object's key.
pub key_name : (s : Syncer) (j : String) → trim_prefix s.prefix (object_key s j) ≡ j
unfolding object_key
key_name s j = trim_prefix-append s.prefix j

pub object_key-eq : (s : Syncer) (m n : String) → (object_key s m == object_key s n) ≡ (m == n)
unfolding object_key
object_key-eq s m n =
    ground (arith, eq_iff (s.prefix +++ m) (s.prefix +++ n), eq_iff m n, append_cancel s.prefix m n)

pub cert-ne-empty : (j : String) → is_cert_file j ≡ true → (j == "") ≡ false
unfolding is_cert_file
cert-ne-empty j cert = elim (Bool-cases (j == "")) [
  | inl empty ↦ absurd (cc (subst (λ n. is_cert_file n ≡ true) ((eq_iff j "").0 empty) cert))
  | inr full ↦ full
]

-- The code of the last character.
last_code : ℕ → String → ℕ
last_code last String.[] = last
last_code last (String.◌∷◌ c s) = last_code (code c) s

last_code-tmp : (last : ℕ) (s : String) → last_code last (s +++ ".tmp") ≡ b'p'
unfolding last_code
last_code-tmp last String.[] = refl
last_code-tmp last (String.◌∷◌ c s) = rw append.cons (last_code-tmp (code c) s)

has_suffix-last_code :
    (suffix : String) (v : ℕ)
    → ((last : ℕ) → last_code last suffix ≡ v)
    → (last : ℕ) (s : String) → ("" == suffix) ≡ false
    → has_suffix suffix s ≡ true
    → last_code last s ≡ v
unfolding has_suffix last_code
has_suffix-last_code suffix v ends last String.[] full h =
    absurd (ground (arith, eq_iff "" suffix, eq_iff suffix ""))
has_suffix-last_code suffix v ends last (String.◌∷◌ c s) full h =
    elim (Bool-cases (String.◌∷◌ c s == suffix)) [
      | inl whole ↦ ap (last_code last) ((eq_iff (String.◌∷◌ c s) suffix).0 whole) ∙ ends last
      | inr part ↦ has_suffix-last_code suffix v ends (code c) s full (ground (arith, part))
    ]

ends_tmp :
    (suffix : String) (v : ℕ)
    → ((last : ℕ) → last_code last suffix ≡ v)
    → ("" == suffix) ≡ false
    → v ≢ b'p'
    → (n : String) → has_suffix suffix (n +++ ".tmp") ≡ false
ends_tmp suffix v ends full other n = elim (Bool-cases (has_suffix suffix (n +++ ".tmp"))) [
  | inl bad ↦ absurd (
      ground (
        arith,
        last_code-tmp 0 n,
        has_suffix-last_code suffix v ends 0 (n +++ ".tmp") full bad,
        other,
      ))
  | inr fine ↦ fine
]

account_tmp : (n : String) → ((n +++ ".tmp") == "acme-account.key.pem") ≡ false
unfolding last_code
account_tmp n = elim (Bool-cases ((n +++ ".tmp") == "acme-account.key.pem")) [
  | inl bad ↦ absurd (
      ground (
        arith,
        last_code-tmp 0 n,
        ap (last_code 0) ((eq_iff (n +++ ".tmp") "acme-account.key.pem").0 bad),
      ))
  | inr fine ↦ fine
]

-- A temporary file is no certificate file.
pub is_cert_file-tmp : (n : String) → is_cert_file (n +++ ".tmp") ≡ false
unfolding is_cert_file last_code
is_cert_file-tmp n =
    rw
      (
        account_tmp n,
        ends_tmp ".crt" b't' (λ last. refl) refl (λ e. omega (arith, e)) n,
        ends_tmp ".key" b'y' (λ last. refl) refl (λ e. omega (arith, e)) n,
      )
      refl
