-- ===== src/Base/Lists.antt =====
-- Lists measured and indexed by native numbers, and membership of a text in a list.
use Prim.Native.Nat.{ℕ, zero, suc, ◌+◌, ◌<◌, ◌≤◌}
use Prim.Native.String.{String}
use mathlib.Core.Path.{◌≡◌, refl}
use mathlib.Core.Bool.{Bool, false, ◌||◌}
use mathlib.Core.List.{List, [], ◌∷◌, ◌++◌}
use mathlib.Core.Option.{Option, none, some}
use native.Mathlib.Omega.{arith}
use text.Mathlib.Text.{◌==◌}
use text.Mathlib.TextEquality.{eq_iff}

module _ {ℓ} {A : Type ℓ} where
  abbrev pub length : List A → ℕ
  length [] = 0
  length (x ∷ xs) = suc (length xs)

  abbrev pub get_elem? : List A → ℕ → Option A
  get_elem? [] i = none
  get_elem? (x ∷ xs) zero = some x
  get_elem? (x ∷ xs) (suc i) = get_elem? xs i

  pub length-append : (xs ys : List A) → length (xs ++ ys) ≡ length xs + length ys
  length-append [] ys = omega arith
  length-append (x ∷ xs) ys = omega (arith, length-append xs ys)

  -- An index within the list has an element.
  pub get_elem?-some : (xs : List A) (i : ℕ) → i < length xs → (a : A) × (get_elem? xs i ≡ some a)
  get_elem?-some [] i h = elim h [ ]
  get_elem?-some (x ∷ xs) zero h = (x, refl)
  get_elem?-some (x ∷ xs) (suc i) h = get_elem?-some xs i (omega arith)

abbrev pub All {ℓ κ} : {A : Type ℓ} → (A → Type κ) → List A → Type κ
All P [] = Unit
All P (x ∷ xs) = P x × All P xs

-- `slices.Contains` on texts.
unfoldable pub contains : List String → String → Bool
contains [] c = false
contains (x ∷ xs) c = x == c || contains xs c

-- Pairwise distinct texts.
abbrev pub Distinct : List String → Type 0
Distinct [] = Unit
Distinct (x ∷ xs) = (contains xs x ≡ false) × Distinct xs

pub contains-append :
    (xs ys : List String) (c : String) → contains (xs ++ ys) c ≡ (contains xs c || contains ys c)
unfolding contains
contains-append [] ys c = refl
contains-append (x ∷ xs) ys c = ground (arith, contains-append xs ys c)

pub Distinct-snoc :
    (xs : List String) (c : String) → Distinct xs → contains xs c ≡ false → Distinct (xs ++ c ∷ [])
unfolding contains
Distinct-snoc [] c d h = (refl, tt)
Distinct-snoc (x ∷ xs) c d h =
    ground (arith, Distinct-snoc xs c, contains-append xs (c ∷ []) x, eq_iff x c, eq_iff c x)

-- The elements from a position on, and those before it.
module _ {ℓ} {A : Type ℓ} where
  abbrev pub drop_first : ℕ → List A → List A
  drop_first zero xs = xs
  drop_first (suc n) [] = []
  drop_first (suc n) (x ∷ xs) = drop_first n xs

  abbrev pub take : ℕ → List A → List A
  take zero xs = []
  take (suc n) [] = []
  take (suc n) (x ∷ xs) = x ∷ take n xs

  pub drop_first-get_elem? :
      (xs : List A) (i : ℕ) (a : A)
      → get_elem? xs i ≡ some a
      → drop_first i xs ≡ a ∷ drop_first (suc i) xs
  drop_first-get_elem? [] i a h = absurd (ground arith)
  drop_first-get_elem? (x ∷ xs) zero a h = ground arith
  drop_first-get_elem? (x ∷ xs) (suc i) a h = drop_first-get_elem? xs i a h

  pub get_elem?-take : (xs : List A) (n i : ℕ) → i < n → get_elem? (take n xs) i ≡ get_elem? xs i
  get_elem?-take xs zero i h = absurd (omega arith)
  get_elem?-take [] (suc n) i h = refl
  get_elem?-take (x ∷ xs) (suc n) zero h = refl
  get_elem?-take (x ∷ xs) (suc n) (suc i) h = get_elem?-take xs n i (omega arith)

  pub length-take : (xs : List A) (n : ℕ) → n ≤ length xs → length (take n xs) ≡ n
  length-take xs zero h = refl
  length-take [] (suc n) h = absurd (omega arith)
  length-take (x ∷ xs) (suc n) h = omega (arith, length-take xs n (omega arith))

  pub drop_first-length : (xs : List A) (n : ℕ) → length xs ≤ n → drop_first n xs ≡ []
  drop_first-length [] zero h = refl
  drop_first-length [] (suc n) h = refl
  drop_first-length (x ∷ xs) zero h = absurd (omega arith)
  drop_first-length (x ∷ xs) (suc n) h = drop_first-length xs n (omega arith)

  pub take-append-drop_first : (xs : List A) (n : ℕ) → take n xs ++ drop_first n xs ≡ xs
  take-append-drop_first xs zero = refl
  take-append-drop_first [] (suc n) = refl
  take-append-drop_first (x ∷ xs) (suc n) = cc (take-append-drop_first xs n)

pub append_nil : {A : Type 0} (xs : List A) → xs ++ [] ≡ xs
append_nil [] = refl
append_nil (x ∷ xs) = cc (append_nil xs)

pub append_assoc : {A : Type 0} (xs ys zs : List A) → (xs ++ ys) ++ zs ≡ xs ++ (ys ++ zs)
append_assoc [] ys zs = refl
append_assoc (x ∷ xs) ys zs = cc (append_assoc xs ys zs)
