-- ===== src/Base/Counting.antt =====
-- Counting the entries of a map whose value passes a test.
use tsserve.Base.Tests.{Bool-cases, if◌then◌else◌}
use Prim.Native.Nat.{suc}
use Prim.Native.String.{String}
use mathlib.Core.Path.{◌≡◌, refl}
use mathlib.Core.Logic.{◌≢◌, inl, inr}
use mathlib.Core.Bool.{Bool, true, false}
use mathlib.Core.List.{[], ◌∷◌}
use mathlib.Core.Option.{some}
use native.Mathlib.Omega.{arith}
use text.Mathlib.Text.{◌==◌}
use text.Mathlib.TextEquality.{eq_iff}
use tsserve.Base.Assoc.{Map, IsMap, lookup, delete, delete-absent, count_if}

module _ {ℓ} {V : Type ℓ} (p q : V → Bool) where
  -- Tests that agree on the values in the map count the same.
  pub count_same :
      (m : Map V)
      → IsMap m
      → ((k : String) (v : V) → lookup k m ≡ some v → q v ≡ p v)
      → count_if q m ≡ count_if p m
  unfolding lookup count_if
  count_same [] u h = refl
  count_same ((k, v) ∷ m) u h = ground (
    arith,
    eq_iff k k,
    h k v,
    count_same m u.1 (λ j w e. h j w (ground (arith, eq_iff k j, u.0))),
  )

  -- A test that one more entry passes counts one more.
  pub count_one_more :
      (m : Map V) (n : String) (v : V)
      → IsMap m
      → lookup n m ≡ some v
      → p v ≡ false
      → q v ≡ true
      → ((k : String) (w : V) → k ≢ n → lookup k m ≡ some w → q w ≡ p w)
      → count_if q m ≡ suc (count_if p m)
  unfolding lookup count_if
  count_one_more [] n v u e hp hq h = cc
  count_one_more ((k, w) ∷ m) n v u e hp hq h = elim (Bool-cases (k == n)) [
    | inl hit ↦ ground (
      arith,
      count_same m u.1 λ j x f.
          h j x (λ (j_n : j ≡ n). ground (arith, eq_iff k n, u.0))
            (ground (arith, eq_iff k j, u.0)),
    )
    | inr miss ↦ ground (
      arith,
      h k w (ground (arith, eq_iff k n)) (ground (arith, eq_iff k k)),
      count_one_more m n v u.1 (ground arith) hp hq
          (λ j x other f. h j x other (ground (arith, eq_iff k j, u.0))),
    )
  ]

module _ {ℓ} {V : Type ℓ} (p : V → Bool) where
  pub count_if-delete :
      (m : Map V) (n : String) (v : V)
      → IsMap m
      → lookup n m ≡ some v
      → count_if p m ≡ (if p v then suc (count_if p (delete n m)) else count_if p (delete n m))
  unfolding lookup delete count_if
  count_if-delete [] n v u e = cc
  count_if-delete ((k, w) ∷ m) n v u e = elim (Bool-cases (k == n)) [
    | inl hit ↦ ground (arith, eq_iff k n, u.0, delete-absent n m)
    | inr miss ↦ ground (arith, count_if-delete m n v u.1)
  ]
