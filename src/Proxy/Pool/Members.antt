-- ===== src/Proxy/Pool/Members.antt =====
-- Joining and leaving a pool, as its registration keys see it.
use tsserve.Base.{
  ◌<◌, String, ◌≡◌, refl, false, true, List, [], ◌∷◌, ◌++◌, length, contains, Distinct,
  Distinct-snoc, arith, eq_iff, ◌==◌, if◌then◌else◌,
}
use tsserve.Proxy.Backend.{Backend}
use tsserve.Proxy.Pool.{keys_of, delete_key}

pub keys_of-snoc :
    (bs : List Backend) (b : Backend) → keys_of (bs ++ b ∷ []) ≡ keys_of bs ++ b.key ∷ []
unfolding keys_of
keys_of-snoc [] b = refl
keys_of-snoc (c ∷ bs) b = rw (keys_of-snoc bs b)

pub contains-delete_key :
    (k j : String) (bs : List Backend)
    → contains (keys_of (delete_key k bs)) j ≡ (if k == j then false else contains (keys_of bs) j)
unfolding keys_of delete_key contains
contains-delete_key k j [] = ground arith
contains-delete_key k j (b ∷ bs) =
    ground (arith, contains-delete_key k j bs, eq_iff b.key k, eq_iff b.key j, eq_iff k j)

pub delete_key-Distinct :
    (k : String) (bs : List Backend) → Distinct (keys_of bs) → Distinct (keys_of (delete_key k bs))
unfolding keys_of delete_key
delete_key-Distinct k [] d = tt
delete_key-Distinct k (b ∷ bs) d =
    ground (arith, delete_key-Distinct k bs d.1, contains-delete_key k b.key bs)

pub snoc-Distinct :
    (bs : List Backend) (b : Backend)
    → Distinct (keys_of bs)
    → contains (keys_of bs) b.key ≡ false
    → Distinct (keys_of (bs ++ b ∷ []))
snoc-Distinct bs b d h = rw (keys_of-snoc bs b) (Distinct-snoc (keys_of bs) b.key d h)

pub eq-nil_of_length : (bs : List Backend) → length bs ≡ 0 → bs ≡ []
eq-nil_of_length [] h = refl
eq-nil_of_length (b ∷ bs) h = absurd (omega arith)

pub contains-length :
    (bs : List Backend) (k : String) → contains (keys_of bs) k ≡ true → 0 < length bs
unfolding keys_of contains
contains-length [] k h = cc
contains-length (b ∷ bs) k h = omega arith
