-- ===== src/Ecs/Tasks/Chunks.antt =====
-- The batches of a list.
use tsserve.Base.{ℕ, zero, suc, ◌<◌, ◌≤◌, ◌≡◌, refl, ap, List, [], ◌∷◌, ◌++◌, length, All, arith}
use tsserve.Discovery.Paging.{concat}
use tsserve.Ecs.Tasks.{split_at, chunk_within, chunk}

split_at-append : {A : Type 0} (n : ℕ) (s : List A) → (split_at n s).0 ++ (split_at n s).1 ≡ s
unfolding split_at
split_at-append n [] = refl
split_at-append zero (x ∷ s) = refl
split_at-append (suc n) (x ∷ s) = cc (split_at-append n s)

split_at-length :
    {A : Type 0} (n : ℕ) (s : List A)
    → (length (split_at n s).0 ≤ n) × (length (split_at n s).1 ≤ length s)
unfolding split_at
split_at-length n [] = (omega arith, omega arith)
split_at-length zero (x ∷ s) = (omega arith, omega arith)
split_at-length (suc n) (x ∷ s) =
    let h = split_at-length n s in (omega (arith, h.0), omega (arith, h.1))

-- The size of a batch that is asked for at the given limit.
abbrev pub Batch : {A : Type 0} → ℕ → List A → Type 0
Batch n b = (0 < length b) × (length b ≤ n)

chunk_within_lem :
    {A : Type 0} (fuel : ℕ) (s : List A) (n : ℕ)
    → length s ≤ fuel
    → (concat (chunk_within fuel s (suc n)) ≡ s) × All (Batch (suc n)) (chunk_within fuel s (suc n))
unfolding chunk_within split_at
chunk_within_lem zero [] n h = (refl, tt)
chunk_within_lem zero (x ∷ s) n h = absurd (omega arith)
chunk_within_lem (suc fuel) [] n h = (refl, tt)
chunk_within_lem (suc fuel) (x ∷ s) n h =
    let size = split_at-length n s in
    let rest = chunk_within_lem fuel (split_at n s).1 n (omega (arith, size.1)) in
    (
      rw rest.0 (ap (λ ys. x ∷ ys) (split_at-append n s)),
      ((omega arith, omega (arith, size.0)), rest.1),
    )

-- At a positive size, the batches put together are the list, and each holds at least one element and at
-- most `size`.
pub chunk_lem :
    {A : Type 0} (s : List A) (size : ℕ)
    → 0 < size
    → (concat (chunk s size) ≡ s) × All (Batch size) (chunk s size)
unfolding chunk
chunk_lem s zero h = absurd (omega arith)
chunk_lem s (suc n) h = chunk_within_lem (length s) s n (omega arith)
