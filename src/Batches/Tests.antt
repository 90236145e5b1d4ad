-- ===== src/Batches/Tests.antt =====
-- A batch of four rows in two chunks, and a chunk that the code refuses.
use ne_mo_rl_enhanced_math_r.Common.{
  ℕ, zero, suc, ◌<◌, ◌≡◌, refl, List, [], ◌∷◌, map, arith, ok, raise, Dict, flatten, range,
}
use ne_mo_rl_enhanced_math_r.Batches.{index_oob, batch_size, chunk}
use ne_mo_rl_enhanced_math_r.Batches.Whole.{column, chunk-whole}

abbrev batch : Dict (List ℕ)
batch = (1, 10 ∷ 11 ∷ 12 ∷ 13 ∷ []) ∷ (2, 20 ∷ 21 ∷ 22 ∷ 23 ∷ []) ∷ []

abbrev half : ℕ → Dict (List ℕ)
half zero = (1, 10 ∷ 11 ∷ []) ∷ (2, 20 ∷ 21 ∷ []) ∷ []
half (suc rank) = (1, 12 ∷ 13 ∷ []) ∷ (2, 22 ∷ 23 ∷ []) ∷ []

halves : (rank : ℕ) → rank < 2 → chunk rank 2 batch ≡ ok (half rank)
unfolding chunk batch_size
halves zero l = refl
halves (suc zero) l = refl
halves (suc (suc rank)) l = absurd (omega (arith, l))

chunk-whole_example :
    flatten (map (λ rank. column 2 (half rank)) (range 2)) ≡ 20 ∷ 21 ∷ 22 ∷ 23 ∷ []
chunk-whole_example = chunk-whole 2 2 batch (20 ∷ 21 ∷ 22 ∷ 23 ∷ []) half (omega arith) refl halves

-- Rank 1 of 4 is refused, since each chunk has one row.
chunk-raises : chunk 1 4 batch ≡ raise index_oob
unfolding chunk batch_size
chunk-raises = refl
