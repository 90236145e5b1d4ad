-- ===== src/Packing/Base.antt =====
-- nemo_rl/data/packing/algorithms.py: the exceptions and the helpers of `SequencePacker`.
-- A length, an index and a capacity are natural numbers.
use ne_mo_rl_enhanced_math_r.Common.{
  ℕ, ◌≤◌, Bool, ◌&&◌, ◌||◌, List, [], ◌∷◌, Perm, ltb, leb, ◌==◌, if◌then◌else◌, Result, ok,
  raise_if, ◌>>◌, sort_by, enumerate, length, get_or, sum_of, All, flatten, range, ◌≢◌,
}

-- The `ValueError`s, one constructor for each message, the `IndexError` and the `ZeroDivisionError`.
pub data Error : Type 0 where
  negative_min_bin_count nonpositive_bin_count_multiple : Error
  exceeds_capacity : (length capacity : ℕ) → Error
  too_few_sequences : (target total : ℕ) → Error
  cannot_redistribute : Error
  nonpositive_capacity nonpositive_length : Error
  unknown_algorithm : Error
  index_error zero_division : Error

unfoldable pub validate_sequence_lengths : ℕ → List ℕ → Result Error (Unit {0})
validate_sequence_lengths capacity [] = ok tt
validate_sequence_lengths capacity (length ∷ rest) = do
  raise_if (ltb capacity length) (exceeds_capacity length capacity)
  validate_sequence_lengths capacity rest

-- `list.sort(reverse=True)` on pairs: the greater length first, then the greater index.
abbrev pub ge_pair : ℕ × ℕ → ℕ × ℕ → Bool
ge_pair (a, i) (b, j) = ltb b a || (a == b && leb j i)

-- Pairs (length, index).
unfoldable pub create_indexed_lengths : List ℕ → Bool → List (ℕ × ℕ)
create_indexed_lengths lengths reverse =
    if reverse then sort_by ge_pair (enumerate lengths) else enumerate lengths

-- The specification. The sequences of a bin together have this length.
abbrev pub load : List ℕ → List ℕ → ℕ
load lengths = sum_of (λ i. get_or lengths i 0)

-- Every sequence is in one bin, once; no bin is overfull and none is empty.
pub record IsPacking (capacity : ℕ) (lengths : List ℕ) (bins : List (List ℕ)) : Type 0 where
  pub complete : Perm (flatten bins) (range (length lengths))
  pub fits : All (λ bin. load lengths bin ≤ capacity) bins
  pub filled : All (λ bin. bin ≢ []) bins
