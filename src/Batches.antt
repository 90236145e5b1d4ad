-- ===== src/Batches.antt =====
-- nemo_rl/distributed/batched_data_dict.py: the splits of `BatchedDataDict`. A batch is a dictionary
-- of columns; a tensor, a packed tensor and a list are each the list of its rows.
pub mod Whole
pub mod Rows
pub mod Shards
pub mod Parts
pub mod Iterate
mod Tests
use ne_mo_rl_enhanced_math_r.Common.{
  ℕ, zero, suc, ◌+◌, ◌*◌, ◌/◌, ◌%◌, Bool, true, false, ◌&&◌, not, List, [], ◌∷◌, map, Option, none,
  some, ltb, leb, ◌==◌, if◌then◌else◌, Result, ok, raise, raise_if, ◌>>=◌, ◌>>◌, Dict, length, take,
  drop,
}

-- The assertions, and the exceptions of Python and torch that the code may meet.
pub data Error : Type 0 where
  different_sizes : Error
  not_a_multiple : Error
  index_oob : Error
  zero_division : Error
  index_error : Error

module _ {A : Type 0} where
  abbrev pub all_of_size : ℕ → Dict (List A) → Bool
  all_of_size n [] = true
  all_of_size n ((k, col) ∷ d) = (length col == n) && all_of_size n d

  -- `len(batch_set) == 1`, and the size that is then popped.
  unfoldable pub batch_size : Dict (List A) → Result Error ℕ
  batch_size [] = raise different_sizes
  batch_size ((k, col) ∷ d) =
      if all_of_size (length col) d then ok (length col) else raise different_sizes

  -- The rows `indices` of a column, for the split of `size` rows at `rank`.
  abbrev pub rows : ℕ → ℕ → List A → List A
  rows size rank col = take size (drop (rank * size) col)

  abbrev pub rows_of_all : ℕ → ℕ → Dict (List A) → Dict (List A)
  rows_of_all size rank [] = []
  rows_of_all size rank ((k, col) ∷ d) = (k, rows size rank col) ∷ rows_of_all size rank d

  -- `torch.arange(B).tensor_split(chunks)[rank]` has no split of that rank from `chunks` on.
  unfoldable pub chunk : ℕ → ℕ → Dict (List A) → Result Error (Dict (List A))
  chunk rank chunks d = do
    b ← batch_size d
    raise_if (chunks == 0) zero_division
    raise_if (not (b % chunks == 0)) not_a_multiple
    raise_if (leb (b / chunks) rank) index_oob
    raise_if (leb chunks rank) index_error
    ok (rows_of_all (b / chunks) rank d)
