-- ===== src/Batches/Rows.antt =====
-- nemo_rl/distributed/batched_data_dict.py: `BatchedDataDict.select_indices` and `reorder_data`.
pub mod Pick
pub mod Reorder
pub mod Compose
use ne_mo_rl_enhanced_math_r.Common.{
  ℕ, zero, suc, List, [], ◌∷◌, map, Option, none, some, leb, Bool, Result, ok, raise, ◌>>=◌, Dict,
  get_elem?, sort_by, range,
}
use ne_mo_rl_enhanced_math_r.Packing.Base.{Error as PackingError}
use ne_mo_rl_enhanced_math_r.Batches.{Error, batch_size}

-- The assertions of `reorder_data` and `shard_by_batch_size`, the exceptions of Python, and those
-- that the packer raises.
pub data ShardError : Type 0 where
  batch_size_given both_args : ShardError
  different_sizes not_a_multiple not_divided_by_shards : ShardError
  input_too_long : (length : ℕ) → ShardError
  packing : PackingError → ShardError
  index_error key_error zero_division : ShardError

abbrev pub same_size : Result Error ℕ → Result ShardError ℕ
same_size (ok n) = ok n
same_size (raise e) = raise different_sizes

module _ {A : Type 0} where
  abbrev pub with_row : Option A → Result ShardError (List A) → Result ShardError (List A)
  with_row none rest = raise index_error
  with_row (some a) rest = do others ← rest; ok (a ∷ others)

  -- `[col[i] for i in indices]`.
  abbrev pub select : List ℕ → List A → Result ShardError (List A)
  select [] col = ok []
  select (i ∷ indices) col = with_row (get_elem? col i) (select indices col)

  abbrev pub select_indices : List ℕ → Dict (List A) → Result ShardError (Dict (List A))
  select_indices indices [] = ok []
  select_indices indices ((k, col) ∷ d) = do
    chosen ← select indices col
    rest ← select_indices indices d
    ok ((k, chosen) ∷ rest)

  -- The size that all columns share.
  abbrev pub total_batch_size : Dict (List A) → Result ShardError ℕ
  total_batch_size d = same_size (batch_size d)

abbrev pub zip {ℓ κ} : {A : Type ℓ} {B : Type κ} → List A → List B → List (A × B)
zip [] ys = []
zip (x ∷ xs) [] = []
zip (x ∷ xs) (y ∷ ys) = (x, y) ∷ zip xs ys

-- `key=lambda pair: pair[0]`.
abbrev pub le_key : ℕ × ℕ → ℕ × ℕ → Bool
le_key p q = leb (p.0) (q.0)

unfoldable pub reordered_indices : List ℕ → ℕ → List ℕ
reordered_indices indices n = map (λ (p : ℕ × ℕ). p.1) (sort_by le_key (zip indices (range n)))

unfoldable pub reorder_data :
    {A : Type 0} → List ℕ → Dict (List A) → Result ShardError (Dict (List A))
reorder_data indices d = do n ← total_batch_size d; select_indices (reordered_indices indices n) d
