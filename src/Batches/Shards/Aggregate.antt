-- ===== src/Batches/Shards/Aggregate.antt =====
-- nemo_rl/distributed/batched_data_dict.py: the loop of `shard_by_batch_size` that groups the rows by
-- shard across the chunks.
pub mod Gathered
pub mod Cover
use ne_mo_rl_enhanced_math_r.Common.{
  ℕ, List, [], ◌∷◌, ◌++◌, none, some, Bool, Result, ok, ◌>>=◌, Dict, lookup, put, range,
}
use ne_mo_rl_enhanced_math_r.Batches.Rows.{ShardError, select}
use ne_mo_rl_enhanced_math_r.Batches.Shards.Split.{Sizes, sub_shard}

module _ {A : Type 0} where
  -- The first time a key is seen it gets the rows, later it is extended by them.
  abbrev pub extend : ℕ → List A → Dict (List A) → Dict (List A)
  extend k chosen shard = elim (lookup k shard) [
    | none ↦ put k chosen shard
    | some old ↦ put k (old ++ chosen) shard
  ]

  -- `for k in data`.
  abbrev pub add_rows : List ℕ → Dict (List A) → Dict (List A) → Result ShardError (Dict (List A))
  add_rows indices [] shard = ok shard
  add_rows indices ((k, col) ∷ columns) shard = do
    chosen ← select indices col
    add_rows indices columns (extend k chosen shard)

  -- `for chunk_idx in range(num_chunks)`, with the indices of each.
  abbrev pub add_chunks :
      (ℕ → List ℕ) → List ℕ → Dict (List A) → Dict (List A) → Result ShardError (Dict (List A))
  add_chunks indices [] columns shard = ok shard
  add_chunks indices (chunk_idx ∷ chunks) columns shard = do
    after ← add_rows (indices chunk_idx) columns shard
    add_chunks indices chunks columns after

  abbrev pub add_shards :
      Sizes → Bool → List ℕ → Dict (List A) → Result ShardError (List (Dict (List A)))
  add_shards s allow_uneven [] columns = ok []
  add_shards s allow_uneven (shard_idx ∷ rest) columns = do
    shard ← add_chunks (sub_shard s allow_uneven shard_idx) (range s.num_chunks) columns []
    others ← add_shards s allow_uneven rest columns
    ok (shard ∷ others)
