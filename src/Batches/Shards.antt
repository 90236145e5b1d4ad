-- ===== src/Batches/Shards.antt =====
-- nemo_rl/distributed/batched_data_dict.py: `BatchedDataDict.shard_by_batch_size`.
pub mod Split
pub mod Aggregate
pub mod Dynamic
pub mod Packed
pub mod Plain
pub mod Sorted
pub mod PackedShards
mod Tests
use ne_mo_rl_enhanced_math_r.Common.{
  ℕ, List, [], ◌∷◌, ◌++◌, map, Option, none, some, Bool, true, false, ◌&&◌, Result, ok, raise,
  raise_if, ◌>>=◌, ◌>>◌, Dict, lookup, range, flatten,
}
use ne_mo_rl_enhanced_math_r.Packing.Packer.{Shuffle}
use ne_mo_rl_enhanced_math_r.Batches.Rows.{
  ShardError, batch_size_given, both_args, key_error, total_batch_size, select_indices,
}
use ne_mo_rl_enhanced_math_r.Batches.Shards.Split.{Sizes, sizes, is_given, given_or}
use ne_mo_rl_enhanced_math_r.Batches.Shards.Aggregate.{add_shards}
use ne_mo_rl_enhanced_math_r.Batches.Shards.Dynamic.{
  DynamicBatchingArgs, sorted_indices, microbatches,
}
use ne_mo_rl_enhanced_math_r.Batches.Shards.Packed.{
  SequencePackingArgs, Plan, plans_of, from_batches,
}

pub record SlicedDataDict (A : Type 0) : Type 0 where
  pub columns : Dict (List A)
  pub micro_batch_indices : Option (List (List (ℕ × ℕ)))
  pub micro_batch_lengths : Option (List (List ℕ))
  pub elem_counts_per_gb : Option (List ℕ)

-- What is passed as `dynamic_batching_args` and `sequence_packing_args`.
abbrev pub both_given : Option DynamicBatchingArgs → Option SequencePackingArgs → Bool
both_given (some d) (some p) = true
both_given (some d) none = false
both_given none p = false

-- `item` is a tensor's `.item()`, and `width` the second dimension of the column of a key.
module _ {A : Type 0} (item : A → ℕ) (width : ℕ → ℕ) where
  abbrev pub lengths_of : ℕ → Dict (List A) → Result ShardError (List ℕ)
  lengths_of key d = elim (lookup key d) [ none ↦ raise key_error | some col ↦ ok (map item col) ]

  abbrev pub all_lengths_of : ℕ → List (Dict (List A)) → Result ShardError (List (List ℕ))
  all_lengths_of key [] = ok []
  all_lengths_of key (d ∷ ds) = do
    lengths ← lengths_of key d
    rest ← all_lengths_of key ds
    ok (lengths ∷ rest)

  abbrev pub plain : Dict (List A) → SlicedDataDict A
  plain shard = record {
    columns = shard;
    micro_batch_indices = none;
    micro_batch_lengths = none;
    elem_counts_per_gb = none;
  }

  abbrev pub with_microbatches : List (List ((ℕ × ℕ) × ℕ)) → Dict (List A) → SlicedDataDict A
  with_microbatches micros shard = record {
    columns = shard;
    micro_batch_indices = some (map (map (λ (m : (ℕ × ℕ) × ℕ). m.0)) micros);
    micro_batch_lengths = some (map (map (λ (m : (ℕ × ℕ) × ℕ). m.1)) micros);
    elem_counts_per_gb = none;
  }

  -- `dynamic_batching_args` is given.
  unfoldable pub shard_dynamic :
      (shards : ℕ)
      → Bool
      → DynamicBatchingArgs
      → Sizes
      → Dict (List A)
      → Result ShardError (List (SlicedDataDict A) × List ℕ)
  shard_dynamic shards allow_uneven args s d = do
    lengths ← lengths_of args.input_lengths_key d
    sorted ← select_indices (sorted_indices shards s lengths) d
    parts ← add_shards s allow_uneven (range shards) sorted
    shard_lengths ← all_lengths_of args.input_lengths_key parts
    micros ←
        microbatches args (width args.input_key) s.shard_size shard_lengths (range s.num_chunks)
    ok (map (with_microbatches micros) parts, sorted_indices shards s lengths)

  abbrev pub from_plans : List (Plan A) → Result ShardError (List (SlicedDataDict A))
  from_plans [] = ok []
  from_plans (p ∷ plans) = do
    shard ← from_batches p.parts
    rest ← from_plans plans
    ok (
        record {
          columns = shard;
          micro_batch_indices = some (p.micro_indices);
          micro_batch_lengths = some (p.micro_lengths);
          elem_counts_per_gb = some (p.elem_counts_per_gb);
        }
        ∷ rest)

  -- `batch_sorted_indices` of the packed shards.
  abbrev pub planned_indices : List (Plan A) → List ℕ
  planned_indices plans = flatten (map (λ (p : Plan A). p.global_indices) plans)

  -- `sequence_packing_args` is given.
  unfoldable pub shard_packed :
      Shuffle
      → (shards : ℕ) → SequencePackingArgs
      → Sizes
      → Dict (List A)
      → Result ShardError (List (SlicedDataDict A) × List ℕ)
  shard_packed shuffle shards args s d = do
    input_lens ← lengths_of args.input_lengths_key d
    plans ← plans_of shuffle shards args s input_lens d
    parts ← from_plans plans
    ok (parts, planned_indices plans)

  -- Neither is given.
  unfoldable pub shard_plain :
      (shards : ℕ) → Bool → Sizes → Dict (List A) → Result ShardError (List (SlicedDataDict A))
  shard_plain shards allow_uneven s d = do
    parts ← add_shards s allow_uneven (range shards) d
    ok (map plain parts)

  abbrev pub with_indices :
      Result ShardError (List (SlicedDataDict A) × List ℕ)
      → Result ShardError (List (SlicedDataDict A) × Option (List ℕ))
  with_indices r = do (parts, indices) ← r; ok (parts, some indices)

  -- The indices are returned with the shards only if a batch is sorted or packed.
  unfoldable pub shard_by_batch_size :
      Shuffle
      → (shards : ℕ) → Option ℕ
      → Bool
      → Option DynamicBatchingArgs
      → Option SequencePackingArgs
      → Dict (List A)
      → Result ShardError (List (SlicedDataDict A) × Option (List ℕ))
  shard_by_batch_size shuffle shards batch_size allow_uneven dynamic packed d = do
    raise_if (allow_uneven && is_given batch_size) batch_size_given
    raise_if (both_given dynamic packed) both_args
    total ← total_batch_size d
    s ← sizes shards (given_or total batch_size) total allow_uneven
    elim dynamic [
      | some args ↦ with_indices (shard_dynamic shards allow_uneven args s d)
      | none ↦ elim packed [
        | some args ↦ with_indices (shard_packed shuffle shards args s d)
        | none ↦ do parts ← shard_plain shards allow_uneven s d; ok (parts, none)
      ]
    ]
