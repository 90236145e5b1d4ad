-- ===== src/Batches/Iterate/Tests.antt =====
-- A packed shard of three rows, as `shard_by_batch_size` makes it, and passes over it.
use ne_mo_rl_enhanced_math_r.Common.{
  ℕ, ◌≡◌, refl, List, [], ◌∷◌, map, none, some, Bool, true, arith, lookup, ok, raise, flatten,
  range,
}
use ne_mo_rl_enhanced_math_r.Batches.{batch_size}
use ne_mo_rl_enhanced_math_r.Batches.Shards.{SlicedDataDict}
use ne_mo_rl_enhanced_math_r.Batches.Shards.PackedShards.{WellPacked}
use ne_mo_rl_enhanced_math_r.Batches.Iterate.{
  size, slice, packable_microbatches, make_microbatch_iterator, repeat_interleave, end_too_large,
  not_a_multiple, no_micro_batches, stop_iteration,
}
use ne_mo_rl_enhanced_math_r.Batches.Iterate.Visits.{column_of}
use ne_mo_rl_enhanced_math_r.Batches.Iterate.Epoch.{epoch, visited, epoch-visits_all}
use ne_mo_rl_enhanced_math_r.Batches.Iterate.Fixed.{make_microbatch_iterator-whole}

abbrev all_tensors : ℕ → Bool
all_tensors k = true

abbrev shard : SlicedDataDict ℕ
shard = record {
  columns = (1, 10 ∷ 12 ∷ 11 ∷ []) ∷ (2, 7 ∷ 4 ∷ 3 ∷ []) ∷ [];
  micro_batch_indices = some (((0, 1) ∷ (1, 3) ∷ []) ∷ []);
  micro_batch_lengths = some ((8 ∷ 8 ∷ []) ∷ []);
  elem_counts_per_gb = some (3 ∷ []);
}

abbrev no_batches : SlicedDataDict ℕ
no_batches = record shard { micro_batch_indices = none }

three_rows : batch_size shard.columns ≡ ok 3
unfolding batch_size
three_rows = refl

abbrev packed_shard : WellPacked 8 (2 ∷ []) shard
packed_shard = record {
  indices = ((0, 1) ∷ (1, 3) ∷ []) ∷ [];
  lengths = (8 ∷ 8 ∷ []) ∷ [];
  counts = 3 ∷ [];
  indices_are = refl;
  lengths_are = refl;
  counts_are = refl;
  closed = (
    (refl, omega arith, (refl, omega arith, refl)),
    refl,
    refl,
    (omega arith, (omega arith, tt)),
    tt,
  );
  whole = three_rows;
}

slice_raises : slice all_tensors 1 4 shard ≡ raise end_too_large
slice_raises = refl

iterator_raises : make_microbatch_iterator all_tensors shard 2 ≡ raise not_a_multiple
unfolding make_microbatch_iterator
iterator_raises = refl

packable_raises : packable_microbatches all_tensors no_batches ≡ raise no_micro_batches
unfolding packable_microbatches
packable_raises = refl

-- `size` of an empty batch is an exception and not 0.
empty_raises : size {A = ℕ} [] ≡ raise stop_iteration
empty_raises = refl

repeated : repeat_interleave {A = ℕ} 2 ((1, 5 ∷ 6 ∷ []) ∷ []) ≡ (1, 5 ∷ 5 ∷ 6 ∷ 6 ∷ []) ∷ []
repeated = refl

epoch-visits_all_example :
    (batches : List (List (SlicedDataDict ℕ))) × (epoch all_tensors shard (range 1) ≡ ok batches)
    × ((k : ℕ) (col : List ℕ)
        → lookup k shard.columns ≡ some col
        → visited all_tensors k batches ≡ col)
epoch-visits_all_example = epoch-visits_all all_tensors 8 (2 ∷ []) shard packed_shard

make_microbatch_iterator-whole_example :
    (mbs : List (SlicedDataDict ℕ)) × (make_microbatch_iterator all_tensors shard 1 ≡ ok mbs)
    × ((k : ℕ) (col : List ℕ)
        → lookup k shard.columns ≡ some col
        → flatten (map (column_of k) mbs) ≡ col)
make_microbatch_iterator-whole_example =
    make_microbatch_iterator-whole all_tensors 3 1 shard three_rows (omega arith) refl
