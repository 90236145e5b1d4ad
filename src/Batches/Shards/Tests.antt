-- ===== src/Batches/Shards/Tests.antt =====
-- A batch of six rows split in each of the three ways, and each theorem at it.
use mathlib.Core.List.Perm
use ne_mo_rl_enhanced_math_r.Common.{
  ℕ, ◌<◌, ◌≡◌, refl, List, [], ◌∷◌, map, none, some, false, true, arith, Dict, lookup, ok, raise,
  Perm, flatten, range, All, length, HasDistinctKeys, ◌≤◌,
}
use ne_mo_rl_enhanced_math_r.Packing.Packer.{Shuffle, first_fit_decreasing, algorithm_named}
use ne_mo_rl_enhanced_math_r.Batches.{batch_size}
use ne_mo_rl_enhanced_math_r.Batches.Rows.{
  reorder_data, not_divided_by_shards, batch_size_given, input_too_long,
}
use ne_mo_rl_enhanced_math_r.Batches.Parts.{AreParts}
use ne_mo_rl_enhanced_math_r.Batches.Shards.{
  shard_by_batch_size, SlicedDataDict, with_microbatches, shard_dynamic,
}
use ne_mo_rl_enhanced_math_r.Batches.Shards.Split.{Sizes, sizes}
use ne_mo_rl_enhanced_math_r.Batches.Shards.Dynamic.{DynamicBatchingArgs, length_at, sorted_indices}
use ne_mo_rl_enhanced_math_r.Batches.Shards.Dynamic.Loop.{AllTiles}
use ne_mo_rl_enhanced_math_r.Batches.Shards.Packed.{
  SequencePackingArgs, from_batches, get_padded_seqlen,
}
use ne_mo_rl_enhanced_math_r.Batches.Shards.Dynamic.Micro.{Holds}
use ne_mo_rl_enhanced_math_r.Batches.Shards.Aggregate.Cover.{plan_of}
use ne_mo_rl_enhanced_math_r.Batches.Shards.Plain.{shard_by_batch_size-whole}
use ne_mo_rl_enhanced_math_r.Batches.Shards.Sorted.Correct.{columns_of, sorted_plan, sorted_lengths}
use ne_mo_rl_enhanced_math_r.Batches.Shards.Sorted.Reordered.{
  shard_by_batch_size-sorted, shard_by_batch_size-reorder_data,
}
use ne_mo_rl_enhanced_math_r.Batches.Shards.PackedShards.{WellPacked}
use ne_mo_rl_enhanced_math_r.Batches.Shards.PackedShards.Tokens.{padded_length, AllHaveTokens}
use ne_mo_rl_enhanced_math_r.Batches.Shards.PackedShards.Undone.{
  shard_by_batch_size-packed, shard_by_batch_size-undone,
}

-- Column 1 has the inputs, eight tokens wide, and column 2 their lengths.
abbrev batch : Dict (List ℕ)
batch = (1, 10 ∷ 11 ∷ 12 ∷ 13 ∷ 14 ∷ 15 ∷ []) ∷ (2, 7 ∷ 3 ∷ 4 ∷ 5 ∷ 1 ∷ 2 ∷ []) ∷ []

abbrev lengths : List ℕ
lengths = 7 ∷ 3 ∷ 4 ∷ 5 ∷ 1 ∷ 2 ∷ []

abbrev item : ℕ → ℕ
item a = a

abbrev width : ℕ → ℕ
width key = 8

abbrev no_shuffle : Shuffle
no_shuffle items = items

abbrev dynamic : DynamicBatchingArgs
dynamic = record {
  max_tokens_per_microbatch = 12;
  sequence_length_round = 2;
  input_key = 1;
  input_lengths_key = 2;
}

abbrev packed : SequencePackingArgs
packed = record {
  max_tokens_per_microbatch = 8;
  input_key = 1;
  input_lengths_key = 2;
  algorithm = "FIRST_FIT_DECREASING";
  sequence_length_pad_multiple = 2;
}

-- One chunk of six rows for two shards, and what four uneven shards get.
abbrev halves : Sizes
halves = record { total_batch_size = 6; batch_size = 6; num_chunks = 1; shard_size = 3 }

abbrev quarters : Sizes
quarters = record { total_batch_size = 6; batch_size = 6; num_chunks = 1; shard_size = 2 }

six_rows : batch_size batch ≡ ok 6
unfolding batch_size
six_rows = refl

in_halves : sizes 2 6 6 false ≡ ok halves
unfolding sizes
in_halves = refl

in_quarters : sizes 4 6 6 true ≡ ok quarters
unfolding sizes
in_quarters = refl

distinct : HasDistinctKeys batch
distinct = (refl, (refl, tt))

rows_hold : All (λ a. Holds dynamic 8 (item a)) lengths
rows_hold =
    (omega arith, (omega arith, (omega arith, (omega arith, (omega arith, (omega arith, tt))))))

rows_positive : All (λ a. 0 < item a) lengths
rows_positive =
    (omega arith, (omega arith, (omega arith, (omega arith, (omega arith, (omega arith, tt))))))

rows_fit : All (λ a. get_padded_seqlen 2 (item a) ≤ 8) lengths
rows_fit =
    (omega arith, (omega arith, (omega arith, (omega arith, (omega arith, (omega arith, tt))))))

known : algorithm_named "FIRST_FIT_DECREASING" ≡ some first_fit_decreasing
unfolding algorithm_named
known = refl

-- Four even shards of six rows are refused, and so is a chunk size for uneven ones.
refused :
    shard_by_batch_size item width no_shuffle 4 none false none none batch
    ≡ raise not_divided_by_shards
unfolding shard_by_batch_size sizes batch_size
refused = refl

refused_with_size :
    shard_by_batch_size item width no_shuffle 2 (some 2) true none none batch
    ≡ raise batch_size_given
unfolding shard_by_batch_size
refused_with_size = refl

-- Microbatches of six tokens cannot hold a padded row of eight.
too_long :
    shard_by_batch_size item width no_shuffle 2 none false
      (some (record dynamic { max_tokens_per_microbatch = 6 }))
      none
      batch
    ≡ raise (input_too_long 8)
unfolding shard_by_batch_size shard_dynamic sizes batch_size length_at sorted_indices flatten
too_long = refl

shard_by_batch_size-whole_example :
    (parts : List (SlicedDataDict ℕ)) × (shard_by_batch_size item width no_shuffle 4 none true none
        none batch
      ≡ ok (parts, none))
    × AreParts batch (plan_of 4 quarters true) (map (λ (x : SlicedDataDict ℕ). x.columns) parts)
    × Perm (flatten (plan_of 4 quarters true)) (range 6)
shard_by_batch_size-whole_example =
    shard_by_batch_size-whole item width no_shuffle 4 6 none true quarters batch six_rows
      (omega arith) distinct refl in_quarters

shard_by_batch_size-sorted_example :
    (parts : List (Dict (List ℕ))) × (indices : List ℕ) × (micros : List (List ((ℕ × ℕ) × ℕ)))
    × (shard_by_batch_size item width no_shuffle 2 none false (some dynamic) none batch
        ≡ ok (map (with_microbatches item width micros) parts, some indices))
    × Perm (flatten (sorted_plan 2 halves indices)) (range 6)
    × AreParts batch (sorted_plan 2 halves indices) parts
    × AllTiles dynamic 8
        (omega arith)
        3
        (sorted_lengths item width lengths (plan_of 2 halves false) indices)
        (range 1)
        micros
shard_by_batch_size-sorted_example =
    shard_by_batch_size-sorted item width no_shuffle 2 6 none dynamic halves batch lengths
      (omega arith) six_rows (omega arith) distinct in_halves refl rows_hold

shard_by_batch_size-reorder_data_example :
    (parts : List (SlicedDataDict ℕ)) × (indices : List ℕ) × (joined r : Dict (List ℕ))
    × (shard_by_batch_size item width no_shuffle 2 none false (some dynamic) none batch
        ≡ ok (parts, some indices))
    × (from_batches (columns_of item width parts) ≡ ok joined)
    × (reorder_data indices joined ≡ ok r)
    × ((k : ℕ) → lookup k r ≡ lookup k batch)
shard_by_batch_size-reorder_data_example =
    shard_by_batch_size-reorder_data item width no_shuffle 2 6 dynamic halves batch lengths
      (omega arith) six_rows (omega arith) distinct in_halves refl rows_hold

shard_by_batch_size-packed_example :
    (plan : List (List ℕ)) × (parts : List (SlicedDataDict ℕ)) × (qs : List ℕ)
    × (shard_by_batch_size item width no_shuffle 2 none false none (some packed) batch
        ≡ ok (parts, some (flatten plan)))
    × (length plan ≡ 2)
    × Perm (flatten plan) (range 6)
    × AreParts batch plan (columns_of item width parts)
    × (length qs ≡ 1)
    × All (λ q. 0 < q) qs
    × All (WellPacked 8 qs) parts
    × AllHaveTokens
        (padded_length packed.sequence_length_pad_multiple (map item lengths))
        plan
        parts
shard_by_batch_size-packed_example =
    shard_by_batch_size-packed item width no_shuffle first_fit_decreasing 2 6 none packed halves
      batch lengths (λ items. Perm.rfl) known six_rows (omega arith) in_halves refl (omega arith)
      (omega arith) rows_positive rows_fit

shard_by_batch_size-undone_example :
    (parts : List (SlicedDataDict ℕ)) × (indices : List ℕ) × (joined r : Dict (List ℕ))
    × (shard_by_batch_size item width no_shuffle 2 none false none (some packed) batch
        ≡ ok (parts, some indices))
    × (from_batches (columns_of item width parts) ≡ ok joined)
    × (reorder_data indices joined ≡ ok r)
    × ((k : ℕ) → lookup k r ≡ lookup k batch)
shard_by_batch_size-undone_example =
    shard_by_batch_size-undone item width no_shuffle first_fit_decreasing 2 6 none packed halves
      batch lengths (λ items. Perm.rfl) known six_rows (omega arith) in_halves refl (omega arith)
      (omega arith) rows_positive rows_fit
