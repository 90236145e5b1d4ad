-- ===== src/Batches/Shards/PackedShards/Undone.antt =====
-- `shard_by_batch_size` for packed sequences, and `reorder_data` after it.
use ne_mo_rl_enhanced_math_r.Common.{
  ℕ, ◌≤◌, ◌<◌, ◌≡◌, refl, false, List, map, Option, none, some, arith, ok, Dict, lookup, range, All,
  Perm, flatten, Same-below, perm-Same, length,
}
use ne_mo_rl_enhanced_math_r.Packing.Packer.{PackingAlgorithm, Shuffle, algorithm_named}
use ne_mo_rl_enhanced_math_r.Packing.Packer.Correct.{Shuffles}
use ne_mo_rl_enhanced_math_r.Batches.{batch_size}
use ne_mo_rl_enhanced_math_r.Batches.Rows.{reorder_data}
use ne_mo_rl_enhanced_math_r.Batches.Parts.{
  AreParts, batch_size-all_of_size, from_batches-IsPart, reorder_data-IsPart,
}
use ne_mo_rl_enhanced_math_r.Batches.Shards.{SlicedDataDict, shard_by_batch_size}
use ne_mo_rl_enhanced_math_r.Batches.Shards.Split.{Sizes, sizes, given_or}
use ne_mo_rl_enhanced_math_r.Batches.Shards.Split.Passed.{sizes-Passed}
use ne_mo_rl_enhanced_math_r.Batches.Shards.Sorted.Correct.{columns_of}
use ne_mo_rl_enhanced_math_r.Batches.Shards.Packed.{
  SequencePackingArgs, get_padded_seqlen, from_batches,
}
use ne_mo_rl_enhanced_math_r.Batches.Shards.PackedShards.{WellPacked}
use ne_mo_rl_enhanced_math_r.Batches.Shards.PackedShards.Tokens.{padded_length, AllHaveTokens}
use ne_mo_rl_enhanced_math_r.Batches.Shards.PackedShards.Correct.{shard_packed-returns}

module _ {A : Type 0} (item : A → ℕ) (width : ℕ → ℕ) where
  -- With sequence packing by a known algorithm, even sizes that pass the assertions and positive
  -- lengths that a microbatch can hold, a batch with a row is split into shards and indices: the
  -- packer never lacks sequences and no shard lacks a bin. The shards have the rows of a plan whose
  -- indices are those that are returned, every row of the batch once. Every shard has the same
  -- number of microbatches of each chunk, at least one, which span its rows of the chunk. The length
  -- that is recorded for a microbatch is the sum of the padded lengths of its rows, and is at most
  -- `max_tokens_per_microbatch`.
  pub shard_by_batch_size-packed :
      (shuffle : Shuffle) (algorithm : PackingAlgorithm) (shards n : ℕ) (chunk_size : Option ℕ)
      (args : SequencePackingArgs) (s : Sizes) (d : Dict (List A)) (col : List A)
      → Shuffles shuffle
      → algorithm_named args.algorithm ≡ some algorithm
      → batch_size d ≡ ok n
      → 0 < n
      → sizes shards (given_or n chunk_size) n false ≡ ok s
      → lookup args.input_lengths_key d ≡ some col
      → 0 < args.sequence_length_pad_multiple
      → 0 < args.max_tokens_per_microbatch
      → All (λ a. 0 < item a) col
      → All
          (λ a.
            get_padded_seqlen args.sequence_length_pad_multiple (item a)
            ≤ args.max_tokens_per_microbatch)
          col
      → (plan : List (List ℕ)) × (parts : List (SlicedDataDict A)) × (qs : List ℕ)
        × (shard_by_batch_size item width shuffle shards chunk_size false none (some args) d
            ≡ ok (parts, some (flatten plan)))
        × (length plan ≡ shards)
        × Perm (flatten plan) (range n)
        × AreParts d plan (columns_of item width parts)
        × (length qs ≡ s.num_chunks)
        × All (λ q. 0 < q) qs
        × All (WellPacked args.max_tokens_per_microbatch qs) parts
        × AllHaveTokens (padded_length args.sequence_length_pad_multiple (map item col)) plan parts
  unfolding shard_by_batch_size
  shard_by_batch_size-packed shuffle algorithm shards n chunk_size args s d col h named e l passes f
        pad room positive small =
      let b = given_or n chunk_size in
      let (plan, parts, qs, g, len, perm, are, count, filled, packed, tokens) =
        shard_packed-returns item width shuffle algorithm shards n b args s d col h named e l
          (sizes-Passed shards b n false s passes) f pad room positive small in
      (plan, parts, qs, rw (e, passes, g) refl, len, perm, are, count, filled, packed, tokens)

  -- The shards of packed sequences, put together by `from_batches` and reordered by the indices that
  -- came with them, are the batch, whatever the size of the chunks.
  pub shard_by_batch_size-undone :
      (shuffle : Shuffle) (algorithm : PackingAlgorithm) (shards n : ℕ) (chunk_size : Option ℕ)
      (args : SequencePackingArgs) (s : Sizes) (d : Dict (List A)) (col : List A)
      → Shuffles shuffle
      → algorithm_named args.algorithm ≡ some algorithm
      → batch_size d ≡ ok n
      → 0 < n
      → sizes shards (given_or n chunk_size) n false ≡ ok s
      → lookup args.input_lengths_key d ≡ some col
      → 0 < args.sequence_length_pad_multiple
      → 0 < args.max_tokens_per_microbatch
      → All (λ a. 0 < item a) col
      → All
          (λ a.
            get_padded_seqlen args.sequence_length_pad_multiple (item a)
            ≤ args.max_tokens_per_microbatch)
          col
      → (parts : List (SlicedDataDict A)) × (indices : List ℕ) × (joined r : Dict (List A))
        × (shard_by_batch_size item width shuffle shards chunk_size false none (some args) d
            ≡ ok (parts, some indices))
        × (from_batches (columns_of item width parts) ≡ ok joined)
        × (reorder_data indices joined ≡ ok r)
        × ((k : ℕ) → lookup k r ≡ lookup k d)
  shard_by_batch_size-undone shuffle algorithm shards n chunk_size args s d col h named e l passes f
        pad room positive small =
      let (plan, parts, qs, g, plan_len, perm, are, _, _, _, _) =
        shard_by_batch_size-packed shuffle algorithm shards n chunk_size args s d col h named e l
          passes f pad room positive small in
      let p = sizes-Passed shards (given_or n chunk_size) n false s passes in
      let some_shard : 0 < length plan = omega (arith, plan_len, p.shards_positive) in
      let (joined, i, part) =
        from_batches-IsPart d n plan (columns_of item width parts) (batch_size-all_of_size n d e)
          are (Same-below n (flatten plan) (perm-Same perm)) some_shard in
      let (r, j, back) = reorder_data-IsPart n d (flatten plan) joined e perm part in
      (parts, flatten plan, joined, r, g, i, j, back)
