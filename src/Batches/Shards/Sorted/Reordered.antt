-- ===== src/Batches/Shards/Sorted/Reordered.antt =====
-- `shard_by_batch_size` for dynamic batches, and `reorder_data` after it.
use ne_mo_rl_enhanced_math_r.Common.{
  ℕ, zero, suc, ◌<◌, ◌≡◌, refl, sym, ap, ◌∙◌, false, List, map, Option, none, some, arith, ok, Dict,
  lookup, range, All, Perm, flatten, HasDistinctKeys, Same-below, perm-range, length, Same,
  perm-Same,
}
use ne_mo_rl_enhanced_math_r.Packing.Packer.{Shuffle}
use ne_mo_rl_enhanced_math_r.Batches.{batch_size}
use ne_mo_rl_enhanced_math_r.Batches.Rows.{reorder_data}
use ne_mo_rl_enhanced_math_r.Batches.Rows.Pick.{Below, pick, pick-flatten, pick-range}
use ne_mo_rl_enhanced_math_r.Batches.Rows.Reorder.{length-Same}
use ne_mo_rl_enhanced_math_r.Batches.Rows.Compose.{pick_all-Same}
use ne_mo_rl_enhanced_math_r.Batches.Parts.{
  IsPart, AreParts, batch_size-all_of_size, from_batches-IsPart, reorder_data-IsPart,
}
use ne_mo_rl_enhanced_math_r.Batches.Shards.{SlicedDataDict, with_microbatches, shard_by_batch_size}
use ne_mo_rl_enhanced_math_r.Batches.Shards.Split.{Sizes, sizes, given_or}
use ne_mo_rl_enhanced_math_r.Batches.Shards.Split.Passed.{
  sizes-Passed, Passed-plan_of, Passed-plan_of_ordered,
}
use ne_mo_rl_enhanced_math_r.Batches.Shards.Aggregate.Cover.{plan_of}
use ne_mo_rl_enhanced_math_r.Batches.Shards.Dynamic.{DynamicBatchingArgs, sorted_indices}
use ne_mo_rl_enhanced_math_r.Batches.Shards.Dynamic.Micro.{Holds}
use ne_mo_rl_enhanced_math_r.Batches.Shards.Dynamic.Loop.{AllTiles}
use ne_mo_rl_enhanced_math_r.Batches.Shards.Packed.{from_batches}
use ne_mo_rl_enhanced_math_r.Batches.Shards.Sorted.Correct.{
  sorted_plan, columns_of, columns-with_microbatches, sorted_lengths, shard_dynamic-whole,
}

module _ {A : Type 0} (item : A → ℕ) (width : ℕ → ℕ) where
  -- With dynamic batches, even sizes that pass the assertions and lengths that a microbatch can
  -- hold, a batch with a row is split into shards and indices. The shards have the rows of
  -- `sorted_plan`, every row of the batch once; each chunk of theirs is cut into microbatches that
  -- follow one another from its first row to its last, none empty, each with at most
  -- `max_tokens_per_microbatch` tokens once all rows are padded to its length, which is at least the
  -- padded length of each of its rows in every shard.
  pub shard_by_batch_size-sorted :
      (shuffle : Shuffle) (shards n : ℕ) (chunk_size : Option ℕ) (args : DynamicBatchingArgs)
      (s : Sizes) (d : Dict (List A)) (col : List A)
      (round_positive : 0 < args.sequence_length_round)
      → batch_size d ≡ ok n
      → 0 < n
      → HasDistinctKeys d
      → sizes shards (given_or n chunk_size) n false ≡ ok s
      → lookup args.input_lengths_key d ≡ some col
      → All (λ a. Holds args (width args.input_key) (item a)) col
      → (parts : List (Dict (List A))) × (indices : List ℕ) × (micros : List (List ((ℕ × ℕ) × ℕ)))
        × (shard_by_batch_size item width shuffle shards chunk_size false (some args) none d
            ≡ ok (map (with_microbatches item width micros) parts, some indices))
        × Perm (flatten (sorted_plan shards s indices)) (range n)
        × AreParts d (sorted_plan shards s indices) parts
        × AllTiles args
            (width args.input_key)
            round_positive
            s.shard_size
            (sorted_lengths item width col (plan_of shards s false) indices)
            (range s.num_chunks)
            micros
  unfolding shard_by_batch_size
  shard_by_batch_size-sorted shuffle shards n chunk_size args s d col round_positive e l k passes f
        holds =
      let b = given_or n chunk_size in
      let p = sizes-Passed shards b n false s passes in
      let indices = sorted_indices shards s (map item col) in
      let (parts, micros, g, perm, are, tiles) =
        shard_dynamic-whole item width shards n b args s d col round_positive e l k p f holds in
      let size : length indices ≡ n = length-Same n indices (perm-Same perm) in
      let plan_same : Same (flatten (plan_of shards s false)) (range (length indices)) =
        rw size (Passed-plan_of shards b n false s (λ t. cc) p) in
      let rows_same : Same (flatten (sorted_plan shards s indices)) (range n) =
        λ h. pick_all-Same (plan_of shards s false) indices plan_same h ∙ perm-Same perm h in
      (parts, indices, micros, rw (e, passes, g) refl, perm-range n _ rows_same, are, tiles)

  -- Where the batch is not cut into chunks, the shards that are made for dynamic batches, put
  -- together by `from_batches` and reordered by the indices that came with them, are the batch.
  pub shard_by_batch_size-reorder_data :
      (shuffle : Shuffle) (shards n : ℕ) (args : DynamicBatchingArgs) (s : Sizes)
      (d : Dict (List A)) (col : List A)
      → 0 < args.sequence_length_round
      → batch_size d ≡ ok n
      → 0 < n
      → HasDistinctKeys d
      → sizes shards n n false ≡ ok s
      → lookup args.input_lengths_key d ≡ some col
      → All (λ a. Holds args (width args.input_key) (item a)) col
      → (parts : List (SlicedDataDict A)) × (indices : List ℕ) × (joined r : Dict (List A))
        × (shard_by_batch_size item width shuffle shards none false (some args) none d
            ≡ ok (parts, some indices))
        × (from_batches (columns_of item width parts) ≡ ok joined)
        × (reorder_data indices joined ≡ ok r)
        × ((k : ℕ) → lookup k r ≡ lookup k d)
  unfolding shard_by_batch_size
  shard_by_batch_size-reorder_data shuffle shards n args s d col round_positive e l k passes f
        holds =
      let p = sizes-Passed shards n n false s passes in
      let indices = sorted_indices shards s (map item col) in
      let (parts, micros, g, perm, are, _) =
        shard_dynamic-whole item width shards n n args s d col round_positive e l k p f holds in
      let same = perm-Same perm in
      let size : length indices ≡ n = length-Same n indices same in
      let in_order : flatten (sorted_plan shards s indices) ≡ indices =
        sym (pick-flatten (plan_of shards s false) indices)
        ∙ ap (λ is. pick is indices) (Passed-plan_of_ordered shards n false s p)
        ∙ ap (λ m. pick (range m) indices) (sym size)
        ∙ pick-range indices in
      let below : Below n (flatten (sorted_plan shards s indices)) =
        rw in_order (Same-below n indices same) in
      let (joined, h, part) =
        from_batches-IsPart d n (sorted_plan shards s indices) parts (batch_size-all_of_size n d e)
          are below (plan_positive shards (p.shards_positive)) in
      let whole : IsPart d indices joined = rw in_order at part in
      let (r, i, back) = reorder_data-IsPart n d indices joined e perm whole in
      (
        map (with_microbatches item width micros) parts,
        indices,
        joined,
        r,
        rw (e, passes, g) refl,
        ap from_batches (columns-with_microbatches item width micros parts) ∙ h,
        i,
        back,
      )
    where
      plan_positive :
          (shards : ℕ)
          → 0 < shards
          → 0 < length (sorted_plan shards s (sorted_indices shards s (map item col)))
      plan_positive zero l = absurd (omega (arith, l))
      plan_positive (suc shards) l = omega arith
