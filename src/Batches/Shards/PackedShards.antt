-- ===== src/Batches/Shards/PackedShards.antt =====
-- What `shard_by_batch_size` returns for packed sequences, and that `reorder_data` undoes it.
pub mod Tokens
pub mod Correct
pub mod Undone
use native.Mathlib.Nat.{div-add-mod}
use ne_mo_rl_enhanced_math_r.Common.{
  ℕ, zero, suc, ◌+◌, ◌-◌, ◌*◌, ◌/◌, ◌%◌, ◌≤◌, ◌<◌, ◌≡◌, refl, sym, ap, ◌∙◌, inl, inr, true, false,
  Bool, ◌&&◌, List, [], ◌∷◌, ◌++◌, map, Option, none, some, arith, ok, ◌>>=◌, ◌>>◌, raise_if,
  Result, Dict, lookup, has, range, range_from, All, All-map, All-split, Perm, flatten, Same-below,
  perm-range, Same, perm-Same, length, length-map, length-replicate, length-range_from, replicate,
  sum, sum_of, sum_of-flatten, sum_of-map, ltb, get_or, subst,
}
use ne_mo_rl_enhanced_math_r.Common.Int.{pos}
use ne_mo_rl_enhanced_math_r.Packing.Packer.{
  PackingAlgorithm, Packer, Shuffle, get_packer, algorithm_named, init, check_min, check_multiple,
}
use ne_mo_rl_enhanced_math_r.Packing.Packer.Correct.{Shuffles}
use ne_mo_rl_enhanced_math_r.Packing.Packer.Enough.{packer_for}
use ne_mo_rl_enhanced_math_r.Batches.{batch_size, all_of_size}
use ne_mo_rl_enhanced_math_r.Batches.Rows.{ShardError, reorder_data}
use ne_mo_rl_enhanced_math_r.Batches.Rows.Pick.{Below}
use ne_mo_rl_enhanced_math_r.Batches.Parts.{
  IsPart, AreParts, batch_size-all_of_size, all_of_size-batch_size, batch_size-has,
  from_batches-IsPart, reorder_data-IsPart,
}
use ne_mo_rl_enhanced_math_r.Batches.Whole.{all_of_size-lookup}
use ne_mo_rl_enhanced_math_r.Batches.Shards.{
  SlicedDataDict, lengths_of, from_plans, planned_indices, shard_packed, shard_by_batch_size,
}
use ne_mo_rl_enhanced_math_r.Batches.Shards.Split.{Sizes, sizes, given_or}
use ne_mo_rl_enhanced_math_r.Batches.Shards.Split.Passed.{Passed, sizes-Passed}
use ne_mo_rl_enhanced_math_r.Batches.Shards.Plain.{num_chunks-positive}
use ne_mo_rl_enhanced_math_r.Batches.Shards.Sorted.Correct.{columns_of, chunks_whole}
use ne_mo_rl_enhanced_math_r.Batches.Shards.Packed.{
  SequencePackingArgs, Plan, empty_plan, get_padded_seqlen, pack_chunks, deal_chunks, plans_of,
  from_packer, from_batches,
}
use ne_mo_rl_enhanced_math_r.Batches.Shards.Packed.Deal.{Closed, Sound, Spans}
use ne_mo_rl_enhanced_math_r.Batches.Shards.Packed.Rounds.{micros_of, Balanced, weight}
use ne_mo_rl_enhanced_math_r.Batches.Shards.Packed.Bins.{PackedChunks, pack_chunks-returns}
use ne_mo_rl_enhanced_math_r.Batches.Shards.Packed.Chunks.{deal_chunks-returns}

-- A shard of packed sequences: for each chunk its microbatches span its rows of the chunk, one for
-- each bin, and a bin's padded length is at most `max_tokens`. The numbers of rows of the chunks add
-- up to that of the shard.
pub record WellPacked {A : Type 0} (max_tokens : ℕ) (qs : List ℕ) (x : SlicedDataDict A)
    : Type 0 where
  pub indices : List (List (ℕ × ℕ))
  pub lengths : List (List ℕ)
  pub counts : List ℕ
  pub indices_are : x.micro_batch_indices ≡ some indices
  pub lengths_are : x.micro_batch_lengths ≡ some lengths
  pub counts_are : x.elem_counts_per_gb ≡ some counts
  pub closed : Closed max_tokens qs indices lengths counts
  pub whole : batch_size x.columns ≡ ok (sum counts)

module _ {A : Type 0} (item : A → ℕ) (width : ℕ → ℕ) where
  abbrev pub indices_of : List (Plan A) → List (List ℕ)
  indices_of plans = map (λ (p : Plan A). p.global_indices) plans

  module _ (n max_tokens : ℕ) (d : Dict (List A)) (qs : List ℕ) (e : batch_size d ≡ ok n)
      (chunked : 0 < sum qs) where
    -- `from_batches` returns the rows of each shard.
    pub from_plans-returns :
        (plans : List (Plan A))
        → Balanced 0 0 plans
        → All (Sound max_tokens d qs) plans
        → Below n (flatten (indices_of plans))
        → (parts : List (SlicedDataDict A)) × (from_plans item width plans ≡ ok parts)
          × (length parts ≡ length plans)
          × AreParts d (indices_of plans) (columns_of item width parts)
          × All (WellPacked max_tokens qs) parts
    unfolding flatten
    from_plans-returns [] b s below = ([], refl, refl, tt, tt)
    from_plans-returns (p ∷ plans) b s below =
        let sp = s.0 in
        let (here, later) =
          All-split (λ i. i < n) p.global_indices (flatten (indices_of plans)) below in
        let here' : Below n (flatten (sp.dealt)) = rw (sp.indices_are) here in
        let no_rows : 0 ≡ sp.end = rest p.chunk_micro_indices (b.0) (sp.end) (sp.spans) in
        let (columns, f, is) =
          from_batches-IsPart d n (sp.dealt) p.parts (batch_size-all_of_size n d e) (sp.parts_are)
            here' (omega (arith, sp.dealt_count, chunked)) in
        let is' : IsPart d p.global_indices columns = rw (sp.indices_are) at is in
        let (k, here_key) = batch_size-has n d e in
        let size : batch_size columns ≡ ok (length p.global_indices) =
          all_of_size-batch_size (length p.global_indices) k columns (is'.keys k ∙ here_key)
            (is'.size) in
        let count : length p.global_indices ≡ sum p.elem_counts_per_gb =
          omega (arith, sp.rows_count, no_rows) in
        let (parts, g, len, are, packed) = from_plans-returns plans (b.1) (s.1) later in
        (
          record {
            columns = columns;
            micro_batch_indices = some (p.micro_indices);
            micro_batch_lengths = some (p.micro_lengths);
            elem_counts_per_gb = some (p.elem_counts_per_gb);
          }
              ∷ parts,
          rw (f, g) refl,
          ap suc len,
          (is', are),
          (
            record {
              indices = p.micro_indices;
              lengths = p.micro_lengths;
              counts = p.elem_counts_per_gb;
              indices_are = refl;
              lengths_are = refl;
              counts_are = refl;
              closed = sp.closed;
              whole = rw count at size;
            },
            packed,
          ),
        )
      where
        rest :
            (micros : List (ℕ × ℕ)) → length micros ≡ 0 → (end : ℕ) → Spans 0 end micros → 0 ≡ end
        rest [] l end s = s
        rest (m ∷ micros) l end s = absurd (omega (arith, l))

  pub empty-Sound :
      (max_tokens : ℕ) (d : Dict (List A)) (shards : ℕ)
      → All (Sound max_tokens d []) (replicate shards empty_plan)
        × Balanced 0 0 (replicate shards (empty_plan {A = A}))
  unfolding flatten
  empty-Sound max_tokens d zero = (tt, refl)
  empty-Sound max_tokens d (suc shards) =
      let (s, b) = empty-Sound max_tokens d shards in
      (
        (
          record {
            dealt = [];
            parts_are = tt;
            indices_are = refl;
            dealt_count = refl;
            end = 0;
            spans = refl;
            rows_count = refl;
            same_number = refl;
            fits = tt;
            closed = tt;
          },
          s,
        ),
        (refl, b),
      )

  pub empty_weight : (f : ℕ → ℕ) (shards : ℕ) → weight f (replicate shards (empty_plan {A = A})) ≡ 0
  empty_weight f zero = refl
  empty_weight f (suc shards) = omega (arith, empty_weight f shards)
