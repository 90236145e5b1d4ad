-- ===== src/Batches/Shards/PackedShards/Correct.antt =====
-- `shard_by_batch_size` returns for packed sequences, and `reorder_data` undoes it.
use ne_mo_rl_enhanced_math_r.Common.{
  ℕ, ◌+◌, ◌*◌, ◌%◌, ◌≤◌, ◌<◌, ◌≡◌, refl, ap, ◌∙◌, true, false, List, [], ◌∷◌, map, some, arith, ok,
  Dict, lookup, range, range_from, All, All-map, Perm, flatten, Same-below, perm-range, Same,
  length, length-map, length-replicate, replicate, sum, sum_of, sum_of-flatten, sum_of-map, ltb,
}
use ne_mo_rl_enhanced_math_r.Common.Int.{pos}
use ne_mo_rl_enhanced_math_r.Packing.Packer.{
  PackingAlgorithm, Shuffle, get_packer, algorithm_named, init,
}
use ne_mo_rl_enhanced_math_r.Packing.Packer.Correct.{Shuffles}
use ne_mo_rl_enhanced_math_r.Packing.Packer.Enough.{packer_for}
use ne_mo_rl_enhanced_math_r.Batches.{batch_size, all_of_size}
use ne_mo_rl_enhanced_math_r.Batches.Parts.{AreParts, batch_size-all_of_size}
use ne_mo_rl_enhanced_math_r.Batches.Whole.{all_of_size-lookup}
use ne_mo_rl_enhanced_math_r.Batches.Shards.{
  SlicedDataDict, lengths_of, planned_indices, shard_packed,
}
use ne_mo_rl_enhanced_math_r.Batches.Shards.Split.{Sizes}
use ne_mo_rl_enhanced_math_r.Batches.Shards.Split.Passed.{Passed}
use ne_mo_rl_enhanced_math_r.Batches.Shards.Plain.{num_chunks-positive}
use ne_mo_rl_enhanced_math_r.Batches.Shards.Sorted.Correct.{columns_of, chunks_whole}
use ne_mo_rl_enhanced_math_r.Batches.Shards.Packed.{
  SequencePackingArgs, Plan, empty_plan, get_padded_seqlen, plans_of,
}
use ne_mo_rl_enhanced_math_r.Batches.Shards.Packed.Deal.{Sound}
use ne_mo_rl_enhanced_math_r.Batches.Shards.Packed.Rounds.{Balanced}
use ne_mo_rl_enhanced_math_r.Batches.Shards.Packed.Bins.{pack_chunks-returns}
use ne_mo_rl_enhanced_math_r.Batches.Shards.Packed.Chunks.{deal_chunks-returns}
use ne_mo_rl_enhanced_math_r.Batches.Shards.PackedShards.{
  WellPacked, indices_of, from_plans-returns, empty-Sound, empty_weight,
}
use ne_mo_rl_enhanced_math_r.Batches.Shards.PackedShards.Tokens.{
  padded_length, AllHaveTokens, plans_of-Measured, from_plans-tokens,
}

get_packer-packer_for :
    (args : SequencePackingArgs) (algorithm : PackingAlgorithm) (shards : ℕ)
    → 0 < shards
    → algorithm_named args.algorithm ≡ some algorithm
    → get_packer args.algorithm args.max_tokens_per_microbatch false
        (some (pos shards))
        (some (pos shards))
      ≡ ok (packer_for algorithm args.max_tokens_per_microbatch shards)
unfolding get_packer init
get_packer-packer_for args algorithm shards l e =
    let positive : ltb shards 1 ≡ false = ground (arith, l) in rw (get_packer, e) (rw positive refl)

module _ {A : Type 0} (item : A → ℕ) (width : ℕ → ℕ) where
  -- The plans of the shards.
  plans_of-returns :
      (shuffle : Shuffle) (algorithm : PackingAlgorithm) (shards n b : ℕ)
      (args : SequencePackingArgs) (s : Sizes) (lens : List ℕ) (d : Dict (List A))
      → Shuffles shuffle
      → algorithm_named args.algorithm ≡ some algorithm
      → all_of_size n d ≡ true
      → length lens ≡ n
      → Passed shards b n false s
      → 0 < args.sequence_length_pad_multiple
      → 0 < args.max_tokens_per_microbatch
      → All (λ l. 0 < l) lens
      → All
          (λ l.
            get_padded_seqlen args.sequence_length_pad_multiple l ≤ args.max_tokens_per_microbatch)
          lens
      → (plans : List (Plan A)) × (qs : List ℕ) × (plans_of shuffle shards args s lens d ≡ ok plans)
        × (length plans ≡ shards)
        × Balanced 0 0 plans
        × All (Sound args.max_tokens_per_microbatch d qs) plans
        × All (λ q. 0 < q) qs
        × (length qs ≡ s.num_chunks)
        × Same (planned_indices item width plans) (range n)
  unfolding plans_of
  plans_of-returns shuffle algorithm shards n b args s lens d h named sized size p pad room positive
        small =
      let (whole, total, _) = chunks_whole p in
      let pad_multiple = args.sequence_length_pad_multiple in
      let max_tokens = args.max_tokens_per_microbatch in
      let batch_is : s.batch_size ≡ b = ap (λ (x : Sizes). x.batch_size) (p.found) in
      let from : 0 + s.num_chunks ≡ s.num_chunks = omega arith in
      let (filled, divides) = batch_facts s.batch_size batch_is in
      let inside : (0 + s.num_chunks) * s.batch_size ≤ length lens =
        rw from (omega (arith, whole, total, size)) in
      let (chunks, f, packed, count) =
        pack_chunks-returns max_tokens pad_multiple s.batch_size shards lens shuffle algorithm 0
          s.num_chunks h (p.shards_positive) pad room filled divides inside positive small in
      let (start_sound, start_balanced) = empty-Sound item width max_tokens d shards in
      let inside' : (0 + length chunks) * s.batch_size ≤ length lens = rw count inside in
      let (plans, qs, g, len, bal, sound, qs_pos, qs_len, w) =
        deal_chunks-returns n max_tokens pad_multiple s.batch_size shards lens d sized size 0 chunks
          (replicate shards empty_plan) [] packed inside' (p.shards_positive)
          (length-replicate shards empty_plan) start_balanced start_sound tt in
      (
        plans,
        qs,
        rw (get_packer-packer_for args algorithm shards (p.shards_positive) named, f) g,
        len,
        bal,
        sound,
        qs_pos,
        omega (arith, qs_len, count),
        λ k.
            sum_of-flatten k (indices_of item width plans)
            ∙ sum_of-map (sum_of k) (λ (x : Plan A). x.global_indices) plans
            ∙ w k
            ∙ ap (λ z. z + sum_of k (range_from (0 * s.batch_size) (length chunks * s.batch_size)))
                (empty_weight item width k shards)
            ∙ whole_range k (length chunks) (omega (arith, count)) whole total,
      )
    where
      batch_facts : (x : ℕ) → x ≡ b → (0 < x) × (x % shards ≡ 0)
      batch_facts x e = rw e (p.batch_size_positive, p.in_shards refl)

      whole_range :
          (k : ℕ → ℕ) (m : ℕ)
          → m ≡ s.num_chunks
          → s.num_chunks * s.batch_size ≡ s.total_batch_size
          → s.total_batch_size ≡ n
          → 0 + sum_of k (range_from (0 * s.batch_size) (m * s.batch_size)) ≡ sum_of k (range n)
      whole_range k m e whole total =
          let start : 0 * s.batch_size ≡ 0 = omega arith in
          let none_before : 0 + sum_of k (range n) ≡ sum_of k (range n) = omega arith in
          rw (e, whole, total, start) none_before

  pub shard_packed-returns :
      (shuffle : Shuffle) (algorithm : PackingAlgorithm) (shards n b : ℕ)
      (args : SequencePackingArgs) (s : Sizes) (d : Dict (List A)) (col : List A)
      → Shuffles shuffle
      → algorithm_named args.algorithm ≡ some algorithm
      → batch_size d ≡ ok n
      → 0 < n
      → Passed shards b n false s
      → lookup args.input_lengths_key d ≡ some col
      → 0 < args.sequence_length_pad_multiple
      → 0 < args.max_tokens_per_microbatch
      → All (λ a. 0 < item a) col
      → All
          (λ a.
            get_padded_seqlen args.sequence_length_pad_multiple (item a)
            ≤ args.max_tokens_per_microbatch)
          col
      → (plan : List (List ℕ)) × (parts : List (SlicedDataDict A)) × (qs : List ℕ) × (shard_packed
            item width shuffle shards args s d
          ≡ ok (parts, flatten plan))
        × (length plan ≡ shards)
        × Perm (flatten plan) (range n)
        × AreParts d plan (columns_of item width parts)
        × (length qs ≡ s.num_chunks)
        × All (λ q. 0 < q) qs
        × All (WellPacked args.max_tokens_per_microbatch qs) parts
        × AllHaveTokens (padded_length args.sequence_length_pad_multiple (map item col)) plan parts
  unfolding shard_packed
  shard_packed-returns shuffle algorithm shards n b args s d col h named e l p f pad room positive
        small =
      let sized = batch_size-all_of_size n d e in
      let size : length (map item col) ≡ n =
        length-map col item ∙ all_of_size-lookup n args.input_lengths_key d col sized f in
      let (plans, qs, g, len, bal, sound, qs_pos, qs_len, same) =
        plans_of-returns shuffle algorithm shards n b args s (map item col) d h named sized size p
          pad room (All-map (λ x. 0 < x) item col positive)
          (All-map
            (λ x.
              get_padded_seqlen args.sequence_length_pad_multiple x
              ≤ args.max_tokens_per_microbatch)
            item col small) in
      let chunked : 0 < sum qs =
        some_sum qs (omega (arith, qs_len, num_chunks-positive l p)) qs_pos in
      let (parts, k, parts_len, are, packed) =
        from_plans-returns item width n args.max_tokens_per_microbatch d qs e chunked plans bal
          sound (Same-below n (flatten (indices_of item width plans)) same) in
      let (measured, over) =
        plans_of-Measured item width shuffle shards args s (map item col) d plans g in
      (
        indices_of item width plans,
        parts,
        qs,
        rw (lengths_of, f, g, k) refl,
        length-map plans (λ (x : Plan A). x.global_indices) ∙ len,
        perm-range n _ same,
        are,
        qs_len,
        qs_pos,
        packed,
        from_plans-tokens item width
            (padded_length args.sequence_length_pad_multiple (map item col)) plans parts k measured
            over,
      )
    where
      some_sum : (qs : List ℕ) → 0 < length qs → All (λ q. 0 < q) qs → 0 < sum qs
      some_sum [] l h = absurd (omega (arith, l))
      some_sum (q ∷ qs) l h = omega (arith, h.0)
