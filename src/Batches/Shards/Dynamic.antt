-- ===== src/Batches/Shards/Dynamic.antt =====
-- nemo_rl/distributed/batched_data_dict.py: what `shard_by_batch_size` does for dynamic batches: the
-- order of the rows, and the microbatches.
pub mod Order
pub mod Micro
pub mod Loop
use ne_mo_rl_enhanced_math_r.Common.{
  ℕ, zero, suc, ◌+◌, ◌-◌, ◌*◌, ◌/◌, max, min, true, false, List, [], ◌∷◌, ◌++◌, map, none, some,
  ltb, leb, ◌==◌, Result, ok, raise, raise_if, ◌>>=◌, ◌>>◌, take, drop, get_elem?, get_or, sort_by,
  range, flatten,
}
use ne_mo_rl_enhanced_math_r.Batches.Rows.{ShardError, input_too_long, index_error, zero_division}
use ne_mo_rl_enhanced_math_r.Batches.Shards.Split.{Sizes}

pub record DynamicBatchingArgs : Type 0 where
  pub max_tokens_per_microbatch : ℕ
  pub sequence_length_round : ℕ
  pub input_key : ℕ
  pub input_lengths_key : ℕ

-- `xs[start::step]`, whose step is positive.
abbrev pub stride {ℓ} : {A : Type ℓ} → (start step : ℕ) → List A → List A
stride start step [] = []
stride zero step (x ∷ xs) = x ∷ stride (step - 1) step xs
stride (suc start) step (x ∷ xs) = stride start step xs

-- `sum([chunk_idx_indices[i::shards] for i in range(shards)], [])`.
abbrev pub strided : ℕ → List ℕ → List ℕ
strided shards indices = flatten (map (λ i. stride i shards indices) (range shards))

-- The rows of a chunk by their length, dealt out to the shards.
abbrev pub chunk_order : (shards batch_size : ℕ) → List ℕ → ℕ → List ℕ
chunk_order shards batch_size lengths chunk_idx =
    let chunk_seqlens = take batch_size (drop (chunk_idx * batch_size) lengths) in
    let by_length =
      sort_by (λ i j. leb (get_or chunk_seqlens i 0) (get_or chunk_seqlens j 0))
        (range batch_size) in
    strided shards (map (λ i. i + chunk_idx * batch_size) by_length)

-- `batch_sorted_indices`.
unfoldable pub sorted_indices : ℕ → Sizes → List ℕ → List ℕ
sorted_indices shards s lengths =
    flatten (map (chunk_order shards s.batch_size lengths) (range s.num_chunks))

-- `max_seqlen_this_shard_indice` before it is padded, over the lengths of each shard in the chunk.
abbrev pub longest : ℕ → List (List ℕ) → Result ShardError ℕ
longest shard_indice [] = ok 0
longest shard_indice (lengths ∷ rest) = elim (get_elem? lengths shard_indice) [
  | none ↦ raise index_error
  | some seq_len ↦ do others ← longest shard_indice rest; ok (max seq_len others)
]

-- The same after it is padded to a multiple and capped at the width of the inputs.
abbrev pub padded : DynamicBatchingArgs → (width seqlen : ℕ) → ℕ
padded args width seqlen =
    min
      ((seqlen + args.sequence_length_round - 1)
        / args.sequence_length_round
        * args.sequence_length_round)
      width

unfoldable pub length_at : DynamicBatchingArgs → ℕ → List (List ℕ) → ℕ → Result ShardError ℕ
length_at args width lengths shard_indice = do
  seqlen ← longest shard_indice lengths
  raise_if (args.sequence_length_round == 0) zero_division
  raise_if (ltb args.max_tokens_per_microbatch (padded args width seqlen))
      (input_too_long (padded args width seqlen))
  ok (padded args width seqlen)

-- The loop over the `n` indices from `i` on. The last entries of `chunk_micro_batch_indices` and
-- `chunk_micro_batch_lengths` are `[start, end]` and `length`; the result has the entries from them on.
abbrev pub microbatches_from :
    DynamicBatchingArgs
    → ℕ
    → List (List ℕ)
    → (start end length max_seqlen_this_mb i n : ℕ) → Result ShardError (List ((ℕ × ℕ) × ℕ))
microbatches_from args width lengths start end length max_seqlen_this_mb i zero =
    ok (((start, end), length) ∷ [])
microbatches_from args width lengths start end length max_seqlen_this_mb i (suc n) = do
  seqlen ← length_at args width lengths i
  elim (leb ((end - start + 1) * max max_seqlen_this_mb seqlen) args.max_tokens_per_microbatch) [
    | true ↦
        microbatches_from args width lengths start (suc end) (max max_seqlen_this_mb seqlen)
          (max max_seqlen_this_mb seqlen) (suc i) n
    | false ↦ do
      rest ← microbatches_from args width lengths i (suc i) seqlen seqlen (suc i) n
      ok (((start, end), length) ∷ rest)
  ]

-- The microbatches of a chunk of each shard.
abbrev pub chunk_microbatches :
    DynamicBatchingArgs → ℕ → ℕ → List (List ℕ) → ℕ → Result ShardError (List ((ℕ × ℕ) × ℕ))
chunk_microbatches args width shard_size lengths chunk_idx =
    microbatches_from args width
      (map (λ ls. take shard_size (drop (chunk_idx * shard_size) ls)) lengths) 0 0 0 0 0 shard_size

abbrev pub microbatches :
    DynamicBatchingArgs
    → ℕ
    → ℕ
    → List (List ℕ)
    → List ℕ
    → Result ShardError (List (List ((ℕ × ℕ) × ℕ)))
microbatches args width shard_size lengths [] = ok []
microbatches args width shard_size lengths (chunk_idx ∷ chunks) = do
  here ← chunk_microbatches args width shard_size lengths chunk_idx
  rest ← microbatches args width shard_size lengths chunks
  ok (here ∷ rest)
