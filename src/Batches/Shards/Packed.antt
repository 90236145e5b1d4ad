-- ===== src/Batches/Shards/Packed.antt =====
-- nemo_rl/distributed/batched_data_dict.py: what `shard_by_batch_size` does for packed sequences, with
-- the packer of nemo_rl/data/packing, and `from_batches`.
pub mod Deal
pub mod Rounds
pub mod Bins
pub mod Chunks
pub mod Measured
use ne_mo_rl_enhanced_math_r.Common.{
  ℕ, suc, ◌+◌, ◌-◌, ◌*◌, ◌/◌, ◌%◌, List, [], ◌∷◌, ◌++◌, map, Option, none, some, false, ◌==◌,
  Result, ok, raise, raise_if, ◌>>=◌, ◌>>◌, Dict, lookup, take, drop, get_or, length, modify,
  replicate, range, sum_of, flatten,
}
use ne_mo_rl_enhanced_math_r.Common.Int.{pos}
use ne_mo_rl_enhanced_math_r.Packing.Base.{Error as PackingError}
use ne_mo_rl_enhanced_math_r.Packing.Packer.{Packer, Shuffle, get_packer, pack}
use ne_mo_rl_enhanced_math_r.Batches.Rows.{
  ShardError, packing, index_error, key_error, zero_division, select_indices,
}
use ne_mo_rl_enhanced_math_r.Batches.Shards.Split.{Sizes}
use Prim.Native.String.{String}

pub record SequencePackingArgs : Type 0 where
  pub max_tokens_per_microbatch : ℕ
  pub input_key : ℕ
  pub input_lengths_key : ℕ
  pub algorithm : String
  pub sequence_length_pad_multiple : ℕ

-- An exception of the packer passes through.
abbrev pub from_packer : {B : Type 0} → Result PackingError B → Result ShardError B
from_packer (ok b) = ok b
from_packer (raise e) = raise (packing e)

abbrev pub get_padded_seqlen : (pad_multiple seqlen : ℕ) → ℕ
get_padded_seqlen pad_multiple seqlen = (seqlen + pad_multiple - 1) / pad_multiple * pad_multiple

-- `all_chunk_bin_assignments`.
abbrev pub pack_chunks :
    Shuffle → ℕ → ℕ → List ℕ → List ℕ → Packer → Result ShardError (List (List (List ℕ)))
pack_chunks shuffle pad_multiple batch_size input_lens [] p = ok []
pack_chunks shuffle pad_multiple batch_size input_lens (chunk_idx ∷ chunks) p = do
  raise_if (pad_multiple == 0) zero_division
  (bins, p') ← from_packer (
      pack shuffle p (
        map (get_padded_seqlen pad_multiple)
          (take batch_size (drop (chunk_idx * batch_size) input_lens))))
  rest ← pack_chunks shuffle pad_multiple batch_size input_lens chunks p'
  ok (bins ∷ rest)

-- The entry of one shard in each of the lists `sharded_…`, `global_indices_per_shard` and
-- `chunk_sharded_…`.
pub record Plan (A : Type 0) : Type 0 where
  pub parts : List (Dict (List A))
  pub micro_indices : List (List (ℕ × ℕ))
  pub micro_lengths : List (List ℕ)
  pub elem_counts_per_gb : List ℕ
  pub global_indices : List ℕ
  pub chunk_micro_indices : List (ℕ × ℕ)
  pub chunk_micro_lengths : List ℕ

-- `indices[-1][1]`.
abbrev pub last_end : List (ℕ × ℕ) → Option ℕ
last_end [] = none
last_end ((start, end) ∷ []) = some end
last_end (_ ∷ p ∷ indices) = last_end (p ∷ indices)

abbrev pub next_micro : ℕ → List (ℕ × ℕ) → List (ℕ × ℕ)
next_micro size indices = elim (last_end indices) [
  | none ↦ (0, size) ∷ []
  | some prev_bin_end ↦ indices ++ (prev_bin_end, prev_bin_end + size) ∷ []
]

module _ {A : Type 0} where
  abbrev pub empty_plan : Plan A
  empty_plan = record {
    parts = [];
    micro_indices = [];
    micro_lengths = [];
    elem_counts_per_gb = [];
    global_indices = [];
    chunk_micro_indices = [];
    chunk_micro_lengths = [];
  }

  -- A bin goes to its shard.
  unfoldable pub add_bin : Dict (List A) → List ℕ → ℕ → Plan A → Plan A
  add_bin part global_bin_indices bin_seqlen p = record p {
    parts = p.parts ++ part ∷ [];
    global_indices = p.global_indices ++ global_bin_indices;
    chunk_micro_indices = next_micro (length global_bin_indices) p.chunk_micro_indices;
    chunk_micro_lengths = p.chunk_micro_lengths ++ bin_seqlen ∷ [];
  }

  -- `for bin_idx in range(num_bins)`, from `bin_idx` on.
  abbrev pub deal_bins :
      (shards chunk_start : ℕ)
      → (ℕ → ℕ)
      → Dict (List A)
      → ℕ
      → List (List ℕ)
      → List (Plan A)
      → Result ShardError (List (Plan A))
  deal_bins shards chunk_start seqlen d bin_idx [] plans = ok plans
  deal_bins shards chunk_start seqlen d bin_idx (bin ∷ bins) plans = do
    part ← select_indices (map (λ i. i + chunk_start) bin) d
    deal_bins shards chunk_start seqlen d (suc bin_idx) bins (
        modify (bin_idx % shards)
          (add_bin part (map (λ i. i + chunk_start) bin)
            (sum_of seqlen (map (λ i. i + chunk_start) bin)))
          plans)

  -- The lists of the chunk go to those of the batch, and the next chunk starts with empty ones.
  abbrev pub close_chunk : List (Plan A) → Result ShardError (List (Plan A))
  close_chunk [] = ok []
  close_chunk (p ∷ plans) = elim (last_end p.chunk_micro_indices) [
    | none ↦ raise index_error
    | some count ↦ do
      rest ← close_chunk plans
      ok (
          record p {
            micro_indices = p.micro_indices ++ p.chunk_micro_indices ∷ [];
            micro_lengths = p.micro_lengths ++ p.chunk_micro_lengths ∷ [];
            elem_counts_per_gb = p.elem_counts_per_gb ++ count ∷ [];
            chunk_micro_indices = [];
            chunk_micro_lengths = [];
          }
          ∷ rest)
  ]

  -- `for chunk_idx in range(num_chunks)`, from `chunk_idx` on.
  abbrev pub deal_chunks :
      (shards batch_size : ℕ)
      → (ℕ → ℕ)
      → Dict (List A)
      → ℕ
      → List (List (List ℕ))
      → List (Plan A)
      → Result ShardError (List (Plan A))
  deal_chunks shards batch_size seqlen d chunk_idx [] plans = ok plans
  deal_chunks shards batch_size seqlen d chunk_idx (bins ∷ chunks) plans = do
    dealt ← deal_bins shards (chunk_idx * batch_size) seqlen d 0 bins plans
    closed ← close_chunk dealt
    deal_chunks shards batch_size seqlen d (suc chunk_idx) chunks closed

  -- The plans of all shards.
  unfoldable pub plans_of :
      Shuffle
      → (shards : ℕ) → SequencePackingArgs
      → Sizes
      → List ℕ
      → Dict (List A)
      → Result ShardError (List (Plan A))
  plans_of shuffle shards args s input_lens d = do
    bin_packer ← from_packer (
        get_packer args.algorithm args.max_tokens_per_microbatch false (some (pos shards))
          (some (pos shards)))
    assignments ←
        pack_chunks shuffle args.sequence_length_pad_multiple s.batch_size input_lens
          (range s.num_chunks) bin_packer
    deal_chunks shards s.batch_size
        (λ i. get_padded_seqlen args.sequence_length_pad_multiple (get_or input_lens i 0)) d 0
        assignments (replicate shards empty_plan)

  -- `[item for sublist in [item[k] for item in batches] for item in sublist]`.
  abbrev pub join : ℕ → List (Dict (List A)) → Result ShardError (List A)
  join k [] = ok []
  join k (b ∷ batches) = elim (lookup k b) [
    | none ↦ raise key_error
    | some col ↦ do rest ← join k batches; ok (col ++ rest)
  ]

  abbrev pub join_columns : Dict (List A) → List (Dict (List A)) → Result ShardError (Dict (List A))
  join_columns [] batches = ok []
  join_columns ((k, _) ∷ d) batches = do
    col ← join k batches
    rest ← join_columns d batches
    ok ((k, col) ∷ rest)

  -- The rows of a tensor have one width here, that of the batch which they come from.
  unfoldable pub from_batches : List (Dict (List A)) → Result ShardError (Dict (List A))
  from_batches [] = raise index_error
  from_batches (b ∷ batches) = join_columns b (b ∷ batches)
