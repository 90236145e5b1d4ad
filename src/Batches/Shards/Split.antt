-- ===== src/Batches/Shards/Split.antt =====
-- nemo_rl/distributed/batched_data_dict.py: the assertions of `shard_by_batch_size` on the sizes, and
-- the rows of a sub-shard.
pub mod Passed
use ne_mo_rl_enhanced_math_r.Common.{
  ℕ, ◌+◌, ◌-◌, ◌*◌, ◌/◌, ◌%◌, min, Bool, true, false, ◌&&◌, not, List, Option, none, some, ◌==◌,
  if◌then◌else◌, Result, ok, raise_if, ◌>>=◌, ◌>>◌, range_from,
}
use ne_mo_rl_enhanced_math_r.Batches.Rows.{
  ShardError, not_a_multiple, not_divided_by_shards, zero_division,
}

pub record Sizes : Type 0 where
  pub total_batch_size : ℕ
  pub batch_size : ℕ
  pub num_chunks : ℕ
  pub shard_size : ℕ

abbrev pub is_given : Option ℕ → Bool
is_given none = false
is_given (some n) = true

abbrev pub given_or : ℕ → Option ℕ → ℕ
given_or n none = n
given_or n (some m) = m

-- `%` and `//` raise on 0.
unfoldable pub sizes : (shards batch_size total : ℕ) → Bool → Result ShardError Sizes
sizes shards batch_size total allow_uneven = do
  raise_if (batch_size == 0) zero_division
  raise_if (not (total % batch_size == 0)) not_a_multiple
  raise_if (shards == 0) zero_division
  raise_if (not allow_uneven && not (batch_size % shards == 0)) not_divided_by_shards
  ok (record {
    total_batch_size = total;
    batch_size = batch_size;
    num_chunks = total / batch_size;
    shard_size = if allow_uneven then (batch_size + shards - 1) / shards else batch_size / shards;
  })

abbrev pub capped : Bool → ℕ → ℕ → ℕ
capped allow_uneven total n = if allow_uneven then min n total else n

-- `torch.arange(start, end)`, whose bounds are in order here.
abbrev pub arange : ℕ → ℕ → List ℕ
arange start end = range_from start (end - start)

-- `indices`.
abbrev pub sub_shard : Sizes → Bool → (shard_idx chunk_idx : ℕ) → List ℕ
sub_shard s allow_uneven shard_idx chunk_idx =
    arange
      (capped allow_uneven s.total_batch_size (chunk_idx * s.batch_size + shard_idx * s.shard_size))
      (capped allow_uneven s.total_batch_size
        (chunk_idx * s.batch_size + (shard_idx + 1) * s.shard_size))
