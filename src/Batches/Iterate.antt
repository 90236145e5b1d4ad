-- ===== src/Batches/Iterate.antt =====
-- nemo_rl/distributed/batched_data_dict.py: `slice`, `get_batch`, `repeat_interleave`, `size` and the
-- iterators over the microbatches of `BatchedDataDict`.
pub mod Visits
pub mod Epoch
pub mod Fixed
mod Tests
use ne_mo_rl_enhanced_math_r.Common.{
  ℕ, zero, suc, ◌+◌, ◌-◌, ◌*◌, ◌/◌, ◌%◌, Bool, true, false, ◌&&◌, not, List, [], ◌∷◌, ◌++◌, map,
  Option, none, some, ltb, ◌==◌, Result, ok, raise, raise_if, ◌>>=◌, ◌>>◌, Dict, length, get_elem?,
  take, drop, replicate, range, max,
}
use ne_mo_rl_enhanced_math_r.Batches.Rows.{zip}
use ne_mo_rl_enhanced_math_r.Batches.Shards.{SlicedDataDict}

-- The assertions, and the exceptions of Python.
pub data IterateError : Type 0 where
  end_too_large no_micro_batches not_a_multiple : IterateError
  index_error type_error zero_division stop_iteration : IterateError

abbrev pub item_at {ℓ} : {A : Type ℓ} → Option A → Result IterateError A
item_at none = raise index_error
item_at (some a) = ok a

-- A subscript of `None` raises.
abbrev pub given {ℓ} : {A : Type ℓ} → Option A → Result IterateError A
given none = raise type_error
given (some a) = ok a

-- `cum_elem_count`, from `total` on.
abbrev pub cum_elem_count : ℕ → List ℕ → List ℕ
cum_elem_count total [] = total ∷ []
cum_elem_count total (count ∷ counts) = total ∷ cum_elem_count (total + count) counts

-- The assertion of the iterator, and the entries of its one batch.
abbrev pub only_batch :
    Option (List (List (ℕ × ℕ))) → Option (List (List ℕ)) → Result IterateError (List (ℕ × (ℕ × ℕ)))
only_batch (some (indices ∷ [])) (some (lengths ∷ _)) = ok (zip lengths indices)
only_batch (some (indices ∷ [])) (some []) = raise index_error
only_batch _ _ = raise no_micro_batches

abbrev pub steps : (start step count : ℕ) → List (ℕ × (ℕ × ℕ))
steps start step zero = []
steps start step (suc count) = (0, (start, start + step)) ∷ steps (start + step) step count

module _ {A : Type 0} where
  -- The microbatches of one batch, out of those of all.
  abbrev pub micro_batch_of :
      ℕ
      → List (List (ℕ × ℕ))
      → Option (List (List ℕ))
      → Option (List ℕ)
      → SlicedDataDict A
      → Result IterateError (SlicedDataDict A)
  micro_batch_of batch_idx indices lengths counts batch = do
    here ← item_at (get_elem? indices batch_idx)
    all_lengths ← given lengths
    seqlens ← item_at (get_elem? all_lengths batch_idx)
    ok (record batch {
      micro_batch_indices = some (here ∷ []);
      micro_batch_lengths = some (seqlens ∷ []);
      elem_counts_per_gb = counts;
    })

  -- `size`: `next(iter(self.data))` raises on an empty batch.
  abbrev pub size : Dict (List A) → Result IterateError ℕ
  size [] = raise stop_iteration
  size ((k, col) ∷ d) = ok (length col)

-- `is_tensor` tells the keys of tensors from those of lists.
module _ {A : Type 0} (is_tensor : ℕ → Bool) where
  abbrev pub slice_columns : (start end : ℕ) → Dict (List A) → Result IterateError (Dict (List A))
  slice_columns start end [] = ok []
  slice_columns start end ((k, col) ∷ d) = do
    raise_if (is_tensor k && ltb (length col) end) end_too_large
    rest ← slice_columns start end d
    ok ((k, take (end - start) (drop start col)) ∷ rest)

  -- A slice has no microbatches.
  abbrev pub slice : (start end : ℕ) → SlicedDataDict A → Result IterateError (SlicedDataDict A)
  slice start end x = do
    columns ← slice_columns start end x.columns
    ok (record {
      columns = columns;
      micro_batch_indices = none;
      micro_batch_lengths = none;
      elem_counts_per_gb = none;
    })

  -- `elem_counts_per_gb` is there.
  abbrev pub get_counted :
      ℕ
      → List ℕ
      → Option (List (List (ℕ × ℕ)))
      → SlicedDataDict A
      → Result IterateError (SlicedDataDict A)
  get_counted batch_idx counts none x = raise no_micro_batches
  get_counted batch_idx counts (some indices) x = do
    elem_count ← item_at (get_elem? counts batch_idx)
    start ← item_at (get_elem? (cum_elem_count 0 counts) batch_idx)
    end ← item_at (get_elem? (cum_elem_count 0 counts) (batch_idx + 1))
    batch ← slice start end x
    micro_batch_of batch_idx indices x.micro_batch_lengths (some (elem_count ∷ [])) batch

  -- It is not.
  abbrev pub get_sized :
      ℕ
      → Option ℕ
      → Option (List (List (ℕ × ℕ)))
      → SlicedDataDict A
      → Result IterateError (SlicedDataDict A)
  get_sized batch_idx none indices x = raise type_error
  get_sized batch_idx (some size) none x = slice (size * batch_idx) (size * (batch_idx + 1)) x
  get_sized batch_idx (some size) (some indices) x = do
    batch ← slice (size * batch_idx) (size * (batch_idx + 1)) x
    micro_batch_of batch_idx indices x.micro_batch_lengths none batch

  abbrev pub get_batch_for :
      ℕ → Option ℕ → Option (List ℕ) → SlicedDataDict A → Result IterateError (SlicedDataDict A)
  get_batch_for batch_idx size none x = get_sized batch_idx size x.micro_batch_indices x
  get_batch_for batch_idx size (some counts) x =
      get_counted batch_idx counts x.micro_batch_indices x

  unfoldable pub get_batch :
      SlicedDataDict A → ℕ → Option ℕ → Result IterateError (SlicedDataDict A)
  get_batch x batch_idx size = get_batch_for batch_idx size x.elem_counts_per_gb x

  abbrev pub slices :
      List (ℕ × (ℕ × ℕ)) → SlicedDataDict A → Result IterateError (List (SlicedDataDict A))
  slices [] x = ok []
  slices ((seqlen, (start, end)) ∷ micros) x = do
    mb ← slice start end x
    rest ← slices micros x
    ok (mb ∷ rest)

  -- `make_microbatch_iterator_for_packable_sequences`, all that it yields.
  unfoldable pub packable_microbatches :
      SlicedDataDict A → Result IterateError (List (SlicedDataDict A))
  packable_microbatches x = do
    micros ← only_batch x.micro_batch_indices x.micro_batch_lengths
    slices micros x

  -- `make_microbatch_iterator`, all that it yields.
  unfoldable pub make_microbatch_iterator :
      SlicedDataDict A → ℕ → Result IterateError (List (SlicedDataDict A))
  make_microbatch_iterator x microbatch_size = do
    bsize ← size x.columns
    raise_if (microbatch_size == 0) zero_division
    raise_if (not (bsize % microbatch_size == 0)) not_a_multiple
    slices (steps 0 microbatch_size (bsize / microbatch_size)) x

module _ {A : Type 0} where
  -- Each row `num_repeats` times in a row.
  abbrev pub repeat_rows : ℕ → List A → List A
  repeat_rows num_repeats [] = []
  repeat_rows num_repeats (x ∷ col) = replicate num_repeats x ++ repeat_rows num_repeats col

  abbrev pub repeat_interleave : ℕ → Dict (List A) → Dict (List A)
  repeat_interleave num_repeats [] = []
  repeat_interleave num_repeats ((k, col) ∷ d) =
      (k, repeat_rows num_repeats col) ∷ repeat_interleave num_repeats d
