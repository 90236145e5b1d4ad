-- ===== src/Packing/Adjust.antt =====
-- nemo_rl/data/packing/algorithms.py: `SequencePacker._adjust_bin_count`.
pub mod Target
pub mod Moves
pub mod Sources
pub mod Fill
pub mod Correct
use ne_mo_rl_enhanced_math_r.Common.{
  ℕ, zero, suc, ◌+◌, ◌-◌, ◌%◌, max, List, [], ◌∷◌, ◌++◌, Option, none, some, ltb, ◌==◌,
  if◌then◌else◌, Result, ok, raise, raise_if, ◌>>=◌, ◌>>◌, length, get_or, replicate, modify,
  sort_by, enumerate, map, sum_of, drop,
}
use ne_mo_rl_enhanced_math_r.Packing.Base.{Error, too_few_sequences, cannot_redistribute, ge_pair}
use ne_mo_rl_enhanced_math_r.Packing.Bins.{append_to}

-- `bin_contents.pop()`: the last element, and what is left.
abbrev pub init_of {ℓ} : {A : Type ℓ} → List A → List A
init_of [] = []
init_of (x ∷ []) = []
init_of (x ∷ y ∷ xs) = x ∷ init_of (y ∷ xs)

abbrev pub last_of : List ℕ → ℕ
last_of [] = 0
last_of (x ∷ []) = x
last_of (x ∷ y ∷ xs) = last_of (y ∷ xs)

abbrev pub at_least : Option ℕ → ℕ → ℕ
at_least none count = count
at_least (some least) count = max count least

abbrev pub round_up : Option ℕ → ℕ → ℕ
round_up none count = count
round_up (some multiple) count =
    if count % multiple == 0 then count else count + (multiple - count % multiple)

unfoldable pub target_bin_count : Option ℕ → Option ℕ → ℕ → ℕ
target_bin_count min_bin_count bin_count_multiple count =
    round_up bin_count_multiple (at_least min_bin_count count)

-- The `while` loop: the first of the bins left in `bin_sizes`, from `source_bin_idx` on, that still
-- holds more than one sequence, with those entries from it on.
unfoldable pub find_source : List (List ℕ) → List (ℕ × ℕ) → Option (ℕ × List (ℕ × ℕ))
find_source bins [] = none
find_source bins ((size, i) ∷ rest) =
    if ltb 1 (length (get_or bins i [])) then some (i, (size, i) ∷ rest) else find_source bins rest

-- Moves the last sequence of bin `i` to bin `new_bin_idx`.
unfoldable pub move_sequence : ℕ → ℕ → List (List ℕ) → List (List ℕ)
move_sequence i new_bin_idx bins =
    append_to new_bin_idx (last_of (get_or bins i [])) (modify i init_of bins)

-- The `for` loop over the `count` new bins from `new_bin_idx` on.
unfoldable pub fill_new_bins :
    (count new_bin_idx : ℕ) → List (List ℕ) → List (ℕ × ℕ) → Result Error (List (List ℕ))
fill_new_bins zero new_bin_idx bins sources = ok bins
fill_new_bins (suc count) new_bin_idx bins sources = elim (find_source bins sources) [
  | some (i, sources') ↦
      fill_new_bins count (suc new_bin_idx) (move_sequence i new_bin_idx bins) sources'
  | none ↦ raise cannot_redistribute
]

-- `bin_sizes`: pairs (size, index), largest first.
unfoldable pub bin_sizes : List (List ℕ) → List (ℕ × ℕ)
bin_sizes bins = sort_by ge_pair (enumerate (map length bins))

unfoldable pub adjust_bin_count : Option ℕ → Option ℕ → List (List ℕ) → Result Error (List (List ℕ))
adjust_bin_count min_bin_count bin_count_multiple bins =
    let count = length bins in
    let target = target_bin_count min_bin_count bin_count_multiple count in
    if target == count
    then ok bins
    else (raise_if (ltb (sum_of length bins) target) (too_few_sequences target (sum_of length bins))
        >> fill_new_bins (target - count) count (bins ++ replicate (target - count) [])
            (bin_sizes bins))
