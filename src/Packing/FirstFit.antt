-- ===== src/Packing/FirstFit.antt =====
-- nemo_rl/data/packing/algorithms.py: `FirstFitPacker`, `FirstFitDecreasingPacker` and
-- `FirstFitShufflePacker`. `random.shuffle` is an argument.
pub mod Remaining
pub mod Correct
use ne_mo_rl_enhanced_math_r.Common.{
  ℕ, zero, suc, ◌-◌, true, List, [], ◌∷◌, ◌++◌, Option, none, some, ltb, leb, if◌then◌else◌, Result,
  ok, raise_if, ◌>>=◌, ◌>>◌, modify, sort_by, enumerate,
}
use mathlib.Core.Option
use ne_mo_rl_enhanced_math_r.Packing.Base.{Error, exceeds_capacity, ge_pair}
use ne_mo_rl_enhanced_math_r.Packing.Bins.{append_to}

pub record State : Type 0 where
  pub bins : List (List ℕ)
  pub bin_remaining : List ℕ

abbrev pub no_bins : State
no_bins = record { bins = []; bin_remaining = [] }

-- The first bin whose remaining capacity is at least `length`.
unfoldable pub find_bin : ℕ → List ℕ → Option ℕ
find_bin length [] = none
find_bin length (remaining ∷ rest) =
    if leb length remaining then some 0 else Option.map suc (find_bin length rest)

-- The body of the loop, after the check of the length.
unfoldable pub place : ℕ → State → ℕ × ℕ → State
place capacity s (length, idx) = elim (find_bin length s.bin_remaining) [
  | some i ↦ record {
    bins = append_to i idx s.bins;
    bin_remaining = modify i (λ r. r - length) s.bin_remaining;
  }
  | none ↦ record {
    bins = s.bins ++ (idx ∷ []) ∷ [];
    bin_remaining = s.bin_remaining ++ (capacity - length) ∷ [];
  }
]

unfoldable pub place_all : ℕ → State → List (ℕ × ℕ) → Result Error State
place_all capacity s [] = ok s
place_all capacity s ((length, idx) ∷ rest) = do
  raise_if (ltb capacity length) (exceeds_capacity length capacity)
  place_all capacity (place capacity s (length, idx)) rest

-- `prepare` is `_prepare_sequences`, which each subclass defines.
unfoldable pub first_fit : (List ℕ → List (ℕ × ℕ)) → ℕ → List ℕ → Result Error (List (List ℕ))
first_fit prepare capacity lengths = do s ← place_all capacity no_bins (prepare lengths); ok s.bins

unfoldable pub prepare_decreasing : List ℕ → List (ℕ × ℕ)
prepare_decreasing lengths = sort_by ge_pair (enumerate lengths)

unfoldable pub prepare_shuffle : (List (ℕ × ℕ) → List (ℕ × ℕ)) → List ℕ → List (ℕ × ℕ)
prepare_shuffle shuffle lengths = shuffle (enumerate lengths)
