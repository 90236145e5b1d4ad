-- ===== src/Packing/Concat.antt =====
-- nemo_rl/data/packing/algorithms.py: `ConcatenativePacker`.
pub mod Correct
use ne_mo_rl_enhanced_math_r.Common.{
  ℕ, ◌+◌, Bool, true, false, ◌&&◌, ◌||◌, List, [], ◌∷◌, ◌++◌, Option, none, some, ltb, leb,
  if◌then◌else◌, Result, ok, raise, ◌>>=◌, ◌>>◌, length, enumerate,
}
use ne_mo_rl_enhanced_math_r.Packing.Base.{Error, validate_sequence_lengths}

pub record State : Type 0 where
  pub bins : List (List ℕ)
  pub current_bin : List ℕ
  pub current_length : ℕ

abbrev pub start : State
start = record { bins = []; current_bin = []; current_length = 0 }

-- `if current_bin: bins.append(current_bin)`.
abbrev pub close_bin : List (List ℕ) → List ℕ → List (List ℕ)
close_bin bins [] = bins
close_bin bins (i ∷ current) = bins ++ (i ∷ current) ∷ []

-- `max_sequences_per_bin`, where -1 is `none`.
abbrev pub exceeds_sequence_limit : Option ℕ → List ℕ → Bool
exceeds_sequence_limit none current = false
exceeds_sequence_limit (some limit) current = leb limit (length current)

-- The body of the loop.
unfoldable pub add_sequence : Option ℕ → ℕ → State → ℕ × ℕ → State
add_sequence limit capacity s (l, i) =
    if ltb capacity (s.current_length + l) || exceeds_sequence_limit limit s.current_bin
    then record { bins = close_bin s.bins s.current_bin; current_bin = i ∷ []; current_length = l }
    else record s { current_bin = s.current_bin ++ i ∷ []; current_length = s.current_length + l }

unfoldable pub add_all : Option ℕ → ℕ → State → List (ℕ × ℕ) → State
add_all limit capacity s [] = s
add_all limit capacity s (item ∷ rest) =
    add_all limit capacity (add_sequence limit capacity s item) rest

unfoldable pub concatenative : Option ℕ → ℕ → List ℕ → Result Error (List (List ℕ))
concatenative limit capacity lengths = do
  validate_sequence_lengths capacity lengths
  let s = add_all limit capacity start (enumerate lengths)
  ok (close_bin s.bins s.current_bin)
