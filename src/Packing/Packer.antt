-- ===== src/Packing/Packer.antt =====
-- nemo_rl/data/packing/algorithms.py: `SequencePacker.__init__`, `pack` and `get_packer`. An
-- instance is a record with its class as a tag; `random.shuffle` is an argument of `pack`.
pub mod Correct
pub mod Tracker
pub mod Enough
use ne_mo_rl_enhanced_math_r.Common.{
  ℕ, Bool, true, false, List, [], ◌∷◌, Option, none, some, ltb, if◌then◌else◌, Result, ok, raise,
  raise_if, ◌>>=◌, ◌>>◌,
}
use ne_mo_rl_enhanced_math_r.Common.Int.{ℤ, pos, negsuc, ltb_ℤ}
use Prim.Native.String.{String}
use text.Mathlib.Text.{◌==◌ as str_eq}
use ne_mo_rl_enhanced_math_r.Packing.Base.{
  Error, negative_min_bin_count, nonpositive_bin_count_multiple, unknown_algorithm,
}
use ne_mo_rl_enhanced_math_r.Packing.FirstFit.{first_fit, prepare_decreasing, prepare_shuffle}
use ne_mo_rl_enhanced_math_r.Packing.Concat.{concatenative}
use ne_mo_rl_enhanced_math_r.Packing.Mffd.{modified_first_fit_decreasing}
use ne_mo_rl_enhanced_math_r.Packing.Adjust.{adjust_bin_count}
use ne_mo_rl_enhanced_math_r.Packing.Metrics.{
  PackingMetrics, Stats, reset, update, calculate_stats_only,
}

pub data PackingAlgorithm : Type 0 where
  concatenative_packing first_fit_decreasing first_fit_shuffle mffd : PackingAlgorithm

pub record Packer : Type 0 where
  pub algorithm : PackingAlgorithm
  pub bin_capacity : ℕ
  pub min_bin_count : Option ℕ
  pub bin_count_multiple : Option ℕ
  pub metrics : Option PackingMetrics

-- `min_bin_count < 0` raises.
abbrev pub check_min : Option ℤ → Result Error (Option ℕ)
check_min none = ok none
check_min (some (pos n)) = ok (some n)
check_min (some (negsuc n)) = raise negative_min_bin_count

-- `bin_count_multiple < 1` raises.
abbrev pub check_multiple : Option ℤ → Result Error (Option ℕ)
check_multiple none = ok none
check_multiple (some (pos n)) =
    if ltb n 1 then raise nonpositive_bin_count_multiple else ok (some n)
check_multiple (some (negsuc n)) = raise nonpositive_bin_count_multiple

-- `SequencePacker.__init__`.
unfoldable pub init : PackingAlgorithm → ℕ → Bool → Option ℤ → Option ℤ → Result Error Packer
init algorithm bin_capacity collect_metrics min_bin_count bin_count_multiple = do
  least ← check_min min_bin_count
  multiple ← check_multiple bin_count_multiple
  ok (record {
    algorithm = algorithm;
    bin_capacity = bin_capacity;
    min_bin_count = least;
    bin_count_multiple = multiple;
    metrics = if collect_metrics then some reset else none;
  })

-- `PackingAlgorithm[name]`, after `name.upper()`.
unfoldable pub algorithm_named : String → Option PackingAlgorithm
algorithm_named name =
    if str_eq name "CONCATENATIVE"
    then some concatenative_packing
    else if str_eq name "FIRST_FIT_DECREASING"
    then some first_fit_decreasing
    else if str_eq name "FIRST_FIT_SHUFFLE"
    then some first_fit_shuffle
    else if str_eq name "MODIFIED_FIRST_FIT_DECREASING"
    then some mffd
    else none

-- The factory, for the name in upper case.
unfoldable pub get_packer : String → ℕ → Bool → Option ℤ → Option ℤ → Result Error Packer
get_packer name bin_capacity collect_metrics min_bin_count bin_count_multiple =
    elim (algorithm_named name) [
      | none ↦ raise unknown_algorithm
      | some algorithm ↦
          init algorithm bin_capacity collect_metrics min_bin_count bin_count_multiple
    ]

abbrev pub Shuffle : Type 0
Shuffle = List (ℕ × ℕ) → List (ℕ × ℕ)

-- `_pack_implementation` of the four classes. `max_sequences_per_bin` is left at -1.
unfoldable pub pack_implementation :
    Shuffle → PackingAlgorithm → ℕ → List ℕ → Result Error (List (List ℕ))
pack_implementation shuffle concatenative_packing capacity lengths =
    concatenative none capacity lengths
pack_implementation shuffle first_fit_decreasing capacity lengths =
    first_fit prepare_decreasing capacity lengths
pack_implementation shuffle first_fit_shuffle capacity lengths =
    first_fit (prepare_shuffle shuffle) capacity lengths
pack_implementation shuffle mffd capacity lengths = modified_first_fit_decreasing capacity lengths

-- `if self.collect_metrics and self.metrics: self.metrics.update(...)`.
abbrev pub record_metrics :
    Option PackingMetrics → List ℕ → List (List ℕ) → ℕ → Result Error (Option PackingMetrics)
record_metrics none lengths bins capacity = ok none
record_metrics (some m) lengths bins capacity = do
  after ← update m lengths bins capacity none
  ok (some after.1)

unfoldable pub pack : Shuffle → Packer → List ℕ → Result Error (List (List ℕ) × Packer)
pack shuffle p lengths = do
  bins ← pack_implementation shuffle p.algorithm p.bin_capacity lengths
  adjusted ← adjust_bin_count p.min_bin_count p.bin_count_multiple bins
  metrics ← record_metrics p.metrics lengths adjusted p.bin_capacity
  ok (adjusted, record p { metrics = metrics })

abbrev pub reset_some : Option PackingMetrics → Option PackingMetrics
reset_some none = none
reset_some (some m) = some reset

unfoldable pub reset_metrics : Packer → Packer
reset_metrics p = record p { metrics = reset_some p.metrics }

-- The result does not depend on whether a tracker is there.
unfoldable pub compute_metrics : Packer → List ℕ → List (List ℕ) → Result Error Stats
compute_metrics p lengths bins = calculate_stats_only lengths bins p.bin_capacity
