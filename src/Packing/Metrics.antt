-- ===== src/Packing/Metrics.antt =====
-- nemo_rl/data/packing/metrics.py: `PackingMetrics`. A float that is a quotient of two integers is
-- a `Ratio`; the standard deviation in `bin_balance` is left out, but not the division beside it.
pub mod Totals
use ne_mo_rl_enhanced_math_r.Common.{
  ℕ, zero, suc, ◌+◌, ◌-◌, ◌*◌, ◌/◌, Bool, true, false, ◌&&◌, List, [], ◌∷◌, ◌++◌, Option, none,
  some, ltb, leb, ◌==◌, if◌then◌else◌, Result, ok, raise, raise_if, ◌>>=◌, ◌>>◌, length, get_elem?,
  sum,
}
use ne_mo_rl_enhanced_math_r.Common.Int.{ℤ, pos, sub_ℕ, ◌+ℤ◌, scale, ltb_ℤ}
use ne_mo_rl_enhanced_math_r.Packing.Base.{Error, index_error, zero_division}

pub record Ratio : Type 0 where
  pub num : ℤ
  pub den : ℕ

-- `a < b`, for positive denominators.
unfoldable pub ratio_lt : Ratio → Ratio → Bool
unfolding scale
ratio_lt a b = ltb_ℤ (scale a.num b.den) (scale b.num a.den)

unfoldable pub ratio_min : Ratio → Ratio → Ratio
unfolding ratio_lt
ratio_min a b = if ratio_lt b a then b else a

unfoldable pub ratio_max : Ratio → Ratio → Ratio
unfolding ratio_lt
ratio_max a b = if ratio_lt a b then b else a

abbrev pub ratio_zero : Ratio
ratio_zero = record { num = pos 0; den = 1 }

abbrev pub ratio_one : Ratio
ratio_one = record { num = pos 1; den = 1 }

-- `math.ceil(a / b)`, for a positive `b`.
abbrev pub ceil_div : ℕ → ℕ → ℕ
ceil_div a b = (a + (b - 1)) / b

pub record Stats : Type 0 where
  pub num_sequences : ℕ
  pub num_bins : ℕ
  pub sequence_length : ℕ
  pub capacity : ℕ
  pub waste : ℤ
  pub average_utilization : Ratio
  pub waste_ratio : Ratio
  pub theoretical_min_bins : ℕ
  pub bin_efficiency : Ratio

abbrev pub no_stats : Stats
no_stats = record {
  num_sequences = 0;
  num_bins = 0;
  sequence_length = 0;
  capacity = 0;
  waste = pos 0;
  average_utilization = ratio_zero;
  waste_ratio = ratio_zero;
  theoretical_min_bins = 0;
  bin_efficiency = ratio_zero;
}

abbrev pub length_at : List ℕ → ℕ → Result Error ℕ
length_at lengths i = elim (get_elem? lengths i) [ some l ↦ ok l | none ↦ raise index_error ]

unfoldable pub bin_load : List ℕ → List ℕ → Result Error ℕ
bin_load lengths [] = ok 0
bin_load lengths (i ∷ rest) = do
  l ← length_at lengths i
  total ← bin_load lengths rest
  ok (l + total)

unfoldable pub bin_loads : List ℕ → List (List ℕ) → Result Error (List ℕ)
bin_loads lengths [] = ok []
bin_loads lengths (b ∷ bs) = do l ← bin_load lengths b; ls ← bin_loads lengths bs; ok (l ∷ ls)

unfoldable pub calculate_stats_only : List ℕ → List (List ℕ) → ℕ → Result Error Stats
calculate_stats_only lengths [] bin_capacity = ok no_stats
calculate_stats_only lengths (b ∷ bs) bin_capacity = do
  loads ← bin_loads lengths (b ∷ bs)
  let bins = length (b ∷ bs)
  let used = sum lengths
  let capacity = bins * bin_capacity
  raise_if (bin_capacity == 0) zero_division
  raise_if (ltb 1 bins && (used == 0)) zero_division
  ok (record {
    num_sequences = length lengths;
    num_bins = bins;
    sequence_length = used;
    capacity = capacity;
    waste = sub_ℕ capacity used;
    average_utilization = record { num = pos used; den = capacity };
    waste_ratio = record { num = sub_ℕ capacity used; den = capacity };
    theoretical_min_bins = ceil_div used bin_capacity;
    bin_efficiency = record { num = pos (ceil_div used bin_capacity); den = bins };
  })

pub record PackingMetrics : Type 0 where
  pub total_sequences : ℕ
  pub total_bins : ℕ
  pub total_sequence_length : ℕ
  pub total_bin_capacity : ℕ
  pub total_waste : ℤ
  pub bin_utilizations : List Ratio
  pub bin_counts : List ℕ
  pub packing_times : List Ratio
  pub min_utilization : Ratio
  pub max_utilization : Ratio
  pub min_waste_ratio : Ratio
  pub max_waste_ratio : Ratio

-- `reset`, which `__init__` calls.
unfoldable pub reset : PackingMetrics
reset = record {
  total_sequences = 0;
  total_bins = 0;
  total_sequence_length = 0;
  total_bin_capacity = 0;
  total_waste = pos 0;
  bin_utilizations = [];
  bin_counts = [];
  packing_times = [];
  min_utilization = ratio_one;
  max_utilization = ratio_zero;
  min_waste_ratio = ratio_one;
  max_waste_ratio = ratio_zero;
}

abbrev pub append_time : List Ratio → Option Ratio → List Ratio
append_time times none = times
append_time times (some t) = times ++ t ∷ []

unfoldable pub update :
    PackingMetrics
    → List ℕ
    → List (List ℕ)
    → ℕ
    → Option Ratio
    → Result Error (Stats × PackingMetrics)
update m lengths bins bin_capacity packing_time = do
  stats ← calculate_stats_only lengths bins bin_capacity
  ok (
    stats,
    record {
      total_sequences = m.total_sequences + length lengths;
      total_bins = m.total_bins + length bins;
      total_sequence_length = m.total_sequence_length + sum lengths;
      total_bin_capacity = m.total_bin_capacity + length bins * bin_capacity;
      total_waste = m.total_waste +ℤ stats.waste;
      bin_utilizations = m.bin_utilizations ++ stats.average_utilization ∷ [];
      bin_counts = m.bin_counts ++ length bins ∷ [];
      packing_times = append_time m.packing_times packing_time;
      min_utilization = ratio_min m.min_utilization stats.average_utilization;
      max_utilization = ratio_max m.max_utilization stats.average_utilization;
      min_waste_ratio = ratio_min m.min_waste_ratio stats.waste_ratio;
      max_waste_ratio = ratio_max m.max_waste_ratio stats.waste_ratio;
    },
  )
