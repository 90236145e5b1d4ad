-- ===== src/Packing/Metrics/Totals.antt =====
-- The totals of the metrics agree with one another.
use ne_mo_rl_enhanced_math_r.Common.{
  ℕ, ◌+◌, ◌*◌, ◌≡◌, refl, List, [], ◌∷◌, Option, arith, ok, >>=-eq-ok, length, length-append, sum,
  sum-append,
}
use ne_mo_rl_enhanced_math_r.Common.Int.{pos_part, neg_part, +ℤ_parts, sub_ℕ_parts}
use ne_mo_rl_enhanced_math_r.Packing.Metrics.{
  Ratio, Stats, bin_loads, calculate_stats_only, PackingMetrics, reset, update,
}

-- The totals of the metrics agree with one another.
pub record Agrees (m : PackingMetrics) : Type 0 where
  pub wasted :
      pos_part m.total_waste + m.total_sequence_length
      ≡ neg_part m.total_waste + m.total_bin_capacity
  pub counted : m.total_bins ≡ sum m.bin_counts
  pub recorded : length m.bin_utilizations ≡ length m.bin_counts

pub reset-Agrees : Agrees reset
unfolding reset
reset-Agrees = record { wasted = refl; counted = refl; recorded = refl }

stats-waste :
    (lengths : List ℕ) (bins : List (List ℕ)) (bin_capacity : ℕ) {stats : Stats}
    → (bins ≡ [] → sum lengths ≡ 0)
    → calculate_stats_only lengths bins bin_capacity ≡ ok stats
    → pos_part stats.waste + sum lengths ≡ neg_part stats.waste + length bins * bin_capacity
unfolding calculate_stats_only
stats-waste lengths [] bin_capacity h e = ground (arith, e, h refl)
stats-waste lengths (b ∷ bs) bin_capacity {stats} h e =
    let capacity = length (b ∷ bs) * bin_capacity in
    let (loads, _, e') = >>=-eq-ok (bin_loads lengths (b ∷ bs)) _ e in
    ground (arith, e', sub_ℕ_parts capacity (sum lengths))

-- An update keeps the totals in agreement: what is wasted and what is used make up the capacity.
pub update-Agrees :
    (m : PackingMetrics) (lengths : List ℕ) (bins : List (List ℕ)) (bin_capacity : ℕ)
    (time : Option Ratio) {stats : Stats} {m' : PackingMetrics}
    → (bins ≡ [] → sum lengths ≡ 0)
    → Agrees m
    → update m lengths bins bin_capacity time ≡ ok (stats, m')
    → Agrees m'
unfolding update
update-Agrees m lengths bins bin_capacity time h v e =
    let (s, e', f) = >>=-eq-ok (calculate_stats_only lengths bins bin_capacity) _ e in
    let w = stats-waste lengths bins bin_capacity h e' in
    record {
      wasted = ground (arith, f, w, +ℤ_parts m.total_waste s.waste, v.wasted);
      counted = ground (arith, f, sum-append m.bin_counts (length bins ∷ []), v.counted);
      recorded = ground (
        arith,
        f,
        length-append m.bin_utilizations (s.average_utilization ∷ []),
        length-append m.bin_counts (length bins ∷ []),
        v.recorded,
      );
    }
