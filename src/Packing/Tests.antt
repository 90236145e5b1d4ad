-- ===== src/Packing/Tests.antt =====
-- Runs of the packers on small inputs, and each theorem at a concrete input.
use mathlib.Core.List.Perm
use mathlib.Core.List.{Mem}
use ne_mo_rl_enhanced_math_r.Common.{
  All, take, ℕ, ◌≤◌, ◌<◌, ◌*◌, ◌≡◌, refl, List, [], ◌∷◌, none, some, arith, ok, raise, ◌⊎◌, flatten,
  range, length, get_or, sort_by-perm, enumerate,
}
use ne_mo_rl_enhanced_math_r.Packing.Base.{
  exceeds_capacity, nonpositive_capacity, nonpositive_length, too_few_sequences, IsPacking, ge_pair,
}
use ne_mo_rl_enhanced_math_r.Packing.Bins.{Adjacent}
use ne_mo_rl_enhanced_math_r.Packing.FirstFit.{
  first_fit, prepare_decreasing, find_bin, place, place_all,
}
use ne_mo_rl_enhanced_math_r.Packing.FirstFit.Correct.{
  first_fit-IsPacking, first_fit_decreasing-le_twice,
}
use ne_mo_rl_enhanced_math_r.Packing.Concat.{concatenative, add_sequence, add_all}
use ne_mo_rl_enhanced_math_r.Packing.Concat.Correct.{concatenative-IsPacking}
use ne_mo_rl_enhanced_math_r.Packing.Base.{validate_sequence_lengths}
use ne_mo_rl_enhanced_math_r.Packing.Adjust.{
  adjust_bin_count, target_bin_count, find_source, move_sequence, fill_new_bins, bin_sizes,
}
use ne_mo_rl_enhanced_math_r.Packing.Adjust.Target.{Meets, target_bin_count_least}
use ne_mo_rl_enhanced_math_r.Packing.Adjust.Correct.{adjust_bin_count-IsPacking}
use ne_mo_rl_enhanced_math_r.Packing.Mffd.{
  modified_first_fit_decreasing, first_phases, classify_items, classify_item, add_mediums,
  add_smalls, add_smalls_to, add_pair, has_medium, pop_first, pop_last, fill_bin, fill_bins,
  add_leftover, add_leftovers, bin_indices,
}
use ne_mo_rl_enhanced_math_r.Packing.Mffd.Correct.{modified_first_fit_decreasing-IsPacking}
use ne_mo_rl_enhanced_math_r.Packing.Metrics.{
  PackingMetrics, ratio_min, ratio_max, reset, update, calculate_stats_only, bin_load, bin_loads,
}
use ne_mo_rl_enhanced_math_r.Packing.Metrics.Totals.{reset-Agrees}
use ne_mo_rl_enhanced_math_r.Packing.Packer.Tracker.{TracksWell, pack-TracksWell}
use ne_mo_rl_enhanced_math_r.Common.Int.{pos, ◌+ℤ◌}
use ne_mo_rl_enhanced_math_r.Packing.Packer.{
  Packer, Shuffle, pack, pack_implementation, first_fit_decreasing,
}
use ne_mo_rl_enhanced_math_r.Packing.Packer.Correct.{pack-IsPacking, pack_total}

-- The example of the source's docstring.
abbrev lengths : List ℕ
lengths = 4 ∷ 1 ∷ 3 ∷ 2 ∷ 1 ∷ 3 ∷ 4 ∷ 5 ∷ []

concatenative_docstring :
    concatenative none 5 lengths
    ≡ ok ((0 ∷ 1 ∷ []) ∷ (2 ∷ 3 ∷ []) ∷ (4 ∷ 5 ∷ []) ∷ (6 ∷ []) ∷ (7 ∷ []) ∷ [])
unfolding concatenative add_sequence add_all validate_sequence_lengths
concatenative_docstring = refl

abbrev decreasing_bins : List (List ℕ)
decreasing_bins = (7 ∷ []) ∷ (6 ∷ 4 ∷ []) ∷ (0 ∷ 1 ∷ []) ∷ (5 ∷ 3 ∷ []) ∷ (2 ∷ []) ∷ []

first_fit-lengths : first_fit prepare_decreasing 5 lengths ≡ ok decreasing_bins
unfolding first_fit place_all place find_bin prepare_decreasing
first_fit-lengths = refl

mffd_run :
    modified_first_fit_decreasing 12 (7 ∷ 5 ∷ 3 ∷ 3 ∷ 2 ∷ 8 ∷ [])
    ≡ ok ((5 ∷ 2 ∷ []) ∷ (0 ∷ 1 ∷ []) ∷ (3 ∷ 4 ∷ []) ∷ [])
unfolding modified_first_fit_decreasing first_phases classify_items classify_item add_mediums
    add_smalls add_smalls_to add_pair has_medium pop_first pop_last fill_bin fill_bins add_leftover
    add_leftovers bin_indices validate_sequence_lengths
mffd_run = refl

adjust_run :
    adjust_bin_count (some 3) (some 2) ((0 ∷ 1 ∷ 2 ∷ []) ∷ (3 ∷ 4 ∷ []) ∷ [])
    ≡ ok ((0 ∷ []) ∷ (3 ∷ 4 ∷ []) ∷ (2 ∷ []) ∷ (1 ∷ []) ∷ [])
unfolding adjust_bin_count target_bin_count find_source move_sequence fill_new_bins bin_sizes
adjust_run = refl

abbrev sizes : List ℕ
sizes = 7 ∷ 5 ∷ 3 ∷ 3 ∷ 2 ∷ 8 ∷ []

unshuffled : Shuffle
unshuffled items = items

abbrev packer : Packer
packer = record {
  algorithm = first_fit_decreasing;
  bin_capacity = 5;
  min_bin_count = none;
  bin_count_multiple = some 2;
  metrics = none;
}

abbrev six_bins : List (List ℕ)
six_bins = (7 ∷ []) ∷ (6 ∷ 4 ∷ []) ∷ (0 ∷ 1 ∷ []) ∷ (5 ∷ []) ∷ (2 ∷ []) ∷ (3 ∷ []) ∷ []

first_fit-IsPacking_example :
    ((bins : List (List ℕ)) × (first_fit prepare_decreasing 5 lengths ≡ ok bins)
      × IsPacking 5 lengths bins
      × Adjacent lengths 5 bins)
    ⊎ ((i : ℕ) × (first_fit prepare_decreasing 5 lengths
          ≡ raise (exceeds_capacity (get_or lengths i 0) 5))
        × (5 < get_or lengths i 0))
unfolding prepare_decreasing
first_fit-IsPacking_example =
    first_fit-IsPacking prepare_decreasing 5 lengths (sort_by-perm ge_pair (enumerate lengths))

-- The concatenative packing of the same sequences.
abbrev other_bins : List (List ℕ)
other_bins = (0 ∷ 1 ∷ []) ∷ (2 ∷ 3 ∷ []) ∷ (4 ∷ 5 ∷ []) ∷ (6 ∷ []) ∷ (7 ∷ []) ∷ []

other_bins-IsPacking : IsPacking 5 lengths other_bins
unfolding flatten
other_bins-IsPacking = record {
  complete = Perm.rfl;
  fits = omega arith;
  filled = (λ e. cc, (λ e. cc, (λ e. cc, (λ e. cc, (λ e. cc, tt)))));
}

first_fit_decreasing-le_twice_example : length decreasing_bins ≤ 2 * length other_bins
first_fit_decreasing-le_twice_example =
    first_fit_decreasing-le_twice 5 lengths decreasing_bins other_bins first_fit-lengths
      other_bins-IsPacking

concatenative-IsPacking_example :
    ((bins : List (List ℕ)) × (concatenative (some 2) 8 lengths ≡ ok bins)
      × (flatten bins ≡ range 8)
      × IsPacking 8 lengths bins)
    ⊎ ((i : ℕ) × (concatenative (some 2) 8 lengths
          ≡ raise (exceeds_capacity (get_or lengths i 0) 8))
        × (8 < get_or lengths i 0))
concatenative-IsPacking_example = concatenative-IsPacking (some 2) 8 lengths

modified_first_fit_decreasing-IsPacking_example :
    ((bins : List (List ℕ)) × (modified_first_fit_decreasing 12 sizes ≡ ok bins)
      × IsPacking 12 sizes bins)
    ⊎ (◌≡◌ {A = ℕ} 12 0) × (modified_first_fit_decreasing 12 sizes ≡ raise nonpositive_capacity)
    ⊎ Mem 0 sizes × (modified_first_fit_decreasing 12 sizes ≡ raise nonpositive_length)
    ⊎ ((i : ℕ) × (modified_first_fit_decreasing 12 sizes
          ≡ raise (exceeds_capacity (get_or sizes i 0) 12))
        × (12 < get_or sizes i 0)
        × All (λ l. l ≤ 12) (take i sizes))
modified_first_fit_decreasing-IsPacking_example = modified_first_fit_decreasing-IsPacking 12 sizes

target_bin_count_least_example :
    (5 ≤ target_bin_count (some 3) (some 4) 5)
    × Meets (some 3) (some 4) (target_bin_count (some 3) (some 4) 5)
    × ((n : ℕ) → 5 ≤ n → Meets (some 3) (some 4) n → target_bin_count (some 3) (some 4) 5 ≤ n)
target_bin_count_least_example = target_bin_count_least (some 3) (some 4) 5 (omega arith)

adjust_bin_count-IsPacking_example :
    ((r : List (List ℕ)) × (adjust_bin_count (some 3) (some 4) other_bins ≡ ok r)
      × (length r ≡ target_bin_count (some 3) (some 4) 5)
      × IsPacking 5 lengths r)
    ⊎ ((8 < target_bin_count (some 3) (some 4) 5)
        × (adjust_bin_count (some 3) (some 4) other_bins
            ≡ raise (too_few_sequences (target_bin_count (some 3) (some 4) 5) 8)))
adjust_bin_count-IsPacking_example =
    adjust_bin_count-IsPacking (some 3) (some 4) 5 lengths other_bins (omega arith)
      other_bins-IsPacking

pack_lengths : pack unshuffled packer lengths ≡ ok (six_bins, packer)
unfolding pack pack_implementation first_fit place_all place find_bin prepare_decreasing
    adjust_bin_count target_bin_count find_source move_sequence fill_new_bins bin_sizes
pack_lengths = refl

pack-IsPacking_example : IsPacking 5 lengths six_bins × Meets none (some 2) 6
pack-IsPacking_example =
    pack-IsPacking unshuffled packer packer lengths six_bins
      (unfold unshuffled in λ items. Perm.rfl) (omega arith) pack_lengths

pack_total_example :
    ((bins : List (List ℕ)) × (p' : Packer) × (pack unshuffled packer lengths ≡ ok (bins, p')))
    ⊎ ((target : ℕ) × (8 < target)
        × (pack unshuffled packer lengths ≡ raise (too_few_sequences target 8)))
pack_total_example =
    pack_total unshuffled packer lengths (unfold unshuffled in λ items. Perm.rfl) (omega arith) refl
      (omega arith) (omega arith) (omega arith)

-- A tracked run, with the tracker before and after it.
abbrev tracked : Packer
tracked = record packer { metrics = some reset }

abbrev tracker_after : PackingMetrics
tracker_after = record {
  total_sequences = 8;
  total_bins = 6;
  total_sequence_length = 23;
  total_bin_capacity = 30;
  total_waste = pos 7;
  bin_utilizations = record { num = pos 23; den = 30 } ∷ [];
  bin_counts = 6 ∷ [];
  packing_times = [];
  min_utilization = record { num = pos 23; den = 30 };
  max_utilization = record { num = pos 23; den = 30 };
  min_waste_ratio = record { num = pos 7; den = 30 };
  max_waste_ratio = record { num = pos 7; den = 30 };
}

pack-tracked :
    pack unshuffled tracked lengths ≡ ok (six_bins, record tracked { metrics = some tracker_after })
unfolding pack_lengths reset update calculate_stats_only bin_loads bin_load ratio_min ratio_max ◌+ℤ◌
pack-tracked = refl

pack-TracksWell_example : TracksWell (some tracker_after)
pack-TracksWell_example =
    pack-TracksWell unshuffled tracked (record tracked { metrics = some tracker_after }) lengths
      six_bins (unfold unshuffled in λ items. Perm.rfl) (omega arith) reset-Agrees pack-tracked
