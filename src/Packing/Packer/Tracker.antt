-- ===== src/Packing/Packer/Tracker.antt =====
-- The metrics of a packer stay in agreement with one another.
use mathlib.Core.List.Perm
use ne_mo_rl_enhanced_math_r.Common.{
  ℕ, ◌≡◌, refl, ap, List, [], ◌∷◌, Option, none, some, arith, ok, >>=-eq-ok, length, sum, flatten,
  subst, range, sym, Perm, ◌∙◌,
}
use ne_mo_rl_enhanced_math_r.Packing.Base.{IsPacking}
use ne_mo_rl_enhanced_math_r.Packing.Metrics.{PackingMetrics, update}
use ne_mo_rl_enhanced_math_r.Packing.Metrics.Totals.{Agrees, update-Agrees}
use ne_mo_rl_enhanced_math_r.Packing.Adjust.{adjust_bin_count}
use ne_mo_rl_enhanced_math_r.Packing.Adjust.Target.{IsPositive}
use ne_mo_rl_enhanced_math_r.Packing.Packer.{
  Packer, Shuffle, pack_implementation, record_metrics, pack,
}
use ne_mo_rl_enhanced_math_r.Packing.Packer.Correct.{Shuffles, pack-IsPacking}

-- A tracker, if there is one, has totals that agree.
abbrev pub TracksWell : Option PackingMetrics → Type 0
TracksWell none = Unit {0}
TracksWell (some m) = Agrees m

no_bins :
    (capacity : ℕ) (lengths : List ℕ) (bins : List (List ℕ))
    → IsPacking capacity lengths bins
    → bins ≡ []
    → sum lengths ≡ 0
unfolding flatten
no_bins capacity [] bins p e = refl
no_bins capacity (l ∷ ls) bins p e =
    let empty : flatten bins ≡ [] = ap flatten e in
    let q : [] ≡ range (length (l ∷ ls)) =
      Perm.nil-eq (subst (λ t. Perm t (range (length (l ∷ ls)))) empty p.complete) in
    cc

record_metrics-TracksWell :
    (m m' : Option PackingMetrics) (lengths : List ℕ) (bins : List (List ℕ)) (capacity : ℕ)
    → (bins ≡ [] → sum lengths ≡ 0)
    → TracksWell m
    → record_metrics m lengths bins capacity ≡ ok m'
    → TracksWell m'
record_metrics-TracksWell none m' lengths bins capacity h v e =
    let same : none ≡ m' = ground (arith, e) in subst TracksWell same tt
record_metrics-TracksWell (some m) m' lengths bins capacity h v e =
    let ((stats, after), f, g) = >>=-eq-ok (update m lengths bins capacity none) _ e in
    let same : some after ≡ m' = ground (arith, g) in
    subst TracksWell same (update-Agrees m lengths bins capacity none h v f)

-- After any call of `pack` the tracked totals agree: waste and used length make up the capacity, and
-- the bins are those counted call by call.
pub pack-TracksWell :
    (shuffle : Shuffle) (p p' : Packer) (lengths : List ℕ) (bins : List (List ℕ))
    → Shuffles shuffle
    → IsPositive p.bin_count_multiple
    → TracksWell p.metrics
    → pack shuffle p lengths ≡ ok (bins, p')
    → TracksWell p'.metrics
unfolding pack
pack-TracksWell shuffle p p' lengths bins h positive v e =
    let q = (pack-IsPacking shuffle p p' lengths bins h positive e).0 in
    let (packed, f, e₂) =
      >>=-eq-ok (pack_implementation shuffle p.algorithm p.bin_capacity lengths) _ e in
    let (adjusted, g, e₃) =
      >>=-eq-ok (adjust_bin_count p.min_bin_count p.bin_count_multiple packed) _ e₂ in
    let (m, k, e₄) = >>=-eq-ok (record_metrics p.metrics lengths adjusted p.bin_capacity) _ e₃ in
    let same : adjusted ≡ bins = ground (arith, e₄) in
    let tracker : m ≡ p'.metrics = ground (arith, e₄) in
    subst TracksWell tracker (
      record_metrics-TracksWell p.metrics m lengths adjusted p.bin_capacity
        (λ empty. no_bins p.bin_capacity lengths bins q (sym same ∙ empty)) v k)
