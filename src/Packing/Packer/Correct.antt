-- ===== src/Packing/Packer/Correct.antt =====
-- What `pack` promises, for every algorithm.
use mathlib.Core.List.{Mem, mem-cons, not-mem-nil}
use mathlib.Core.HLevel.{⊥_prop}
use mathlib.Core.Logic.Or
use ne_mo_rl_enhanced_math_r.Common.{
  ℕ, ◌≤◌, ◌<◌, ◌≡◌, List, [], ◌∷◌, Option, none, some, arith, ok, raise, >>=-eq-ok, length,
  enumerate, sort_by-perm, Perm, inl, inr, length, ◌⊎◌, Bool, subst, All, zero, suc, get_or,
}
use ne_mo_rl_enhanced_math_r.Common.Int.{ℤ, pos, negsuc}
use ne_mo_rl_enhanced_math_r.Packing.Base.{too_few_sequences, IsPacking, ge_pair}
use ne_mo_rl_enhanced_math_r.Packing.FirstFit.{prepare_decreasing, prepare_shuffle}
use ne_mo_rl_enhanced_math_r.Packing.FirstFit.Correct.{first_fit-IsPacking}
use ne_mo_rl_enhanced_math_r.Packing.Concat.Correct.{concatenative-IsPacking}
use ne_mo_rl_enhanced_math_r.Packing.Mffd.Correct.{modified_first_fit_decreasing-IsPacking}
use ne_mo_rl_enhanced_math_r.Packing.Adjust.{adjust_bin_count, target_bin_count}
use ne_mo_rl_enhanced_math_r.Packing.Adjust.Target.{Meets, IsPositive, target_bin_count_least}
use ne_mo_rl_enhanced_math_r.Packing.Adjust.Correct.{adjust_bin_count-IsPacking}
use ne_mo_rl_enhanced_math_r.Packing.Packer.{
  PackingAlgorithm, concatenative_packing, first_fit_decreasing, first_fit_shuffle, mffd, Packer,
  init, Shuffle, pack_implementation, record_metrics, pack, check_min, check_multiple,
}

-- `random.shuffle` only changes the order.
abbrev pub Shuffles : Shuffle → Type 0
Shuffles shuffle = (items : List (ℕ × ℕ)) → Perm (shuffle items) items

-- Each algorithm, where it returns, returns a packing.
pub pack_implementation-IsPacking :
    (shuffle : Shuffle) (algorithm : PackingAlgorithm) (capacity : ℕ) (lengths : List ℕ)
    (bins : List (List ℕ))
    → Shuffles shuffle
    → pack_implementation shuffle algorithm capacity lengths ≡ ok bins
    → IsPacking capacity lengths bins
unfolding pack_implementation prepare_decreasing prepare_shuffle
pack_implementation-IsPacking shuffle concatenative_packing capacity lengths bins h e =
    elim (concatenative-IsPacking none capacity lengths) [
      | inl (found, f, _, p) ↦ let same : found ≡ bins = cc in rw same at p
      | inr (i, f, _) ↦ cc
    ]
pack_implementation-IsPacking shuffle first_fit_decreasing capacity lengths bins h e =
    elim (first_fit-IsPacking prepare_decreasing capacity lengths
      (sort_by-perm ge_pair (enumerate lengths))) [
        | inl (found, f, p, _) ↦ let same : found ≡ bins = cc in rw same at p
        | inr (i, f, _) ↦ cc
      ]
pack_implementation-IsPacking shuffle first_fit_shuffle capacity lengths bins h e =
    elim (first_fit-IsPacking (prepare_shuffle shuffle) capacity lengths (h (enumerate lengths))) [
      | inl (found, f, p, _) ↦ let same : found ≡ bins = cc in rw same at p
      | inr (i, f, _) ↦ cc
    ]
pack_implementation-IsPacking shuffle mffd capacity lengths bins h e =
    elim (modified_first_fit_decreasing-IsPacking capacity lengths) [
      | inl (found, f, p) ↦ let same : found ≡ bins = cc in rw same at p
      | inr (inl (_, f)) ↦ cc
      | inr (inr (inl (_, f))) ↦ cc
      | inr (inr (inr (i, f, _, _))) ↦ cc
    ]

adjusted-IsPacking :
    (least multiple : Option ℕ) (capacity : ℕ) (lengths : List ℕ) (bins r : List (List ℕ))
    → IsPositive multiple
    → IsPacking capacity lengths bins
    → adjust_bin_count least multiple bins ≡ ok r
    → IsPacking capacity lengths r × Meets least multiple (length r)
adjusted-IsPacking least multiple capacity lengths bins r positive p e =
    elim (adjust_bin_count-IsPacking least multiple capacity lengths bins positive p) [
      | inl (found, f, n, q) ↦
          let same : found ≡ r = cc in
          let (_, meets, _) = target_bin_count_least least multiple (length bins) positive in
          let m : Meets least multiple (length found) = rw n meets in (rw same at q, rw same at m)
      | inr (_, f) ↦ cc
    ]

-- Whatever the algorithm and the settings, what `pack` returns is a packing whose number of bins is
-- at least `min_bin_count` and a multiple of `bin_count_multiple`.
pub pack-IsPacking :
    (shuffle : Shuffle) (p p' : Packer) (lengths : List ℕ) (bins : List (List ℕ))
    → Shuffles shuffle
    → IsPositive p.bin_count_multiple
    → pack shuffle p lengths ≡ ok (bins, p')
    → IsPacking p.bin_capacity lengths bins
      × Meets p.min_bin_count p.bin_count_multiple (length bins)
unfolding pack
pack-IsPacking shuffle p p' lengths bins h positive e =
    let (packed, f, e₂) =
      >>=-eq-ok (pack_implementation shuffle p.algorithm p.bin_capacity lengths) _ e in
    let (adjusted, g, e₃) =
      >>=-eq-ok (adjust_bin_count p.min_bin_count p.bin_count_multiple packed) _ e₂ in
    let (m, k, e₄) = >>=-eq-ok (record_metrics p.metrics lengths adjusted p.bin_capacity) _ e₃ in
    let same : adjusted ≡ bins = ground (arith, e₄) in
    let q =
      adjusted-IsPacking p.min_bin_count p.bin_count_multiple p.bin_capacity lengths packed adjusted
        positive
        (pack_implementation-IsPacking shuffle p.algorithm p.bin_capacity lengths packed h f) g in
    rw same at q

-- A packer that `__init__` accepts has a positive multiple.
pub init-IsPositive :
    (algorithm : PackingAlgorithm) (capacity : ℕ) (collect : Bool) (least multiple : Option ℤ)
    {p : Packer}
    → init algorithm capacity collect least multiple ≡ ok p
    → IsPositive p.bin_count_multiple
unfolding init
init-IsPositive algorithm capacity collect least multiple e =
    let (l, _, e₂) = >>=-eq-ok (check_min least) _ e in
    let (m, f, e₃) = >>=-eq-ok (check_multiple multiple) _ e₂ in
    subst IsPositive (ground (arith, e₃)) (checked multiple m f)
  where
    checked : (multiple : Option ℤ) (m : Option ℕ) → check_multiple multiple ≡ ok m → IsPositive m
    checked none none f = tt
    checked none (some n) f = cc
    checked (some (pos k)) none f = ground (arith, f)
    checked (some (pos k)) (some n) f = ground (arith, f)
    checked (some (negsuc k)) m f = cc

within :
    (capacity i : ℕ) (lengths : List ℕ)
    → All (λ l. l ≤ capacity) lengths
    → get_or lengths i 0 ≤ capacity
within capacity i [] h = omega arith
within capacity zero (l ∷ ls) h = h.0
within capacity (suc i) (l ∷ ls) h = within capacity i ls h.1

no_zero : (lengths : List ℕ) → All (λ l. 0 < l) lengths → ¬ Mem 0 lengths
no_zero [] h m = not-mem-nil m
no_zero (l ∷ ls) h m = Or.elim ⊥_prop (mem-cons.0 m) (λ e. omega arith) (no_zero ls h.1)

pub implementation_total :
    (shuffle : Shuffle) (algorithm : PackingAlgorithm) (capacity : ℕ) (lengths : List ℕ)
    → Shuffles shuffle
    → 0 < capacity
    → All (λ l. 0 < l) lengths
    → All (λ l. l ≤ capacity) lengths
    → (bins : List (List ℕ)) × (pack_implementation shuffle algorithm capacity lengths ≡ ok bins)
unfolding pack_implementation prepare_decreasing prepare_shuffle
implementation_total shuffle concatenative_packing capacity lengths h c positive small =
    elim (concatenative-IsPacking none capacity lengths) [
      | inl (bins, e, _, _) ↦ (bins, e)
      | inr (i, e, l) ↦ absurd (omega (arith, within capacity i lengths small))
    ]
implementation_total shuffle first_fit_decreasing capacity lengths h c positive small =
    elim (first_fit-IsPacking prepare_decreasing capacity lengths
      (sort_by-perm ge_pair (enumerate lengths))) [
        | inl (bins, e, _, _) ↦ (bins, e)
        | inr (i, e, l) ↦ absurd (omega (arith, within capacity i lengths small))
      ]
implementation_total shuffle first_fit_shuffle capacity lengths h c positive small =
    elim (first_fit-IsPacking (prepare_shuffle shuffle) capacity lengths (h (enumerate lengths))) [
      | inl (bins, e, _, _) ↦ (bins, e)
      | inr (i, e, l) ↦ absurd (omega (arith, within capacity i lengths small))
    ]
implementation_total shuffle mffd capacity lengths h c positive small =
    elim (modified_first_fit_decreasing-IsPacking capacity lengths) [
      | inl (bins, e, _) ↦ (bins, e)
      | inr (inl (z, _)) ↦ absurd (omega arith)
      | inr (inr (inl (m, _))) ↦ absurd (no_zero lengths positive m)
      | inr (inr (inr (i, e, l, _))) ↦ absurd (omega (arith, within capacity i lengths small))
    ]

-- On positive lengths that fit, a packer without a tracker returns bins, for every algorithm, unless
-- the settings ask for more bins than there are sequences.
pub pack_total :
    (shuffle : Shuffle) (p : Packer) (lengths : List ℕ)
    → Shuffles shuffle
    → IsPositive p.bin_count_multiple
    → p.metrics ≡ none
    → 0 < p.bin_capacity
    → All (λ l. 0 < l) lengths
    → All (λ l. l ≤ p.bin_capacity) lengths
    → ((bins : List (List ℕ)) × (p' : Packer) × (pack shuffle p lengths ≡ ok (bins, p')))
      ⊎ ((target : ℕ) × (length lengths < target)
          × (pack shuffle p lengths ≡ raise (too_few_sequences target (length lengths))))
unfolding pack
pack_total shuffle p lengths h positive m c pos_lengths small =
    let (bins, e) =
      implementation_total shuffle p.algorithm p.bin_capacity lengths h c pos_lengths small in
    let q = pack_implementation-IsPacking shuffle p.algorithm p.bin_capacity lengths bins h e in
    elim (adjust_bin_count-IsPacking p.min_bin_count p.bin_count_multiple p.bin_capacity lengths
      bins positive q) [
        | inl (r, f, _, _) ↦ inl (r, record p { metrics = none }, rw (e, f, m, record_metrics))
        | inr (few, f) ↦
            inr
              (target_bin_count p.min_bin_count p.bin_count_multiple (length bins), few, rw (e, f))
      ]
