-- ===== src/Packing/Mffd/Correct.antt =====
-- The modified first-fit-decreasing packer makes a packing.
use mathlib.Core.List.Perm
use mathlib.Core.List.{Mem, mem-cons_self, mem-cons_of_mem}
use ne_mo_rl_enhanced_math_r.Common.{
  take, ℕ, ◌≤◌, ◌<◌, ◌≡◌, refl, ap, ◌⊎◌, inl, inr, true, false, List, [], ◌∷◌, ◌++◌, map, flatten,
  arith, ◌==◌, Bool-cases, ok, raise, get_or, sum_of, sum_of-append, All, All-append, All-split,
  All-perm, All-enumerate, enumerate, map-enumerate_from, sort_by, sort_by-perm, sum_of-perm, Same,
  Same-perm, ℕ_discrete,
}
use native.Mathlib.Nat.{ℕ_set}
use native.Mathlib.Bridge.{le_prop}
use ne_mo_rl_enhanced_math_r.Packing.Base.{
  nonpositive_capacity, nonpositive_length, exceeds_capacity, IsPacking,
}
use ne_mo_rl_enhanced_math_r.Packing.Concat.Correct.{validate_first, All-enumerate-le}
use ne_mo_rl_enhanced_math_r.Packing.Mffd.{
  Item, bin_size, ge_size, FfdBins, add_leftovers, bin_indices, any_zero, items_of, first_phases,
  modified_first_fit_decreasing,
}
use ne_mo_rl_enhanced_math_r.Packing.Mffd.Phases.{weigh}
use ne_mo_rl_enhanced_math_r.Packing.Mffd.FirstPhases.{Small, first_phases-Keeps}
use ne_mo_rl_enhanced_math_r.Packing.Mffd.Leftovers.{Sized-light, add_leftovers-Ready}
use ne_mo_rl_enhanced_math_r.Packing.Mffd.Indices.{
  Known, flatten-bin_indices, bin_indices-filled, bin_indices-fits,
}

weigh-flatten : (f : Item → ℕ) (bins : List (List Item)) → sum_of f (flatten bins) ≡ weigh f bins
unfolding flatten
weigh-flatten f [] = refl
weigh-flatten f (b ∷ bs) = omega (arith, sum_of-append f b (flatten bs), weigh-flatten f bs)

Item-discrete : Discrete Item
Item-discrete = hlevel ℕ_discrete

All-items_of :
    (P : ℕ → ℕ → Type 0) (pairs : List (ℕ × ℕ))
    → All (λ p. P p.1 p.0) pairs
    → All (λ (x : Item). P x.0 x.1) (map (λ (p : ℕ × ℕ). (p.1, p.0)) pairs)
All-items_of P [] h = tt
All-items_of P (p ∷ ps) h = (h.0, All-items_of P ps h.1)

items_of-indices :
    (pairs : List (ℕ × ℕ))
    → map (λ (x : Item). x.0) (map (λ (p : ℕ × ℕ). (p.1, p.0)) pairs) ≡ map (λ p. p.1) pairs
items_of-indices [] = refl
items_of-indices (p ∷ ps) = ap (λ t. p.1 ∷ t) (items_of-indices ps)

any_zero_cases :
    (lengths : List ℕ)
    → ((any_zero lengths ≡ true) × Mem 0 lengths)
      ⊎ ((any_zero lengths ≡ false) × All (λ l. 0 < l) lengths)
any_zero_cases [] = inr (refl, tt)
any_zero_cases (l ∷ ls) = elim (Bool-cases (l == 0)) [
  | inl e ↦
      let zero_first : 0 ≡ l = ground (arith, e) in inl (rw e, rw (← zero_first) mem-cons_self)
  | inr e ↦ elim (any_zero_cases ls) [
    | inl (f, m) ↦ inl (rw (e, f), mem-cons_of_mem l m)
    | inr (f, a) ↦ inr (rw (e, f), (ground (arith, e), a))
  ]
]

module _ (capacity : ℕ) (lengths : List ℕ) (within : All (λ l. l ≤ capacity) lengths) where
  items-Small : Small capacity (items_of lengths)
  items-Small =
      All-items_of (λ i l. l ≤ capacity) (enumerate lengths)
        (All-enumerate-le capacity 0 lengths within)

  items-Known : All (Known lengths) (items_of lengths)
  items-Known =
      All-items_of (λ i l. get_or lengths i 0 ≡ l) (enumerate lengths) (All-enumerate lengths 0)

  leftovers-Small :
      (bins : List (List Item)) (rest : List Item)
      → Same (flatten bins ++ rest) (items_of lengths)
      → Small capacity rest
  leftovers-Small bins rest same =
      (All-split (λ x. x.1 ≤ capacity) (flatten bins) rest
        (All-perm (λ x. x.1 ≤ capacity) (λ x. le_prop)
          (Perm.symm (Same-perm Item-discrete (flatten bins ++ rest) (items_of lengths) same))
          items-Small)).1

  -- Bins that together hold the items, and none too many, give a packing.
  bins-IsPacking :
      (bins : List (List Item))
      → Same (flatten bins) (items_of lengths)
      → All (λ b. bin_size b ≤ capacity) bins
      → IsPacking capacity lengths (bin_indices bins)
  bins-IsPacking bins same light =
      let p = Same-perm Item-discrete (flatten bins) (items_of lengths) same in
      record {
        complete =
            rw
              (
                flatten-bin_indices bins,
                ← map-enumerate_from 0 lengths,
                ← items_of-indices (enumerate lengths),
              )
              (Perm.map (λ (x : Item). x.0) p);
        fits =
            bin_indices-fits lengths capacity bins
              (All-perm (Known lengths) (λ x. ℕ_set _ _) (Perm.symm p) items-Known) light;
        filled = bin_indices-filled bins;
      }

  phases-IsPacking :
      let (bins, leftovers) = first_phases capacity (items_of lengths) in
      (s : FfdBins) × (add_leftovers capacity
          (record { ffd_bins = [] ∷ []; ffd_bin_sizes = 0 ∷ [] })
          (sort_by ge_size leftovers)
        ≡ ok s)
      × IsPacking capacity lengths (bin_indices (bins ++ s.ffd_bins))
  phases-IsPacking =
      let (bins, leftovers) = first_phases capacity (items_of lengths) in
      let k = first_phases-Keeps capacity (items_of lengths) items-Small in
      let sorted = sort_by-perm ge_size leftovers in
      let small : Small capacity (sort_by ge_size leftovers) =
        All-perm (λ x. x.1 ≤ capacity) (λ x. le_prop) (Perm.symm sorted)
          (leftovers-Small bins leftovers λ f.
            omega
              (arith, k.same f, sum_of-append f (flatten bins) leftovers, weigh-flatten f bins)) in
      let (s, e, ready, w) =
        add_leftovers-Ready capacity (record { ffd_bins = [] ∷ []; ffd_bin_sizes = 0 ∷ [] })
          (sort_by ge_size leftovers) small (omega arith, (refl, omega arith, tt)) in
      (
        s,
        e,
        bins-IsPacking (bins ++ s.ffd_bins)
            (λ f. omega (
              arith,
              k.same f,
              w f,
              sum_of-perm f sorted,
              weigh-flatten f (bins ++ s.ffd_bins),
              sum_of-append (sum_of f) bins s.ffd_bins,
            ))
            (All-append (λ b. bin_size b ≤ capacity) bins s.ffd_bins k.light
              (Sized-light capacity s.ffd_bins s.ffd_bin_sizes ready.1)),
      )

-- The packer returns a packing, or raises for a capacity of zero, for there being a sequence of length
-- zero, or for the first sequence that is longer than a bin; it never fails in another way.
pub modified_first_fit_decreasing-IsPacking :
    (capacity : ℕ) (lengths : List ℕ)
    → ((bins : List (List ℕ)) × (modified_first_fit_decreasing capacity lengths ≡ ok bins)
        × IsPacking capacity lengths bins)
      ⊎ ((capacity ≡ 0)
          × (modified_first_fit_decreasing capacity lengths ≡ raise nonpositive_capacity))
      ⊎ (Mem 0 lengths
          × (modified_first_fit_decreasing capacity lengths ≡ raise nonpositive_length))
      ⊎ ((i : ℕ) × (modified_first_fit_decreasing capacity lengths
            ≡ raise (exceeds_capacity (get_or lengths i 0) capacity))
          × (capacity < get_or lengths i 0)
          × All (λ l. l ≤ capacity) (take i lengths))
unfolding modified_first_fit_decreasing
modified_first_fit_decreasing-IsPacking capacity lengths = elim (Bool-cases (capacity == 0)) [
  | inl e ↦ inr (inl (ground (arith, e), rw e))
  | inr e ↦ elim (any_zero_cases lengths) [
    | inl (f, m) ↦ inr (inr (inl (m, rw (e, f))))
    | inr (f, positive) ↦ elim (validate_first capacity lengths) [
      | inl (g, within) ↦
          let (s, h, p) = phases-IsPacking capacity lengths within in
          inl (
            bin_indices ((first_phases capacity (items_of lengths)).0 ++ s.ffd_bins),
            rw (e, f, g, h),
            p,
          )
      | inr (i, g, long, first) ↦ inr (inr (inr (i, rw (e, f, g), long, first)))
    ]
  ]
]
