-- ===== src/Packing/Mffd/FirstPhases.antt =====
-- Phases 0 to 4 keep every item, in bins that are not overfull.
use mathlib.Core.List.Perm
use ne_mo_rl_enhanced_math_r.Common.{
  ℕ, ◌+◌, ◌*◌, ◌≤◌, ◌≡◌, refl, inl, inr, List, [], ◌∷◌, ◌++◌, map, arith, ltb, Bool-cases, sum_of,
  sum_of-append, All, All-append, All-perm, sort_by, sort_by-perm, sum_of-perm,
}
use native.Mathlib.Bridge.{le_prop}
use ne_mo_rl_enhanced_math_r.Packing.Mffd.{
  Item, bin_size, Classes, no_items, classify_item, classify_items, ge_size, le_size, add_mediums,
  add_smalls, first_phases,
}
use ne_mo_rl_enhanced_math_r.Packing.Mffd.Phases.{
  weigh, Keeps, add_mediums-Keeps, add_smalls-Keeps, fill_bins-Keeps,
}

abbrev weigh_classes : (Item → ℕ) → Classes → ℕ
weigh_classes f c = sum_of f c.large + sum_of f c.medium + sum_of f c.small + sum_of f c.tiny

weigh-classify_item :
    (capacity : ℕ) (f : Item → ℕ) (c : Classes) (x : Item)
    → weigh_classes f (classify_item capacity c x) ≡ weigh_classes f c + f x
unfolding classify_item
weigh-classify_item capacity f c (idx, size) = ground (
  arith,
  sum_of-append f c.large ((idx, size) ∷ []),
  sum_of-append f c.medium ((idx, size) ∷ []),
  sum_of-append f c.small ((idx, size) ∷ []),
  sum_of-append f c.tiny ((idx, size) ∷ []),
)

weigh-classify_items :
    (capacity : ℕ) (f : Item → ℕ) (c : Classes) (items : List Item)
    → weigh_classes f (classify_items capacity c items) ≡ weigh_classes f c + sum_of f items
unfolding classify_items
weigh-classify_items capacity f c [] = omega arith
weigh-classify_items capacity f c (x ∷ xs) = omega (
  arith,
  weigh-classify_items capacity f (classify_item capacity c x) xs,
  weigh-classify_item capacity f c x,
)

module _ (capacity : ℕ) where
  -- The sizes of all items are within the capacity.
  abbrev pub Small : List Item → Type 0
  Small = All (λ x. x.1 ≤ capacity)

  classify_item-Small :
      (c : Classes) (x : Item)
      → x.1 ≤ capacity
      → Small c.large
      → Small (classify_item capacity c x).large
  unfolding classify_item
  classify_item-Small c (idx, size) h l = elim (Bool-cases (ltb capacity (2 * size))) [
    | inl e ↦ rw e (All-append (λ x. x.1 ≤ capacity) c.large ((idx, size) ∷ []) l (h, tt))
    | inr e ↦ elim (Bool-cases (ltb capacity (3 * size))) [
      | inl f ↦ rw (e, f) l
      | inr f ↦ elim (Bool-cases (ltb capacity (6 * size))) [
        | inl g ↦ rw (e, f, g) l
        | inr g ↦ rw (e, f, g) l
      ]
    ]
  ]

  classify_items-Small :
      (c : Classes) (items : List Item)
      → Small items
      → Small c.large
      → Small (classify_items capacity c items).large
  unfolding classify_items
  classify_items-Small c [] h l = l
  classify_items-Small c (x ∷ xs) h l =
      classify_items-Small (classify_item capacity c x) xs h.1 (classify_item-Small c x h.0 l)

  singletons-light :
      (xs : List Item) → Small xs → All (λ b. bin_size b ≤ capacity) (map (λ x. x ∷ []) xs)
  singletons-light [] h = tt
  singletons-light (x ∷ xs) h = (omega arith, singletons-light xs h.1)

  weigh-singletons : (f : Item → ℕ) (xs : List Item) → weigh f (map (λ x. x ∷ []) xs) ≡ sum_of f xs
  weigh-singletons f [] = refl
  weigh-singletons f (x ∷ xs) = omega (arith, weigh-singletons f xs)

  pub first_phases-Keeps :
      (items : List Item) → Small items → Keeps capacity [] items (first_phases capacity items)
  unfolding first_phases
  first_phases-Keeps items h =
      let c = classify_items capacity no_items items in
      let large = sort_by ge_size c.large in
      let medium = sort_by ge_size c.medium in
      let small = sort_by le_size c.small in
      let tiny = sort_by le_size c.tiny in
      let s : Small large =
        All-perm (λ x. x.1 ≤ capacity) (λ x. le_prop) (Perm.symm (sort_by-perm ge_size c.large))
          (classify_items-Small no_items items h tt) in
      let bins = map (λ (x : Item). x ∷ []) large in
      let k₂ = add_mediums-Keeps capacity bins medium (singletons-light large s) in
      let (bins₂, medium') = add_mediums capacity bins medium in
      let k₃ = add_smalls-Keeps capacity bins₂ small k₂.light in
      let (bins₃, small') = add_smalls capacity bins₂ small in
      let rest = medium' ++ small' ++ tiny in
      let k₄ = fill_bins-Keeps capacity bins₃ (sort_by ge_size rest) k₃.light in
      record {
        same = λ f. omega (
          arith,
          k₄.same f,
          k₃.same f,
          k₂.same f,
          sum_of-perm f (sort_by-perm ge_size rest),
          sum_of-append f (medium' ++ small') tiny,
          sum_of-append f medium' small',
          weigh-singletons f large,
          sum_of-perm f (sort_by-perm ge_size c.large),
          sum_of-perm f (sort_by-perm ge_size c.medium),
          sum_of-perm f (sort_by-perm le_size c.small),
          sum_of-perm f (sort_by-perm le_size c.tiny),
          weigh-classify_items capacity f no_items items,
        );
        light = k₄.light;
      }
