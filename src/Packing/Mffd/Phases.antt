-- ===== src/Packing/Mffd/Phases.antt =====
-- No phase of the modified first-fit-decreasing packer loses an item or overfills a bin.
use ne_mo_rl_enhanced_math_r.Common.{
  ℕ, zero, suc, ◌+◌, ◌-◌, ◌≤◌, ◌≡◌, refl, ◌⊎◌, inl, inr, Bool, true, false, ◌||◌, List, [], ◌∷◌,
  ◌++◌, Option, none, some, arith, ltb, Bool-cases, length, sum_of, sum_of-append, All,
}
use ne_mo_rl_enhanced_math_r.Packing.Mffd.{
  Item, bin_size, pop_first, pop_last, fits_in, add_mediums, has_medium, add_pair, add_smalls_to,
  add_smalls, last_size, fill_bin, fill_bins,
}

abbrev pub Pops : (Item → Bool) → List Item → Option (Item × List Item) → Type 0
Pops test xs r =
    ((r ≡ none) × All (λ x. test x ≡ false) xs)
    ⊎ ((x : Item) × (rest : List Item) × (r ≡ some (x, rest))
        × (test x ≡ true)
        × ((f : Item → ℕ) → f x + sum_of f rest ≡ sum_of f xs))

pub pop_first-Pops : (test : Item → Bool) (xs : List Item) → Pops test xs (pop_first test xs)
unfolding pop_first
pop_first-Pops test [] = inl (refl, tt)
pop_first-Pops test (x ∷ xs) = elim (Bool-cases (test x)) [
  | inl e ↦ inr (x, xs, rw e, e, λ f. refl)
  | inr e ↦ elim (pop_first-Pops test xs) [
    | inl (n, a) ↦ inl (rw (e, n), (e, a))
    | inr (y, rest, n, t, w) ↦ inr (y, x ∷ rest, rw (e, n), t, λ f. omega (arith, w f))
  ]
]

pub pop_last-Pops : (test : Item → Bool) (xs : List Item) → Pops test xs (pop_last test xs)
unfolding pop_last
pop_last-Pops test [] = inl (refl, tt)
pop_last-Pops test (x ∷ xs) = elim (pop_last-Pops test xs) [
  | inl (n, a) ↦ elim (Bool-cases (test x)) [
    | inl e ↦ inr (x, xs, rw (n, pop_last, e), e, λ f. refl)
    | inr e ↦ inl (rw (n, pop_last, e), (e, a))
  ]
  | inr (y, rest, n, t, w) ↦ inr (y, x ∷ rest, rw (n, pop_last), t, λ f. omega (arith, w f))
]

-- The sum over all bins.
abbrev pub weigh : (Item → ℕ) → List (List Item) → ℕ
weigh f = sum_of (sum_of f)

-- After a phase bins and rest hold what they held together, and every bin is within its capacity.
pub record Keeps (capacity : ℕ) (bins : List (List Item)) (rest : List Item)
    (after : List (List Item) × List Item) : Type 0 where
  pub same : (f : Item → ℕ) → weigh f after.0 + sum_of f after.1 ≡ weigh f bins + sum_of f rest
  pub light : All (λ b. bin_size b ≤ capacity) after.0

module _ (capacity : ℕ) where
  abbrev Light : List (List Item) → Type 0
  Light = All (λ b. bin_size b ≤ capacity)

  pub add_mediums-Keeps :
      (bins : List (List Item)) (medium : List Item)
      → Light bins
      → Keeps capacity bins medium (add_mediums capacity bins medium)
  unfolding add_mediums
  add_mediums-Keeps [] medium l = record { same = λ f. refl; light = tt }
  add_mediums-Keeps (b ∷ bs) medium l =
      elim (pop_first-Pops (fits_in (capacity - bin_size b)) medium) [
        | inl (n, a) ↦
            let k = add_mediums-Keeps bs medium l.1 in
            rw (n, add_mediums)
              (record { same = λ f. omega (arith, k.same f); light = (l.0, k.light) })
        | inr (x, rest, n, t, w) ↦
            let k = add_mediums-Keeps bs rest l.1 in
            rw (n, add_mediums)
              (record {
                same = λ f. omega (arith, k.same f, w f, sum_of-append f b (x ∷ []));
                light =
                    (ground (arith, t, l.0, sum_of-append (λ (p : Item). p.1) b (x ∷ [])), k.light);
              })
      ]

  -- One bin and the rest before and after.
  pub record KeepsBin (b : List Item) (rest : List Item) (after : List Item × List Item)
      : Type 0 where
    pub same : (f : Item → ℕ) → sum_of f after.0 + sum_of f after.1 ≡ sum_of f b + sum_of f rest
    pub light : bin_size after.0 ≤ capacity

  unchanged : (b : List Item) (rest : List Item) → bin_size b ≤ capacity → KeepsBin b rest (b, rest)
  unchanged b rest l = record { same = λ f. refl; light = l }

  -- The second item fits beside the first, so that the first is never popped in vain.
  add_pair-KeepsBin :
      (b small : List Item) → bin_size b ≤ capacity → KeepsBin b small (add_pair capacity b small)
  unfolding add_pair
  add_pair-KeepsBin b [] l = unchanged b [] l
  add_pair-KeepsBin b (x ∷ []) l = unchanged b (x ∷ []) l
  add_pair-KeepsBin b (first ∷ second ∷ rest) l =
      let room = capacity - bin_size b in
      elim (Bool-cases (ltb room (first.1 + second.1))) [
        | inl e ↦ rw e (unchanged b (first ∷ second ∷ rest) l)
        | inr e ↦ elim (pop_last-Pops (fits_in (room - first.1)) (second ∷ rest)) [
          | inl (n, a) ↦ absurd (ground (arith, e, a.0))
          | inr (x, small', n, t, w) ↦
              rw (e, n, add_pair)
                (record {
                  same = λ f. omega (arith, w f, sum_of-append f b (first ∷ x ∷ []));
                  light =
                      ground (arith, t, e, l, sum_of-append (λ (p : Item). p.1) b (first ∷ x ∷ []));
                })
        ]
      ]

  add_smalls_to-KeepsBin :
      (b small : List Item)
      → bin_size b ≤ capacity
      → KeepsBin b small (add_smalls_to capacity b small)
  unfolding add_smalls_to
  add_smalls_to-KeepsBin b small l =
      elim (Bool-cases (has_medium capacity b || ltb (length small) 2)) [
        | inl e ↦ rw e (unchanged b small l)
        | inr e ↦ rw e (add_pair-KeepsBin b small l)
      ]

  pub add_smalls-Keeps :
      (bins : List (List Item)) (small : List Item)
      → Light bins
      → Keeps capacity bins small (add_smalls capacity bins small)
  unfolding add_smalls
  add_smalls-Keeps [] small l = record { same = λ f. refl; light = tt }
  add_smalls-Keeps (b ∷ bs) small l =
      let k = add_smalls-Keeps bs small l.1 in
      let q = add_smalls_to-KeepsBin b (add_smalls capacity bs small).1 l.0 in
      record { same = λ f. omega (arith, k.same f, q.same f); light = (q.light, k.light) }

  fill_bin-KeepsBin :
      (fuel : ℕ) (b items : List Item)
      → bin_size b ≤ capacity
      → KeepsBin b items (fill_bin capacity fuel b items)
  unfolding fill_bin
  fill_bin-KeepsBin zero b items l = unchanged b items l
  fill_bin-KeepsBin (suc fuel) b [] l = unchanged b [] l
  fill_bin-KeepsBin (suc fuel) b (x ∷ xs) l =
      elim (Bool-cases (ltb (capacity - bin_size b) (last_size (x ∷ xs)))) [
        | inl e ↦ rw (e, fill_bin) (unchanged b (x ∷ xs) l)
        | inr e ↦ elim (pop_first-Pops (fits_in (capacity - bin_size b)) (x ∷ xs)) [
          | inl (n, a) ↦ rw (e, fill_bin, n, fill_bin) (unchanged b (x ∷ xs) l)
          | inr (y, rest, n, t, w) ↦
              let k =
                fill_bin-KeepsBin fuel (b ++ y ∷ []) rest
                  (ground (arith, t, l, sum_of-append (λ (p : Item). p.1) b (y ∷ []))) in
              rw (e, fill_bin, n, fill_bin)
                (record {
                  same = λ f. omega (arith, k.same f, w f, sum_of-append f b (y ∷ []));
                  light = k.light;
                })
        ]
      ]

  pub fill_bins-Keeps :
      (bins : List (List Item)) (items : List Item)
      → Light bins
      → Keeps capacity bins items (fill_bins capacity bins items)
  unfolding fill_bins
  fill_bins-Keeps [] items l = record { same = λ f. refl; light = tt }
  fill_bins-Keeps (b ∷ bs) items l =
      let (b', items') = fill_bin capacity (length items) b items in
      let q = fill_bin-KeepsBin (length items) b items l.0 in
      let k = fill_bins-Keeps bs items' l.1 in
      record { same = λ f. omega (arith, k.same f, q.same f); light = (q.light, k.light) }
