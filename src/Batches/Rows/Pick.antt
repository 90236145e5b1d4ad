-- ===== src/Batches/Rows/Pick.antt =====
-- What a selection of rows is: `pick` leaves out the indices that are out of range.
use ne_mo_rl_enhanced_math_r.Common.{
  ℕ, zero, suc, ◌<◌, ◌≡◌, refl, sym, ap, ◌∙◌, inl, inr, true, List, [], ◌∷◌, ◌++◌, map, Option,
  none, some, arith, ◌==◌, Bool-cases, Option-cases, ok, Dict, lookup, length, get_elem?, take,
  drop, range_from, range, All, flatten, has, ==-self,
}
use ne_mo_rl_enhanced_math_r.Batches.{all_of_size}
use ne_mo_rl_enhanced_math_r.Batches.Whole.{take_all, take_nil}
use ne_mo_rl_enhanced_math_r.Batches.Rows.{select, select_indices}

abbrev pub Below : ℕ → List ℕ → Type 0
Below n = All (λ i. i < n)

module _ {A : Type 0} where
  abbrev pub put_first : Option A → List A → List A
  put_first none xs = xs
  put_first (some a) xs = a ∷ xs

  abbrev pub pick : List ℕ → List A → List A
  pick [] col = []
  pick (i ∷ indices) col = put_first (get_elem? col i) (pick indices col)

  pub get_elem?-below :
      (i : ℕ) (col : List A) → i < length col → (a : A) × (get_elem? col i ≡ some a)
  get_elem?-below i [] l = elim l [ ]
  get_elem?-below zero (x ∷ xs) l = (x, refl)
  get_elem?-below (suc i) (x ∷ xs) l = get_elem?-below i xs (omega (arith, l))

  pub select-Below :
      (indices : List ℕ) (col : List A)
      → Below (length col) indices
      → select indices col ≡ ok (pick indices col)
  select-Below [] col h = refl
  select-Below (i ∷ indices) col h =
      let (a, e) = get_elem?-below i col (h.0) in rw (e, select-Below indices col (h.1)) refl

  pub length-pick :
      (indices : List ℕ) (col : List A)
      → Below (length col) indices
      → length (pick indices col) ≡ length indices
  length-pick [] col h = refl
  length-pick (i ∷ indices) col h =
      let (a, e) = get_elem?-below i col (h.0) in rw e (ap suc (length-pick indices col (h.1)))

  pub pick-append :
      (is js : List ℕ) (col : List A) → pick (is ++ js) col ≡ pick is col ++ pick js col
  pick-append [] js col = refl
  pick-append (i ∷ is) js col = elim (Option-cases (get_elem? col i)) [
    | inl e ↦ rw e (pick-append is js col)
    | inr (a, e) ↦ rw e (ap (λ r. a ∷ r) (pick-append is js col))
  ]

  pub pick-flatten :
      (plan : List (List ℕ)) (col : List A)
      → pick (flatten plan) col ≡ flatten (map (λ indices. pick indices col) plan)
  unfolding flatten
  pick-flatten [] col = refl
  pick-flatten (indices ∷ plan) col =
      pick-append indices (flatten plan) col
      ∙ ap (λ r. pick indices col ++ r) (pick-flatten plan col)

  pick_nil : (indices : List ℕ) → ◌≡◌ {A = List A} (pick indices []) []
  pick_nil [] = refl
  pick_nil (i ∷ indices) = pick_nil indices

  pick_shift :
      (j n : ℕ) (x : A) (xs : List A)
      → pick (range_from (suc j) n) (x ∷ xs) ≡ pick (range_from j n) xs
  pick_shift j zero x xs = refl
  pick_shift j (suc n) x xs = elim (Option-cases (get_elem? xs j)) [
    | inl e ↦ rw e (pick_shift (suc j) n x xs)
    | inr (a, e) ↦ rw e (ap (λ r. a ∷ r) (pick_shift (suc j) n x xs))
  ]

  -- A range picks a slice.
  pub pick-range_from : (j n : ℕ) (col : List A) → pick (range_from j n) col ≡ take n (drop j col)
  pick-range_from zero n [] = pick_nil (range_from 0 n) ∙ sym (take_nil n)
  pick-range_from (suc j) n [] = pick_nil (range_from (suc j) n) ∙ sym (take_nil n)
  pick-range_from zero zero (x ∷ xs) = refl
  pick-range_from zero (suc n) (x ∷ xs) =
      ap (λ r. x ∷ r) (pick_shift 0 n x xs ∙ pick-range_from 0 n xs)
  pick-range_from (suc j) n (x ∷ xs) = pick_shift j n x xs ∙ pick-range_from j n xs

  pub pick-range : (col : List A) → pick (range (length col)) col ≡ col
  pick-range col = pick-range_from 0 (length col) col ∙ take_all col

  -- A selection of all columns of `n` rows returns, and selects the rows of each.
  pub select_indices-Below :
      (n : ℕ) (indices : List ℕ) (d : Dict (List A))
      → all_of_size n d ≡ true
      → Below n indices
      → (r : Dict (List A)) × (select_indices indices d ≡ ok r)
        × (all_of_size (length indices) r ≡ true)
        × ((k : ℕ) (col : List A) → lookup k d ≡ some col → lookup k r ≡ some (pick indices col))
        × ((k : ℕ) → has k r ≡ has k d)
  select_indices-Below n indices [] a h = ([], refl, refl, λ k col e. cc, λ k. refl)
  select_indices-Below n indices ((j, c) ∷ d) a h = elim (Bool-cases (length c == n)) [
    | inr f ↦ let x = rw f at a in cc
    | inl f ↦
        let size : n ≡ length c = ground (arith, f) in
        let h' : Below (length c) indices = rw size at h in
        let (r, e, s, l, m) = select_indices-Below n indices d (rw f at a) h in
        let len : length (pick indices c) ≡ length indices = length-pick indices c h' in
        (
          (j, pick indices c) ∷ r,
          rw (select-Below indices c h', e) refl,
          rw (len, ==-self (length indices)) s,
          λ k col g. elim (Bool-cases (k == j)) [
            | inl q ↦
                let x : ◌≡◌ {A = Option (List A)} (some c) (some col) = rw q at g in
                let same : c ≡ col = cc in rw (q, same) refl
            | inr q ↦ rw q (l k col (rw q at g))
          ],
          λ k. elim (Bool-cases (k == j)) [ inl q ↦ rw q refl | inr q ↦ rw q (m k) ],
        )
  ]
