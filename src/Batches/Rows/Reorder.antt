-- ===== src/Batches/Rows/Reorder.antt =====
-- `reorder_data` undoes a selection by the same indices.
use ne_mo_rl_enhanced_math_r.Common.{
  ℕ, zero, suc, ◌+◌, ◌≡◌, refl, sym, ap, ◌∙◌, List, [], ◌∷◌, map, arith, length, get_elem?,
  range_from, range, All, Perm, sort_by, sort_by-range, All-sort_by, map-sort_by, Same-below,
  perm-Same, length-range_from, leb, sum_of, Same, sum_of-map, sort_by-perm,
}
use ne_mo_rl_enhanced_math_r.Batches.Rows.{zip, le_key, reordered_indices}
use ne_mo_rl_enhanced_math_r.Batches.Rows.Pick.{Below, pick, put_first, pick-range, get_elem?-below}

map-zip :
    (j n : ℕ) (indices : List ℕ)
    → length indices ≡ n
    → map (λ (p : ℕ × ℕ). p.0) (zip indices (range_from j n)) ≡ indices
map-zip j zero [] e = refl
map-zip j zero (i ∷ indices) e = absurd (omega (arith, e))
map-zip j (suc n) [] e = absurd (omega (arith, e))
map-zip j (suc n) (i ∷ indices) e = ap (λ r. i ∷ r) (map-zip (suc j) n indices (omega (arith, e)))

map-zip_right :
    (j n : ℕ) (indices : List ℕ)
    → length indices ≡ n
    → map (λ (p : ℕ × ℕ). p.1) (zip indices (range_from j n)) ≡ range_from j n
map-zip_right j zero [] e = refl
map-zip_right j zero (i ∷ indices) e = absurd (omega (arith, e))
map-zip_right j (suc n) [] e = absurd (omega (arith, e))
map-zip_right j (suc n) (i ∷ indices) e =
    ap (λ r. j ∷ r) (map-zip_right (suc j) n indices (omega (arith, e)))

pub length-Same : (n : ℕ) (indices : List ℕ) → Same indices (range n) → length indices ≡ n
length-Same n indices s =
    omega (arith, s (λ x. 1), ones indices, ones (range n), length-range_from 0 n)
  where
    ones : (xs : List ℕ) → sum_of (λ x. 1) xs ≡ length xs
    ones [] = refl
    ones (x ∷ xs) = omega (arith, ones xs)

module _ {A : Type 0} (col : List A) where
  -- Place `p.1` of `found` has the row `p.0`.
  abbrev Placed : List A → ℕ × ℕ → Type 0
  Placed found p = get_elem? found (p.1) ≡ get_elem? col (p.0)

  All-zip :
      (found : List A) (j : ℕ) (indices : List ℕ)
      → Below (length col) indices
      → ((i : ℕ) → get_elem? found (j + i) ≡ get_elem? (pick indices col) i)
      → All (Placed found) (zip indices (range_from j (length indices)))
  All-zip found j [] b h = tt
  All-zip found j (k ∷ indices) b h =
      let (a, e) = get_elem?-below k col (b.0) in
      let here : pick (k ∷ indices) col ≡ a ∷ pick indices col =
        ap (λ o. put_first o (pick indices col)) e in
      (
        ap (get_elem? found) (omega arith) ∙ h 0 ∙ ap (λ r. get_elem? r 0) here ∙ sym e,
        All-zip found (suc j) indices (b.1) (λ i.
            ap (get_elem? found) (omega arith) ∙ h (suc i) ∙ ap (λ r. get_elem? r (suc i)) here),
      )

  pick-Placed :
      (found : List A) (ps : List (ℕ × ℕ))
      → All (Placed found) ps
      → pick (map (λ (p : ℕ × ℕ). p.1) ps) found ≡ pick (map (λ (p : ℕ × ℕ). p.0) ps) col
  pick-Placed found [] h = refl
  pick-Placed found (p ∷ ps) h =
      ap (λ o. put_first o (pick (map (λ (q : ℕ × ℕ). q.1) ps) found)) (h.0)
      ∙ ap (put_first (get_elem? col (p.0))) (pick-Placed found ps (h.1))

  pub pick-reordered :
      (indices : List ℕ)
      → Perm indices (range (length col))
      → pick (reordered_indices indices (length col)) (pick indices col) ≡ col
  unfolding reordered_indices
  pick-reordered indices p =
      let all_below = Same-below (length col) indices (perm-Same p) in
      let same_size : length indices ≡ length col =
        length-Same (length col) indices (perm-Same p) in
      let pairs = zip indices (range (length col)) in
      let placed : All (Placed (pick indices col)) (zip indices (range (length indices))) =
        All-zip (pick indices col) 0 indices all_below
          (λ i. ap (get_elem? (pick indices col)) (omega arith)) in
      let placed' : All (Placed (pick indices col)) pairs = rw (← same_size) placed in
      pick-Placed (pick indices col) (sort_by le_key pairs)
        (All-sort_by le_key (Placed (pick indices col)) pairs placed')
      ∙ ap (λ is. pick is col)
          (map-sort_by (λ (q : ℕ × ℕ). q.0) pairs
            ∙ ap (sort_by leb) (map-zip 0 (length col) indices same_size)
            ∙ sort_by-range (length col) indices p)
      ∙ pick-range col

pub reordered_indices-Same :
    (n : ℕ) (indices : List ℕ)
    → Perm indices (range n)
    → Same (reordered_indices indices n) (range n)
unfolding reordered_indices
reordered_indices-Same n indices p f =
    let pairs = zip indices (range n) in
    sum_of-map f (λ (q : ℕ × ℕ). q.1) (sort_by le_key pairs)
    ∙ perm-Same (sort_by-perm le_key pairs) (λ (q : ℕ × ℕ). f (q.1))
    ∙ sym (sum_of-map f (λ (q : ℕ × ℕ). q.1) pairs)
    ∙ ap (sum_of f) (map-zip_right 0 n indices (length-Same n indices (perm-Same p)))
