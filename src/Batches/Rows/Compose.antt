-- ===== src/Batches/Rows/Compose.antt =====
-- A selection of a selection is a selection.
use ne_mo_rl_enhanced_math_r.Common.{
  ℕ, zero, suc, ◌+◌, ◌≡◌, refl, sym, ap, ◌∙◌, inl, inr, List, [], ◌∷◌, map, Option, none, some,
  arith, ◌==◌, Bool-cases, ok, >>=-eq-ok, Dict, has, length, get_elem?, range, All, sum_of, Same,
  flatten, HasDistinctKeys,
}
use ne_mo_rl_enhanced_math_r.Batches.Rows.{select, select_indices}
use ne_mo_rl_enhanced_math_r.Batches.Rows.Pick.{
  Below, pick, put_first, get_elem?-below, pick-flatten, pick-range,
}

module _ {A : Type 0} where
  -- `col[indices[i]]`.
  abbrev through : List A → Option ℕ → Option A
  through col none = none
  through col (some i) = get_elem? col i

  get_elem?-pick :
      (indices : List ℕ) (col : List A) (i : ℕ)
      → Below (length col) indices
      → get_elem? (pick indices col) i ≡ through col (get_elem? indices i)
  get_elem?-pick [] col i b = refl
  get_elem?-pick (k ∷ indices) col zero b =
      let (a, e) = get_elem?-below k col (b.0) in
      ap (λ o. get_elem? (put_first o (pick indices col)) 0) e ∙ sym e
  get_elem?-pick (k ∷ indices) col (suc i) b =
      let (a, e) = get_elem?-below k col (b.0) in
      ap (λ o. get_elem? (put_first o (pick indices col)) (suc i)) e
      ∙ get_elem?-pick indices col i (b.1)

  pub pick-pick :
      (is indices : List ℕ) (col : List A)
      → Below (length col) indices
      → pick is (pick indices col) ≡ pick (pick is indices) col
  pick-pick [] indices col b = refl
  pick-pick (i ∷ is) indices col b =
      ap (λ o. put_first o (pick is (pick indices col))) (get_elem?-pick indices col i b)
      ∙ next (get_elem? indices i) (pick-pick is indices col b)
    where
      next :
          (o : Option ℕ)
          → pick is (pick indices col) ≡ pick (pick is indices) col
          → put_first (through col o) (pick is (pick indices col))
            ≡ pick (put_first o (pick is indices)) col
      next none e = e
      next (some k) e = ap (put_first (get_elem? col k)) e

  weight_of : (A → ℕ) → Option A → ℕ
  weight_of f none = 0
  weight_of f (some a) = f a

  sum_of-pick :
      (f : A → ℕ) (col : List A) (is : List ℕ)
      → sum_of f (pick is col) ≡ sum_of (λ i. weight_of f (get_elem? col i)) is
  unfolding weight_of
  sum_of-pick f col [] = refl
  sum_of-pick f col (i ∷ is) =
      first (get_elem? col i) ∙ ap (λ k. weight_of f (get_elem? col i) + k) (sum_of-pick f col is)
    where
      first :
          (o : Option A)
          → sum_of f (put_first o (pick is col)) ≡ weight_of f o + sum_of f (pick is col)
      first none = omega arith
      first (some a) = refl

  -- The same indices pick the same rows.
  pub pick-Same : (col : List A) (is js : List ℕ) → Same is js → Same (pick is col) (pick js col)
  pick-Same col is js s f =
      sum_of-pick f col is ∙ s (λ i. weight_of f (get_elem? col i)) ∙ sym (sum_of-pick f col js)

  pub All-pick {κ} : (P : A → Type κ) (is : List ℕ) (col : List A) → All P col → All P (pick is col)
  All-pick P [] col h = tt
  All-pick P (i ∷ is) col h = first (get_elem? col i) (found i col h) (All-pick P is col h)
    where
      AllOf : Option A → Type κ
      AllOf none = Unit
      AllOf (some a) = P a

      found : (i : ℕ) (col : List A) → All P col → AllOf (get_elem? col i)
      found i [] h = tt
      found zero (x ∷ xs) h = h.0
      found (suc i) (x ∷ xs) h = found i xs (h.1)

      first : (o : Option A) → AllOf o → All P (pick is col) → All P (put_first o (pick is col))
      first none p rest = rest
      first (some a) p rest = (p, rest)

  select_indices-keys :
      (indices : List ℕ) (d r : Dict (List A))
      → select_indices indices d ≡ ok r
      → HasDistinctKeys d
      → HasDistinctKeys r × ((k : ℕ) → has k r ≡ has k d)
  select_indices-keys indices [] r e h = let same : [] ≡ r = cc in rw (← same) (tt, λ k. refl)
  select_indices-keys indices ((j, c) ∷ d) r e h =
      let (chosen, f, e₁) = >>=-eq-ok (select indices c) _ e in
      let (rest, g, e₂) = >>=-eq-ok (select_indices indices d) _ e₁ in
      let (u, m) = select_indices-keys indices d rest g (h.1) in
      let same : ((j, chosen) ∷ rest) ≡ r = cc in
      rw (← same)
        ((m j ∙ h.0, u), λ k. elim (Bool-cases (k == j)) [ inl q ↦ rw q refl | inr q ↦ rw q (m k) ])

  pub select_indices-HasDistinctKeys :
      (indices : List ℕ) (d r : Dict (List A))
      → select_indices indices d ≡ ok r
      → HasDistinctKeys d
      → HasDistinctKeys r
  select_indices-HasDistinctKeys indices d r e h = (select_indices-keys indices d r e h).0

-- Rows picked from a list with each of the indices are each of the indices.
pub pick_all-Same :
    (plan : List (List ℕ)) (indices : List ℕ)
    → Same (flatten plan) (range (length indices))
    → Same (flatten (map (λ is. pick is indices) plan)) indices
pick_all-Same plan indices s f =
    ap (sum_of f) (sym (pick-flatten plan indices))
    ∙ pick-Same indices (flatten plan) (range (length indices)) s f
    ∙ ap (sum_of f) (pick-range indices)
