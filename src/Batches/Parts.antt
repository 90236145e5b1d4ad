-- ===== src/Batches/Parts.antt =====
-- A batch taken apart by a list of indices for each part, and put together by `from_batches`.
use ne_mo_rl_enhanced_math_r.Common.{
  ℕ, ◌<◌, ◌≡◌, refl, sym, ap, ◌∙◌, inl, inr, true, List, [], ◌∷◌, Option, some, arith, ◌==◌,
  Bool-cases, ok, Dict, lookup, has, has→lookup, lookup-has, has-lookup, length, range, Perm,
  flatten, Same-below, perm-Same, ==-self,
}
use ne_mo_rl_enhanced_math_r.Batches.{all_of_size, batch_size}
use ne_mo_rl_enhanced_math_r.Batches.Whole.{all_of_size-lookup}
use ne_mo_rl_enhanced_math_r.Batches.Rows.{reordered_indices, reorder_data}
use ne_mo_rl_enhanced_math_r.Batches.Rows.Pick.{
  Below, pick, length-pick, pick-append, select_indices-Below,
}
use ne_mo_rl_enhanced_math_r.Batches.Rows.Reorder.{
  pick-reordered, reordered_indices-Same, length-Same,
}
use ne_mo_rl_enhanced_math_r.Batches.Shards.Packed.{join, join_columns, from_batches}

-- `part` has the columns of `d`, and of each the rows `indices`.
pub record IsPart {A : Type 0} (d : Dict (List A)) (indices : List ℕ) (part : Dict (List A))
    : Type 0 where
  pub rows :
      (k : ℕ) (col : List A) → lookup k d ≡ some col → lookup k part ≡ some (pick indices col)
  pub keys : (k : ℕ) → has k part ≡ has k d
  pub size : all_of_size (length indices) part ≡ true

module _ {A : Type 0} (d : Dict (List A)) where
  -- A part for each list of indices, in order.
  abbrev pub AreParts : List (List ℕ) → List (Dict (List A)) → Type 0
  AreParts [] [] = Unit {0}
  AreParts [] (part ∷ parts) = ⊥
  AreParts (indices ∷ plan) [] = ⊥
  AreParts (indices ∷ plan) (part ∷ parts) = IsPart d indices part × AreParts plan parts

  join-AreParts :
      (k : ℕ) (col : List A) (plan : List (List ℕ)) (parts : List (Dict (List A)))
      → lookup k d ≡ some col
      → AreParts plan parts
      → join k parts ≡ ok (pick (flatten plan) col)
  unfolding flatten
  join-AreParts k col [] [] e h = refl
  join-AreParts k col [] (part ∷ parts) e h = elim h [ ]
  join-AreParts k col (indices ∷ plan) [] e h = elim h [ ]
  join-AreParts k col (indices ∷ plan) (part ∷ parts) e h =
      rw
        (
          join,
          h.0.rows k col e,
          join-AreParts k col plan parts e (h.1),
          pick-append indices (flatten plan) col,
        )
        refl

  module _ (n : ℕ) (plan : List (List ℕ)) (parts : List (Dict (List A)))
      (sized : all_of_size n d ≡ true) (whole : AreParts plan parts)
      (inside : Below n (flatten plan)) where
    -- The keys are those of `e`, which `d` has all.
    join_columns-AreParts :
        (e : Dict (List A))
        → ((k : ℕ) → has k e ≡ true → has k d ≡ true)
        → (r : Dict (List A)) × (join_columns e parts ≡ ok r)
          × (all_of_size (length (flatten plan)) r ≡ true)
          × ((k : ℕ) → has k r ≡ has k e)
          × ((k : ℕ) (col : List A)
              → has k e ≡ true
              → lookup k d ≡ some col
              → lookup k r ≡ some (pick (flatten plan) col))
    join_columns-AreParts [] h = ([], refl, refl, λ k. refl, λ k col f. cc)
    join_columns-AreParts ((j, c) ∷ e) h =
        let here : has j ((j, c) ∷ e) ≡ true = rw (==-self j) refl in
        let (col, f) = has→lookup j d (h j here) in
        let (r, g, s, m, l) = join_columns-AreParts e (λ k q. h k (later k q)) in
        let joined = join-AreParts j col plan parts f whole in
        let below_col : Below (length col) (flatten plan) =
          rw (all_of_size-lookup n j d col sized f) inside in
        let len : length (pick (flatten plan) col) ≡ length (flatten plan) =
          length-pick (flatten plan) col below_col in
        (
          (j, pick (flatten plan) col) ∷ r,
          rw (joined, g) refl,
          rw (len, ==-self (length (flatten plan))) s,
          λ k. elim (Bool-cases (k == j)) [ inl q ↦ rw q refl | inr q ↦ rw q (m k) ],
          λ k col' q f'. elim (Bool-cases (k == j)) [
            | inl t ↦
                let same : k ≡ j = ground (arith, t) in
                let x : ◌≡◌ {A = Option (List A)} (some col) (some col') =
                  sym f ∙ ap (λ i. lookup i d) (sym same) ∙ f' in
                let same_col : col ≡ col' = cc in rw (t, same_col) refl
            | inr t ↦ rw t (l k col' (rw t at q) f')
          ],
        )
      where
        later : (k : ℕ) → has k e ≡ true → has k ((j, c) ∷ e) ≡ true
        later k q = elim (Bool-cases (k == j)) [ inl t ↦ rw t refl | inr t ↦ rw t q ]

  -- Parts put together are one part.
  pub from_batches-IsPart :
      (n : ℕ) (plan : List (List ℕ)) (parts : List (Dict (List A)))
      → all_of_size n d ≡ true
      → AreParts plan parts
      → Below n (flatten plan)
      → 0 < length plan
      → (r : Dict (List A)) × (from_batches parts ≡ ok r) × IsPart d (flatten plan) r
  unfolding from_batches
  from_batches-IsPart n [] parts s w i l = absurd (omega (arith, l))
  from_batches-IsPart n (indices ∷ plan) [] s w i l = elim w [ ]
  from_batches-IsPart n (indices ∷ plan) (part ∷ parts) s w i l =
      let first = w.0 in
      let (r, e, size, m, rows) =
        join_columns-AreParts n (indices ∷ plan) (part ∷ parts) s w i part
          (λ k q. sym (first.keys k) ∙ q) in
      (
        r,
        e,
        record {
          rows = λ k col f. rows k col (first.keys k ∙ lookup-has k col d f) f;
          keys = λ k. m k ∙ first.keys k;
          size = size;
        },
      )

module _ {A : Type 0} where
  pub batch_size-all_of_size :
      (n : ℕ) (d : Dict (List A)) → batch_size d ≡ ok n → all_of_size n d ≡ true
  unfolding batch_size
  batch_size-all_of_size n [] e = cc
  batch_size-all_of_size n ((k, col) ∷ d) e = elim (Bool-cases (all_of_size (length col) d)) [
    | inr g ↦ let x = rw g at e in cc
    | inl g ↦
        let x : ok (length col) ≡ ok n = rw g at e in
        let same : length col ≡ n = ground (arith, x) in
        let rest : all_of_size n d ≡ true = rw same at g in rw (same, ==-self n) rest
  ]

  -- A batch with a column, all columns of size `n`.
  pub all_of_size-batch_size :
      (n k : ℕ) (d : Dict (List A)) → has k d ≡ true → all_of_size n d ≡ true → batch_size d ≡ ok n
  unfolding batch_size
  all_of_size-batch_size n k [] h e = cc
  all_of_size-batch_size n k ((j, col) ∷ d) h e = elim (Bool-cases (length col == n)) [
    | inr g ↦ let x = rw g at e in cc
    | inl g ↦
        let same : length col ≡ n = ground (arith, g) in
        let rest : all_of_size n d ≡ true = rw g at e in rw (same, rest) refl
  ]

  pub batch_size-has :
      (n : ℕ) (d : Dict (List A)) → batch_size d ≡ ok n → (k : ℕ) × (has k d ≡ true)
  unfolding batch_size
  batch_size-has n [] e = cc
  batch_size-has n ((k, col) ∷ d) e = (k, rw (==-self k) refl)

  -- Where the indices of a part are all of the batch's, `reorder_data` by them gives the batch.
  pub reorder_data-IsPart :
      (n : ℕ) (d : Dict (List A)) (indices : List ℕ) (part : Dict (List A))
      → batch_size d ≡ ok n
      → Perm indices (range n)
      → IsPart d indices part
      → (r : Dict (List A)) × (reorder_data indices part ≡ ok r)
        × ((k : ℕ) → lookup k r ≡ lookup k d)
  unfolding reorder_data
  reorder_data-IsPart n d indices part e p q =
      let sized = batch_size-all_of_size n d e in
      let (k₀, here) = batch_size-has n d e in
      let same_length : length indices ≡ n = length-Same n indices (perm-Same p) in
      let part_sized : all_of_size n part ≡ true = rw same_length at q.size in
      let part_size : batch_size part ≡ ok n =
        all_of_size-batch_size n k₀ part (q.keys k₀ ∙ here) part_sized in
      let (r, f, _, rows, keys) =
        select_indices-Below n (reordered_indices indices n) part part_sized
          (Same-below n (reordered_indices indices n) (reordered_indices-Same n indices p)) in
      (
        r,
        rw part_size f,
        λ k. elim (Bool-cases (has k d)) [
          | inr g ↦ has-lookup k r (keys k ∙ q.keys k ∙ g) ∙ sym (has-lookup k d g)
          | inl g ↦
              let (col, h) = has→lookup k d g in
              let len : length col ≡ n = all_of_size-lookup n k d col sized h in
              let p' : Perm indices (range (length col)) = rw len p in
              let again : pick (reordered_indices indices (length col)) (pick indices col) ≡ col =
                pick-reordered col indices p' in
              let again' : pick (reordered_indices indices n) (pick indices col) ≡ col =
                rw len at again in
              rows k (pick indices col) (q.rows k col h) ∙ ap some again' ∙ sym h
        ],
      )
