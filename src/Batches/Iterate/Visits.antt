-- ===== src/Batches/Iterate/Visits.antt =====
-- A pass over the batches of a packed shard and the microbatches of each visits every row once.
use ne_mo_rl_enhanced_math_r.Common.{
  ℕ, ◌+◌, ◌-◌, ◌≤◌, ◌≡◌, refl, sym, ap, ◌∙◌, inl, inr, Bool, true, false, ◌&&◌, List, [], ◌∷◌, ◌++◌,
  map, Option, none, some, arith, ltb, ◌==◌, Bool-cases, ok, Dict, lookup, length, length-take,
  length-drop, take, drop, flatten, ==-self,
}
use ne_mo_rl_enhanced_math_r.Batches.{all_of_size}
use ne_mo_rl_enhanced_math_r.Batches.Whole.{take-add, drop-add, column}
use ne_mo_rl_enhanced_math_r.Batches.Rows.{zip}
use ne_mo_rl_enhanced_math_r.Batches.Shards.{SlicedDataDict}
use ne_mo_rl_enhanced_math_r.Batches.Shards.Packed.Deal.{Spans}
use ne_mo_rl_enhanced_math_r.Batches.Iterate.{slice_columns, slice, slices}

Spans-le : (a b : ℕ) (micros : List (ℕ × ℕ)) → Spans a b micros → a ≤ b
Spans-le a b [] s = omega (arith, s)
Spans-le a b ((start, end) ∷ micros) s = omega (arith, s.0, s.1, Spans-le end b micros (s.2))

module _ {A : Type 0} where
  -- `slices` of a column.
  abbrev pub column_of : ℕ → SlicedDataDict A → List A
  column_of k x = column k x.columns

  module _ (is_tensor : ℕ → Bool) where
    -- A slice within the batch.
    slice_columns-returns :
        (n start end : ℕ) (d : Dict (List A))
        → all_of_size n d ≡ true
        → start ≤ end
        → end ≤ n
        → (r : Dict (List A)) × (slice_columns is_tensor start end d ≡ ok r)
          × (all_of_size (end - start) r ≡ true)
          × ((k : ℕ) (col : List A)
              → lookup k d ≡ some col
              → lookup k r ≡ some (take (end - start) (drop start col)))
    slice_columns-returns n start end [] s l m = ([], refl, refl, λ k col e. cc)
    slice_columns-returns n start end ((j, c) ∷ d) s l m = elim (Bool-cases (length c == n)) [
      | inr f ↦ let x = rw f at s in cc
      | inl f ↦
          let (r, e, sized, rows) = slice_columns-returns n start end d (rw f at s) l m in
          let size : length c ≡ n = ground (arith, f) in
          let inside : ltb (length c) end ≡ false = ground (arith, size, m) in
          let passes : (is_tensor j && ltb (length c) end) ≡ false =
            rw inside (and_false (is_tensor j)) in
          let count : length (take (end - start) (drop start c)) ≡ end - start =
            omega
              (arith, length-take (end - start) (drop start c), length-drop start c, size, l, m) in
          (
            (j, take (end - start) (drop start c)) ∷ r,
            rw (passes, e) refl,
            rw (count, ==-self (end - start)) sized,
            λ k col g. elim (Bool-cases (k == j)) [
              | inl q ↦
                  let x : ◌≡◌ {A = Option (List A)} (some c) (some col) = rw q at g in
                  let same : c ≡ col = cc in rw (q, same) refl
              | inr q ↦ rw q (rows k col (rw q at g))
            ],
          )
    ]
      where
        and_false : (b : Bool) → (b && false) ≡ false
        and_false true = refl
        and_false false = refl

    pub slice-returns :
        (n start end : ℕ) (x : SlicedDataDict A)
        → all_of_size n x.columns ≡ true
        → start ≤ end
        → end ≤ n
        → (r : Dict (List A)) × (slice is_tensor start end x
            ≡ ok (record {
              columns = r;
              micro_batch_indices = none;
              micro_batch_lengths = none;
              elem_counts_per_gb = none;
            }))
          × (all_of_size (end - start) r ≡ true)
          × ((k : ℕ) (col : List A)
              → lookup k x.columns ≡ some col
              → lookup k r ≡ some (take (end - start) (drop start col)))
    slice-returns n start end x s l m =
        let (r, e, sized, rows) = slice_columns-returns n start end x.columns s l m in
        (r, rw e refl, sized, rows)

    pub column-some :
        (k : ℕ) (r : Dict (List A)) (col : List A) → lookup k r ≡ some col → column k r ≡ col
    column-some k r col e = ap (λ o. elim o [ none ↦ [] | some c ↦ c ]) e

    -- Microbatches that span the rows from `a` to `b`, put together, are these rows.
    pub slices-returns :
        (n a b : ℕ) (micros : List (ℕ × ℕ)) (lengths : List ℕ) (x : SlicedDataDict A)
        → all_of_size n x.columns ≡ true
        → Spans a b micros
        → b ≤ n
        → length lengths ≡ length micros
        → (mbs : List (SlicedDataDict A)) × (slices is_tensor (zip lengths micros) x ≡ ok mbs)
          × ((k : ℕ) (col : List A)
              → lookup k x.columns ≡ some col
              → flatten (map (column_of k) mbs) ≡ take (b - a) (drop a col))
    unfolding flatten
    slices-returns n a b [] [] x s t m e =
        let none_left : b - a ≡ 0 = omega (arith, t) in ([], refl, λ k col f. rw none_left refl)
    slices-returns n a b [] (l ∷ lengths) x s t m e = absurd (omega (arith, e))
    slices-returns n a b (micro ∷ micros) [] x s t m e = absurd (omega (arith, e))
    slices-returns n a b ((start, end) ∷ micros) (l ∷ lengths) x s t m e =
        let from : start ≡ a = t.0 in
        let above : end ≤ b = Spans-le end b micros (t.2) in
        let (r, f, sized, rows) =
          slice-returns n start end x s (omega (arith, t.1)) (omega (arith, above, m)) in
        let (mbs, g, later) =
          slices-returns n end b micros lengths x s (t.2) m (omega (arith, e)) in
        (
          record {
            columns = r;
            micro_batch_indices = none;
            micro_batch_lengths = none;
            elem_counts_per_gb = none;
          }
              ∷ mbs,
          rw (f, g) refl,
          λ k col h.
              let here : column k r ≡ take (end - a) (drop a col) =
                column-some k r _ (rows k col h) ∙ ap (λ i. take (end - i) (drop i col)) from in
              let next : a + (end - a) ≡ end = omega (arith, t.1, from) in
              let count : (end - a) + (b - end) ≡ b - a = omega (arith, t.1, from, above) in
              rw (here, later k col h)
                (ap (λ i. take (end - a) (drop a col) ++ take (b - end) (drop i col)) (sym next)
                  ∙ ap (λ ys. take (end - a) (drop a col) ++ take (b - end) ys)
                      (sym (drop-add a (end - a) col))
                  ∙ take-add (end - a) (b - end) (drop a col)
                  ∙ ap (λ i. take i (drop a col)) count),
        )
