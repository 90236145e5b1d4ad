-- ===== src/Batches/Iterate/Fixed.antt =====
-- Microbatches of one size.
use native.Mathlib.Nat.{div-add-mod}
use ne_mo_rl_enhanced_math_r.Common.{
  ℕ, zero, suc, ◌+◌, ◌-◌, ◌*◌, ◌/◌, ◌%◌, ◌<◌, ◌≡◌, refl, sym, ap, ◌∙◌, inl, inr, Bool, true, false,
  List, [], ◌∷◌, map, some, arith, ◌==◌, Bool-cases, ok, Dict, lookup, length, length-replicate,
  replicate, take, flatten,
}
use ne_mo_rl_enhanced_math_r.Batches.{batch_size, all_of_size}
use ne_mo_rl_enhanced_math_r.Batches.Whole.{take_all, all_of_size-lookup}
use ne_mo_rl_enhanced_math_r.Batches.Parts.{batch_size-all_of_size}
use ne_mo_rl_enhanced_math_r.Batches.Rows.{zip}
use ne_mo_rl_enhanced_math_r.Batches.Shards.{SlicedDataDict}
use ne_mo_rl_enhanced_math_r.Batches.Shards.Packed.Deal.{Spans}
use ne_mo_rl_enhanced_math_r.Batches.Iterate.{size, steps, slices, make_microbatch_iterator}
use ne_mo_rl_enhanced_math_r.Batches.Iterate.Visits.{column_of, slices-returns}

ranges_of : (start step count : ℕ) → List (ℕ × ℕ)
ranges_of start step zero = []
ranges_of start step (suc count) = (start, start + step) ∷ ranges_of (start + step) step count

steps-zip :
    (start step count : ℕ)
    → steps start step count ≡ zip (replicate count 0) (ranges_of start step count)
unfolding ranges_of
steps-zip start step zero = refl
steps-zip start step (suc count) =
    ap (λ r. (0, (start, start + step)) ∷ r) (steps-zip (start + step) step count)

ranges_of-Spans :
    (start step count : ℕ)
    → 0 < step
    → Spans start (start + count * step) (ranges_of start step count)
      × (length (ranges_of start step count) ≡ count)
unfolding ranges_of
ranges_of-Spans start step zero l = (omega arith, refl)
ranges_of-Spans start step (suc count) l =
    let (s, e) = ranges_of-Spans (start + step) step count l in
    let at_end : start + step + count * step ≡ start + suc count * step = omega arith in
    ((refl, omega (arith, l), rw at_end at s), ap suc e)

module _ {A : Type 0} (is_tensor : ℕ → Bool) where
  size-batch_size : (n : ℕ) (d : Dict (List A)) → batch_size d ≡ ok n → size d ≡ ok n
  unfolding batch_size
  size-batch_size n [] e = cc
  size-batch_size n ((k, col) ∷ d) e = elim (Bool-cases (all_of_size (length col) d)) [
    | inr f ↦ let x = rw f at e in cc
    | inl f ↦ let x : ok (length col) ≡ ok n = rw f at e in ap ok (ground (arith, x))
  ]

  -- If the microbatch size divides the number of rows, the iterator returns, and its microbatches,
  -- put together, are the batch.
  pub make_microbatch_iterator-whole :
      (n microbatch_size : ℕ) (x : SlicedDataDict A)
      → batch_size x.columns ≡ ok n
      → 0 < microbatch_size
      → n % microbatch_size ≡ 0
      → (mbs : List (SlicedDataDict A)) × (make_microbatch_iterator is_tensor x microbatch_size
          ≡ ok mbs)
        × ((k : ℕ) (col : List A)
            → lookup k x.columns ≡ some col
            → flatten (map (column_of k) mbs) ≡ col)
  unfolding make_microbatch_iterator
  make_microbatch_iterator-whole n m x e l divides =
      let sized = batch_size-all_of_size n x.columns e in
      let positive : (m == 0) ≡ false = ground (arith, l) in
      let multiple : (n % m == 0) ≡ true = ground (arith, divides) in
      let (spans, count) = ranges_of-Spans 0 m (n / m) l in
      let whole : 0 + n / m * m ≡ n = omega (arith, div-add-mod n m, divides) in
      let spans' : Spans 0 n (ranges_of 0 m (n / m)) = rw whole at spans in
      let (mbs, f, rows) =
        slices-returns is_tensor n 0 n (ranges_of 0 m (n / m)) (replicate (n / m) 0) x sized spans'
          (omega arith) (length-replicate (n / m) 0 ∙ sym count) in
      (
        mbs,
        rw (size-batch_size n x.columns e, positive, multiple)
            (ap (λ r. slices is_tensor r x) (steps-zip 0 m (n / m)) ∙ f),
        λ k col found.
            let count' : n - 0 ≡ length col =
              omega (arith, all_of_size-lookup n k x.columns col sized found) in
            rows k col found ∙ ap (λ i. take i col) count' ∙ take_all col,
      )
