-- ===== src/Batches/Iterate/Epoch.antt =====
-- A pass over the batches of a packed shard and the microbatches of each visits every row once.
use ne_mo_rl_enhanced_math_r.Common.{
  ℕ, suc, ◌+◌, ◌-◌, ◌≤◌, ◌≡◌, refl, sym, ap, ◌∙◌, Bool, true, List, [], ◌∷◌, ◌++◌, map, none, some,
  arith, Result, ok, raise, ◌>>=◌, lookup, length, get_elem?, take, drop, range, range_from,
  flatten, sum,
}
use ne_mo_rl_enhanced_math_r.Batches.{all_of_size}
use ne_mo_rl_enhanced_math_r.Batches.Whole.{take-add, drop-add, take_all, all_of_size-lookup}
use ne_mo_rl_enhanced_math_r.Batches.Parts.{batch_size-all_of_size}
use ne_mo_rl_enhanced_math_r.Batches.Shards.{SlicedDataDict}
use ne_mo_rl_enhanced_math_r.Batches.Shards.Packed.Deal.{Spans, Closed}
use ne_mo_rl_enhanced_math_r.Batches.Shards.PackedShards.{WellPacked}
use ne_mo_rl_enhanced_math_r.Batches.Iterate.{
  IterateError, cum_elem_count, get_batch, get_batch_for, get_counted, micro_batch_of,
  packable_microbatches,
}
use ne_mo_rl_enhanced_math_r.Batches.Iterate.Visits.{column_of, slice-returns, slices-returns}

-- A list from its entry `j` on.
abbrev pub IsRest {ℓ} : {A : Type ℓ} → List A → ℕ → List A → Type ℓ
IsRest xs j rest = (i : ℕ) → get_elem? xs (j + i) ≡ get_elem? rest i

IsRest-next {ℓ} :
    {A : Type ℓ} (xs : List A) (j : ℕ) (y : A) (rest : List A)
    → IsRest xs j (y ∷ rest)
    → IsRest xs (suc j) rest
IsRest-next xs j y rest h i = ap (get_elem? xs) (omega arith) ∙ h (suc i)

IsRest-first {ℓ} :
    {A : Type ℓ} (xs : List A) (j : ℕ) (y : A) (rest : List A)
    → IsRest xs j (y ∷ rest)
    → get_elem? xs j ≡ some y
IsRest-first xs j y rest h = ap (get_elem? xs) (omega arith) ∙ h 0

cum-first : (total : ℕ) (counts : List ℕ) → get_elem? (cum_elem_count total counts) 0 ≡ some total
cum-first total [] = refl
cum-first total (count ∷ counts) = refl

module _ {A : Type 0} (is_tensor : ℕ → Bool) where
  -- A pass: the batches in order, and the microbatches of each.
  abbrev pub epoch :
      SlicedDataDict A → List ℕ → Result IterateError (List (List (SlicedDataDict A)))
  epoch x [] = ok []
  epoch x (batch_idx ∷ rest) = do
    batch ← get_batch is_tensor x batch_idx none
    mbs ← packable_microbatches is_tensor batch
    others ← epoch x rest
    ok (mbs ∷ others)

  -- The rows that a pass visits.
  abbrev pub visited : ℕ → List (List (SlicedDataDict A)) → List A
  visited k batches = flatten (map (λ mbs. flatten (map (column_of k) mbs)) batches)

  -- A batch, with its microbatches.
  batch-rows :
      (n total count j : ℕ) (micros : List (ℕ × ℕ)) (seqlens : List ℕ) (counts : List ℕ)
      (indices : List (List (ℕ × ℕ))) (lengths : List (List ℕ)) (x : SlicedDataDict A)
      → x.elem_counts_per_gb ≡ some counts
      → x.micro_batch_indices ≡ some indices
      → x.micro_batch_lengths ≡ some lengths
      → get_elem? counts j ≡ some count
      → get_elem? (cum_elem_count 0 counts) j ≡ some total
      → get_elem? (cum_elem_count 0 counts) (j + 1) ≡ some (total + count)
      → get_elem? indices j ≡ some micros
      → get_elem? lengths j ≡ some seqlens
      → Spans 0 count micros
      → length seqlens ≡ length micros
      → all_of_size n x.columns ≡ true
      → total + count ≤ n
      → (mbs : List (SlicedDataDict A)) × ((get_batch is_tensor x j none
            >>= (λ b. packable_microbatches is_tensor b))
          ≡ ok mbs)
        × ((k : ℕ) (col : List A)
            → lookup k x.columns ≡ some col
            → flatten (map (column_of k) mbs) ≡ take count (drop total col))
  unfolding get_batch packable_microbatches
  batch-rows n total count j micros seqlens counts indices lengths x a b c d e f g h spans same s
        l =
      let (r, sliced, sized, rows) =
        slice-returns is_tensor n total (total + count) x s (omega arith) l in
      let size : (total + count) - total ≡ count = omega arith in
      let batch : SlicedDataDict A = record {
        columns = r;
        micro_batch_indices = some (micros ∷ []);
        micro_batch_lengths = some (seqlens ∷ []);
        elem_counts_per_gb = some (count ∷ []);
      } in
      let whole : SlicedDataDict A = record {
        columns = r;
        micro_batch_indices = none;
        micro_batch_lengths = none;
        elem_counts_per_gb = none;
      } in
      let counted : get_counted is_tensor j counts (some indices) x
          ≡ micro_batch_of j indices x.micro_batch_lengths (some (count ∷ [])) whole =
        rw (d, e, f, sliced) refl in
      let with_micros : micro_batch_of j indices (some lengths) (some (count ∷ [])) whole
          ≡ ok batch =
        rw (g, h) refl in
      let got : get_batch is_tensor x j none ≡ ok batch =
        ap (λ o. get_batch_for is_tensor j none o x) a
        ∙ ap (λ o. get_counted is_tensor j counts o x) b
        ∙ counted
        ∙ ap (λ o. micro_batch_of j indices o (some (count ∷ [])) whole) c
        ∙ with_micros in
      let r_sized : all_of_size count r ≡ true = rw size at sized in
      let (mbs, k, put_together) =
        slices-returns is_tensor count 0 count micros seqlens batch r_sized spans (omega arith)
          same in
      (
        mbs,
        rw got k,
        λ key col found.
            let row_col : lookup key r ≡ some (take count (drop total col)) =
              rows key col found ∙ ap (λ i. some (take i (drop total col))) size in
            let length_is : length (take count (drop total col)) ≡ count =
              all_of_size-lookup count key r _ r_sized row_col in
            let all_of : count - 0 ≡ length (take count (drop total col)) =
              omega (arith, length_is) in
            put_together key (take count (drop total col)) row_col
            ∙ ap (λ i. take i (take count (drop total col))) all_of
            ∙ take_all (take count (drop total col)),
      )

  -- The batches from `j` on.
  epoch_rest :
      (n max_tokens : ℕ) (counts : List ℕ) (indices : List (List (ℕ × ℕ))) (lengths : List (List ℕ))
      (x : SlicedDataDict A)
      → x.elem_counts_per_gb ≡ some counts
      → x.micro_batch_indices ≡ some indices
      → x.micro_batch_lengths ≡ some lengths
      → all_of_size n x.columns ≡ true
      → (total j : ℕ) (qs cs : List ℕ) (is : List (List (ℕ × ℕ))) (ls : List (List ℕ))
      → Closed max_tokens qs is ls cs
      → IsRest counts j cs
      → IsRest indices j is
      → IsRest lengths j ls
      → IsRest (cum_elem_count 0 counts) j (cum_elem_count total cs)
      → total + sum cs ≡ n
      → (batches : List (List (SlicedDataDict A))) × (epoch x (range_from j (length cs))
          ≡ ok batches)
        × ((k : ℕ) (col : List A)
            → lookup k x.columns ≡ some col
            → visited k batches ≡ take (sum cs) (drop total col))
  unfolding flatten
  epoch_rest n mt counts indices lengths x a b c s total j [] [] [] [] cl f g h i e =
      ([], refl, λ k col l. refl)
  epoch_rest n mt counts indices lengths x a b c s total j (q ∷ qs) (count ∷ cs) (m ∷ is) (l ∷ ls)
        cl f g h i e =
      let rest =
        IsRest-next (cum_elem_count 0 counts) j total (cum_elem_count (total + count) cs) i in
      let next : get_elem? (cum_elem_count 0 counts) (j + 1) ≡ some (total + count) =
        ap (get_elem? (cum_elem_count 0 counts)) (omega arith)
        ∙ rest 0
        ∙ cum-first (total + count) cs in
      let inside : total + count ≤ n = omega (arith, e) in
      let (mbs, here, rows) =
        batch-rows n total count j m l counts indices lengths x a b c
          (IsRest-first counts j count cs f)
          (IsRest-first (cum_elem_count 0 counts) j total (cum_elem_count (total + count) cs) i)
          next (IsRest-first indices j m is g) (IsRest-first lengths j l ls h) (cl.0)
          (cl.2 ∙ sym (cl.1)) s inside in
      let (batches, there, others) =
        epoch_rest n mt counts indices lengths x a b c s (total + count) (suc j) qs cs is ls (cl.4)
          (IsRest-next counts j count cs f) (IsRest-next indices j m is g)
          (IsRest-next lengths j l ls h) rest (omega (arith, e)) in
      (
        mbs ∷ batches,
        chain (get_batch is_tensor x j none) mbs batches here there,
        λ k col found.
            rw (rows k col found, others k col found)
              (ap (λ ys. take count (drop total col) ++ take (sum cs) ys)
                  (sym (drop-add total count col))
                ∙ take-add count (sum cs) (drop total col)),
      )
    where
      chain :
          (r : Result IterateError (SlicedDataDict A)) (mbs : List (SlicedDataDict A))
          (batches : List (List (SlicedDataDict A)))
          → (r >>= (λ b. packable_microbatches is_tensor b)) ≡ ok mbs
          → epoch x (range_from (suc j) (length cs)) ≡ ok batches
          → (r >>= (λ b.
              packable_microbatches is_tensor b
              >>= (λ ms. epoch x (range_from (suc j) (length cs)) >>= (λ bs. ok (ms ∷ bs)))))
            ≡ ok (mbs ∷ batches)
      chain (ok b) mbs batches e f = rw (e, f) refl
      chain (raise b) mbs batches e f = cc
  epoch_rest n mt counts indices lengths x a b c s total j [] cs (y ∷ is) ls cl f g h i e =
      elim cl [ ]
  epoch_rest n mt counts indices lengths x a b c s total j [] cs [] (y ∷ ls) cl f g h i e =
      elim cl [ ]
  epoch_rest n mt counts indices lengths x a b c s total j [] (y ∷ cs) [] [] cl f g h i e =
      elim cl [ ]
  epoch_rest n mt counts indices lengths x a b c s total j (q ∷ qs) cs [] ls cl f g h i e =
      elim cl [ ]
  epoch_rest n mt counts indices lengths x a b c s total j (q ∷ qs) cs (z ∷ is) [] cl f g h i e =
      elim cl [ ]
  epoch_rest n mt counts indices lengths x a b c s total j (q ∷ qs) [] (z ∷ is) (w ∷ ls) cl f g h i
        e =
      elim cl [ ]

  -- On a shard of packed sequences, `get_batch` returns for each of its chunks, the iterator over
  -- packable sequences returns for each of these batches, and the rows of all microbatches, in order,
  -- are those of the shard.
  pub epoch-visits_all :
      (max_tokens : ℕ) (qs : List ℕ) (x : SlicedDataDict A)
      → (packed : WellPacked max_tokens qs x)
      → (batches : List (List (SlicedDataDict A))) × (epoch x (range (length packed.counts))
          ≡ ok batches)
        × ((k : ℕ) (col : List A) → lookup k x.columns ≡ some col → visited k batches ≡ col)
  epoch-visits_all max_tokens qs x p =
      let sized = batch_size-all_of_size (sum (p.counts)) x.columns (p.whole) in
      let total : 0 + sum (p.counts) ≡ sum (p.counts) = omega arith in
      let from_zero : (i : ℕ) → 0 + i ≡ i = λ i. omega arith in
      let (batches, e, rows) =
        epoch_rest (sum (p.counts)) max_tokens (p.counts) (p.indices) (p.lengths) x (p.counts_are)
          (p.indices_are) (p.lengths_are) sized 0 0 qs (p.counts) (p.indices) (p.lengths) (p.closed)
          (λ i. ap (get_elem? (p.counts)) (from_zero i))
          (λ i. ap (get_elem? (p.indices)) (from_zero i))
          (λ i. ap (get_elem? (p.lengths)) (from_zero i))
          (λ i. ap (get_elem? (cum_elem_count 0 (p.counts))) (from_zero i)) total in
      (
        batches,
        e,
        λ k col found.
            rows k col found
            ∙ ap (λ i. take i col)
                (sym (all_of_size-lookup (sum (p.counts)) k x.columns col sized found))
            ∙ take_all col,
      )
