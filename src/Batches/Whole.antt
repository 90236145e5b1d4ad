-- ===== src/Batches/Whole.antt =====
-- The chunks of a batch, put together, are the batch.
use native.Mathlib.Nat.{div-add-mod}
use ne_mo_rl_enhanced_math_r.Common.{
  ℕ, zero, suc, ◌+◌, ◌*◌, ◌/◌, ◌%◌, ◌<◌, ◌≡◌, refl, sym, ap, ◌∙◌, inl, inr, true, false, List, [],
  ◌∷◌, ◌++◌, map, Option, none, some, arith, leb, ◌==◌, Bool-cases, Result, ok, >>=-eq-ok, Dict,
  lookup, length, take, drop, flatten, range_from, range, ==-self,
}
use ne_mo_rl_enhanced_math_r.Batches.{Error, all_of_size, batch_size, rows, rows_of_all, chunk}

module _ {A : Type 0} where
  pub take_nil : (n : ℕ) → ◌≡◌ {A = List A} (take n []) []
  take_nil zero = refl
  take_nil (suc n) = refl

  pub drop_nil : (n : ℕ) → ◌≡◌ {A = List A} (drop n []) []
  drop_nil zero = refl
  drop_nil (suc n) = refl

  pub take-add : (n m : ℕ) (xs : List A) → take n xs ++ take m (drop n xs) ≡ take (n + m) xs
  take-add zero m xs = ap (λ k. take k xs) (omega arith)
  take-add (suc n) m [] = take_nil m ∙ sym (take_nil (suc n + m))
  take-add (suc n) m (x ∷ xs) =
      let next : suc (n + m) ≡ suc n + m = omega arith in
      ap (λ ys. x ∷ ys) (take-add n m xs) ∙ ap (λ k. take k (x ∷ xs)) next

  pub drop-add : (n m : ℕ) (xs : List A) → drop m (drop n xs) ≡ drop (n + m) xs
  drop-add zero m xs = ap (λ k. drop k xs) (omega arith)
  drop-add (suc n) m [] = drop_nil m ∙ sym (drop_nil (suc n + m))
  drop-add (suc n) m (x ∷ xs) =
      let next : suc (n + m) ≡ suc n + m = omega arith in
      drop-add n m xs ∙ ap (λ k. drop k (x ∷ xs)) next

  pub take_all : (xs : List A) → take (length xs) xs ≡ xs
  take_all [] = refl
  take_all (x ∷ xs) = ap (λ ys. x ∷ ys) (take_all xs)

  -- The rows of `n` splits in a row, from the `j`th on.
  flatten-rows :
      (size : ℕ) (col : List A) (j n : ℕ)
      → flatten (map (λ rank. rows size rank col) (range_from j n))
        ≡ take (n * size) (drop (j * size) col)
  unfolding flatten
  flatten-rows size col j zero = ap (λ k. take k (drop (j * size) col)) none_yet
    where
      none_yet : 0 ≡ 0 * size
      none_yet = omega arith
  flatten-rows size col j (suc n) =
      ap (λ ys. rows size j col ++ ys)
        (flatten-rows size col (suc j) n
          ∙ ap (λ k. take (n * size) (drop k col)) (omega arith)
          ∙ ap (take (n * size)) (sym (drop-add (j * size) size col)))
      ∙ take-add size (n * size) (drop (j * size) col)
      ∙ ap (λ k. take k (drop (j * size) col)) (omega arith)

  rows_of_all-lookup :
      (size rank k : ℕ) (d : Dict (List A)) (col : List A)
      → lookup k d ≡ some col
      → lookup k (rows_of_all size rank d) ≡ some (rows size rank col)
  rows_of_all-lookup size rank k [] col e = cc
  rows_of_all-lookup size rank k ((j, c) ∷ d) col e = elim (Bool-cases (k == j)) [
    | inl f ↦
        let x : ◌≡◌ {A = Option (List A)} (some c) (some col) = rw f at e in
        let same : c ≡ col = cc in rw (f, same) refl
    | inr f ↦ rw f (rows_of_all-lookup size rank k d col (rw f at e))
  ]

  pub all_of_size-lookup :
      (n k : ℕ) (d : Dict (List A)) (col : List A)
      → all_of_size n d ≡ true
      → lookup k d ≡ some col
      → length col ≡ n
  all_of_size-lookup n k [] col a e = cc
  all_of_size-lookup n k ((j, c) ∷ d) col a e = elim (Bool-cases (length c == n)) [
    | inr f ↦ let x = rw f at a in cc
    | inl f ↦ elim (Bool-cases (k == j)) [
      | inl g ↦
          let x : ◌≡◌ {A = Option (List A)} (some c) (some col) = rw g at e in
          let same : c ≡ col = cc in rw (← same) (ground (arith, f))
      | inr g ↦ all_of_size-lookup n k d col (rw f at a) (rw g at e)
    ]
  ]

  pub batch_size-lookup :
      (k b : ℕ) (d : Dict (List A)) (col : List A)
      → batch_size d ≡ ok b
      → lookup k d ≡ some col
      → length col ≡ b
  unfolding batch_size
  batch_size-lookup k b [] col e f = cc
  batch_size-lookup k b ((j, c) ∷ d) col e f = elim (Bool-cases (all_of_size (length c) d)) [
    | inr g ↦ let x = rw g at e in cc
    | inl g ↦
        let x : ok (length c) ≡ ok b = rw g at e in
        let same : length c ≡ b = ground (arith, x) in
        rw (← same) (all_of_size-lookup (length c) k ((j, c) ∷ d) col (rw (==-self (length c)) g) f)
  ]

  -- What a chunk that is returned is.
  chunk-rows :
      (rank chunks : ℕ) (d r : Dict (List A))
      → chunk rank chunks d ≡ ok r
      → (b : ℕ) × (batch_size d ≡ ok b) × (b % chunks ≡ 0) × (r ≡ rows_of_all (b / chunks) rank d)
  unfolding chunk
  chunk-rows rank chunks d r e =
      let (b, f, e₁) = >>=-eq-ok (batch_size d) _ e in
      elim (Bool-cases (chunks == 0)) [
        | inl g ↦ let x = rw g at e₁ in cc
        | inr g ↦ elim (Bool-cases (b % chunks == 0)) [
          | inr h ↦ let x = rw (g, h) at e₁ in cc
          | inl h ↦ elim (Bool-cases (leb (b / chunks) rank)) [
            | inl i ↦ let x = rw (g, h, i) at e₁ in cc
            | inr i ↦ elim (Bool-cases (leb chunks rank)) [
              | inl j ↦ let x = rw (g, h, i, j) at e₁ in cc
              | inr j ↦
                  let x : ok (rows_of_all (b / chunks) rank d) ≡ ok r = rw (g, h, i, j) at e₁ in
                  (b, f, ground (arith, h), cc)
            ]
          ]
        ]
      ]

  -- `r[k]`.
  abbrev pub column : ℕ → Dict (List A) → List A
  column k r = elim (lookup k r) [ none ↦ [] | some col ↦ col ]

  columns-rows :
      (size k : ℕ) (d : Dict (List A)) (col : List A) (part : ℕ → Dict (List A)) (j n : ℕ)
      → lookup k d ≡ some col
      → ((rank : ℕ) → rank < j + n → part rank ≡ rows_of_all size rank d)
      → map (λ rank. column k (part rank)) (range_from j n)
        ≡ map (λ rank. rows size rank col) (range_from j n)
  columns-rows size k d col part j zero e h = refl
  columns-rows size k d col part j (suc n) e h =
      let here : column k (part j) ≡ rows size j col =
        ap (column k) (h j (omega arith))
        ∙ ap (λ o. elim o [ none ↦ [] | some c ↦ c ]) (rows_of_all-lookup size j k d col e) in
      rw here (
        ap (λ cs. rows size j col ∷ cs)
          (columns-rows size k d col part (suc j) n e (λ rank l. h rank (omega (arith, l)))))

  -- If `chunk` returns for every rank, the columns of the chunks, in the order of the ranks, make up
  -- the columns of the batch: no row is lost and none is in two chunks.
  pub chunk-whole :
      (chunks k : ℕ) (d : Dict (List A)) (col : List A) (part : ℕ → Dict (List A))
      → 0 < chunks
      → lookup k d ≡ some col
      → ((rank : ℕ) → rank < chunks → chunk rank chunks d ≡ ok (part rank))
      → flatten (map (λ rank. column k (part rank)) (range chunks)) ≡ col
  chunk-whole chunks k d col part positive e all =
      let (b, f, divides, _) = chunk-rows 0 chunks d (part 0) (all 0 positive) in
      let size = b / chunks in
      let whole : chunks * size ≡ length col =
        omega (arith, div-add-mod b chunks, divides, batch_size-lookup k b d col f e) in
      let from_start : 0 * size ≡ 0 = omega arith in
      ap flatten (
        columns-rows size k d col part 0 chunks e (λ rank l.
          let (b', f', _, r) = chunk-rows rank chunks d (part rank) (all rank (omega (arith, l))) in
          let same : ◌≡◌ {A = Result Error ℕ} (ok b') (ok b) = sym f' ∙ f in
          r ∙ ap (λ n. rows_of_all (n / chunks) rank d) (ground (arith, same))))
      ∙ flatten-rows size col 0 chunks
      ∙ ap (λ n. take n (drop (0 * size) col)) whole
      ∙ ap (λ n. take (length col) (drop n col)) from_start
      ∙ take_all col

  -- A chunk is returned if the chunks divide the batch and the rank is below both the number of the
  -- chunks and the number of rows in each.
  pub chunk-returns :
      (rank chunks b : ℕ) (d : Dict (List A))
      → batch_size d ≡ ok b
      → b % chunks ≡ 0
      → rank < chunks
      → rank < b / chunks
      → chunk rank chunks d ≡ ok (rows_of_all (b / chunks) rank d)
  unfolding chunk
  chunk-returns rank chunks b d e divides below few =
      let positive : (chunks == 0) ≡ false = ground (arith, below) in
      let multiple : (b % chunks == 0) ≡ true = rw divides refl in
      let in_size : leb (b / chunks) rank ≡ false = ground (arith, few) in
      let in_chunks : leb chunks rank ≡ false = ground (arith, below) in
      rw e (rw positive (rw multiple (rw in_size (rw in_chunks refl))))
