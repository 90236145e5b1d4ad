-- ===== src/Batches/Shards/Aggregate/Gathered.antt =====
-- The loop over chunks and keys returns, and gathers the rows of its indices.
use ne_mo_rl_enhanced_math_r.Common.{
  ℕ, ◌<◌, ◌≡◌, refl, sym, ap, ◌∙◌, inl, inr, true, false, List, [], ◌∷◌, ◌++◌, map, Option, none,
  some, arith, Bool, range, length-range_from, ◌==◌, Bool-cases, Option-cases, ok, Dict, lookup,
  has, has→lookup, lookup-has, lookup-put_self, lookup-put_ne, length, flatten, All-split, ==-self,
  HasDistinctKeys, put-HasDistinctKeys, lookup_rest, append_assoc, append-nil,
}
use ne_mo_rl_enhanced_math_r.Batches.{all_of_size}
use ne_mo_rl_enhanced_math_r.Batches.Whole.{all_of_size-lookup, column}
use ne_mo_rl_enhanced_math_r.Batches.Rows.Pick.{Below, pick, pick-append, select-Below, length-pick}
use ne_mo_rl_enhanced_math_r.Batches.Parts.{IsPart, AreParts}
use ne_mo_rl_enhanced_math_r.Batches.Shards.Aggregate.{extend, add_rows, add_chunks, add_shards}
use ne_mo_rl_enhanced_math_r.Batches.Shards.Split.{Sizes, sub_shard}

module _ {A : Type 0} where
  pub sizes_by_lookup :
      (m : ℕ) (d : Dict (List A))
      → HasDistinctKeys d
      → ((k : ℕ) (col : List A) → lookup k d ≡ some col → length col ≡ m)
      → all_of_size m d ≡ true
  sizes_by_lookup m [] h f = refl
  sizes_by_lookup m ((k, col) ∷ d) h f =
      let here : lookup k ((k, col) ∷ d) ≡ some col = rw (==-self k) refl in
      rw (f k col here, ==-self m)
        (sizes_by_lookup m d (h.1) (λ j c e. f j c (lookup_rest k j col c d (h.0) e)))

  -- What a shard has under a key, `[]` if nothing yet.
  lookup-extend_self :
      (k : ℕ) (xs : List A) (shard : Dict (List A))
      → lookup k (extend k xs shard) ≡ some (column k shard ++ xs)
  lookup-extend_self k xs shard = elim (Option-cases (lookup k shard)) [
    | inl e ↦ rw (extend, column, e) (lookup-put_self k xs shard)
    | inr (old, e) ↦ rw (extend, column, e) (lookup-put_self k (old ++ xs) shard)
  ]

  lookup-extend_ne :
      (k j : ℕ) (xs : List A) (shard : Dict (List A))
      → (j ≡ k → ⊥)
      → lookup j (extend k xs shard) ≡ lookup j shard
  lookup-extend_ne k j xs shard h = elim (Option-cases (lookup k shard)) [
    | inl e ↦ rw (extend, e) (lookup-put_ne k j xs shard h)
    | inr (old, e) ↦ rw (extend, e) (lookup-put_ne k j (old ++ xs) shard h)
  ]

  extend-HasDistinctKeys :
      (k : ℕ) (xs : List A) (shard : Dict (List A))
      → HasDistinctKeys shard
      → HasDistinctKeys (extend k xs shard)
  extend-HasDistinctKeys k xs shard h = elim (Option-cases (lookup k shard)) [
    | inl e ↦ rw (extend, e) (put-HasDistinctKeys k xs shard h)
    | inr (old, e) ↦ rw (extend, e) (put-HasDistinctKeys k (old ++ xs) shard h)
  ]

  add_rows-returns :
      (n : ℕ) (indices : List ℕ) (data_left shard : Dict (List A))
      → all_of_size n data_left ≡ true
      → Below n indices
      → HasDistinctKeys data_left
      → HasDistinctKeys shard
      → (r : Dict (List A)) × (add_rows indices data_left shard ≡ ok r)
        × HasDistinctKeys r
        × ((k : ℕ) (col : List A)
            → lookup k data_left ≡ some col
            → lookup k r ≡ some (column k shard ++ pick indices col))
        × ((k : ℕ) → has k data_left ≡ false → lookup k r ≡ lookup k shard)
  add_rows-returns n indices [] shard s b u v = (shard, refl, v, λ k col. cc, λ k e. refl)
  add_rows-returns n indices ((j, c) ∷ rest) shard s b u v = elim (Bool-cases (length c == n)) [
    | inr f ↦ let x = rw f at s in cc
    | inl f ↦
        let size : n ≡ length c = ground (arith, f) in
        let b' : Below (length c) indices = rw size at b in
        let after = extend j (pick indices c) shard in
        let (r, e, w, rows, others) =
          add_rows-returns n indices rest after (rw f at s) b (u.1)
            (extend-HasDistinctKeys j (pick indices c) shard v) in
        (
          r,
          rw (select-Below indices c b') e,
          w,
          λ k col g. elim (Bool-cases (k == j)) [
            | inl q ↦
                let same : j ≡ k = ground (arith, q) in
                let x : ◌≡◌ {A = Option (List A)} (some c) (some col) = rw q at g in
                let same_col : c ≡ col = cc in
                rw (← same, ← same_col)
                  (others j (u.0) ∙ lookup-extend_self j (pick indices c) shard)
            | inr q ↦
                let differ : k ≡ j → ⊥ = λ t. ground (arith, q, t) in
                rows k col (rw q at g)
                ∙ ap (λ o. some (elim o [ none ↦ [] | some x ↦ x ] ++ pick indices col))
                    (lookup-extend_ne j k (pick indices c) shard differ)
          ],
          λ k g. elim (Bool-cases (k == j)) [
            | inl q ↦ let x = rw q at g in cc
            | inr q ↦
                others k (rw q at g)
                ∙ lookup-extend_ne j k (pick indices c) shard (λ t. ground (arith, q, t))
          ],
        )
  ]

-- The shard has the columns of `d`, and of each the rows `indices`.
pub record Gathered {A : Type 0} (d : Dict (List A)) (indices : List ℕ) (shard : Dict (List A))
    : Type 0 where
  pub distinct : HasDistinctKeys shard
  pub rows :
      (k : ℕ) (col : List A) → lookup k d ≡ some col → lookup k shard ≡ some (pick indices col)
  pub others : (k : ℕ) → has k d ≡ false → lookup k shard ≡ none

module _ {A : Type 0} (n : ℕ) (d : Dict (List A)) (sized : all_of_size n d ≡ true)
    (distinct : HasDistinctKeys d) where
  add_first-Gathered :
      (indices : List ℕ)
      → Below n indices
      → (r : Dict (List A)) × (add_rows indices d [] ≡ ok r) × Gathered d indices r
  add_first-Gathered indices b =
      let (r, e, u, rows, others) = add_rows-returns n indices d [] sized b distinct tt in
      (r, e, record { distinct = u; rows = rows; others = others })

  add_next-Gathered :
      (is js : List ℕ) (shard : Dict (List A))
      → Below n js
      → Gathered d is shard
      → (r : Dict (List A)) × (add_rows js d shard ≡ ok r) × Gathered d (is ++ js) r
  add_next-Gathered is js shard b g =
      let (r, e, u, rows, others) = add_rows-returns n js d shard sized b distinct (g.distinct) in
      (
        r,
        e,
        record {
          distinct = u;
          rows = λ k col f.
              rows k col f
              ∙ ap (λ o. some (elim o [ none ↦ [] | some x ↦ x ] ++ pick js col)) (g.rows k col f)
              ∙ ap some (sym (pick-append is js col));
          others = λ k f. others k f ∙ g.others k f;
        },
      )

  add_rest-Gathered :
      (indices : ℕ → List ℕ) (chunks : List ℕ) (is : List ℕ) (shard : Dict (List A))
      → Below n (flatten (map indices chunks))
      → Gathered d is shard
      → (r : Dict (List A)) × (add_chunks indices chunks d shard ≡ ok r)
        × Gathered d (is ++ flatten (map indices chunks)) r
  unfolding flatten
  add_rest-Gathered indices [] is shard b g = (shard, refl, rw (append-nil is) g)
  add_rest-Gathered indices (c ∷ chunks) is shard b g =
      let (here, later) = All-split (λ i. i < n) (indices c) (flatten (map indices chunks)) b in
      let (after, e, g') = add_next-Gathered is (indices c) shard here g in
      let (r, f, g'') = add_rest-Gathered indices chunks (is ++ indices c) after later g' in
      (r, rw e f, rw (append_assoc is (indices c) (flatten (map indices chunks))) at g'')

  Gathered-IsPart :
      (indices : List ℕ) (shard : Dict (List A))
      → Below n indices
      → Gathered d indices shard
      → IsPart d indices shard
  Gathered-IsPart indices shard b g =
      let none_has : (k : ℕ) → lookup k shard ≡ none → has k shard ≡ false = (λ k e.
        elim (Bool-cases (has k shard)) [
          | inr f ↦ f
          | inl f ↦ let (col, h) = has→lookup k shard f in cc
        ]) in
      record {
        rows = g.rows;
        keys = λ k. elim (Bool-cases (has k d)) [
          | inr f ↦ none_has k (g.others k f) ∙ sym f
          | inl f ↦
              let (col, h) = has→lookup k d f in
              lookup-has k (pick indices col) shard (g.rows k col h) ∙ sym f
        ];
        size = sizes_by_lookup (length indices) shard (g.distinct) (λ k c e.
            elim (Bool-cases (has k d)) [
              | inr f ↦ let x = g.others k f in cc
              | inl f ↦
                  let (col, h) = has→lookup k d f in
                  let x = g.rows k col h in
                  let same : c ≡ pick indices col = cc in
                  let b' : Below (length col) indices =
                    rw (all_of_size-lookup n k d col sized h) b in
                  rw same (length-pick indices col b')
            ]);
      }

  -- The loop over at least one chunk makes a part of the batch.
  pub add_chunks-IsPart :
      (indices : ℕ → List ℕ) (chunks : List ℕ)
      → 0 < length chunks
      → Below n (flatten (map indices chunks))
      → (r : Dict (List A)) × (add_chunks indices chunks d [] ≡ ok r)
        × IsPart d (flatten (map indices chunks)) r
  unfolding flatten
  add_chunks-IsPart indices [] l b = absurd (omega (arith, l))
  add_chunks-IsPart indices (c ∷ chunks) l b =
      let (here, later) = All-split (λ i. i < n) (indices c) (flatten (map indices chunks)) b in
      let (first, e, g) = add_first-Gathered (indices c) here in
      let (r, f, g') = add_rest-Gathered indices chunks (indices c) first later g in
      (r, rw e f, Gathered-IsPart (indices c ++ flatten (map indices chunks)) r b g')

  -- The loop over the shards makes a part for each.
  pub add_shards-AreParts :
      (s : Sizes) (uneven : Bool) (shards : List ℕ)
      → 0 < s.num_chunks
      → Below n
          (flatten (map (λ i. flatten (map (sub_shard s uneven i) (range s.num_chunks))) shards))
      → (parts : List (Dict (List A))) × (add_shards s uneven shards d ≡ ok parts)
        × AreParts d
            (map (λ i. flatten (map (sub_shard s uneven i) (range s.num_chunks))) shards)
            parts
  unfolding flatten
  add_shards-AreParts s uneven [] l b = ([], refl, tt)
  add_shards-AreParts s uneven (i ∷ shards) l b =
      let (here, later) =
        All-split (λ i. i < n) (flatten (map (sub_shard s uneven i) (range s.num_chunks))) _ b in
      let (part, e, p) =
        add_chunks-IsPart (sub_shard s uneven i) (range s.num_chunks)
          (omega (arith, l, length-range_from 0 s.num_chunks)) here in
      let (parts, f, ps) = add_shards-AreParts s uneven shards l later in
      (part ∷ parts, rw (e, f) refl, (p, ps))
