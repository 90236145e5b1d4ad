-- ===== src/Batches/Shards/Sorted/Correct.antt =====
-- What `shard_by_batch_size` returns for dynamic batches, and that `reorder_data` undoes it.
use native.Mathlib.Nat.{div-add-mod}
use ne_mo_rl_enhanced_math_r.Common.{
  ℕ, zero, suc, ◌*◌, ◌/◌, ◌<◌, ◌≡◌, refl, ap, ◌∙◌, true, false, List, [], ◌∷◌, map, some, arith, ok,
  Dict, lookup, range, All, All-range_from, Perm, flatten, HasDistinctKeys, Same-below, perm-range,
  length, Same, All-split, sum_of,
}
use ne_mo_rl_enhanced_math_r.Batches.{batch_size, all_of_size}
use ne_mo_rl_enhanced_math_r.Batches.Rows.Pick.{Below, pick, length-pick, select_indices-Below}
use ne_mo_rl_enhanced_math_r.Batches.Rows.Reorder.{length-Same}
use ne_mo_rl_enhanced_math_r.Batches.Rows.Compose.{select_indices-HasDistinctKeys, All-pick}
use ne_mo_rl_enhanced_math_r.Batches.Parts.{AreParts, batch_size-all_of_size}
use ne_mo_rl_enhanced_math_r.Batches.Whole.{all_of_size-lookup}
use ne_mo_rl_enhanced_math_r.Batches.Shards.{
  SlicedDataDict, lengths_of, with_microbatches, shard_dynamic,
}
use ne_mo_rl_enhanced_math_r.Batches.Shards.Split.{Sizes}
use ne_mo_rl_enhanced_math_r.Batches.Shards.Split.Passed.{Passed, Passed-plan_of}
use ne_mo_rl_enhanced_math_r.Batches.Shards.Plain.{num_chunks-positive}
use ne_mo_rl_enhanced_math_r.Batches.Shards.Aggregate.Cover.{plan_of}
use ne_mo_rl_enhanced_math_r.Batches.Shards.Aggregate.Gathered.{add_shards-AreParts}
use ne_mo_rl_enhanced_math_r.Batches.Shards.Dynamic.{DynamicBatchingArgs, sorted_indices}
use ne_mo_rl_enhanced_math_r.Batches.Shards.Dynamic.Order.{sorted_indices-Same}
use ne_mo_rl_enhanced_math_r.Batches.Shards.Dynamic.Micro.{Holds}
use ne_mo_rl_enhanced_math_r.Batches.Shards.Dynamic.Loop.{AllTiles, microbatches-AllTiles}
use ne_mo_rl_enhanced_math_r.Batches.Shards.Sorted.{AreParts-select, all_lengths_of-AreParts}
use ne_mo_rl_enhanced_math_r.Batches.Shards.Sorted.Even.{plan_of-even, shards-Fit}

All-flatten : (n : ℕ) (plan : List (List ℕ)) → Below n (flatten plan) → All (Below n) plan
unfolding flatten
All-flatten n [] b = tt
All-flatten n (is ∷ plan) b =
    let (here, later) = All-split (λ i. i < n) is (flatten plan) b in
    (here, All-flatten n plan later)

-- Even sizes that pass: the chunks make up the batch, and a shard has a row of each chunk.
pub chunks_whole :
    {shards b n : ℕ} {s : Sizes}
    → Passed shards b n false s
    → (s.num_chunks * s.batch_size ≡ s.total_batch_size)
      × (s.total_batch_size ≡ n)
      × (0 < s.shard_size)
chunks_whole {shards} {b} {n} p =
    let whole : n / b * b ≡ n = omega (arith, div-add-mod n b, p.in_chunks) in
    let row : 0 < b / shards =
      positive (b / shards) (omega (arith, div-add-mod b shards, p.in_shards refl)) in
    rw (p.found) (whole, refl, row)
  where
    positive : (k : ℕ) → shards * k ≡ b → 0 < k
    positive zero e = absurd (omega (arith, e, p.batch_size_positive))
    positive (suc k) e = omega arith

-- The rows that each shard gets once the batch is sorted.
abbrev pub sorted_plan : (shards : ℕ) → Sizes → List ℕ → List (List ℕ)
sorted_plan shards s indices = map (λ is. pick is indices) (plan_of shards s false)

module _ {A : Type 0} (item : A → ℕ) (width : ℕ → ℕ) where
  abbrev pub columns_of : List (SlicedDataDict A) → List (Dict (List A))
  columns_of parts = map (λ (x : SlicedDataDict A). x.columns) parts

  pub columns-with_microbatches :
      (micros : List (List ((ℕ × ℕ) × ℕ))) (parts : List (Dict (List A)))
      → columns_of (map (with_microbatches item width micros) parts) ≡ parts
  columns-with_microbatches micros [] = refl
  columns-with_microbatches micros (part ∷ parts) =
      ap (λ r. part ∷ r) (columns-with_microbatches micros parts)

  -- The lengths of the rows that each shard gets.
  abbrev pub sorted_lengths : List A → List (List ℕ) → List ℕ → List (List ℕ)
  sorted_lengths col plan indices = map (λ is. map item (pick is (pick indices col))) plan

  pub shard_dynamic-whole :
      (shards n b : ℕ) (args : DynamicBatchingArgs) (s : Sizes) (d : Dict (List A)) (col : List A)
      (round_positive : 0 < args.sequence_length_round)
      → batch_size d ≡ ok n
      → 0 < n
      → HasDistinctKeys d
      → Passed shards b n false s
      → lookup args.input_lengths_key d ≡ some col
      → All (λ a. Holds args (width args.input_key) (item a)) col
      → (parts : List (Dict (List A))) × (micros : List (List ((ℕ × ℕ) × ℕ))) × (shard_dynamic item
            width shards false args s d
          ≡ ok (
            map (with_microbatches item width micros) parts,
            sorted_indices shards s (map item col),
          ))
        × Perm (sorted_indices shards s (map item col)) (range n)
        × AreParts d (sorted_plan shards s (sorted_indices shards s (map item col))) parts
        × AllTiles args
            (width args.input_key)
            round_positive
            s.shard_size
            (sorted_lengths col (plan_of shards s false) (sorted_indices shards s (map item col)))
            (range s.num_chunks)
            micros
  unfolding shard_dynamic
  shard_dynamic-whole shards n b args s d col round_positive e l k p f holds =
      let order = sorted_indices shards s (map item col) in
      let plan = plan_of shards s false in
      let sized = batch_size-all_of_size n d e in
      let (whole, total, row) = chunks_whole p in
      let same : Same order (range n) = λ g.
        sorted_indices-Same shards s (map item col) (p.shards_positive) whole g
        ∙ ap (λ m. sum_of g (range m)) total in
      let below : Below n order = Same-below n order same in
      let size : length order ≡ n = length-Same n order same in
      let col_size : length col ≡ n = all_of_size-lookup n args.input_lengths_key d col sized f in
      let (sorted, g, sz, rows, keys) = select_indices-Below n order d sized below in
      let sorted_sized : all_of_size n sorted ≡ true = rw size at sz in
      let plan_below : Below n (flatten plan) =
        Same-below n (flatten plan) (Passed-plan_of shards b n false s (λ t. cc) p) in
      let (parts, h, are) =
        add_shards-AreParts n sorted sorted_sized
          (select_indices-HasDistinctKeys order d sorted g k) s false (range shards)
          (num_chunks-positive l p) plan_below in
      let lengths =
        all_lengths_of-AreParts item width args.input_lengths_key (pick order col) sorted plan parts
          (rows args.input_lengths_key col f) are in
      let below_col : Below (length col) order = rw col_size below in
      let picked_size : length (pick order col) ≡ n = length-pick order col below_col ∙ size in
      let plan_in : All (Below (length (pick order col))) plan =
        rw picked_size (All-flatten n plan plan_below) in
      let plan_in_order : All (Below (length order)) plan =
        rw size (All-flatten n plan plan_below) in
      let (micros, m, tiles) =
        microbatches-AllTiles args (width args.input_key) round_positive s.shard_size
          (sorted_lengths col plan order) (range s.num_chunks) row
          (All-range_from 0 s.num_chunks (λ c _ high.
            shards-Fit args (width args.input_key) round_positive item (pick order col)
              (All-pick _ order col holds) s.shard_size s.num_chunks c plan (omega (arith, high))
              plan_in (plan_of-even shards s))) in
      (
        parts,
        micros,
        rw (lengths_of, f, g, h, lengths, m) refl,
        perm-range n order same,
        AreParts-select n d sorted order plan parts sized below plan_in_order
            (record { rows = rows; keys = keys; size = sz }) are,
        tiles,
      )
