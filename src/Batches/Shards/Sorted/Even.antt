-- ===== src/Batches/Shards/Sorted/Even.antt =====
-- Even shards have as many rows of each chunk, so that the loop over the microbatches finds one in
-- each shard.
use ne_mo_rl_enhanced_math_r.Common.{
  ℕ, ◌+◌, ◌-◌, ◌*◌, ◌≤◌, ◌<◌, ◌≡◌, ap, ◌∙◌, false, List, [], ◌∷◌, map, arith, min, range, All,
  All-get_or, flatten, length, length-append, All-take, All-drop, length-map, length-take,
  length-drop, length-range_from, take, drop,
}
use ne_mo_rl_enhanced_math_r.Batches.Rows.Pick.{Below, pick, length-pick}
use ne_mo_rl_enhanced_math_r.Batches.Rows.Compose.{All-pick}
use ne_mo_rl_enhanced_math_r.Batches.Shards.Split.{Sizes, sub_shard}
use ne_mo_rl_enhanced_math_r.Batches.Shards.Aggregate.Cover.{plan_of}
use ne_mo_rl_enhanced_math_r.Batches.Shards.Dynamic.{DynamicBatchingArgs}
use ne_mo_rl_enhanced_math_r.Batches.Shards.Dynamic.Micro.{Holds}
use ne_mo_rl_enhanced_math_r.Batches.Shards.Dynamic.Loop.{Fit, chunk_lengths}

length-sub_shards :
    (s : Sizes) (i : ℕ) (chunks : List ℕ)
    → length (flatten (map (sub_shard s false i) chunks)) ≡ length chunks * s.shard_size
unfolding flatten
length-sub_shards s i [] = omega arith
length-sub_shards s i (c ∷ chunks) =
    let size : (c * s.batch_size + (i + 1) * s.shard_size) - (c * s.batch_size + i * s.shard_size)
        ≡ s.shard_size =
      omega arith in
    omega (
      arith,
      length-append (sub_shard s false i c) (flatten (map (sub_shard s false i) chunks)),
      length-range_from (c * s.batch_size + i * s.shard_size)
          ((c * s.batch_size + (i + 1) * s.shard_size) - (c * s.batch_size + i * s.shard_size)),
      size,
      length-sub_shards s i chunks,
    )

-- Each shard has the same number of rows.
pub plan_of-even :
    (shards : ℕ) (s : Sizes)
    → All (λ is. length is ≡ s.num_chunks * s.shard_size) (plan_of shards s false)
plan_of-even shards s = each (range shards)
  where
    each :
        (is : List ℕ)
        → All
            (λ is. length is ≡ s.num_chunks * s.shard_size)
            (map (λ i. flatten (map (sub_shard s false i) (range s.num_chunks))) is)
    each [] = tt
    each (i ∷ is) = (
      length-sub_shards s i (range s.num_chunks)
          ∙ ap (λ k. k * s.shard_size) (length-range_from 0 s.num_chunks),
      each is,
    )

module _ {A : Type 0} (args : DynamicBatchingArgs) (width : ℕ)
    (round_positive : 0 < args.sequence_length_round) (item : A → ℕ) (col : List A)
    (holds : All (λ a. Holds args width (item a)) col) where
  All-item :
      (xs : List A) → All (λ a. Holds args width (item a)) xs → All (Holds args width) (map item xs)
  All-item [] h = tt
  All-item (a ∷ xs) h = (h.0, All-item xs (h.1))

  -- In every chunk there is a row of each shard, and a microbatch can hold it.
  pub shards-Fit :
      (size chunks c : ℕ) (plan : List (List ℕ))
      → c < chunks
      → All (Below (length col)) plan
      → All (λ is. length is ≡ chunks * size) plan
      → Fit args width round_positive
          (chunk_lengths args width round_positive size (map (λ is. map item (pick is col)) plan) c)
          0
          size
  shards-Fit size chunks c [] l b e = λ j _ _. (tt, tt)
  shards-Fit size chunks c (is ∷ plan) l b e = λ j low high.
      let (inside, fits) = shards-Fit size chunks c plan l (b.1) (e.1) j low high in
      let ls = map item (pick is col) in
      let here : length (take size (drop (c * size) ls)) ≡ min size (length is - c * size) =
        length-take size (drop (c * size) ls)
        ∙ ap (min size) (
            length-drop (c * size) ls
            ∙ ap (λ k. k - c * size) (length-map (pick is col) item ∙ length-pick is col (b.0))) in
      let enough : c * size + size ≤ chunks * size = times l in
      let this : j < length (take size (drop (c * size) ls)) =
        omega (arith, here, enough, e.0, high) in
      (
        (this, inside),
        (
          All-get_or (Holds args width) j (take size (drop (c * size) ls)) 0
              (All-take (Holds args width) size (drop (c * size) ls) (
                All-drop (Holds args width) (c * size) ls
                  (All-item (pick is col) (All-pick _ is col holds))))
              this,
          fits,
        ),
      )
    where
      times : {c k : ℕ} → c < k → c * size + size ≤ k * size
      times l = grind (arith, l)
