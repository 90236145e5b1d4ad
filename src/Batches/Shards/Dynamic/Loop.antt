-- ===== src/Batches/Shards/Dynamic/Loop.antt =====
-- The loop that makes the microbatches of a chunk returns, and they cover the chunk.
use ne_mo_rl_enhanced_math_r.Common.{
  ℕ, zero, suc, ◌+◌, ◌-◌, ◌*◌, ◌≤◌, ◌<◌, ◌≡◌, refl, ap, ◌∙◌, inl, inr, max, true, false, List, [],
  ◌∷◌, map, leb, ◌==◌, arith, Bool-cases, Result, ok, ◌>>=◌, get_or, length, All, take, drop,
}
use ne_mo_rl_enhanced_math_r.Batches.Rows.{ShardError}
use ne_mo_rl_enhanced_math_r.Batches.Shards.Dynamic.{
  DynamicBatchingArgs, padded, microbatches_from, microbatches,
}
use ne_mo_rl_enhanced_math_r.Batches.Shards.Dynamic.Micro.{
  top, Holds, Holds-zero, top-Holds, Covers, Tiles, length_at-returns, covers-top,
}

module _ (args : DynamicBatchingArgs) (width : ℕ)
    (round_positive : 0 < args.sequence_length_round) where
  All-weaken :
      (j a b : ℕ) (lengths : List (List ℕ))
      → a ≤ b
      → All (λ ls. padded args width (get_or ls j 0) ≤ a) lengths
      → All (λ ls. padded args width (get_or ls j 0) ≤ b) lengths
  All-weaken j a b [] l h = tt
  All-weaken j a b (ls ∷ lengths) l h = (omega (arith, l, h.0), All-weaken j a b lengths l (h.1))

  Covers-extend :
      (start i seqlen : ℕ) (lengths : List (List ℕ))
      → Covers args width seqlen lengths start i
      → Covers args width (max seqlen (padded args width (top i lengths))) lengths start (suc i)
  Covers-extend start i seqlen lengths c j l m = elim (Bool-cases (j == i)) [
    | inl e ↦
        let same : j ≡ i = ground (arith, e) in
        rw same (
          All-weaken i (padded args width (top i lengths)) _ lengths (omega arith)
            (covers-top args width round_positive i lengths))
    | inr e ↦ All-weaken j seqlen _ lengths (omega arith) (c j l (ground (arith, e, m)))
  ]

  Covers-new :
      (i : ℕ) (lengths : List (List ℕ))
      → Covers args width (padded args width (top i lengths)) lengths i (suc i)
  Covers-new i lengths j l m =
      let same : j ≡ i = omega (arith, l, m) in
      rw same (covers-top args width round_positive i lengths)

  -- The indices from `i` on, `n` of them, are those of a row of every shard, which a microbatch
  -- can hold.
  abbrev pub Fit : List (List ℕ) → (i n : ℕ) → Type 0
  Fit lengths i n =
      (j : ℕ)
      → i ≤ j
      → j < i + n
      → All (λ ls. j < length ls) lengths × All (λ ls. Holds args width (get_or ls j 0)) lengths

  from-Tiles :
      (lengths : List (List ℕ)) (start seqlen i n : ℕ)
      → start < i
      → (i - start) * seqlen ≤ args.max_tokens_per_microbatch
      → Covers args width seqlen lengths start i
      → Fit lengths i n
      → (micros : List ((ℕ × ℕ) × ℕ)) × (microbatches_from args width lengths start i seqlen seqlen
            i n
          ≡ ok micros)
        × Tiles args width lengths start (i + n) micros
  from-Tiles lengths start seqlen i zero l t c h =
      (((start, i), seqlen) ∷ [], refl, (refl, l, t, c, omega arith))
  from-Tiles lengths start seqlen i (suc n) l t c h =
      let (inside, holds) = h i (omega arith) (omega arith) in
      let next = padded args width (top i lengths) in
      let e = length_at-returns args width round_positive i lengths inside holds in
      let small : next ≤ args.max_tokens_per_microbatch =
        top-Holds args width i lengths (Holds-zero args width round_positive) holds in
      let later : Fit lengths (suc i) n = (λ j a b. h j (omega (arith, a)) (omega (arith, b))) in
      let ends : suc i + n ≡ i + suc n = omega arith in
      let longer =
        microbatches_from args width lengths start (suc i) (max seqlen next) (max seqlen next)
          (suc i) n in
      let another : Result ShardError (List ((ℕ × ℕ) × ℕ)) =
        microbatches_from args width lengths i (suc i) next next (suc i) n
        >>= (λ rest. ok (((start, i), seqlen) ∷ rest)) in
      elim (Bool-cases (leb ((i - start + 1) * max seqlen next) args.max_tokens_per_microbatch)) [
        | inl f ↦
            let size : suc i - start ≡ i - start + 1 = omega (arith, l) in
            let fits : (suc i - start) * max seqlen next ≤ args.max_tokens_per_microbatch =
              rw size (ground (arith, f)) in
            let (micros, g, tiles) =
              from-Tiles lengths start (max seqlen next) (suc i) n (omega (arith, l)) fits
                (Covers-extend start i seqlen lengths c) later in
            (
              micros,
              rw (microbatches_from, e)
                  (ap (λ b. elim b [ true ↦ longer | false ↦ another ]) f ∙ g),
              rw ends at tiles,
            )
        | inr f ↦
            let one : (suc i - i) * next ≤ args.max_tokens_per_microbatch = single i next small in
            let (micros, g, tiles) =
              from-Tiles lengths i next (suc i) n (omega arith) one (Covers-new i lengths) later in
            (
              ((start, i), seqlen) ∷ micros,
              rw (microbatches_from, e)
                  (ap (λ b. elim b [ true ↦ longer | false ↦ another ]) f
                    ∙ ap (λ r. r >>= (λ rest. ok (((start, i), seqlen) ∷ rest))) g),
              (refl, l, t, c, rw ends at tiles),
            )
      ]
    where
      single : (i k : ℕ) {m : ℕ} → k ≤ m → (suc i - i) * k ≤ m
      single i k l = let one : suc i - i ≡ 1 = omega arith in rw one (omega (arith, l))

  -- A chunk with a row: its microbatches go from its first row to its last.
  pub chunk-Tiles :
      (lengths : List (List ℕ)) (n : ℕ)
      → 0 < n
      → Fit lengths 0 n
      → (micros : List ((ℕ × ℕ) × ℕ)) × (microbatches_from args width lengths 0 0 0 0 0 n
          ≡ ok micros)
        × Tiles args width lengths 0 n micros
  chunk-Tiles lengths zero l h = absurd (omega (arith, l))
  chunk-Tiles lengths (suc n) l h =
      let (inside, holds) = h 0 (omega arith) (omega arith) in
      let next = padded args width (top 0 lengths) in
      let e = length_at-returns args width round_positive 0 lengths inside holds in
      let small : next ≤ args.max_tokens_per_microbatch =
        top-Holds args width 0 lengths (Holds-zero args width round_positive) holds in
      let zero_first : max 0 next ≡ next = omega arith in
      let first_fits : leb ((0 - 0 + 1) * max 0 next) args.max_tokens_per_microbatch ≡ true =
        ground (arith, small) in
      let fits : (1 - 0) * next ≤ args.max_tokens_per_microbatch = omega (arith, small) in
      let covers : Covers args width next lengths 0 1 = Covers-new 0 lengths in
      let ends : 1 + n ≡ suc n = omega arith in
      let longer : ℕ → Result ShardError (List ((ℕ × ℕ) × ℕ)) =
        λ k. microbatches_from args width lengths 0 1 k k 1 n in
      let another : Result ShardError (List ((ℕ × ℕ) × ℕ)) =
        microbatches_from args width lengths 0 1 next next 1 n
        >>= (λ rest. ok (((0, 0), 0) ∷ rest)) in
      let (micros, g, tiles) =
        from-Tiles lengths 0 next 1 n (omega arith) fits covers
          (λ j a b. h j (omega (arith, a)) (omega (arith, b))) in
      (
        micros,
        rw (microbatches_from, e)
            (ap (λ b. elim b [ true ↦ longer (max 0 next) | false ↦ another ]) first_fits
              ∙ ap longer zero_first
              ∙ g),
        rw ends at tiles,
      )

  -- The rows of a chunk of each shard.
  abbrev pub chunk_lengths : ℕ → List (List ℕ) → ℕ → List (List ℕ)
  chunk_lengths size lengths c = map (λ ls. take size (drop (c * size) ls)) lengths

  -- Microbatches for each of the chunks.
  abbrev pub AllTiles : ℕ → List (List ℕ) → List ℕ → List (List ((ℕ × ℕ) × ℕ)) → Type 0
  AllTiles size lengths [] [] = Unit {0}
  AllTiles size lengths [] (m ∷ micros) = ⊥
  AllTiles size lengths (c ∷ chunks) [] = ⊥
  AllTiles size lengths (c ∷ chunks) (m ∷ micros) =
      Tiles args width (chunk_lengths size lengths c) 0 size m × AllTiles size lengths chunks micros

  pub microbatches-AllTiles :
      (size : ℕ) (lengths : List (List ℕ)) (chunks : List ℕ)
      → 0 < size
      → All (λ c. Fit (chunk_lengths size lengths c) 0 size) chunks
      → (micros : List (List ((ℕ × ℕ) × ℕ))) × (microbatches args width size lengths chunks
          ≡ ok micros)
        × AllTiles size lengths chunks micros
  microbatches-AllTiles size lengths [] l h = ([], refl, tt)
  microbatches-AllTiles size lengths (c ∷ chunks) l h =
      let (m, e, t) = chunk-Tiles (chunk_lengths size lengths c) size l (h.0) in
      let (micros, f, ts) = microbatches-AllTiles size lengths chunks l (h.1) in
      (m ∷ micros, rw (e, f) refl, (t, ts))
