-- ===== src/Batches/Shards/Packed/Bins.antt =====
-- The bins of each chunk: the packer returns them, and they may be dealt.
use native.Mathlib.Nat.{div-add-mod, mod-lt}
use ne_mo_rl_enhanced_math_r.Common.{
  ℕ, zero, suc, ◌+◌, ◌-◌, ◌*◌, ◌/◌, ◌%◌, ◌≤◌, ◌<◌, ◌≡◌, ◌≢◌, refl, sym, ap, ◌∙◌, min, false, List,
  [], ◌∷◌, map, arith, ok, ◌==◌, length, length-map, length-take, length-drop, take, drop, get_or,
  get_or-map, get_or-take, get_or-drop, All, All-take, All-drop, All-map, All-split, flatten, range,
  range_from, sum_of, sum_of-map, sum_of-flatten, sum_of_cong, perm-Same, Same-below,
}
use ne_mo_rl_enhanced_math_r.Packing.Base.{IsPacking, load}
use ne_mo_rl_enhanced_math_r.Packing.Packer.{PackingAlgorithm, Shuffle}
use ne_mo_rl_enhanced_math_r.Packing.Packer.Correct.{Shuffles}
use ne_mo_rl_enhanced_math_r.Packing.Packer.Enough.{packer_for, pack_enough}
use ne_mo_rl_enhanced_math_r.Batches.Rows.Pick.{Below}
use ne_mo_rl_enhanced_math_r.Batches.Shards.Dynamic.Order.{map-range_from}
use ne_mo_rl_enhanced_math_r.Batches.Shards.Packed.{get_padded_seqlen, pack_chunks}

padded-positive : (pad l : ℕ) → 0 < pad → 0 < l → 0 < get_padded_seqlen pad l
padded-positive pad l p q = times ((l + pad - 1) / pad) (
    some_whole ((l + pad - 1) / pad)
      (omega (arith, q, div-add-mod (l + pad - 1) pad, mod-lt (l + pad - 1) p)))
  where
    some_whole : (k : ℕ) → 0 < pad * k → 0 < k
    some_whole zero h = absurd (omega (arith, h))
    some_whole (suc k) h = omega arith

    times : (k : ℕ) → 0 < k → 0 < k * pad
    times zero h = absurd (omega (arith, h))
    times (suc k) h = omega (arith, p)

module _ (max_tokens pad batch_size shards : ℕ) (lens : List ℕ) where
  -- The padded lengths of a chunk.
  abbrev pub chunk_padded : ℕ → List ℕ
  chunk_padded c = map (get_padded_seqlen pad) (take batch_size (drop (c * batch_size) lens))

  -- The bins of chunk `c`: a packing of its lengths, a multiple of the number of shards.
  abbrev pub PackedChunk : ℕ → List (List ℕ) → Type 0
  PackedChunk c bins =
      IsPacking max_tokens (chunk_padded c) bins × (0 < length bins) × (length bins % shards ≡ 0)

  -- The bins of the chunks from `c` on.
  abbrev pub PackedChunks : ℕ → List (List (List ℕ)) → Type 0
  PackedChunks c [] = Unit {0}
  PackedChunks c (bins ∷ chunks) = PackedChunk c bins × PackedChunks (suc c) chunks

  pub length-chunk_padded :
      (c : ℕ) → suc c * batch_size ≤ length lens → length (chunk_padded c) ≡ batch_size
  length-chunk_padded c l =
      let more : suc c * batch_size ≡ c * batch_size + batch_size = omega arith in
      length-map (take batch_size (drop (c * batch_size) lens)) (get_padded_seqlen pad)
      ∙ length-take batch_size (drop (c * batch_size) lens)
      ∙ ap (min batch_size) (length-drop (c * batch_size) lens)
      ∙ omega (arith, l, more)

  -- The length that a bin's index stands for.
  abbrev pub seqlen_at : ℕ → ℕ
  seqlen_at i = get_padded_seqlen pad (get_or lens i 0)

  get_or-chunk_padded :
      (c i : ℕ)
      → suc c * batch_size ≤ length lens
      → i < batch_size
      → get_or (chunk_padded c) i 0 ≡ seqlen_at (i + c * batch_size)
  get_or-chunk_padded c i l below =
      let chunk = take batch_size (drop (c * batch_size) lens) in
      let size : length chunk ≡ batch_size =
        sym (length-map chunk (get_padded_seqlen pad)) ∙ length-chunk_padded c l in
      get_or-map (get_padded_seqlen pad) i chunk 0 0 (omega (arith, size, below))
      ∙ ap (get_padded_seqlen pad) (
          get_or-take batch_size i (drop (c * batch_size) lens) 0 below
          ∙ get_or-drop (c * batch_size) i lens 0)

  module _ (c : ℕ) (inside : suc c * batch_size ≤ length lens) where
    abbrev to_global : List ℕ → List ℕ
    to_global bin = map (λ i. i + c * batch_size) bin

    pub bins-Below :
        (bins : List (List ℕ))
        → IsPacking max_tokens (chunk_padded c) bins
        → Below batch_size (flatten bins)
    bins-Below bins p = Same-below batch_size (flatten bins) (λ f.
        perm-Same (p.complete) f ∙ ap (λ k. sum_of f (range k)) (length-chunk_padded c inside))

    -- Each bin of a packing is not empty, holds the tokens of a microbatch, and is of the batch.
    pub bins-MayDeal :
        (bins : List (List ℕ))
        → Below batch_size (flatten bins)
        → All (λ bin. load (chunk_padded c) bin ≤ max_tokens) bins
        → All (λ bin. bin ≢ []) bins
        → All
            (λ bin.
              (0 < length bin)
              × (sum_of seqlen_at (to_global bin) ≤ max_tokens)
              × Below (length lens) (to_global bin))
            bins
    unfolding flatten
    bins-MayDeal [] b fits filled = tt
    bins-MayDeal (bin ∷ bins) b fits filled =
        let (here, later) = All-split (λ i. i < batch_size) bin (flatten bins) b in
        let tokens : sum_of seqlen_at (to_global bin) ≡ load (chunk_padded c) bin =
          sum_of-map seqlen_at (λ i. i + c * batch_size) bin
          ∙ sum_of_cong _ _ bin (lengths_of bin here) in
        (
          (
            some_row bin (filled.0),
            omega (arith, tokens, fits.0),
            All-map (λ i. i < length lens) (λ i. i + c * batch_size) bin (global bin here),
          ),
          bins-MayDeal bins later (fits.1) (filled.1),
        )
      where
        some_row : (bin : List ℕ) → bin ≢ [] → 0 < length bin
        some_row [] h = absurd (h refl)
        some_row (x ∷ bin) h = omega arith

        lengths_of :
            (bin : List ℕ)
            → Below batch_size bin
            → All (λ i. seqlen_at (i + c * batch_size) ≡ get_or (chunk_padded c) i 0) bin
        lengths_of [] h = tt
        lengths_of (i ∷ bin) h = (sym (get_or-chunk_padded c i inside (h.0)), lengths_of bin (h.1))

        global :
            (bin : List ℕ) → Below batch_size bin → All (λ i. i + c * batch_size < length lens) bin
        global [] h = tt
        global (i ∷ bin) h = (omega (arith, h.0, inside), global bin (h.1))

    -- The indices of all bins are those of the rows of the chunk.
    pub bins-sum :
        (bins : List (List ℕ)) (f : ℕ → ℕ)
        → IsPacking max_tokens (chunk_padded c) bins
        → sum_of f (flatten (map to_global bins))
          ≡ sum_of f (range_from (c * batch_size) batch_size)
    bins-sum bins f p =
        let from : 0 + c * batch_size ≡ c * batch_size = omega arith in
        sum_of-flatten f (map to_global bins)
        ∙ sum_of-map (sum_of f) to_global bins
        ∙ sum_of_cong _ _ bins (each bins)
        ∙ sym (sum_of-flatten (λ i. f (i + c * batch_size)) bins)
        ∙ perm-Same (p.complete) (λ i. f (i + c * batch_size))
        ∙ ap (λ k. sum_of (λ i. f (i + c * batch_size)) (range k)) (length-chunk_padded c inside)
        ∙ sym (sum_of-map f (λ i. i + c * batch_size) (range batch_size))
        ∙ ap (sum_of f) (map-range_from (c * batch_size) 0 batch_size)
        ∙ ap (λ k. sum_of f (range_from k batch_size)) from
      where
        each :
            (bins : List (List ℕ))
            → All (λ bin. sum_of f (to_global bin) ≡ sum_of (λ i. f (i + c * batch_size)) bin) bins
        each [] = tt
        each (bin ∷ bins) = (sum_of-map f (λ i. i + c * batch_size) bin, each bins)

  -- The packer returns for every chunk.
  pub pack_chunks-returns :
      (shuffle : Shuffle) (algorithm : PackingAlgorithm) (c k : ℕ)
      → Shuffles shuffle
      → 0 < shards
      → 0 < pad
      → 0 < max_tokens
      → 0 < batch_size
      → batch_size % shards ≡ 0
      → (c + k) * batch_size ≤ length lens
      → All (λ l. 0 < l) lens
      → All (λ l. get_padded_seqlen pad l ≤ max_tokens) lens
      → (chunks : List (List (List ℕ))) × (pack_chunks shuffle pad batch_size lens
            (range_from c k)
            (packer_for algorithm max_tokens shards)
          ≡ ok chunks)
        × PackedChunks c chunks
        × (length chunks ≡ k)
  pack_chunks-returns shuffle algorithm c zero h s p m b e l pos small = ([], refl, tt, refl)
  pack_chunks-returns shuffle algorithm c (suc k) h s p m b e l pos small =
      let chunk = take batch_size (drop (c * batch_size) lens) in
      let inside : suc c * batch_size ≤ length lens = earlier l in
      let positive : All (λ x. 0 < get_padded_seqlen pad x) chunk =
        All-take _ batch_size _ (All-drop _ (c * batch_size) lens (padded_all lens pos)) in
      let fits : All (λ x. get_padded_seqlen pad x ≤ max_tokens) chunk =
        All-take _ batch_size _ (All-drop _ (c * batch_size) lens small) in
      let size = length-chunk_padded c inside in
      let (bins, f, packing, some_bin, multiple) =
        pack_enough shuffle algorithm max_tokens shards (chunk_padded c) h s m
          (All-map (λ x. 0 < x) (get_padded_seqlen pad) chunk positive)
          (All-map (λ x. x ≤ max_tokens) (get_padded_seqlen pad) chunk fits)
          (omega (arith, size, b)) (ap (λ n. n % shards) size ∙ e) in
      let (chunks, g, packed, count) =
        pack_chunks-returns shuffle algorithm (suc c) k h s p m b e (later l) pos small in
      let pad_positive : (pad == 0) ≡ false = ground (arith, p) in
      (
        bins ∷ chunks,
        rw (pad_positive, f, g) refl,
        ((packing, some_bin, multiple), packed),
        ap suc count,
      )
    where
      times : {a b : ℕ} → a ≤ b → a * batch_size ≤ b * batch_size
      times l = grind (arith, l)

      earlier : (c + suc k) * batch_size ≤ length lens → suc c * batch_size ≤ length lens
      earlier l =
          let le : suc c * batch_size ≤ (c + suc k) * batch_size = times (omega arith) in
          omega (arith, l, le)

      later : (c + suc k) * batch_size ≤ length lens → (suc c + k) * batch_size ≤ length lens
      later l = let same : suc c + k ≡ c + suc k = omega arith in rw same l

      padded_all : (xs : List ℕ) → All (λ x. 0 < x) xs → All (λ x. 0 < get_padded_seqlen pad x) xs
      padded_all [] h = tt
      padded_all (x ∷ xs) h = (padded-positive pad x p (h.0), padded_all xs (h.1))
