-- ===== src/Batches/Shards/Packed/Chunks.antt =====
-- The loop over the chunks: each is closed with as many microbatches in every shard.
use native.Mathlib.Nat.{mul-add-mod_self_right, mod-eq_of_lt}
use ne_mo_rl_enhanced_math_r.Common.{
  ℕ, zero, suc, ◌+◌, ◌*◌, ◌%◌, ◌≤◌, ◌<◌, ◌≡◌, refl, sym, ap, ◌∙◌, true, List, [], ◌∷◌, ◌++◌, arith,
  ok, Dict, length, length-append, All, All-append, range_from, sum-append, sum_of, sum_of-append,
}
use ne_mo_rl_enhanced_math_r.Batches.{all_of_size}
use ne_mo_rl_enhanced_math_r.Batches.Shards.Packed.{Plan, close_chunk, deal_chunks}
use ne_mo_rl_enhanced_math_r.Batches.Shards.Packed.Deal.{Spans, last_end-Spans, Closed, Sound}
use ne_mo_rl_enhanced_math_r.Batches.Shards.Packed.Rounds.{
  Balanced, weight, MayDeal, deal_bins-returns,
}
use ne_mo_rl_enhanced_math_r.Batches.Shards.Packed.Bins.{
  seqlen_at, PackedChunks, bins-Below, bins-MayDeal, bins-sum,
}
use ne_mo_rl_enhanced_math_r.Batches.Shards.Aggregate.Cover.{range_from-append}

Closed-append :
    (max_tokens q count : ℕ) (qs : List ℕ) (indices : List (List (ℕ × ℕ))) (lengths : List (List ℕ))
    (counts : List ℕ) (micros : List (ℕ × ℕ)) (seqlens : List ℕ)
    → Closed max_tokens qs indices lengths counts
    → Spans 0 count micros
    → length micros ≡ q
    → length seqlens ≡ q
    → All (λ l. l ≤ max_tokens) seqlens
    → Closed max_tokens
        (qs ++ q ∷ [])
        (indices ++ micros ∷ [])
        (lengths ++ seqlens ∷ [])
        (counts ++ count ∷ [])
Closed-append mt q count [] [] [] [] micros seqlens h s l m a = (s, l, m, a, tt)
Closed-append mt q count (x ∷ qs) (i ∷ is) (j ∷ ls) (k ∷ cs) micros seqlens h s l m a =
    (h.0, h.1, h.2, h.3, Closed-append mt q count qs is ls cs micros seqlens (h.4) s l m a)
Closed-append mt q count [] (i ∷ is) ls cs micros seqlens h s l m a = elim h [ ]
Closed-append mt q count [] [] (j ∷ ls) cs micros seqlens h s l m a = elim h [ ]
Closed-append mt q count [] [] [] (k ∷ cs) micros seqlens h s l m a = elim h [ ]
Closed-append mt q count (x ∷ qs) [] ls cs micros seqlens h s l m a = elim h [ ]
Closed-append mt q count (x ∷ qs) (i ∷ is) [] cs micros seqlens h s l m a = elim h [ ]
Closed-append mt q count (x ∷ qs) (i ∷ is) (j ∷ ls) [] micros seqlens h s l m a = elim h [ ]

module _ {A : Type 0} (max_tokens : ℕ) (d : Dict (List A)) where
  -- Closing returns if every shard has a microbatch, and the next chunk starts with none.
  close_chunk-returns :
      (qs : List ℕ) (q : ℕ) (plans : List (Plan A))
      → 0 < q
      → Balanced 0 q plans
      → All (Sound max_tokens d qs) plans
      → (after : List (Plan A)) × (close_chunk plans ≡ ok after)
        × (length after ≡ length plans)
        × All (Sound max_tokens d (qs ++ q ∷ [])) after
        × Balanced 0 0 after
        × ((f : ℕ → ℕ) → weight f after ≡ weight f plans)
  close_chunk-returns qs q [] l b s = ([], refl, refl, tt, refl, λ f. refl)
  close_chunk-returns qs q (p ∷ plans) l b s =
      let sp = s.0 in
      let (after, e, size, snd, bal, w) = close_chunk-returns qs q plans l (b.1) (s.1) in
      let last =
        last_end-Spans 0 (sp.end) p.chunk_micro_indices (omega (arith, b.0, l)) (sp.spans) in
      let closed : Plan A = record p {
        micro_indices = p.micro_indices ++ p.chunk_micro_indices ∷ [];
        micro_lengths = p.micro_lengths ++ p.chunk_micro_lengths ∷ [];
        elem_counts_per_gb = p.elem_counts_per_gb ++ sp.end ∷ [];
        chunk_micro_indices = [];
        chunk_micro_lengths = [];
      } in
      (
        closed ∷ after,
        rw (close_chunk, last, e) refl,
        ap suc size,
        (
          record {
            dealt = sp.dealt;
            parts_are = sp.parts_are;
            indices_are = sp.indices_are;
            dealt_count = omega (arith, sp.dealt_count, sum-append qs (q ∷ []), b.0);
            end = 0;
            spans = refl;
            rows_count =
                omega (arith, sp.rows_count, sum-append p.elem_counts_per_gb (sp.end ∷ []));
            same_number = refl;
            fits = tt;
            closed =
                Closed-append max_tokens q (sp.end) qs p.micro_indices p.micro_lengths
                  p.elem_counts_per_gb p.chunk_micro_indices p.chunk_micro_lengths (sp.closed)
                  (sp.spans) (b.0) (sp.same_number ∙ b.0) (sp.fits);
          },
          snd,
        ),
        (refl, bal),
        λ f. ap (λ k. sum_of f p.global_indices + k) (w f),
      )

module _ {A : Type 0} (n max_tokens pad batch_size shards : ℕ) (lens : List ℕ) (d : Dict (List A))
    (sized : all_of_size n d ≡ true) (lens_size : length lens ≡ n) where
  -- A whole number of rounds over the shards.
  rounds : (q r k : ℕ) → k ≡ q * shards + r → r < shards → k % shards ≡ 0 → r ≡ 0
  rounds q r k e l z =
      sym (mod-eq_of_lt l)
      ∙ sym (mul-add-mod_self_right q shards r)
      ∙ ap (λ i. i % shards) (sym e)
      ∙ z

  -- Dealing all chunks returns. Every shard then has as many microbatches of each chunk, at least one
  -- of each, and the indices of all shards are those of the rows of the chunks.
  pub deal_chunks-returns :
      (c : ℕ) (chunks : List (List (List ℕ))) (plans : List (Plan A)) (qs : List ℕ)
      → PackedChunks max_tokens pad batch_size shards lens c chunks
      → (c + length chunks) * batch_size ≤ length lens
      → 0 < shards
      → length plans ≡ shards
      → Balanced 0 0 plans
      → All (Sound max_tokens d qs) plans
      → All (λ q. 0 < q) qs
      → (after : List (Plan A)) × (qs' : List ℕ) × (deal_chunks shards batch_size
            (seqlen_at max_tokens pad batch_size shards lens)
            d
            c
            chunks
            plans
          ≡ ok after)
        × (length after ≡ shards)
        × Balanced 0 0 after
        × All (Sound max_tokens d qs') after
        × All (λ q. 0 < q) qs'
        × (length qs' ≡ length qs + length chunks)
        × ((f : ℕ → ℕ)
            → weight f after
              ≡ weight f plans
                + sum_of f (range_from (c * batch_size) (length chunks * batch_size)))
  deal_chunks-returns c [] plans qs packed l s size bal sound pos =
      let none_left : 0 * batch_size ≡ 0 = omega arith in
      (plans, qs, refl, size, bal, sound, pos, omega arith, λ f. rw none_left (omega arith))
  deal_chunks-returns c (bins ∷ chunks) plans qs packed l s size bal sound pos =
      let (packing, some_bin, multiple) = packed.0 in
      let seqlen = seqlen_at max_tokens pad batch_size shards lens in
      let inside : suc c * batch_size ≤ length lens = earlier l in
      let below = bins-Below max_tokens pad batch_size shards lens c inside bins packing in
      let may =
        bins-MayDeal max_tokens pad batch_size shards lens c inside bins below (packing.fits)
          (packing.filled) in
      let may' : MayDeal n max_tokens shards (c * batch_size) seqlen d qs sized bins =
        rw lens_size at may in
      let (dealt, e, size', sound', (q, r, count, r_in, bal'), w) =
        deal_bins-returns n max_tokens shards (c * batch_size) seqlen d qs sized bins 0 0 0 plans
          may' (omega arith) s size bal sound in
      let whole : r ≡ 0 = rounds q r (length bins) (omega (arith, count)) r_in multiple in
      let bal'' : Balanced 0 q dealt = rw whole at bal' in
      let q_positive : 0 < q = some_round q (omega (arith, count, whole, some_bin)) in
      let (closed, g, size'', sound'', bal₀, w') =
        close_chunk-returns max_tokens d qs q dealt q_positive bal'' sound' in
      let (after, qs', h, size₃, bal₃, sound₃, pos₃, count₃, w'') =
        deal_chunks-returns (suc c) chunks closed (qs ++ q ∷ []) (packed.1) (later l) s
          (size'' ∙ size') bal₀ sound''
          (All-append (λ k. 0 < k) qs (q ∷ []) pos (q_positive, tt)) in
      (
        after,
        qs',
        rw (e, g) h,
        size₃,
        bal₃,
        sound₃,
        pos₃,
        omega (arith, count₃, length-append qs (q ∷ [])),
        λ f.
            let here = bins-sum max_tokens pad batch_size shards lens c inside bins f packing in
            let more : suc (length chunks) * batch_size ≡ batch_size + length chunks * batch_size =
              omega arith in
            let next : c * batch_size + batch_size ≡ suc c * batch_size = omega arith in
            let both =
              ap (sum_of f)
                (range_from-append (c * batch_size) batch_size (length chunks * batch_size)) in
            let split =
              sum_of-append f (range_from (c * batch_size) batch_size)
                (range_from (c * batch_size + batch_size) (length chunks * batch_size)) in
            let from = ap (λ k. sum_of f (range_from k (length chunks * batch_size))) next in
            rw more (omega (arith, w'' f, w' f, w f, here, both, split, from)),
      )
    where
      times : {a b : ℕ} → a ≤ b → a * batch_size ≤ b * batch_size
      times l = grind (arith, l)

      earlier :
          (c + suc (length chunks)) * batch_size ≤ length lens → suc c * batch_size ≤ length lens
      earlier l =
          let le : suc c * batch_size ≤ (c + suc (length chunks)) * batch_size =
            times (omega arith) in
          omega (arith, l, le)

      later :
          (c + suc (length chunks)) * batch_size ≤ length lens
          → (suc c + length chunks) * batch_size ≤ length lens
      later l =
          let same : suc c + length chunks ≡ c + suc (length chunks) = omega arith in rw same l

      some_round : (q : ℕ) → 0 < q * shards → 0 < q
      some_round zero h = absurd (omega (arith, h))
      some_round (suc q) h = omega arith
