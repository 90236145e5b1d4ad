-- ===== src/Batches/Shards/PackedShards/Tokens.antt =====
-- How many tokens a microbatch of packed sequences has: the lengths that `shard_by_batch_size` records.
use ne_mo_rl_enhanced_math_r.Common.{
  ℕ, ◌≡◌, refl, ap, sym, ◌∙◌, inl, inr, List, [], ◌∷◌, ◌++◌, map, some, false, arith, Result, ok,
  Result-cases, Dict, All, length, flatten, sum_of, append-nil, range, get_or, replicate,
}
use ne_mo_rl_enhanced_math_r.Common.Int.{pos}
use ne_mo_rl_enhanced_math_r.Packing.Packer.{Shuffle, get_packer}
use ne_mo_rl_enhanced_math_r.Batches.Rows.{ShardError}
use ne_mo_rl_enhanced_math_r.Batches.Shards.{SlicedDataDict, from_plans}
use ne_mo_rl_enhanced_math_r.Batches.Shards.Split.{Sizes}
use ne_mo_rl_enhanced_math_r.Batches.Shards.Packed.{
  SequencePackingArgs, Plan, empty_plan, get_padded_seqlen, pack_chunks, plans_of, from_packer,
  from_batches,
}
use ne_mo_rl_enhanced_math_r.Batches.Shards.Packed.Measured.{
  span, Measured, IsClosed, deal_chunks-Measured, empty-Measured,
}
use ne_mo_rl_enhanced_math_r.Batches.Shards.PackedShards.{indices_of}

-- The tokens of the row at a place of the batch: its length, padded.
abbrev pub padded_length : (pad_multiple : ℕ) → List ℕ → ℕ → ℕ
padded_length pad_multiple lens i = get_padded_seqlen pad_multiple (get_or lens i 0)

-- The rows of a shard, in order, are those of its bins. The microbatches of its chunks, one chunk
-- after the other, span as many rows as the bins have, and the length that is recorded for each is
-- the sum of the tokens of the rows of its bin.
pub record HasTokens {A : Type 0} (f : ℕ → ℕ) (rows : List ℕ) (x : SlicedDataDict A) : Type 0 where
  pub bins : List (List ℕ)
  pub indices : List (List (ℕ × ℕ))
  pub lengths : List (List ℕ)
  pub indices_are : x.micro_batch_indices ≡ some indices
  pub lengths_are : x.micro_batch_lengths ≡ some lengths
  pub rows_are : flatten bins ≡ rows
  pub spans_are : map (λ (micro : ℕ × ℕ). span micro) (flatten indices) ≡ map length bins
  pub tokens_are : flatten lengths ≡ map (sum_of f) bins

abbrev pub AllHaveTokens : {A : Type 0} → (ℕ → ℕ) → List (List ℕ) → List (SlicedDataDict A) → Type 0
AllHaveTokens f [] [] = Unit {0}
AllHaveTokens f [] (x ∷ parts) = ⊥
AllHaveTokens f (rows ∷ plan) [] = ⊥
AllHaveTokens f (rows ∷ plan) (x ∷ parts) = HasTokens f rows x × AllHaveTokens f plan parts

module _ {A : Type 0} (item : A → ℕ) (width : ℕ → ℕ) where
  pub plans_of-Measured :
      (shuffle : Shuffle) (shards : ℕ) (args : SequencePackingArgs) (s : Sizes) (lens : List ℕ)
      (d : Dict (List A)) (plans : List (Plan A))
      → plans_of shuffle shards args s lens d ≡ ok plans
      → All (Measured (padded_length args.sequence_length_pad_multiple lens)) plans
        × All IsClosed plans
  unfolding plans_of
  plans_of-Measured shuffle shards args s lens d plans e =
      let f = padded_length args.sequence_length_pad_multiple lens in
      let packer = from_packer (
        get_packer args.algorithm args.max_tokens_per_microbatch false (some (pos shards))
          (some (pos shards))) in
      elim (Result-cases packer) [
        | inr (x, g) ↦ let y = rw g at e in cc
        | inl (p, g) ↦
            let chunks =
              pack_chunks shuffle args.sequence_length_pad_multiple s.batch_size lens
                (range s.num_chunks) p in
            elim (Result-cases chunks) [
              | inr (x, h) ↦ let y = rw (g, h) at e in cc
              | inl (assignments, h) ↦
                  deal_chunks-Measured f shards s.batch_size d 0 assignments
                    (replicate shards empty_plan) plans (rw (g, h) at e) (empty-Measured A f shards)
            ]
      ]

  pub from_plans-tokens :
      (f : ℕ → ℕ) (plans : List (Plan A)) (parts : List (SlicedDataDict A))
      → from_plans item width plans ≡ ok parts
      → All (Measured f) plans
      → All IsClosed plans
      → AllHaveTokens f (indices_of item width plans) parts
  from_plans-tokens f [] parts e m c =
      let same : ◌≡◌ {A = List (SlicedDataDict A)} [] parts = ground (arith, e) in rw (← same) tt
  from_plans-tokens f (p ∷ plans) parts e m c = elim (Result-cases (from_batches p.parts)) [
    | inr (x, g) ↦ let y = rw g at e in cc
    | inl (columns, g) ↦ elim (Result-cases (from_plans item width plans)) [
      | inr (x, h) ↦ let y = rw (g, h) at e in cc
      | inl (rest, h) ↦
          let shard : SlicedDataDict A = record {
            columns = columns;
            micro_batch_indices = some (p.micro_indices);
            micro_batch_lengths = some (p.micro_lengths);
            elem_counts_per_gb = some (p.elem_counts_per_gb);
          } in
          let same : shard ∷ rest ≡ parts = closed_ok (rw (g, h) at e) in
          rw (← same) (
            record {
              bins = (m.0).bins;
              indices = p.micro_indices;
              lengths = p.micro_lengths;
              indices_are = refl;
              lengths_are = refl;
              rows_are = (m.0).rows;
              spans_are =
                  ap (map span) (nothing p.micro_indices p.chunk_micro_indices (c.0.0))
                  ∙ (m.0).spans;
              tokens_are = nothing p.micro_lengths p.chunk_micro_lengths (c.0.1) ∙ (m.0).tokens;
            },
            from_plans-tokens f plans rest h (m.1) (c.1),
          )
    ]
  ]
    where
      closed_ok : {B : Type 0} {x y : B} → ◌≡◌ {A = Result ShardError B} (ok x) (ok y) → x ≡ y
      closed_ok e = ground (arith, e)

      nothing :
          {B : Type 0} (xss : List (List B)) (xs : List B)
          → xs ≡ []
          → flatten xss ≡ flatten xss ++ xs
      nothing xss xs e = rw e (sym (append-nil (flatten xss)))
