-- ===== src/Batches/Shards/Packed/Measured.antt =====
-- What the microbatch lengths of packed sequences measure: each is recorded with its bin.
use mathlib.Core.List.{map-append}
use ne_mo_rl_enhanced_math_r.Common.{
  ℕ, zero, suc, ◌+◌, ◌-◌, ◌*◌, ◌%◌, ◌≡◌, refl, sym, ap, ◌∙◌, inl, inr, List, [], ◌∷◌, ◌++◌, map,
  none, arith, Result, ok, Result-cases, Dict, length, replicate, All, All-modify, flatten, sum_of,
  append-nil, append_assoc, Option-cases,
}
use ne_mo_rl_enhanced_math_r.Packing.Bins.{flatten-append}
use ne_mo_rl_enhanced_math_r.Batches.Rows.{ShardError, select_indices}
use ne_mo_rl_enhanced_math_r.Batches.Shards.Packed.{
  Plan, last_end, next_micro, empty_plan, add_bin, deal_bins, close_chunk, deal_chunks,
}

-- The rows from the start of a microbatch to its end.
abbrev pub span : ℕ × ℕ → ℕ
span (start, end) = end - start

last_end-none : (micros : List (ℕ × ℕ)) → last_end micros ≡ none → micros ≡ []
last_end-none [] e = refl
last_end-none ((a, b) ∷ []) e = cc
last_end-none ((a, b) ∷ m ∷ micros) e =
    let x : ◌≡◌ {A = List (ℕ × ℕ)} (m ∷ micros) [] = last_end-none (m ∷ micros) e in cc

span-next_micro :
    (size : ℕ) (micros : List (ℕ × ℕ))
    → map span (next_micro size micros) ≡ map span micros ++ size ∷ []
span-next_micro size micros = elim (Option-cases (last_end micros)) [
  | inl e ↦
      let empty : micros ≡ [] = last_end-none micros e in
      let all : size - 0 ≡ size = omega arith in rw empty (ap (λ k. k ∷ []) all)
  | inr (b, e) ↦
      let same : b + size - b ≡ size = omega arith in
      rw (next_micro, e)
        (map-append span micros ((b, b + size) ∷ []) ∙ ap (λ k. map span micros ++ k ∷ []) same)
]

-- Nothing is left of the chunk.
abbrev pub IsClosed : {A : Type 0} → Plan A → Type 0
IsClosed p = (p.chunk_micro_indices ≡ []) × (p.chunk_micro_lengths ≡ [])

-- `f` says how many tokens a row has.
module _ {A : Type 0} (f : ℕ → ℕ) where
  -- The bins of a shard are its rows in order; each bin has a microbatch of as many rows, with the
  -- tokens of these rows as its length.
  pub record Measured (p : Plan A) : Type 0 where
    pub bins : List (List ℕ)
    pub rows : flatten bins ≡ p.global_indices
    pub spans : map span (flatten p.micro_indices ++ p.chunk_micro_indices) ≡ map length bins
    pub tokens : flatten p.micro_lengths ++ p.chunk_micro_lengths ≡ map (sum_of f) bins

  add_bin-Measured :
      (part : Dict (List A)) (global : List ℕ) (p : Plan A)
      → Measured p
      → Measured (add_bin part global (sum_of f global) p)
  unfolding add_bin flatten
  add_bin-Measured part global p m = record {
    bins = m.bins ++ global ∷ [];
    rows =
        flatten-append (m.bins) (global ∷ [])
        ∙ ap (λ r. flatten (m.bins) ++ r) (append-nil global)
        ∙ ap (λ r. r ++ global) (m.rows);
    spans =
        map-append span (flatten p.micro_indices) (next_micro (length global) p.chunk_micro_indices)
        ∙ ap (λ k. map span (flatten p.micro_indices) ++ k)
            (span-next_micro (length global) p.chunk_micro_indices)
        ∙ sym (
            append_assoc (map span (flatten p.micro_indices)) (map span p.chunk_micro_indices)
              (length global ∷ []))
        ∙ ap (λ k. k ++ length global ∷ [])
            (sym (map-append span (flatten p.micro_indices) p.chunk_micro_indices) ∙ m.spans)
        ∙ sym (map-append length (m.bins) (global ∷ []));
    tokens =
        sym (append_assoc (flatten p.micro_lengths) p.chunk_micro_lengths (sum_of f global ∷ []))
        ∙ ap (λ k. k ++ sum_of f global ∷ []) (m.tokens)
        ∙ sym (map-append (sum_of f) (m.bins) (global ∷ []));
  }

  deal_bins-Measured :
      (shards start : ℕ) (d : Dict (List A)) (bin_idx : ℕ) (bins : List (List ℕ))
      (plans dealt : List (Plan A))
      → deal_bins shards start f d bin_idx bins plans ≡ ok dealt
      → All Measured plans
      → All Measured dealt
  deal_bins-Measured shards start d bin_idx [] plans dealt e m =
      let same : plans ≡ dealt = ground (arith, e) in rw (← same) m
  deal_bins-Measured shards start d bin_idx (bin ∷ bins) plans dealt e m =
      let global = map (λ i. i + start) bin in
      elim (Result-cases (select_indices global d)) [
        | inl (part, g) ↦ deal_bins-Measured shards start d (suc bin_idx) bins _ dealt (rw g at e) (
            All-modify Measured (bin_idx % shards) (add_bin part global (sum_of f global)) plans
              (λ p h. add_bin-Measured part global p h) m)
        | inr (x, g) ↦ let y = rw g at e in cc
      ]

  closed_ok :
      {x : Plan A} {rest plans : List (Plan A)}
      → ◌≡◌ {A = Result ShardError (List (Plan A))} (ok (x ∷ rest)) (ok plans)
      → x ∷ rest ≡ plans
  closed_ok e = ground (arith, e)

  close_chunk-Measured :
      (plans closed : List (Plan A))
      → close_chunk plans ≡ ok closed
      → All Measured plans
      → All Measured closed × All IsClosed closed
  unfolding flatten
  close_chunk-Measured [] closed e m =
      let same : ◌≡◌ {A = List (Plan A)} [] closed = ground (arith, e) in rw (← same) (tt, tt)
  close_chunk-Measured (p ∷ plans) closed e m =
      elim (Option-cases (last_end p.chunk_micro_indices)) [
        | inl g ↦ let y = rw (close_chunk, g) at e in cc
        | inr (count, g) ↦ elim (Result-cases (close_chunk plans)) [
          | inr (x, h) ↦ let y = rw (close_chunk, g, h) at e in cc
          | inl (rest, h) ↦
              let (after, over) = close_chunk-Measured plans rest h (m.1) in
              rw (← closed_ok (rw (close_chunk, g, h) at e)) (
                (
                  record {
                    bins = (m.0).bins;
                    rows = (m.0).rows;
                    spans =
                        ap (map span) (joined p.micro_indices p.chunk_micro_indices) ∙ (m.0).spans;
                    tokens = joined p.micro_lengths p.chunk_micro_lengths ∙ (m.0).tokens;
                  },
                  after,
                ),
                ((refl, refl), over),
              )
        ]
      ]
    where
      joined :
          {B : Type 0} (xss : List (List B)) (xs : List B)
          → flatten (xss ++ xs ∷ []) ++ [] ≡ flatten xss ++ xs
      joined xss xs =
          append-nil (flatten (xss ++ xs ∷ []))
          ∙ flatten-append xss (xs ∷ [])
          ∙ ap (λ k. flatten xss ++ k) (append-nil xs)

  pub deal_chunks-Measured :
      (shards batch_size : ℕ) (d : Dict (List A)) (chunk_idx : ℕ) (chunks : List (List (List ℕ)))
      (plans dealt : List (Plan A))
      → deal_chunks shards batch_size f d chunk_idx chunks plans ≡ ok dealt
      → All Measured plans × All IsClosed plans
      → All Measured dealt × All IsClosed dealt
  deal_chunks-Measured shards batch_size d chunk_idx [] plans dealt e m =
      let same : plans ≡ dealt = ground (arith, e) in rw (← same) m
  deal_chunks-Measured shards batch_size d chunk_idx (bins ∷ chunks) plans dealt e m =
      elim (Result-cases (deal_bins shards (chunk_idx * batch_size) f d 0 bins plans)) [
        | inr (x, g) ↦ let y = rw g at e in cc
        | inl (dealt', g) ↦ elim (Result-cases (close_chunk dealt')) [
          | inr (x, h) ↦ let y = rw (g, h) at e in cc
          | inl (closed, h) ↦
              deal_chunks-Measured shards batch_size d (suc chunk_idx) chunks closed dealt
                (rw (g, h) at e)
                (close_chunk-Measured dealt' closed h (
                  deal_bins-Measured shards (chunk_idx * batch_size) d 0 bins plans dealt' g (m.0)))
        ]
      ]

pub empty-Measured :
    (A : Type 0) (f : ℕ → ℕ) (shards : ℕ)
    → All (Measured {A = A} f) (replicate shards (empty_plan {A = A}))
      × All (IsClosed {A = A}) (replicate shards (empty_plan {A = A}))
unfolding flatten
empty-Measured A f zero = (tt, tt)
empty-Measured A f (suc shards) =
    let (m, c) = empty-Measured A f shards in
    ((record { bins = []; rows = refl; spans = refl; tokens = refl }, m), ((refl, refl), c))
