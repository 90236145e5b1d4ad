-- ===== src/Batches/Shards/Packed/Deal.antt =====
-- What dealing the bins of a chunk to the shards keeps true of the plan of each shard.
use ne_mo_rl_enhanced_math_r.Common.{
  ℕ, suc, ◌+◌, ◌≤◌, ◌<◌, ◌≡◌, refl, sym, ap, ◌∙◌, List, [], ◌∷◌, ◌++◌, some, arith, Dict, length,
  length-append, All, All-append, flatten, sum, append-nil,
}
use ne_mo_rl_enhanced_math_r.Packing.Bins.{flatten-append}
use ne_mo_rl_enhanced_math_r.Batches.Parts.{IsPart, AreParts}
use ne_mo_rl_enhanced_math_r.Batches.Shards.Packed.{Plan, last_end, next_micro, add_bin}

-- Microbatches that follow one another from row `a` to row `b`, none empty.
abbrev pub Spans : (a b : ℕ) → List (ℕ × ℕ) → Type 0
Spans a b [] = a ≡ b
Spans a b ((start, end) ∷ micros) = (start ≡ a) × (start < end) × Spans end b micros

Spans-append :
    (a b c : ℕ) (micros : List (ℕ × ℕ))
    → b < c
    → Spans a b micros
    → Spans a c (micros ++ (b, c) ∷ [])
Spans-append a b c [] l h = (sym h, l, refl)
Spans-append a b c ((start, end) ∷ micros) l h = (h.0, h.1, Spans-append end b c micros l (h.2))

pub last_end-Spans :
    (a b : ℕ) (micros : List (ℕ × ℕ))
    → 0 < length micros
    → Spans a b micros
    → last_end micros ≡ some b
last_end-Spans a b [] l h = absurd (omega (arith, l))
last_end-Spans a b ((start, end) ∷ []) l h = ap some (h.2)
last_end-Spans a b ((start, end) ∷ q ∷ micros) l h =
    last_end-Spans end b (q ∷ micros) (omega arith) (h.2)

next_micro-Spans :
    (size b : ℕ) (micros : List (ℕ × ℕ))
    → 0 < size
    → Spans 0 b micros
    → Spans 0 (b + size) (next_micro size micros)
      × (length (next_micro size micros) ≡ suc (length micros))
next_micro-Spans size b [] l h = ((refl, l, omega (arith, h)), refl)
next_micro-Spans size b (m ∷ micros) l h =
    let e = last_end-Spans 0 b (m ∷ micros) (omega arith) h in
    rw (next_micro, e)
      (
        Spans-append 0 b (b + size) (m ∷ micros) (omega (arith, l)) h,
        omega (arith, length-append (m ∷ micros) ((b, b + size) ∷ [])),
      )

-- The chunks that are done: for each its microbatches, which span its rows, their lengths and the
-- number of its rows.
abbrev pub Closed :
    (max_tokens : ℕ) → List ℕ → List (List (ℕ × ℕ)) → List (List ℕ) → List ℕ → Type 0
Closed max_tokens [] [] [] [] = Unit {0}
Closed max_tokens (q ∷ qs) (micros ∷ indices) (seqlens ∷ lengths) (count ∷ counts) =
    Spans 0 count micros
    × (length micros ≡ q)
    × (length seqlens ≡ q)
    × All (λ l. l ≤ max_tokens) seqlens
    × Closed max_tokens qs indices lengths counts
Closed max_tokens _ _ _ _ = ⊥

-- The plan of a shard in a chunk. `qs` has the number of microbatches of each chunk before.
pub record Sound {A : Type 0} (max_tokens : ℕ) (d : Dict (List A)) (qs : List ℕ) (p : Plan A)
    : Type 0 where
  pub dealt : List (List ℕ)
  pub parts_are : AreParts d dealt p.parts
  pub indices_are : flatten dealt ≡ p.global_indices
  pub dealt_count : length dealt ≡ sum qs + length p.chunk_micro_indices
  pub end : ℕ
  pub spans : Spans 0 end p.chunk_micro_indices
  pub rows_count : sum p.elem_counts_per_gb + end ≡ length p.global_indices
  pub same_number : length p.chunk_micro_lengths ≡ length p.chunk_micro_indices
  pub fits : All (λ l. l ≤ max_tokens) p.chunk_micro_lengths
  pub closed : Closed max_tokens qs p.micro_indices p.micro_lengths p.elem_counts_per_gb

module _ {A : Type 0} (d : Dict (List A)) where
  AreParts-append :
      (plan : List (List ℕ)) (parts : List (Dict (List A))) (is : List ℕ) (part : Dict (List A))
      → AreParts d plan parts
      → IsPart d is part
      → AreParts d (plan ++ is ∷ []) (parts ++ part ∷ [])
  AreParts-append [] [] is part h p = (p, tt)
  AreParts-append [] (x ∷ parts) is part h p = elim h [ ]
  AreParts-append (x ∷ plan) [] is part h p = elim h [ ]
  AreParts-append (x ∷ plan) (y ∷ parts) is part h p =
      (h.0, AreParts-append plan parts is part (h.1) p)

  pub add_bin-Sound :
      (max_tokens : ℕ) (qs : List ℕ) (part : Dict (List A)) (global : List ℕ) (seqlen : ℕ)
      (p : Plan A)
      → 0 < length global
      → seqlen ≤ max_tokens
      → IsPart d global part
      → Sound max_tokens d qs p
      → Sound max_tokens d qs (add_bin part global seqlen p)
  unfolding add_bin flatten
  add_bin-Sound max_tokens qs part global seqlen p l fit is s =
      let (spans, more) =
        next_micro-Spans (length global) (s.end) p.chunk_micro_indices l (s.spans) in
      record {
        dealt = s.dealt ++ global ∷ [];
        parts_are = AreParts-append (s.dealt) p.parts global part (s.parts_are) is;
        indices_are =
            flatten-append (s.dealt) (global ∷ [])
            ∙ ap (λ r. flatten (s.dealt) ++ r) (append-nil global)
            ∙ ap (λ r. r ++ global) (s.indices_are);
        dealt_count = omega (arith, length-append (s.dealt) (global ∷ []), s.dealt_count, more);
        end = s.end + length global;
        spans = spans;
        rows_count = omega (arith, s.rows_count, length-append p.global_indices global);
        same_number =
            omega (arith, length-append p.chunk_micro_lengths (seqlen ∷ []), s.same_number, more);
        fits =
            All-append (λ k. k ≤ max_tokens) p.chunk_micro_lengths (seqlen ∷ []) (s.fits) (fit, tt);
        closed = s.closed;
      }
