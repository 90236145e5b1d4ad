-- ===== src/Batches/Shards/Dynamic/Micro.antt =====
-- The microbatches of a chunk: one after the other, none empty and none with too many tokens.
use native.Mathlib.Nat.{div-add-mod, mod-lt}
use ne_mo_rl_enhanced_math_r.Common.{
  ℕ, zero, suc, ◌+◌, ◌-◌, ◌*◌, ◌/◌, ◌≤◌, ◌<◌, ◌≡◌, refl, inl, inr, max, false, List, [], ◌∷◌, some,
  ltb, leb, ◌==◌, arith, Bool-cases, ok, get_elem?, get_or, length, All,
}
use ne_mo_rl_enhanced_math_r.Batches.Shards.Dynamic.{
  DynamicBatchingArgs, longest, padded, length_at,
}

-- Where each shard has a row, the longest one is the length of one of them, or 0.
abbrev pub top : ℕ → List (List ℕ) → ℕ
top i [] = 0
top i (ls ∷ lengths) = max (get_or ls i 0) (top i lengths)

get_elem?-get_or : (i : ℕ) (ls : List ℕ) → i < length ls → get_elem? ls i ≡ some (get_or ls i 0)
get_elem?-get_or i [] l = elim l [ ]
get_elem?-get_or zero (x ∷ ls) l = refl
get_elem?-get_or (suc i) (x ∷ ls) l = get_elem?-get_or i ls (omega (arith, l))

longest-top :
    (i : ℕ) (lengths : List (List ℕ))
    → All (λ ls. i < length ls) lengths
    → longest i lengths ≡ ok (top i lengths)
longest-top i [] h = refl
longest-top i (ls ∷ lengths) h =
    rw (longest, get_elem?-get_or i ls (h.0), longest-top i lengths (h.1)) refl

module _ (args : DynamicBatchingArgs) (width : ℕ) where
  -- A length that a microbatch can hold, once it is padded.
  abbrev pub Holds : ℕ → Type 0
  Holds seqlen = padded args width seqlen ≤ args.max_tokens_per_microbatch

  pub Holds-zero : 0 < args.sequence_length_round → Holds 0
  Holds-zero l =
      let r = args.sequence_length_round in
      let none_whole : (0 + r - 1) / r ≡ 0 = small (0 + r - 1) r (omega (arith, l)) in
      rw none_whole (omega arith)
    where
      small : (a b : ℕ) → a < b → a / b ≡ 0
      small a b l = no_multiple (a / b) (omega (arith, l, div-add-mod a b))
        where
          no_multiple : (q : ℕ) → b * q < b → q ≡ 0
          no_multiple zero l = refl
          no_multiple (suc q) l = absurd (grind (arith, l))

  pub top-Holds :
      (i : ℕ) (lengths : List (List ℕ))
      → Holds 0
      → All (λ ls. Holds (get_or ls i 0)) lengths
      → Holds (top i lengths)
  top-Holds i [] z h = z
  top-Holds i (ls ∷ lengths) z h =
      let rest = top-Holds i lengths z (h.1) in
      elim (Bool-cases (leb (get_or ls i 0) (top i lengths))) [
        | inl e ↦
            let is_rest : max (get_or ls i 0) (top i lengths) ≡ top i lengths = ground (arith, e) in
            rw is_rest rest
        | inr e ↦
            let is_first : max (get_or ls i 0) (top i lengths) ≡ get_or ls i 0 =
              ground (arith, e) in
            rw is_first (h.0)
      ]

  -- The microbatches that cover the indices from `a` up to `b`, for the rows `lengths` of each shard:
  -- with the padding each holds `max_tokens_per_microbatch` tokens at most, and its length is at
  -- least that of each of its rows.
  abbrev pub Covers : ℕ → List (List ℕ) → (start end : ℕ) → Type 0
  Covers seqlen lengths start end =
      (j : ℕ) → start ≤ j → j < end → All (λ ls. padded args width (get_or ls j 0) ≤ seqlen) lengths

  abbrev pub Tiles : List (List ℕ) → (a b : ℕ) → List ((ℕ × ℕ) × ℕ) → Type 0
  Tiles lengths a b [] = a ≡ b
  Tiles lengths a b (((start, end), seqlen) ∷ micros) =
      (start ≡ a)
      × (start < end)
      × ((end - start) * seqlen ≤ args.max_tokens_per_microbatch)
      × Covers seqlen lengths start end
      × Tiles lengths end b micros

  module _ (round_positive : 0 < args.sequence_length_round) where
    pub length_at-returns :
        (i : ℕ) (lengths : List (List ℕ))
        → All (λ ls. i < length ls) lengths
        → All (λ ls. Holds (get_or ls i 0)) lengths
        → length_at args width lengths i ≡ ok (padded args width (top i lengths))
    unfolding length_at
    length_at-returns i lengths inside holds =
        let positive : (args.sequence_length_round == 0) ≡ false = ground (arith, round_positive) in
        let fits = top-Holds i lengths (Holds-zero round_positive) holds in
        let small : ltb args.max_tokens_per_microbatch (padded args width (top i lengths)) ≡ false =
          ground (arith, fits) in
        rw (longest-top i lengths inside, positive, small) refl

    pub padded-le : (a b : ℕ) → a ≤ b → padded args width a ≤ padded args width b
    padded-le a b l =
        let r = args.sequence_length_round in
        let quotients : (a + r - 1) / r ≤ (b + r - 1) / r =
          div-le (a + r - 1) (b + r - 1) r round_positive (omega (arith, l)) in
        let products : (a + r - 1) / r * r ≤ (b + r - 1) / r * r = times r quotients in
        omega (arith, products)
      where
        times : (r : ℕ) {p q : ℕ} → p ≤ q → p * r ≤ q * r
        times r l = grind (arith, l)

        less : (r p q : ℕ) → p * r < suc q * r → p ≤ q
        less r p q l = elim (Bool-cases (leb p q)) [
          | inl e ↦ ground (arith, e)
          | inr e ↦
              let above : suc q ≤ p = ground (arith, e) in absurd (omega (arith, l, times r above))
        ]

        div-le : (a b r : ℕ) → 0 < r → a ≤ b → a / r ≤ b / r
        div-le a b r p l =
            less r (a / r) (b / r) (omega (arith, l, div-add-mod a r, div-add-mod b r, mod-lt b p))

    pub covers-top :
        (j : ℕ) (lengths : List (List ℕ))
        → All (λ ls. padded args width (get_or ls j 0) ≤ padded args width (top j lengths)) lengths
    covers-top j lengths = below lengths (top j lengths) (omega arith)
      where
        below :
            (rest : List (List ℕ)) (t : ℕ)
            → top j rest ≤ t
            → All (λ ls. padded args width (get_or ls j 0) ≤ padded args width t) rest
        below [] t l = tt
        below (ls ∷ rest) t l =
            (padded-le (get_or ls j 0) t (omega (arith, l)), below rest t (omega (arith, l)))
