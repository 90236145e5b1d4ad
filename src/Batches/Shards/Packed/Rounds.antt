-- ===== src/Batches/Shards/Packed/Rounds.antt =====
-- Bins are dealt to the shards in turn: the loop returns, every shard gets as many, and the indices
-- of all shards are those of all bins.
use native.Mathlib.Nat.{mul-add-mod_self_right, mod-eq_of_lt}
use ne_mo_rl_enhanced_math_r.Common.{
  ℕ, zero, suc, ◌+◌, ◌*◌, ◌%◌, ◌≤◌, ◌<◌, ◌≡◌, refl, sym, ap, ◌∙◌, inl, inr, true, List, [], ◌∷◌,
  map, some, arith, ok, Dict, length, length-append, length-map, modify, length-modify, All,
  All-modify, flatten, sum_of, sum_of-append, Bool-cases, ltb,
}
use ne_mo_rl_enhanced_math_r.Batches.{all_of_size}
use ne_mo_rl_enhanced_math_r.Batches.Rows.Pick.{Below, select_indices-Below}
use ne_mo_rl_enhanced_math_r.Batches.Parts.{IsPart}
use ne_mo_rl_enhanced_math_r.Batches.Shards.Packed.{Plan, last_end, next_micro, add_bin, deal_bins}
use ne_mo_rl_enhanced_math_r.Batches.Shards.Packed.Deal.{Sound, add_bin-Sound}

last_end-cons : (m : ℕ × ℕ) (micros : List (ℕ × ℕ)) → (e : ℕ) × (last_end (m ∷ micros) ≡ some e)
last_end-cons (a, b) [] = (b, refl)
last_end-cons m (m' ∷ micros) = last_end-cons m' micros

length-next_micro :
    (size : ℕ) (micros : List (ℕ × ℕ)) → length (next_micro size micros) ≡ suc (length micros)
length-next_micro size [] = refl
length-next_micro size (m ∷ micros) =
    let (b, e) = last_end-cons m micros in
    rw (next_micro, e) (omega (arith, length-append (m ∷ micros) ((b, b + size) ∷ [])))

module _ {A : Type 0} where
  -- The number of microbatches of a shard in the chunk.
  abbrev pub micros_of : Plan A → ℕ
  micros_of p = length p.chunk_micro_indices

  micros_of-add_bin :
      (part : Dict (List A)) (global : List ℕ) (seqlen : ℕ) (p : Plan A)
      → micros_of (add_bin part global seqlen p) ≡ suc (micros_of p)
  unfolding add_bin
  micros_of-add_bin part global seqlen p = length-next_micro (length global) p.chunk_micro_indices

  -- The first `r` shards have `q + 1` microbatches, the others `q`.
  abbrev pub Balanced : (r q : ℕ) → List (Plan A) → Type 0
  Balanced r q [] = r ≡ 0
  Balanced zero q (p ∷ plans) = (micros_of p ≡ q) × Balanced zero q plans
  Balanced (suc r) q (p ∷ plans) = (micros_of p ≡ suc q) × Balanced r q plans

  Balanced-next :
      (r q : ℕ) (f : Plan A → Plan A) (plans : List (Plan A))
      → ((p : Plan A) → micros_of (f p) ≡ suc (micros_of p))
      → r < length plans
      → Balanced r q plans
      → Balanced (suc r) q (modify r f plans)
  Balanced-next r q f [] more l b = elim l [ ]
  Balanced-next zero q f (p ∷ plans) more l b = (more p ∙ ap suc (b.0), b.1)
  Balanced-next (suc r) q f (p ∷ plans) more l b =
      (b.0, Balanced-next r q f plans more (omega (arith, l)) (b.1))

  Balanced-round :
      (q : ℕ) (plans : List (Plan A)) → Balanced (length plans) q plans → Balanced 0 (suc q) plans
  Balanced-round q [] b = refl
  Balanced-round q (p ∷ plans) b = (b.0, Balanced-round q plans (b.1))

  -- The sum of the weights of the indices of all shards.
  abbrev pub weight : (ℕ → ℕ) → List (Plan A) → ℕ
  weight f plans = sum_of (λ (p : Plan A). sum_of f p.global_indices) plans

  weight-modify :
      (f : ℕ → ℕ) (i : ℕ) (part : Dict (List A)) (global : List ℕ) (seqlen : ℕ)
      (plans : List (Plan A))
      → i < length plans
      → weight f (modify i (add_bin part global seqlen) plans) ≡ weight f plans + sum_of f global
  unfolding add_bin
  weight-modify f i part global seqlen [] l = elim l [ ]
  weight-modify f zero part global seqlen (p ∷ plans) l =
      omega (arith, sum_of-append f p.global_indices global)
  weight-modify f (suc i) part global seqlen (p ∷ plans) l =
      omega (arith, weight-modify f i part global seqlen plans (omega (arith, l)))

  module _ (n max_tokens shards start : ℕ) (seqlen : ℕ → ℕ) (d : Dict (List A)) (qs : List ℕ)
      (sized : all_of_size n d ≡ true) where
    abbrev shift : List ℕ → List ℕ
    shift bin = map (λ i. i + start) bin

    -- What the bins of the chunk are: not empty, with the tokens of a microbatch, of its rows.
    abbrev pub MayDeal : List (List ℕ) → Type 0
    MayDeal bins =
        All
          (λ bin. (0 < length bin) × (sum_of seqlen (shift bin) ≤ max_tokens) × Below n (shift bin))
          bins

    pub deal_bins-returns :
        (bins : List (List ℕ)) (b q r : ℕ) (plans : List (Plan A))
        → MayDeal bins
        → b ≡ q * shards + r
        → r < shards
        → length plans ≡ shards
        → Balanced r q plans
        → All (Sound max_tokens d qs) plans
        → (after : List (Plan A)) × (deal_bins shards start seqlen d b bins plans ≡ ok after)
          × (length after ≡ shards)
          × All (Sound max_tokens d qs) after
          × ((q' r' : ℕ) × (b + length bins ≡ q' * shards + r')
              × (r' < shards)
              × Balanced r' q' after)
          × ((f : ℕ → ℕ) → weight f after ≡ weight f plans + sum_of f (flatten (map shift bins)))
    unfolding flatten
    deal_bins-returns [] b q r plans m e l size bal sound =
        (plans, refl, size, sound, (q, r, omega (arith, e), l, bal), λ f. omega arith)
    deal_bins-returns (bin ∷ bins) b q r plans m e l size bal sound =
        let (filled, fits, inside) = m.0 in
        let (part, g, psize, rows, keys) = select_indices-Below n (shift bin) d sized inside in
        let is : IsPart d (shift bin) part = record { rows = rows; keys = keys; size = psize } in
        let turn : b % shards ≡ r =
          ap (λ k. k % shards) e ∙ mul-add-mod_self_right q shards r ∙ mod-eq_of_lt l in
        let r_in : r < length plans = rw size l in
        let add : Plan A → Plan A = add_bin part (shift bin) (sum_of seqlen (shift bin)) in
        let unrolled : deal_bins shards start seqlen d b (bin ∷ bins) plans
            ≡ deal_bins shards start seqlen d (suc b) bins (modify r add plans) =
          rw g (ap (λ i. deal_bins shards start seqlen d (suc b) bins (modify i add plans)) turn) in
        let filled' : 0 < length (shift bin) =
          omega (arith, filled, length-map bin (λ i. i + start)) in
        let sound' : All (Sound max_tokens d qs) (modify r add plans) =
          All-modify (Sound max_tokens d qs) r add plans
            (λ p h.
              add_bin-Sound d max_tokens qs part (shift bin) (sum_of seqlen (shift bin)) p filled'
                fits is h)
            sound in
        let size' : length (modify r add plans) ≡ shards = length-modify r add plans ∙ size in
        let bal' : Balanced (suc r) q (modify r add plans) =
          Balanced-next r q add plans
            (micros_of-add_bin part (shift bin) (sum_of seqlen (shift bin))) r_in bal in
        let sum_here = (λ (f : ℕ → ℕ).
          weight-modify f r part (shift bin) (sum_of seqlen (shift bin)) plans r_in) in
        elim (Bool-cases (ltb (suc r) shards)) [
          | inl t ↦
              let (after, h, s, snd, place, w) =
                deal_bins-returns bins (suc b) q (suc r) (modify r add plans) (m.1)
                  (omega (arith, e)) (ground (arith, t)) size' bal' sound' in
              (
                after,
                unrolled ∙ h,
                s,
                snd,
                moved after bins place,
                λ f. omega (
                  arith,
                  w f,
                  sum_here f,
                  sum_of-append f (shift bin) (flatten (map shift bins)),
                ),
              )
          | inr t ↦
              let round : suc r ≡ shards = ground (arith, t, l) in
              let all : suc r ≡ length (modify r add plans) = round ∙ sym size' in
              let bal'' : Balanced 0 (suc q) (modify r add plans) =
                Balanced-round q (modify r add plans) (rw all at bal') in
              let (after, h, s, snd, place, w) =
                deal_bins-returns bins (suc b) (suc q) 0 (modify r add plans) (m.1)
                  (next_round round) (omega (arith, l)) size' bal'' sound' in
              (
                after,
                unrolled ∙ h,
                s,
                snd,
                moved after bins place,
                λ f. omega (
                  arith,
                  w f,
                  sum_here f,
                  sum_of-append f (shift bin) (flatten (map shift bins)),
                ),
              )
        ]
      where
        next_round : suc r ≡ shards → suc b ≡ suc q * shards + 0
        next_round round =
            let more : suc q * shards ≡ q * shards + shards = omega arith in
            omega (arith, e, round, more)

        moved :
            (after : List (Plan A)) (bins : List (List ℕ))
            → ((q' r' : ℕ) × (suc b + length bins ≡ q' * shards + r')
                × (r' < shards)
                × Balanced r' q' after)
            → ((q' r' : ℕ) × (b + suc (length bins) ≡ q' * shards + r')
                × (r' < shards)
                × Balanced r' q' after)
        moved after bins (q', r', f, l', h) = (q', r', omega (arith, f), l', h)
