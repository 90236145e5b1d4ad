-- ===== src/Packing/Adjust/Fill.antt =====
-- The loop of `_adjust_bin_count` over the new bins.
use mathlib.Core.List.Perm
use ne_mo_rl_enhanced_math_r.Common.{
  ℕ, zero, suc, ◌+◌, ◌≤◌, ◌<◌, ◌≡◌, ◌≢◌, refl, ap, ◌∙◌, sym, subst, List, [], ◌∷◌, ◌++◌, Perm,
  flatten, arith, ok, length, get_or, sum_of-append, ℕ_discrete,
}
use ne_mo_rl_enhanced_math_r.Packing.Base.{load}
use ne_mo_rl_enhanced_math_r.Packing.Adjust.{init_of, last_of, move_sequence, fill_new_bins}
use ne_mo_rl_enhanced_math_r.Packing.Adjust.Moves.{
  init_of-last_of, length-init_of, move_sequence-perm, length-move_sequence, size-move_sequence_ne,
  get_or-move_sequence_source, get_or-move_sequence_target, spare, Sources, spare-move_self,
  find_source_cases,
}

module _ (lengths : List ℕ) (capacity bound : ℕ) where
  -- The bins in front of `j` hold something, the others wait, and none is overfull.
  pub record Inv (j : ℕ) (bins : List (List ℕ)) : Type 0 where
    pub full : (k : ℕ) → k < j → 0 < length (get_or bins k [])
    pub waiting : (k : ℕ) → j ≤ k → get_or bins k [] ≡ []
    pub light : (k : ℕ) → load lengths (get_or bins k []) ≤ capacity

  load-split :
      (b : List ℕ)
      → 0 < length b
      → load lengths (init_of b) + get_or lengths (last_of b) 0 ≡ load lengths b
  load-split b h = omega (
    arith,
    ap (load lengths) (init_of-last_of b h),
    sum_of-append (λ i. get_or lengths i 0) (init_of b) (last_of b ∷ []),
  )

  module _ (i j : ℕ) (bins : List (List ℕ)) (before : i < j) (inside : j < length bins)
      (two : 1 < length (get_or bins i [])) (v : Inv j bins) where
    moved : List (List ℕ)
    moved = move_sequence i j bins

    at_source : get_or moved i [] ≡ init_of (get_or bins i [])
    unfolding moved
    at_source = get_or-move_sequence_source i j bins (omega arith) (omega arith)

    at_target : get_or moved j [] ≡ last_of (get_or bins i []) ∷ []
    unfolding moved
    at_target =
        get_or-move_sequence_target i j bins inside (omega arith)
        ∙ ap (λ b. b ++ last_of (get_or bins i []) ∷ []) (v.waiting j (omega arith))

    elsewhere : (k : ℕ) → i ≢ k → j ≢ k → get_or moved k [] ≡ get_or bins k []
    unfolding moved
    elsewhere k = size-move_sequence_ne i j k bins

    move_sequence-Inv : Inv (suc j) moved
    move_sequence-Inv = record {
      full = λ k h. elim (ℕ_discrete i k) [
        | yes e ↦ rw (← e, at_source) (omega (arith, length-init_of (get_or bins i [])))
        | no e ↦ elim (ℕ_discrete j k) [
          | yes f ↦ rw (← f, at_target) (omega arith)
          | no f ↦ rw (elsewhere k e f) (v.full k (omega arith))
        ]
      ];
      waiting = λ k h. elsewhere k (omega arith) (omega arith) ∙ v.waiting k (omega arith);
      light = λ k. elim (ℕ_discrete i k) [
        | yes e ↦
            rw (← e, at_source)
              (omega (arith, load-split (get_or bins i []) (omega arith), v.light i))
        | no e ↦ elim (ℕ_discrete j k) [
          | yes f ↦
              rw (← f, at_target)
                (omega (arith, load-split (get_or bins i []) (omega arith), v.light i))
          | no f ↦ rw (elsewhere k e f) (v.light k)
        ]
      ];
    }

  -- With enough sequences to spare the loop fills every new bin.
  pub fill_new_bins-Inv :
      (count j stop : ℕ) (bins : List (List ℕ)) (sources : List (ℕ × ℕ))
      → bound ≤ j
      → j + count ≡ stop
      → stop ≡ length bins
      → Sources bound sources
      → count ≤ spare bins sources
      → Inv j bins
      → (r : List (List ℕ)) × (fill_new_bins count j bins sources ≡ ok r)
        × Perm (flatten r) (flatten bins)
        × (length r ≡ stop)
        × Inv stop r
  unfolding fill_new_bins
  fill_new_bins-Inv zero j stop bins sources b l l' s c v =
      let same : j ≡ stop = omega arith in
      (bins, refl, Perm.rfl, sym l', subst (λ t. Inv t bins) same v)
  fill_new_bins-Inv (suc count) j stop bins sources b l l' s c v =
      let (i, size, rest, e, two, s', same) =
        find_source_cases bound bins sources s (omega arith) in
      let lm = length-move_sequence i j bins in
      let v' : Inv (suc j) (move_sequence i j bins) =
        unfold moved in move_sequence-Inv i j bins (omega arith) (omega arith) two v in
      let (r, f, p, n, w) =
        fill_new_bins-Inv count (suc j) stop (move_sequence i j bins) ((size, i) ∷ rest)
          (omega arith) (omega arith) (l' ∙ sym lm) s'
          (omega (arith, spare-move_self i j bound size bins rest b (omega arith) two s')) v' in
      (
        r,
        rw (e, fill_new_bins) f,
        Perm.trans p (move_sequence-perm i j bins (omega arith) (omega arith)),
        n,
        w,
      )
