-- ===== src/Packing/Mffd/Leftovers.antt =====
-- Phase 5 keeps every item too, and never meets an empty list of bins.
use ne_mo_rl_enhanced_math_r.Common.{
  ℕ, zero, suc, ◌+◌, ◌-◌, ◌≤◌, ◌<◌, ◌≡◌, refl, inl, inr, List, [], ◌∷◌, ◌++◌, arith, leb,
  Bool-cases, ok, length, sum_of, sum_of-append, All, insert_at,
}
use ne_mo_rl_enhanced_math_r.Packing.Mffd.{
  Item, bin_size, bisect, FfdBins, add_leftover, add_leftovers,
}
use ne_mo_rl_enhanced_math_r.Packing.Mffd.Phases.{weigh}

module _ (capacity : ℕ) where
  -- Phase 5: the emptiest bin stands first, and its size beside it.
  abbrev pub Sized : List (List Item) → List ℕ → Type 0
  Sized [] [] = Unit {0}
  Sized (b ∷ bs) (s ∷ ss) = (bin_size b ≡ s) × (s ≤ capacity) × Sized bs ss
  Sized _ _ = ⊥

  Sized-insert_at :
      (i : ℕ) (b : List Item) (s : ℕ) (bs : List (List Item)) (ss : List ℕ)
      → bin_size b ≡ s
      → s ≤ capacity
      → Sized bs ss
      → Sized (insert_at i b bs) (insert_at i s ss)
  Sized-insert_at zero b s bs ss e l z = (e, l, z)
  Sized-insert_at (suc i) b s [] [] e l z = (e, l, tt)
  Sized-insert_at (suc i) b s [] (t ∷ ss) e l z = absurd z
  Sized-insert_at (suc i) b s (c ∷ bs) [] e l z = absurd z
  Sized-insert_at (suc i) b s (c ∷ bs) (t ∷ ss) e l z =
      (z.0, z.1, Sized-insert_at i b s bs ss e l z.2)

  pub Sized-light :
      (bs : List (List Item)) (ss : List ℕ) → Sized bs ss → All (λ b. bin_size b ≤ capacity) bs
  Sized-light [] [] z = tt
  Sized-light [] (s ∷ ss) z = absurd z
  Sized-light (b ∷ bs) [] z = absurd z
  Sized-light (b ∷ bs) (s ∷ ss) z = (omega arith, Sized-light bs ss z.2)

  weigh-insert_at :
      (f : Item → ℕ) (i : ℕ) (b : List Item) (bs : List (List Item))
      → weigh f (insert_at i b bs) ≡ sum_of f b + weigh f bs
  weigh-insert_at f zero b bs = refl
  weigh-insert_at f (suc i) b [] = refl
  weigh-insert_at f (suc i) b (c ∷ bs) = omega (arith, weigh-insert_at f i b bs)

  -- At least one bin, each with its size.
  abbrev pub Ready : FfdBins → Type 0
  Ready s = (0 < length s.ffd_bins) × Sized s.ffd_bins s.ffd_bin_sizes

  length-insert_at : (i : ℕ) (b : List Item) (bs : List (List Item)) → 0 < length (insert_at i b bs)
  length-insert_at zero b bs = omega arith
  length-insert_at (suc i) b [] = omega arith
  length-insert_at (suc i) b (c ∷ bs) = omega arith

  add_leftover-Ready :
      (bs : List (List Item)) (ss : List ℕ) (x : Item)
      → x.1 ≤ capacity
      → 0 < length bs
      → Sized bs ss
      → (s : FfdBins) × (add_leftover capacity bs ss x ≡ ok s)
        × Ready s
        × ((f : Item → ℕ) → weigh f s.ffd_bins ≡ weigh f bs + f x)
  unfolding add_leftover
  add_leftover-Ready [] ss x h n z = absurd (omega arith)
  add_leftover-Ready (b ∷ bs) [] x h n z = absurd z
  add_leftover-Ready (b ∷ bs) (s ∷ ss) x h n z =
      let size = s + x.1 in
      let i = bisect ss size in
      let j = bisect (s ∷ ss) x.1 in
      elim (Bool-cases (leb x.1 (capacity - s))) [
        | inl e ↦ (
          record { ffd_bins = insert_at i (b ++ x ∷ []) bs; ffd_bin_sizes = insert_at i size ss },
          rw e,
          (
            length-insert_at i (b ++ x ∷ []) bs,
            Sized-insert_at i (b ++ x ∷ []) size bs ss
                (omega (arith, sum_of-append (λ (p : Item). p.1) b (x ∷ []), z.0))
                (ground (arith, e, z.1)) z.2,
          ),
          λ f. omega (arith, weigh-insert_at f i (b ++ x ∷ []) bs, sum_of-append f b (x ∷ [])),
        )
        | inr e ↦ (
          record {
            ffd_bins = insert_at j (x ∷ []) (b ∷ bs);
            ffd_bin_sizes = insert_at j x.1 (s ∷ ss);
          },
          rw e,
          (
            length-insert_at j (x ∷ []) (b ∷ bs),
            Sized-insert_at j (x ∷ []) x.1 (b ∷ bs) (s ∷ ss) (omega arith) h z,
          ),
          λ f. omega (arith, weigh-insert_at f j (x ∷ []) (b ∷ bs)),
        )
      ]

  pub add_leftovers-Ready :
      (s : FfdBins) (items : List Item)
      → All (λ x. x.1 ≤ capacity) items
      → Ready s
      → (t : FfdBins) × (add_leftovers capacity s items ≡ ok t)
        × Ready t
        × ((f : Item → ℕ) → weigh f t.ffd_bins ≡ weigh f s.ffd_bins + sum_of f items)
  unfolding add_leftovers
  add_leftovers-Ready s [] h r = (s, refl, r, λ f. omega arith)
  add_leftovers-Ready s (x ∷ xs) h r =
      let (s', e, r', w) = add_leftover-Ready s.ffd_bins s.ffd_bin_sizes x h.0 r.0 r.1 in
      let (t, e', r'', w') = add_leftovers-Ready s' xs h.1 r' in
      (t, rw e e', r'', λ f. omega (arith, w f, w' f))
