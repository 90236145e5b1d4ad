-- ===== src/Packing/Bins.antt =====
-- What an append to one bin does to the contents of all bins, and how many bins are needed.
use mathlib.Core.List.Perm
use mathlib.Core.List.{perm_middle}
use native.Mathlib.Decide.{dec_lt}
use ne_mo_rl_enhanced_math_r.Common.{
  ℕ, zero, suc, ◌+◌, ◌*◌, ◌≤◌, ◌<◌, ◌≡◌, ◌≢◌, refl, List, [], ◌∷◌, ◌++◌, Perm, flatten, arith,
  length, modify, get_or, sum_of, sum_of-append, sum_of-perm, range, All, append-nil, append_assoc,
}
use ne_mo_rl_enhanced_math_r.Packing.Base.{load, IsPacking}

module _ {ℓ} {A : Type ℓ} where
  -- `bins[i].append(a)`.
  abbrev pub append_to : ℕ → A → List (List A) → List (List A)
  append_to i a = modify i (λ bin. bin ++ a ∷ [])

  pub flatten-append : (bs cs : List (List A)) → flatten (bs ++ cs) ≡ flatten bs ++ flatten cs
  unfolding flatten
  flatten-append [] cs = refl
  flatten-append (b ∷ bs) cs = rw (flatten-append bs cs, append_assoc b (flatten bs) (flatten cs))

  pub append_to-perm :
      (i : ℕ) (a : A) (bins : List (List A))
      → i < length bins
      → Perm (flatten (append_to i a bins)) (a ∷ flatten bins)
  unfolding flatten
  append_to-perm i a [] h = elim h [ ]
  append_to-perm zero a (b ∷ bs) h = rw (append_assoc b (a ∷ []) (flatten bs)) (perm_middle b _)
  append_to-perm (suc i) a (b ∷ bs) h =
      Perm.trans (Perm.append_left b (append_to-perm i a bs (omega arith))) (perm_middle b _)

  pub new_bin-perm :
      (a : A) (bins : List (List A)) → Perm (flatten (bins ++ (a ∷ []) ∷ [])) (a ∷ flatten bins)
  unfolding flatten
  new_bin-perm a bins =
      rw (flatten-append bins ((a ∷ []) ∷ []))
        (Perm.trans (perm_middle (flatten bins) []) (rw (append-nil (flatten bins)) Perm.rfl))

  pub append_to-filled :
      (i : ℕ) (a : A) (bins : List (List A))
      → All (λ b. b ≢ []) bins
      → All (λ b. b ≢ []) (append_to i a bins)
  append_to-filled i a [] h = h
  append_to-filled zero a ([] ∷ bs) h = absurd (h.0 refl)
  append_to-filled zero a ((x ∷ b) ∷ bs) h = (λ e. cc, h.1)
  append_to-filled (suc i) a (b ∷ bs) h = (h.0, append_to-filled i a bs h.1)

mul_lt_cancel : (a b c : ℕ) → a * c < b * c → a < b
mul_lt_cancel a b c h = elim (dec_lt a b) [ yes p ↦ p | no p ↦ absurd (grind arith) ]

module _ (lengths : List ℕ) where
  pub load-flatten :
      (bins : List (List ℕ)) → sum_of (load lengths) bins ≡ load lengths (flatten bins)
  unfolding flatten
  load-flatten [] = refl
  load-flatten (b ∷ bs) =
      omega (arith, load-flatten bs, sum_of-append (λ i. get_or lengths i 0) b (flatten bs))

  -- Two bins in a row hold more than one capacity together.
  abbrev pub Adjacent : ℕ → List (List ℕ) → Type 0
  Adjacent capacity [] = Unit {0}
  Adjacent capacity (a ∷ []) = Unit {0}
  Adjacent capacity (a ∷ b ∷ bs) =
      (capacity < load lengths a + load lengths b) × Adjacent capacity (b ∷ bs)

  Adjacent-half :
      (capacity : ℕ) (a b : List ℕ) (bs : List (List ℕ))
      → Adjacent capacity (a ∷ b ∷ bs)
      → suc (length bs) * capacity < 2 * sum_of (load lengths) (a ∷ b ∷ bs)
  Adjacent-half capacity a b [] h = omega arith
  Adjacent-half capacity a b (c ∷ []) h = omega arith
  Adjacent-half capacity a b (c ∷ d ∷ ds) h = omega (arith, Adjacent-half capacity c d ds h.1.1)

  fits-total :
      (capacity : ℕ) (bins : List (List ℕ))
      → All (λ bin. load lengths bin ≤ capacity) bins
      → sum_of (load lengths) bins ≤ length bins * capacity
  fits-total capacity [] h = omega arith
  fits-total capacity (b ∷ bs) h = omega (arith, fits-total capacity bs h.1)

  total-IsPacking :
      (capacity : ℕ) (bins : List (List ℕ))
      → IsPacking capacity lengths bins
      → sum_of (load lengths) bins ≡ load lengths (range (length lengths))
  total-IsPacking capacity bins p =
      rw (load-flatten bins) (sum_of-perm (λ i. get_or lengths i 0) p.complete)

  -- A packing without two neighbours that fit into one bin has at most twice as many bins as any.
  pub Adjacent-le_twice :
      (capacity : ℕ) (bins others : List (List ℕ))
      → IsPacking capacity lengths bins
      → Adjacent capacity bins
      → IsPacking capacity lengths others
      → length bins ≤ 2 * length others
  unfolding flatten
  Adjacent-le_twice capacity [] others p a q = omega arith
  Adjacent-le_twice capacity (b ∷ []) [] p a q =
      absurd (p.filled.0 (nothing b (Perm.trans p.complete (Perm.symm q.complete))))
    where
      nothing : (b : List ℕ) → Perm (b ++ []) [] → b ≡ []
      nothing b e = rw (← append-nil b) (Perm.eq-nil e)
  Adjacent-le_twice capacity (b ∷ []) (o ∷ os) p a q = omega arith
  Adjacent-le_twice capacity (a ∷ b ∷ bs) others p h q =
      mul_lt_cancel (suc (length bs)) (2 * length others) capacity (
        omega (
          arith,
          Adjacent-half capacity a b bs h,
          fits-total capacity others q.fits,
          total-IsPacking capacity (a ∷ b ∷ bs) p,
          total-IsPacking capacity others q,
        ))
