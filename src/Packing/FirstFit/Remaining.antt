-- ===== src/Packing/FirstFit/Remaining.antt =====
-- The remaining capacities that first-fit packing keeps beside its bins.
use ne_mo_rl_enhanced_math_r.Common.{
  ℕ, zero, suc, ◌+◌, ◌-◌, ◌≤◌, ◌<◌, ◌≡◌, refl, ap, ◌⊎◌, inl, inr, List, [], ◌∷◌, ◌++◌, none, some,
  arith, leb, Bool-cases, modify, length, get_or, All, All-append, sum_of-append,
}
use ne_mo_rl_enhanced_math_r.Packing.Base.{load}
use ne_mo_rl_enhanced_math_r.Packing.Bins.{append_to, Adjacent}
use ne_mo_rl_enhanced_math_r.Packing.FirstFit.{find_bin}

-- The remaining capacities belong to the bins.
abbrev pub Tracks : List ℕ → ℕ → List (List ℕ) → List ℕ → Type 0
Tracks lengths capacity [] [] = Unit {0}
Tracks lengths capacity (b ∷ bs) (r ∷ rs) =
    (load lengths b + r ≡ capacity) × Tracks lengths capacity bs rs
Tracks lengths capacity _ _ = ⊥

-- No later bin's contents fit into an earlier bin.
abbrev pub Spread : ℕ → List ℕ → Type 0
Spread capacity [] = Unit {0}
Spread capacity (r ∷ rs) = All (λ s. r + s < capacity) rs × Spread capacity rs

pub find_bin_cases :
    (l : ℕ) (rs : List ℕ)
    → ((find_bin l rs ≡ none) × All (λ r. r < l) rs)
      ⊎ ((i : ℕ) × (find_bin l rs ≡ some i) × (i < length rs) × (l ≤ get_or rs i 0))
unfolding find_bin
find_bin_cases l [] = inl (refl, tt)
find_bin_cases l (r ∷ rs) = elim (Bool-cases (leb l r)) [
  | inl e ↦ inr (0, rw e, omega arith, ground arith)
  | inr e ↦ elim (find_bin_cases l rs) [
    | inl (n, h) ↦ inl (rw (e, n), (ground arith, h))
    | inr (i, n, h, k) ↦ inr (suc i, rw (e, n), omega arith, k)
  ]
]

module _ (lengths : List ℕ) (capacity : ℕ) where
  load-snoc :
      (b : List ℕ) (idx : ℕ) → load lengths (b ++ idx ∷ []) ≡ load lengths b + get_or lengths idx 0
  load-snoc b idx = omega (arith, sum_of-append (λ i. get_or lengths i 0) b (idx ∷ []))

  pub Tracks-length :
      (bs : List (List ℕ)) (rs : List ℕ) → Tracks lengths capacity bs rs → length bs ≡ length rs
  Tracks-length [] [] t = refl
  Tracks-length [] (r ∷ rs) t = absurd t
  Tracks-length (b ∷ bs) [] t = absurd t
  Tracks-length (b ∷ bs) (r ∷ rs) t = ap suc (Tracks-length bs rs t.1)

  pub Tracks-append_to :
      (idx i : ℕ) (bs : List (List ℕ)) (rs : List ℕ)
      → get_or lengths idx 0 ≤ get_or rs i 0
      → Tracks lengths capacity bs rs
      → Tracks lengths capacity (append_to i idx bs) (modify i (λ r. r - get_or lengths idx 0) rs)
  Tracks-append_to idx i [] [] h t = tt
  Tracks-append_to idx i [] (r ∷ rs) h t = absurd t
  Tracks-append_to idx i (b ∷ bs) [] h t = absurd t
  Tracks-append_to idx zero (b ∷ bs) (r ∷ rs) h t = (omega (arith, load-snoc b idx), t.1)
  Tracks-append_to idx (suc i) (b ∷ bs) (r ∷ rs) h t = (t.0, Tracks-append_to idx i bs rs h t.1)

  pub Tracks-new_bin :
      (idx : ℕ) (bs : List (List ℕ)) (rs : List ℕ)
      → get_or lengths idx 0 ≤ capacity
      → Tracks lengths capacity bs rs
      → Tracks lengths capacity
          (bs ++ (idx ∷ []) ∷ [])
          (rs ++ (capacity - get_or lengths idx 0) ∷ [])
  Tracks-new_bin idx [] [] h t = (omega arith, tt)
  Tracks-new_bin idx [] (r ∷ rs) h t = absurd t
  Tracks-new_bin idx (b ∷ bs) [] h t = absurd t
  Tracks-new_bin idx (b ∷ bs) (r ∷ rs) h t = (t.0, Tracks-new_bin idx bs rs h t.1)

  pub Tracks-fits :
      (bs : List (List ℕ)) (rs : List ℕ)
      → Tracks lengths capacity bs rs
      → All (λ bin. load lengths bin ≤ capacity) bs
  Tracks-fits [] [] t = tt
  Tracks-fits [] (r ∷ rs) t = absurd t
  Tracks-fits (b ∷ bs) [] t = absurd t
  Tracks-fits (b ∷ bs) (r ∷ rs) t = (omega arith, Tracks-fits bs rs t.1)

  pub Tracks-Adjacent :
      (bs : List (List ℕ)) (rs : List ℕ)
      → Tracks lengths capacity bs rs
      → Spread capacity rs
      → Adjacent lengths capacity bs
  Tracks-Adjacent [] rs t s = tt
  Tracks-Adjacent (b ∷ []) rs t s = tt
  Tracks-Adjacent (a ∷ b ∷ bs) [] t s = absurd t
  Tracks-Adjacent (a ∷ b ∷ bs) (r ∷ []) t s = absurd t.1
  Tracks-Adjacent (a ∷ b ∷ bs) (r ∷ q ∷ rs) t s =
      (omega arith, Tracks-Adjacent (b ∷ bs) (q ∷ rs) t.1 s.1)

All-lower :
    (bound l i : ℕ) (rs : List ℕ) (r : ℕ)
    → All (λ s. r + s < bound) rs
    → All (λ s. r + s < bound) (modify i (λ s. s - l) rs)
All-lower bound l i [] r h = h
All-lower bound l zero (s ∷ rs) r h = (omega arith, h.1)
All-lower bound l (suc i) (s ∷ rs) r h = (h.0, All-lower bound l i rs r h.1)

All-le :
    (bound q r : ℕ) (rs : List ℕ)
    → q ≤ r
    → All (λ s. r + s < bound) rs
    → All (λ s. q + s < bound) rs
All-le bound q r [] h a = tt
All-le bound q r (s ∷ rs) h a = (omega arith, All-le bound q r rs h a.1)

pub Spread-lower :
    (capacity l i : ℕ) (rs : List ℕ)
    → Spread capacity rs
    → Spread capacity (modify i (λ s. s - l) rs)
Spread-lower capacity l i [] s = tt
Spread-lower capacity l zero (r ∷ rs) s = (All-le capacity (r - l) r rs (omega arith) s.0, s.1)
Spread-lower capacity l (suc i) (r ∷ rs) s =
    (All-lower capacity l i rs r s.0, Spread-lower capacity l i rs s.1)

pub Spread-new_bin :
    (capacity l : ℕ) (rs : List ℕ)
    → l ≤ capacity
    → All (λ r. r < l) rs
    → Spread capacity rs
    → Spread capacity (rs ++ (capacity - l) ∷ [])
Spread-new_bin capacity l [] h a s = (tt, tt)
Spread-new_bin capacity l (r ∷ rs) h a s = (
  All-append (λ q. r + q < capacity) rs ((capacity - l) ∷ []) s.0 (omega arith, tt),
  Spread-new_bin capacity l rs h a.1 s.1,
)
