-- ===== src/Packing/Adjust/Sources.antt =====
-- The list of bins that `_adjust_bin_count` takes sequences from: each bin once, and enough to take.
use mathlib.Core.List.Perm
use mathlib.Core.List.{
  Mem, Nodup, Nodup-cons, Nodup-nil, mem-cons_self, mem-cons, mem-cons_of_mem, not-mem-nil,
}
use mathlib.Core.HLevel.{⊥_prop}
use mathlib.Core.Logic.Or
use native.Mathlib.Bridge.{le_prop}
use ne_mo_rl_enhanced_math_r.Common.{
  ℕ, zero, suc, ◌+◌, ◌-◌, ◌≤◌, ◌<◌, ◌≡◌, ◌≢◌, refl, ap, ◌∙◌, List, [], ◌∷◌, ◌++◌, map, arith,
  length, get_or, replicate, enumerate, enumerate_from, range_from, map-enumerate_from, All,
  All-perm, sum_of, sum_of-perm, sort_by-perm, length-map,
}
use ne_mo_rl_enhanced_math_r.Packing.Base.{ge_pair}
use ne_mo_rl_enhanced_math_r.Packing.Adjust.{bin_sizes}
use ne_mo_rl_enhanced_math_r.Packing.Adjust.Moves.{spare, Sources}

-- The search list names the bins in front of `bound` once each.
distinct : (i : ℕ) (rest : List (ℕ × ℕ)) → ¬ Mem i (map (λ p. p.1) rest) → All (λ p. i ≢ p.1) rest
distinct i [] h = tt
distinct i ((size, k) ∷ rest) h =
    (λ e. h (rw e mem-cons_self), distinct i rest (λ m. h (mem-cons_of_mem k m)))

Sources-of_Nodup :
    (bound : ℕ) (sources : List (ℕ × ℕ))
    → Nodup (map (λ p. p.1) sources)
    → All (λ p. p.1 < bound) sources
    → Sources bound sources
Sources-of_Nodup bound [] n a = tt
Sources-of_Nodup bound ((size, i) ∷ rest) n a =
    let (fresh, later) = Nodup-cons.0 n in
    (a.0, distinct i rest fresh, Sources-of_Nodup bound rest later a.1)

not-mem-range_from : (i k n : ℕ) → i < k → ¬ Mem i (range_from k n)
not-mem-range_from i k zero h m = not-mem-nil m
not-mem-range_from i k (suc n) h m =
    Or.elim ⊥_prop (mem-cons.0 m) (λ e. omega arith) (not-mem-range_from i (suc k) n (omega arith))

Nodup-range_from : (k n : ℕ) → Nodup (range_from k n)
Nodup-range_from k zero = Nodup-nil
Nodup-range_from k (suc n) =
    Nodup-cons.1 (not-mem-range_from k (suc k) n (omega arith), Nodup-range_from (suc k) n)

enumerate-below :
    (k bound : ℕ) (sizes : List ℕ)
    → k + length sizes ≤ bound
    → All (λ p. p.1 < bound) (enumerate_from k sizes)
enumerate-below k bound [] h = tt
enumerate-below k bound (x ∷ xs) h = (omega arith, enumerate-below (suc k) bound xs (omega arith))

pub bin_sizes-Sources : (bins : List (List ℕ)) → Sources (length bins) (bin_sizes bins)
unfolding bin_sizes
bin_sizes-Sources bins =
    let sizes = map length bins in
    let p = Perm.symm (sort_by-perm ge_pair (enumerate sizes)) in
    Sources-of_Nodup (length bins) (bin_sizes bins)
      (Perm.nodup (Perm.map (λ (q : ℕ × ℕ). q.1) p)
        (rw (map-enumerate_from 0 sizes) (Nodup-range_from 0 (length sizes))))
      (All-perm (λ q. q.1 < length bins) (λ q. le_prop) p
        (enumerate-below 0 (length bins) sizes (omega (arith, length-map bins length))))

spare-enumerate :
    (all : List (List ℕ)) (k : ℕ) (bins : List (List ℕ))
    → ((j : ℕ) → get_or all (k + j) [] ≡ get_or bins j [])
    → All (λ b. b ≢ []) bins
    → spare all (enumerate_from k (map length bins)) + length bins ≡ sum_of length bins
spare-enumerate all k [] h f = omega arith
spare-enumerate all k ([] ∷ bs) h f = absurd (f.0 refl)
spare-enumerate all k ((x ∷ b) ∷ bs) h f =
    let first : k + 0 ≡ k = omega arith in
    omega (
      arith,
      ap length (h 0),
      ap (λ i. length (get_or all i [])) first,
      spare-enumerate all (suc k) bs (λ j. ap (λ i. get_or all i []) (omega arith) ∙ h (suc j)) f.1,
    )

pub get_or-padded :
    (bins : List (List ℕ)) (n j : ℕ) → get_or (bins ++ replicate n []) j [] ≡ get_or bins j []
get_or-padded [] zero j = refl
get_or-padded [] (suc n) zero = refl
get_or-padded [] (suc n) (suc j) = get_or-padded [] n j
get_or-padded (b ∷ bs) n zero = refl
get_or-padded (b ∷ bs) n (suc j) = get_or-padded bs n j

pub spare-bin_sizes :
    (bins : List (List ℕ)) (n : ℕ)
    → All (λ b. b ≢ []) bins
    → spare (bins ++ replicate n []) (bin_sizes bins) + length bins ≡ sum_of length bins
unfolding bin_sizes
spare-bin_sizes bins n f =
    ap (λ t. t + length bins)
      (sum_of-perm (λ (p : ℕ × ℕ). length (get_or (bins ++ replicate n []) p.1 []) - 1)
        (sort_by-perm ge_pair (enumerate (map length bins))))
    ∙ spare-enumerate (bins ++ replicate n []) 0 bins
        (λ j. ap (λ i. get_or (bins ++ replicate n []) i []) (omega arith) ∙ get_or-padded bins n j)
        f
