-- ===== src/Packing/Mffd/Indices.antt =====
-- The last step: the items' indices.
use mathlib.Core.List.{map-append}
use ne_mo_rl_enhanced_math_r.Common.{
  ℕ, ◌≤◌, ◌≡◌, ◌≢◌, refl, sym, ap, ◌∙◌, List, [], ◌∷◌, ◌++◌, map, flatten, arith, get_or, All,
  All-split,
}
use ne_mo_rl_enhanced_math_r.Packing.Base.{load}
use ne_mo_rl_enhanced_math_r.Packing.Mffd.{Item, bin_size, bin_indices}

-- The indices of the items are what the result holds.
pub flatten-bin_indices :
    (bins : List (List Item)) → flatten (bin_indices bins) ≡ map (λ p. p.0) (flatten bins)
unfolding bin_indices flatten
flatten-bin_indices [] = refl
flatten-bin_indices ([] ∷ bs) = flatten-bin_indices bs
flatten-bin_indices ((x ∷ b) ∷ bs) =
    ap (λ t. x.0 ∷ (map (λ p. p.0) b ++ t)) (flatten-bin_indices bs)
    ∙ sym (map-append (λ (p : Item). p.0) (x ∷ b) (flatten bs))

pub bin_indices-filled : (bins : List (List Item)) → All (λ b. b ≢ []) (bin_indices bins)
unfolding bin_indices
bin_indices-filled [] = tt
bin_indices-filled ([] ∷ bs) = bin_indices-filled bs
bin_indices-filled ((x ∷ b) ∷ bs) = (λ e. cc, bin_indices-filled bs)

abbrev pub Known : List ℕ → Item → Type 0
Known lengths x = get_or lengths x.0 0 ≡ x.1

load-indices :
    (lengths : List ℕ) (b : List Item)
    → All (Known lengths) b
    → load lengths (map (λ p. p.0) b) ≡ bin_size b
load-indices lengths [] h = refl
load-indices lengths (x ∷ b) h = omega (arith, h.0, load-indices lengths b h.1)

pub bin_indices-fits :
    (lengths : List ℕ) (capacity : ℕ) (bins : List (List Item))
    → All (Known lengths) (flatten bins)
    → All (λ b. bin_size b ≤ capacity) bins
    → All (λ b. load lengths b ≤ capacity) (bin_indices bins)
unfolding bin_indices flatten
bin_indices-fits lengths capacity [] k l = tt
bin_indices-fits lengths capacity ([] ∷ bs) k l = bin_indices-fits lengths capacity bs k l.1
bin_indices-fits lengths capacity ((x ∷ b) ∷ bs) k l =
    let (mine, others) = All-split (Known lengths) (x ∷ b) (flatten bs) k in
    (
      omega (arith, load-indices lengths (x ∷ b) mine, l.0),
      bin_indices-fits lengths capacity bs others l.1,
    )
