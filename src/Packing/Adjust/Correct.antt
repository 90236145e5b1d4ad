-- ===== src/Packing/Adjust/Correct.antt =====
-- `_adjust_bin_count` turns a packing into one with the wanted number of bins.
use mathlib.Core.List.Perm
use ne_mo_rl_enhanced_math_r.Common.{
  ℕ, zero, suc, ◌-◌, ◌≤◌, ◌<◌, ◌≡◌, ◌≢◌, refl, ap, ◌∙◌, sym, ◌⊎◌, inl, inr, List, [], ◌∷◌, ◌++◌,
  Perm, flatten, Option, arith, ltb, ◌==◌, Bool-cases, ok, raise, length, get_or, replicate,
  length-append, length-replicate, All, All-get_or, sum_of, sum_of-perm, length-range_from, range,
  dec_lt,
}
use ne_mo_rl_enhanced_math_r.Packing.Base.{too_few_sequences, load, IsPacking}
use ne_mo_rl_enhanced_math_r.Packing.Adjust.{target_bin_count, bin_sizes, adjust_bin_count}
use ne_mo_rl_enhanced_math_r.Packing.Adjust.Sources.{
  bin_sizes-Sources, get_or-padded, spare-bin_sizes,
}
use ne_mo_rl_enhanced_math_r.Packing.Adjust.Fill.{Inv, fill_new_bins-Inv}
use ne_mo_rl_enhanced_math_r.Packing.Adjust.Target.{IsPositive, target_bin_count_least}

-- A packing whose bins all hold something is filled from the view of its positions, and back.
start-Inv :
    (lengths : List ℕ) (capacity n : ℕ) (bins : List (List ℕ))
    → IsPacking capacity lengths bins
    → Inv lengths capacity (length bins) (length bins) (bins ++ replicate n [])
start-Inv lengths capacity n bins p = record {
  full = λ k h. rw (get_or-padded bins n k) (nonempty k h);
  waiting = λ k h. get_or-padded bins n k ∙ past k bins h;
  light = λ k. rw (get_or-padded bins n k) (light k);
}
  where
    past : (k : ℕ) (bs : List (List ℕ)) → length bs ≤ k → get_or bs k [] ≡ []
    past k [] h = refl
    past zero (b ∷ bs) h = absurd (omega arith)
    past (suc k) (b ∷ bs) h = past k bs (omega arith)

    size_pos : (b : List ℕ) → b ≢ [] → 0 < length b
    size_pos [] h = absurd (h refl)
    size_pos (x ∷ b) h = omega arith

    nonempty : (k : ℕ) → k < length bins → 0 < length (get_or bins k [])
    nonempty k h = size_pos (get_or bins k []) (All-get_or (λ b. b ≢ []) k bins [] p.filled h)

    light : (k : ℕ) → load lengths (get_or bins k []) ≤ capacity
    light k = elim (dec_lt k (length bins)) [
      | yes h ↦ All-get_or (λ b. load lengths b ≤ capacity) k bins [] p.fits h
      | no h ↦ omega (arith, ap (load lengths) (past k bins (omega arith)))
    ]

All-of_positions {κ} :
    (P : List ℕ → Type κ) (bins : List (List ℕ))
    → ((k : ℕ) → k < length bins → P (get_or bins k []))
    → All P bins
All-of_positions P [] h = tt
All-of_positions P (b ∷ bs) h =
    (h 0 (omega arith), All-of_positions P bs (λ k l. h (suc k) (omega arith)))

flatten-padded : (bins : List (List ℕ)) (n : ℕ) → flatten (bins ++ replicate n []) ≡ flatten bins
unfolding flatten
flatten-padded [] zero = refl
flatten-padded [] (suc n) = flatten-padded [] n
flatten-padded (b ∷ bs) n = ap (λ t. b ++ t) (flatten-padded bs n)

end-IsPacking :
    (lengths : List ℕ) (capacity bound n stop : ℕ) (bins r : List (List ℕ))
    → IsPacking capacity lengths bins
    → Perm (flatten r) (flatten (bins ++ replicate n []))
    → length r ≡ stop
    → Inv lengths capacity bound stop r
    → IsPacking capacity lengths r
end-IsPacking lengths capacity bound n stop bins r q p l v = record {
  complete = Perm.trans p (rw (flatten-padded bins n) q.complete);
  fits = All-of_positions (λ b. load lengths b ≤ capacity) r (λ k h. v.light k);
  filled =
      All-of_positions (λ b. b ≢ []) r
        λ k h e. absurd (omega (arith, v.full k (omega arith), ap length e));
}

sum-length : (bins : List (List ℕ)) → sum_of length bins ≡ length (flatten bins)
unfolding flatten
sum-length [] = refl
sum-length (b ∷ bs) = omega (arith, length-append b (flatten bs), sum-length bs)

count-eq-sum_of : (xs : List ℕ) → length xs ≡ sum_of (λ x. 1) xs
count-eq-sum_of [] = refl
count-eq-sum_of (x ∷ xs) = omega (arith, count-eq-sum_of xs)

pub total-IsPacking :
    (capacity : ℕ) (lengths : List ℕ) (bins : List (List ℕ))
    → IsPacking capacity lengths bins
    → sum_of length bins ≡ length lengths
total-IsPacking capacity lengths bins p =
    sum-length bins
    ∙ (count-eq-sum_of (flatten bins)
        ∙ (sum_of-perm (λ x. 1) p.complete
            ∙ (sym (count-eq-sum_of (range (length lengths)))
                ∙ length-range_from 0 (length lengths))))

-- A packing is turned into a packing of the same sequences with exactly the target number of bins,
-- or refused if there are fewer sequences than that; the loop never runs out of sequences to move.
pub adjust_bin_count-IsPacking :
    (least multiple : Option ℕ) (capacity : ℕ) (lengths : List ℕ) (bins : List (List ℕ))
    → IsPositive multiple
    → IsPacking capacity lengths bins
    → let target = target_bin_count least multiple (length bins) in
      ((r : List (List ℕ)) × (adjust_bin_count least multiple bins ≡ ok r)
        × (length r ≡ target)
        × IsPacking capacity lengths r)
      ⊎ ((length lengths < target)
          × (adjust_bin_count least multiple bins
              ≡ raise (too_few_sequences target (length lengths))))
unfolding adjust_bin_count
adjust_bin_count-IsPacking least multiple capacity lengths bins positive p =
    let count = length bins in
    let target = target_bin_count least multiple count in
    let total = total-IsPacking capacity lengths bins p in
    let (above, _, _) = target_bin_count_least least multiple count positive in
    elim (Bool-cases (target == count)) [
      | inl e ↦ inl (bins, rw e, ground arith, p)
      | inr e ↦ elim (Bool-cases (ltb (sum_of length bins) target)) [
        | inl f ↦ inr (ground (arith, total, f), rw (e, f, total))
        | inr f ↦
            let (r, g, q, n, v) =
              fill_new_bins-Inv lengths capacity count (target - count) count target
                (bins ++ replicate (target - count) []) (bin_sizes bins) (omega arith) (omega arith)
                (omega (
                  arith,
                  length-append bins (replicate (target - count) []),
                  length-replicate (target - count) (let empty : List ℕ = [] in empty),
                ))
                (bin_sizes-Sources bins)
                (ground (arith, f, spare-bin_sizes bins (target - count) p.filled))
                (start-Inv lengths capacity (target - count) bins p) in
            inl (
              r,
              rw (e, f) g,
              n,
              end-IsPacking lengths capacity count (target - count) target bins r p q n v,
            )
      ]
    ]
