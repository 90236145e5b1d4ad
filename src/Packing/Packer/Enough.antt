-- ===== src/Packing/Packer/Enough.antt =====
-- A packer whose number of bins is to be a multiple of `m`, at least `m`, returns if the sequences are
-- a multiple of `m`: there are always enough of them.
use native.Mathlib.Nat.{mod-eq_of_lt}
use ne_mo_rl_enhanced_math_r.Common.{
  ℕ, ◌%◌, ◌≤◌, ◌<◌, ◌≡◌, ◌≢◌, refl, inl, inr, List, [], ◌∷◌, none, some, arith, ok, leb, Bool-cases,
  length, All, sum_of,
}
use ne_mo_rl_enhanced_math_r.Packing.Base.{IsPacking}
use ne_mo_rl_enhanced_math_r.Packing.Adjust.Target.{Meets, target_bin_count_least}
use ne_mo_rl_enhanced_math_r.Packing.Adjust.Correct.{adjust_bin_count-IsPacking, total-IsPacking}
use ne_mo_rl_enhanced_math_r.Packing.Packer.{PackingAlgorithm, Packer, Shuffle, pack}
use ne_mo_rl_enhanced_math_r.Packing.Packer.Correct.{
  Shuffles, pack_implementation-IsPacking, implementation_total,
}

-- The packer that `shard_by_batch_size` asks for.
abbrev pub packer_for : PackingAlgorithm → (capacity m : ℕ) → Packer
packer_for algorithm capacity m = record {
  algorithm = algorithm;
  bin_capacity = capacity;
  min_bin_count = some m;
  bin_count_multiple = some m;
  metrics = none;
}

filled_le : (bins : List (List ℕ)) → All (λ bin. bin ≢ []) bins → length bins ≤ sum_of length bins
filled_le [] h = omega arith
filled_le ([] ∷ bins) h = absurd (h.0 refl)
filled_le ((x ∷ bin) ∷ bins) h = omega (arith, filled_le bins (h.1))

multiple_le : (n m : ℕ) → 0 < n → n % m ≡ 0 → m ≤ n
multiple_le n m l e = elim (Bool-cases (leb m n)) [
  | inl f ↦ ground (arith, f)
  | inr f ↦
      let below : n < m = ground (arith, f) in absurd (omega (arith, l, e, mod-eq_of_lt below))
]

Meets-multiple : (n m : ℕ) → 0 < n → n % m ≡ 0 → Meets (some m) (some m) n
Meets-multiple n m l e = record { enough = multiple_le n m l e; multiple = e }

pub pack_enough :
    (shuffle : Shuffle) (algorithm : PackingAlgorithm) (capacity m : ℕ) (lengths : List ℕ)
    → Shuffles shuffle
    → 0 < m
    → 0 < capacity
    → All (λ l. 0 < l) lengths
    → All (λ l. l ≤ capacity) lengths
    → 0 < length lengths
    → length lengths % m ≡ 0
    → (bins : List (List ℕ)) × (pack shuffle (packer_for algorithm capacity m) lengths
        ≡ ok (bins, packer_for algorithm capacity m))
      × IsPacking capacity lengths bins
      × (0 < length bins)
      × (length bins % m ≡ 0)
unfolding pack
pack_enough shuffle algorithm capacity m lengths h l c positive small some_length divides =
    let (bins, e) = implementation_total shuffle algorithm capacity lengths h c positive small in
    let q = pack_implementation-IsPacking shuffle algorithm capacity lengths bins h e in
    let few : length bins ≤ length lengths =
      omega (arith, filled_le bins (q.filled), total-IsPacking capacity lengths bins q) in
    let (_, meets, least) = target_bin_count_least (some m) (some m) (length bins) l in
    let target_le =
      least (length lengths) few (Meets-multiple (length lengths) m some_length divides) in
    elim (adjust_bin_count-IsPacking (some m) (some m) capacity lengths bins l q) [
      | inl (r, f, size, p) ↦
          let meets' : Meets (some m) (some m) (length r) = rw size meets in
          (r, rw (e, f) refl, p, omega (arith, meets'.enough, l), meets'.multiple)
      | inr (many, f) ↦ absurd (omega (arith, many, target_le))
    ]
