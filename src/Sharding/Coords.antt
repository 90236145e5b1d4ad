-- ===== src/Sharding/Coords.antt =====
-- nemo_rl/distributed/named_sharding.py: the coordinates of a rank, and the ranks at coordinates.
use native.Mathlib.Nat.{mod-add-div', mod-lt, mul-le-mul_right}
use ne_mo_rl_enhanced_math_r.Common.{
  ℕ, zero, suc, ◌+◌, ◌*◌, ◌/◌, ◌%◌, ◌≤◌, ◌<◌, List, [], ◌∷◌, map, some, ltb, inl, inr, length, take,
  drop, ◌≡◌, refl, sym, ap, ◌∙◌, arith, ltb→lt, Bool-cases, length-take, length-drop,
}
use ne_mo_rl_enhanced_math_r.Sharding.{product, unravel}
use ne_mo_rl_enhanced_math_r.Sharding.Select.{block, subset}

-- What a place holds, as the list of that entry.
pub drop-drop : (m n : ℕ) (xs : List ℕ) → drop m (drop n xs) ≡ drop (m + n) xs
drop-drop m zero xs = ap (λ k. drop k xs) (omega arith)
drop-drop m (suc n) [] = drop_nil m ∙ sym (drop_nil (m + suc n))
  where
    drop_nil : (k : ℕ) → drop {A = ℕ} k [] ≡ []
    drop_nil zero = refl
    drop_nil (suc k) = refl
drop-drop m (suc n) (x ∷ xs) = drop-drop m n xs ∙ ap (λ k. drop k (x ∷ xs)) next
  where
    next : suc (m + n) ≡ m + suc n
    next = omega arith

pub take-drop-take :
    (r m : ℕ) (xs : List ℕ) → r < m → take 1 (drop r (take m xs)) ≡ take 1 (drop r xs)
take-drop-take r zero xs h = absurd (omega (arith, h))
take-drop-take zero (suc m) [] h = refl
take-drop-take (suc r) (suc m) [] h = refl
take-drop-take zero (suc m) (x ∷ xs) h = refl
take-drop-take (suc r) (suc m) (x ∷ xs) h = take-drop-take r m xs (omega (arith, h))

pub take_all : (xs : List ℕ) → length xs ≡ 1 → take 1 xs ≡ xs
take_all [] h = absurd (omega (arith, h))
take_all (x ∷ []) h = refl
take_all (x ∷ y ∷ xs) h = absurd (omega (arith, h))

-- The quotient and the remainder of a place in `d` rows of `m` entries.
pub row_of : (d m p : ℕ) → p < d * m → (p / m < d) × (p % m < m) × (p % m + p / m * m ≡ p)
row_of d zero p h = omega (arith, h)
row_of d (suc m) p h = (below (p / suc m) d whole h, mod-lt p (omega arith), whole)
  where
    whole : p % suc m + p / suc m * suc m ≡ p
    whole = mod-add-div' p (suc m)

    below : (q d : ℕ) → p % suc m + q * suc m ≡ p → p < d * suc m → q < d
    below q d e h = elim (Bool-cases (ltb q d)) [
      | inl f ↦ ltb→lt q d f
      | inr f ↦
          let over : d ≤ q = ground (arith, f) in
          let many : d * suc m ≤ q * suc m = mul-le-mul_right (suc m) over in
          absurd (omega (arith, many, e, h))
    ]

pub subset-unravel :
    (dims : List ℕ) (p : ℕ) (xs : List ℕ)
    → p < product dims
    → length xs ≡ product dims
    → subset dims (map some (unravel dims p)) xs ≡ take 1 (drop p xs)
subset-unravel [] p xs h e =
    let first : p ≡ 0 = omega (arith, h) in sym (ap (λ k. take 1 (drop k xs)) first ∙ take_all xs e)
subset-unravel (d ∷ dims) p xs h e =
    let m = product dims in
    let (inside, within, whole) = row_of d m p h in
    let room : suc (p / m) * m ≤ d * m = mul-le-mul_right m (omega (arith, inside)) in
    let size : length (block m (p / m) xs) ≡ m =
      length-take m (drop (p / m * m) xs) ∙ omega (arith, length-drop (p / m * m) xs, room, e) in
    subset-unravel dims (p % m) (block m (p / m) xs) within size
    ∙ take-drop-take (p % m) m (drop (p / m * m) xs) within
    ∙ ap (take 1) (drop-drop (p % m) (p / m * m) xs)
    ∙ ap (λ k. take 1 (drop k xs)) whole
