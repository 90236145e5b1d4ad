-- ===== src/Common/Ranges.antt =====
-- A range is the only sorted list of its numbers, so sorting a list of them gives the range.
use Prim.Native.Nat.{ℕ, zero, suc, ◌+◌, ◌≤◌, ◌<◌}
use mathlib.Core.Path.{◌≡◌, refl, ap, sym, ◌∙◌}
use mathlib.Core.Bool.{Bool, true, false}
use mathlib.Core.Logic.{inl, inr}
use mathlib.Core.List.{List, [], ◌∷◌, map, Perm, flatten}
use native.Mathlib.Omega.{arith}
use native.Mathlib.Decide.{ℕ_discrete}
use ne_mo_rl_enhanced_math_r.Common.Tests.{ltb, leb, if◌then◌else◌, Bool-cases}
use ne_mo_rl_enhanced_math_r.Common.Sums.{sum_of, sum_of-append}
use ne_mo_rl_enhanced_math_r.Common.Sort.{
  insert_by, sort_by, sort_by-perm, AllAfter, IsSortedBy, sort_by-IsSortedBy,
}
use ne_mo_rl_enhanced_math_r.Common.Positions.{range_from, range, All}
use ne_mo_rl_enhanced_math_r.Common.Contents.{Same, perm-Same, Same-perm}

-- Weighings that count the numbers below a bound, and up to it.
abbrev one_if : Bool → ℕ
one_if b = if b then 1 else 0

abbrev below : ℕ → ℕ → ℕ
below k y = one_if (ltb y k)

abbrev up_to : ℕ → ℕ → ℕ
up_to k y = one_if (leb y k)

below-range_from : (k j n : ℕ) → k ≤ j → sum_of (below k) (range_from j n) ≡ 0
below-range_from k j zero l = refl
below-range_from k j (suc n) l =
    let first : below k j ≡ 0 = ground (arith, l) in
    omega (arith, first, below-range_from k (suc j) n (omega (arith, l)))

up_to-AllAfter : (k x : ℕ) (xs : List ℕ) → k < x → AllAfter leb x xs → sum_of (up_to k) xs ≡ 0
up_to-AllAfter k x [] l a = refl
up_to-AllAfter k x (y ∷ ys) l a =
    let le : leb x y ≡ true = a.0 in
    let first : up_to k y ≡ 0 = ground (arith, le, l) in
    omega (arith, first, up_to-AllAfter k x ys l (a.1))

least_first :
    (k n x : ℕ) (xs : List ℕ) → AllAfter leb x xs → Same (x ∷ xs) (range_from k (suc n)) → x ≡ k
least_first k n x xs a s =
    let none_below : below k k ≡ 0 = ground arith in
    let first : up_to k k ≡ 1 = ground arith in
    let not_below : below k x ≡ 0 =
      omega (arith, s (below k), none_below, below-range_from k (suc k) n (omega arith)) in
    elim (Bool-cases (leb x k)) [
      | inl e ↦ ground (arith, e, not_below)
      | inr e ↦
          let above : k < x = ground (arith, e) in
          let not_up_to : up_to k x ≡ 0 = ground (arith, above) in
          absurd (omega (arith, s (up_to k), first, not_up_to, up_to-AllAfter k x xs above a))
    ]

sorted_range :
    (k n : ℕ) (xs : List ℕ) → IsSortedBy leb xs → Same xs (range_from k n) → xs ≡ range_from k n
sorted_range k zero [] o s = refl
sorted_range k zero (x ∷ xs) o s = absurd (omega (arith, s (λ y. 1)))
sorted_range k (suc n) [] o s = absurd (omega (arith, s (λ y. 1)))
sorted_range k (suc n) (x ∷ xs) o s =
    let first : x ≡ k = least_first k n x xs (o.0) s in
    ap (λ y. y ∷ xs) first
    ∙ ap (λ r. k ∷ r) (sorted_range (suc k) n xs (o.1) (λ f. omega (arith, s f, ap f first)))

leb_total : (x y : ℕ) → leb x y ≡ false → leb y x ≡ true
leb_total x y e = ground (arith, e)

leb_trans : (x y z : ℕ) → leb x y ≡ true → leb y z ≡ true → leb x z ≡ true
leb_trans x y z e f = ground (arith, e, f)

pub sort_by-range : (n : ℕ) (xs : List ℕ) → Perm xs (range n) → sort_by leb xs ≡ range n
sort_by-range n xs p =
    sorted_range 0 n (sort_by leb xs) (sort_by-IsSortedBy leb leb_total leb_trans xs)
      (λ f. perm-Same (sort_by-perm leb xs) f ∙ perm-Same p f)

module _ {ℓ κ} {A : Type ℓ} (le : A → A → Bool) (P : A → Type κ) where
  All-insert_by : (x : A) (ys : List A) → P x → All P ys → All P (insert_by le x ys)
  All-insert_by x [] p h = (p, h)
  All-insert_by x (y ∷ ys) p h = elim (Bool-cases (le x y)) [
    | inl e ↦ rw e (p, h)
    | inr e ↦ rw e (h.0, All-insert_by x ys p (h.1))
  ]

  pub All-sort_by : (xs : List A) → All P xs → All P (sort_by le xs)
  All-sort_by [] h = h
  All-sort_by (x ∷ xs) h = All-insert_by x (sort_by le xs) (h.0) (All-sort_by xs (h.1))

-- A list sorted by a key has its keys sorted.
module _ {ℓ} {A : Type ℓ} (key : A → ℕ) where
  map-insert_by :
      (x : A) (ys : List A)
      → map key (insert_by (λ a b. leb (key a) (key b)) x ys) ≡ insert_by leb (key x) (map key ys)
  map-insert_by x [] = refl
  map-insert_by x (y ∷ ys) = elim (Bool-cases (leb (key x) (key y))) [
    | inl e ↦ rw e refl
    | inr e ↦ rw e (ap (λ r. key y ∷ r) (map-insert_by x ys))
  ]

  pub map-sort_by :
      (xs : List A) → map key (sort_by (λ a b. leb (key a) (key b)) xs) ≡ sort_by leb (map key xs)
  map-sort_by [] = refl
  map-sort_by (x ∷ xs) =
      map-insert_by x (sort_by (λ a b. leb (key a) (key b)) xs)
      ∙ ap (insert_by leb (key x)) (map-sort_by xs)

pub All-range_from {κ} :
    {P : ℕ → Type κ} (j n : ℕ) → ((i : ℕ) → j ≤ i → i < j + n → P i) → All P (range_from j n)
All-range_from j zero h = tt
All-range_from j (suc n) h = (
  h j (omega arith) (omega arith),
  All-range_from (suc j) n (λ i l m. h i (omega (arith, l)) (omega (arith, m))),
)

-- Every number of a list with the contents of a range is below its end.
pub Same-below : (n : ℕ) (xs : List ℕ) → Same xs (range n) → All (λ i. i < n) xs
Same-below n xs s = all_below xs (s outside ∙ none_outside 0 n (omega arith))
  where
    outside : ℕ → ℕ
    outside y = one_if (leb n y)

    none_outside : (j m : ℕ) → j + m ≤ n → sum_of outside (range_from j m) ≡ 0
    none_outside j zero l = refl
    none_outside j (suc m) l =
        let first : one_if (leb n j) ≡ 0 = ground (arith, l) in
        omega (arith, first, none_outside (suc j) m (omega (arith, l)))

    all_below : (ys : List ℕ) → sum_of outside ys ≡ 0 → All (λ i. i < n) ys
    all_below [] e = tt
    all_below (y ∷ ys) e =
        let first : one_if (leb n y) ≡ 0 = omega (arith, e) in
        (ground (arith, first), all_below ys (omega (arith, e)))

pub perm-range : (n : ℕ) (xs : List ℕ) → Same xs (range n) → Perm xs (range n)
perm-range n xs s = Same-perm ℕ_discrete xs (range n) s

module _ {ℓ} {A : Type ℓ} (f : A → ℕ) where
  pub sum_of-flatten : (xss : List (List A)) → sum_of f (flatten xss) ≡ sum_of (sum_of f) xss
  unfolding flatten
  sum_of-flatten [] = refl
  sum_of-flatten (xs ∷ xss) = omega (arith, sum_of-append f xs (flatten xss), sum_of-flatten xss)

module _ {κ} {B : Type κ} where
  sum_of_zero : (ys : List B) → sum_of (λ y. 0) ys ≡ 0
  sum_of_zero [] = refl
  sum_of_zero (y ∷ ys) = omega (arith, sum_of_zero ys)

  sum_of_plus : (f g : B → ℕ) (ys : List B) → sum_of (λ y. f y + g y) ys ≡ sum_of f ys + sum_of g ys
  sum_of_plus f g [] = refl
  sum_of_plus f g (y ∷ ys) = omega (arith, sum_of_plus f g ys)

module _ {ℓ κ} {A : Type ℓ} {B : Type κ} where
  pub sum_of-map :
      (f : B → ℕ) (g : A → B) (xs : List A) → sum_of f (map g xs) ≡ sum_of (λ x. f (g x)) xs
  sum_of-map f g [] = refl
  sum_of-map f g (x ∷ xs) = ap (λ k. f (g x) + k) (sum_of-map f g xs)

  -- The order of two summations does not matter.
  pub sum_of_swap :
      (f : A → B → ℕ) (xs : List A) (ys : List B)
      → sum_of (λ x. sum_of (f x) ys) xs ≡ sum_of (λ y. sum_of (λ x. f x y) xs) ys
  sum_of_swap f [] ys = sym (sum_of_zero ys)
  sum_of_swap f (x ∷ xs) ys =
      ap (λ k. sum_of (f x) ys + k) (sum_of_swap f xs ys)
      ∙ sym (sum_of_plus (f x) (λ y. sum_of (λ x. f x y) xs) ys)

pub sum_of_cong {ℓ} :
    {A : Type ℓ} (f g : A → ℕ) (xs : List A) → All (λ x. f x ≡ g x) xs → sum_of f xs ≡ sum_of g xs
sum_of_cong f g [] h = refl
sum_of_cong f g (x ∷ xs) h = omega (arith, h.0, sum_of_cong f g xs (h.1))
