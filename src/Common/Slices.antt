-- ===== src/Common/Slices.antt =====
-- Slices by position: what holds of every element, and an element of a slice.
use Prim.Native.Nat.{ℕ, zero, suc, ◌+◌, ◌<◌}
use mathlib.Core.Path.{◌≡◌, refl, ap, ◌∙◌}
use mathlib.Core.List.{List, [], ◌∷◌, map}
use native.Mathlib.Omega.{arith}
use ne_mo_rl_enhanced_math_r.Common.Lists.{length, get_or, take, drop}
use ne_mo_rl_enhanced_math_r.Common.Positions.{All}

module _ {ℓ κ} {A : Type ℓ} (P : A → Type κ) where
  pub All-take : (n : ℕ) (xs : List A) → All P xs → All P (take n xs)
  All-take zero xs h = tt
  All-take (suc n) [] h = tt
  All-take (suc n) (x ∷ xs) h = (h.0, All-take n xs (h.1))

  pub All-drop : (n : ℕ) (xs : List A) → All P xs → All P (drop n xs)
  All-drop zero xs h = h
  All-drop (suc n) [] h = tt
  All-drop (suc n) (x ∷ xs) h = All-drop n xs (h.1)

  pub All-map {μ} :
      {B : Type μ} (f : B → A) (xs : List B) → All (λ x. P (f x)) xs → All P (map f xs)
  All-map f [] h = tt
  All-map f (x ∷ xs) h = (h.0, All-map f xs (h.1))

module _ {ℓ} {A : Type ℓ} where
  pub get_or-drop : (n i : ℕ) (xs : List A) (d : A) → get_or (drop n xs) i d ≡ get_or xs (i + n) d
  get_or-drop zero i xs d = ap (λ k. get_or xs k d) (omega arith)
  get_or-drop (suc n) i [] d = refl
  get_or-drop (suc n) i (x ∷ xs) d = get_or-drop n i xs d ∙ ap (λ k. get_or (x ∷ xs) k d) next
    where
      next : suc (i + n) ≡ i + suc n
      next = omega arith

  pub get_or-take : (n i : ℕ) (xs : List A) (d : A) → i < n → get_or (take n xs) i d ≡ get_or xs i d
  get_or-take zero i xs d l = absurd (omega (arith, l))
  get_or-take (suc n) i [] d l = refl
  get_or-take (suc n) zero (x ∷ xs) d l = refl
  get_or-take (suc n) (suc i) (x ∷ xs) d l = get_or-take n i xs d (omega (arith, l))

  pub get_or-map {κ} :
      {B : Type κ} (f : A → B) (i : ℕ) (xs : List A) (d : A) (e : B)
      → i < length xs
      → get_or (map f xs) i e ≡ f (get_or xs i d)
  get_or-map f i [] d e l = elim l [ ]
  get_or-map f zero (x ∷ xs) d e l = refl
  get_or-map f (suc i) (x ∷ xs) d e l = get_or-map f i xs d e (omega (arith, l))
