-- ===== src/Common/Positions.antt =====
-- Lists by position: `enumerate`, `range`, an element changed or popped in place.
use Prim.Native.Nat.{ℕ, zero, suc, ◌+◌, ◌<◌}
use mathlib.Core.Path.{◌≡◌, refl, ap, ◌∙◌}
use mathlib.Core.Logic.{∥∥₁_elim}
use mathlib.Core.HLevel.{×_prop}
use mathlib.Core.List.{List, [], ◌∷◌, ◌++◌, map, Perm, Permᴰ}
use native.Mathlib.Omega.{arith}
use ne_mo_rl_enhanced_math_r.Common.Lists.{length, get_or}

-- `k, k + 1, …`, with `n` numbers.
abbrev pub range_from : ℕ → ℕ → List ℕ
range_from k zero = []
range_from k (suc n) = k ∷ range_from (suc k) n

abbrev pub range : ℕ → List ℕ
range n = range_from 0 n

pub length-range_from : (k n : ℕ) → length (range_from k n) ≡ n
length-range_from k zero = refl
length-range_from k (suc n) = ap suc (length-range_from (suc k) n)

module _ {ℓ} {A : Type ℓ} where
  -- `enumerate(xs, k)`, with the element first.
  abbrev pub enumerate_from : ℕ → List A → List (A × ℕ)
  enumerate_from k [] = []
  enumerate_from k (x ∷ xs) = (x, k) ∷ enumerate_from (suc k) xs

  abbrev pub enumerate : List A → List (A × ℕ)
  enumerate xs = enumerate_from 0 xs

  pub map-enumerate_from :
      (k : ℕ) (xs : List A)
      → map (λ (p : A × ℕ). p.1) (enumerate_from k xs) ≡ range_from k (length xs)
  map-enumerate_from k [] = refl
  map-enumerate_from k (x ∷ xs) = ap (λ r. k ∷ r) (map-enumerate_from (suc k) xs)

  -- `xs[i] = f(xs[i])`; out of range nothing changes.
  abbrev pub modify : ℕ → (A → A) → List A → List A
  modify i f [] = []
  modify zero f (x ∷ xs) = f x ∷ xs
  modify (suc i) f (x ∷ xs) = x ∷ modify i f xs

  -- `xs.pop(i)`, the list that is left.
  abbrev pub erase_at : ℕ → List A → List A
  erase_at i [] = []
  erase_at zero (x ∷ xs) = xs
  erase_at (suc i) (x ∷ xs) = x ∷ erase_at i xs

  -- `xs.insert(i, a)`: past the end, at the end.
  abbrev pub insert_at : ℕ → A → List A → List A
  insert_at zero a xs = a ∷ xs
  insert_at (suc i) a [] = a ∷ []
  insert_at (suc i) a (x ∷ xs) = x ∷ insert_at i a xs

  pub length-modify : (i : ℕ) (f : A → A) (xs : List A) → length (modify i f xs) ≡ length xs
  length-modify i f [] = refl
  length-modify zero f (x ∷ xs) = refl
  length-modify (suc i) f (x ∷ xs) = ap suc (length-modify i f xs)

  pub get_or-modify_ne :
      (i j : ℕ) (f : A → A) (xs : List A) (d : A)
      → (i ≡ j → ⊥)
      → get_or (modify i f xs) j d ≡ get_or xs j d
  get_or-modify_ne i j f [] d h = refl
  get_or-modify_ne zero zero f (x ∷ xs) d h = absurd (h refl)
  get_or-modify_ne zero (suc j) f (x ∷ xs) d h = refl
  get_or-modify_ne (suc i) zero f (x ∷ xs) d h = refl
  get_or-modify_ne (suc i) (suc j) f (x ∷ xs) d h = get_or-modify_ne i j f xs d (λ e. h (ap suc e))

  pub get_or-modify_self :
      (i : ℕ) (f : A → A) (xs : List A) (d : A)
      → i < length xs
      → get_or (modify i f xs) i d ≡ f (get_or xs i d)
  get_or-modify_self i f [] d h = elim h [ ]
  get_or-modify_self zero f (x ∷ xs) d h = refl
  get_or-modify_self (suc i) f (x ∷ xs) d h = get_or-modify_self i f xs d (omega arith)

  -- Each entry of `enumerate` is an element with its place.
  abbrev pub PlacedIn : List A → A → A × ℕ → Type ℓ
  PlacedIn xs d (x, i) = get_or xs i d ≡ x

module _ {ℓ κ} {A : Type ℓ} (P : A → Type κ) where
  -- `P` holds of every element.
  abbrev pub All : List A → Type κ
  All [] = Unit
  All (x ∷ xs) = P x × All xs

  pub All-append : (xs ys : List A) → All xs → All ys → All (xs ++ ys)
  All-append [] ys h k = k
  All-append (x ∷ xs) ys h k = (h.0, All-append xs ys h.1 k)

  pub All-split : (xs ys : List A) → All (xs ++ ys) → All xs × All ys
  All-split [] ys h = (tt, h)
  All-split (x ∷ xs) ys h = let (a, b) = All-split xs ys h.1 in ((h.0, a), b)

  pub All-get_or : (i : ℕ) (xs : List A) (d : A) → All xs → i < length xs → P (get_or xs i d)
  All-get_or i [] d h l = elim l [ ]
  All-get_or zero (x ∷ xs) d h l = h.0
  All-get_or (suc i) (x ∷ xs) d h l = All-get_or i xs d h.1 (omega arith)

  pub All-modify :
      (i : ℕ) (f : A → A) (xs : List A) → ((x : A) → P x → P (f x)) → All xs → All (modify i f xs)
  All-modify i f [] k h = h
  All-modify zero f (x ∷ xs) k h = (k x h.0, h.1)
  All-modify (suc i) f (x ∷ xs) k h = (h.0, All-modify i f xs k h.1)

  module _ (prop : (x : A) → IsProp (P x)) where
    All-prop : (xs : List A) → IsProp (All xs)
    All-prop [] = λ a b. refl
    All-prop (x ∷ xs) = ×_prop (prop x) (All-prop xs)

    All-permᴰ : {xs ys : List A} → Permᴰ xs ys → All xs → All ys
    All-permᴰ Permᴰ.nil h = h
    All-permᴰ (Permᴰ.cons e p) h = (rw (← e) (h.0), All-permᴰ p h.1)
    All-permᴰ (Permᴰ.swap e e') h = (rw (← e') (h.1.0), (rw (← e) (h.0), h.1.1))
    All-permᴰ (Permᴰ.trans p q) h = All-permᴰ q (All-permᴰ p h)

    -- The order of the elements does not matter.
    pub All-perm : {xs ys : List A} → Perm xs ys → All xs → All ys
    All-perm {ys} p h = ∥∥₁_elim p (All-prop ys) (λ q. All-permᴰ q h)

module _ {ℓ} {A : Type ℓ} (all : List A) (d : A) where
  All-enumerate_from :
      (k : ℕ) (xs : List A)
      → ((j : ℕ) → get_or all (k + j) d ≡ get_or xs j d)
      → All (PlacedIn all d) (enumerate_from k xs)
  All-enumerate_from k [] h = tt
  All-enumerate_from k (x ∷ xs) h = (
    ap (λ i. get_or all i d) (omega arith) ∙ h 0,
    All-enumerate_from (suc k) xs λ j. ap (λ i. get_or all i d) (omega arith) ∙ h (suc j),
  )

  pub All-enumerate : All (PlacedIn all d) (enumerate all)
  All-enumerate = All-enumerate_from 0 all λ j. ap (λ i. get_or all i d) (omega arith)
