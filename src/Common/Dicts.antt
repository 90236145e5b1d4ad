-- ===== src/Common/Dicts.antt =====
-- A Python `dict` as an association list, its keys numbered: a new key goes to the end, and a known
-- key keeps its place.
use Prim.Native.Nat.{ℕ}
use mathlib.Core.Path.{◌≡◌, refl, ap, sym, ◌∙◌}
use mathlib.Core.Bool.{Bool, true, false}
use mathlib.Core.Logic.{inl, inr}
use mathlib.Core.Option.{Option, none, some}
use mathlib.Core.List.{List, [], ◌∷◌}
use native.Mathlib.Omega.{arith}
use ne_mo_rl_enhanced_math_r.Common.Tests.{◌==◌, if◌then◌else◌, Bool-cases}

abbrev pub Dict {ℓ} : Type ℓ → Type ℓ
Dict A = List (ℕ × A)

pub ==-self : (k : ℕ) → (k == k) ≡ true
==-self k = ground arith

pub ==-ne : (k j : ℕ) → (k ≡ j → ⊥) → (k == j) ≡ false
==-ne k j h = elim (Bool-cases (k == j)) [ inl e ↦ absurd (h (ground (arith, e))) | inr e ↦ e ]

module _ {ℓ} {A : Type ℓ} where
  abbrev pub lookup : ℕ → Dict A → Option A
  lookup k [] = none
  lookup k ((j, a) ∷ d) = if k == j then some a else lookup k d

  abbrev pub has : ℕ → Dict A → Bool
  has k [] = false
  has k ((j, a) ∷ d) = if k == j then true else has k d

  abbrev pub put : ℕ → A → Dict A → Dict A
  put k a [] = (k, a) ∷ []
  put k a ((j, b) ∷ d) = if k == j then (k, a) ∷ d else (j, b) ∷ put k a d

  -- `del`, and `pop`: every entry of the key, of which there is one at most.
  abbrev pub delete : ℕ → Dict A → Dict A
  delete k [] = []
  delete k ((j, a) ∷ d) = if k == j then delete k d else (j, a) ∷ delete k d

  pub lookup-put_self : (k : ℕ) (a : A) (d : Dict A) → lookup k (put k a d) ≡ some a
  lookup-put_self k a [] = rw (==-self k)
  lookup-put_self k a ((j, b) ∷ d) = elim (Bool-cases (k == j)) [
    | inl e ↦ rw (e, ==-self k)
    | inr e ↦ rw (e, e) (lookup-put_self k a d)
  ]

  pub lookup-put_ne :
      (k j : ℕ) (a : A) (d : Dict A) → (j ≡ k → ⊥) → lookup j (put k a d) ≡ lookup j d
  lookup-put_ne k j a [] h = rw (==-ne j k h)
  lookup-put_ne k j a ((i, b) ∷ d) h = elim (Bool-cases (k == i)) [
    | inl e ↦
        let same : k ≡ i = ground (arith, e) in
        rw (e, ==-ne j k h, ==-ne j i (λ f. h (f ∙ sym same)))
    | inr e ↦ rw e (ap (λ o. if j == i then some b else o) (lookup-put_ne k j a d h))
  ]

  pub lookup-delete_self : (k : ℕ) (d : Dict A) → lookup k (delete k d) ≡ none
  lookup-delete_self k [] = refl
  lookup-delete_self k ((j, a) ∷ d) = elim (Bool-cases (k == j)) [
    | inl e ↦ rw e (lookup-delete_self k d)
    | inr e ↦ rw (e, e) (lookup-delete_self k d)
  ]

  pub lookup-delete_ne : (k j : ℕ) (d : Dict A) → (j ≡ k → ⊥) → lookup j (delete k d) ≡ lookup j d
  lookup-delete_ne k j [] h = refl
  lookup-delete_ne k j ((i, a) ∷ d) h = elim (Bool-cases (k == i)) [
    | inl e ↦
        let same : k ≡ i = ground (arith, e) in
        rw (e, ==-ne j i (λ f. h (f ∙ sym same))) (lookup-delete_ne k j d h)
    | inr e ↦ rw e (ap (λ o. if j == i then some a else o) (lookup-delete_ne k j d h))
  ]

  pub has-lookup : (k : ℕ) (d : Dict A) → has k d ≡ false → lookup k d ≡ none
  has-lookup k [] h = refl
  has-lookup k ((j, a) ∷ d) h = elim (Bool-cases (k == j)) [
    | inl e ↦ let x = rw e at h in cc
    | inr e ↦ rw e (has-lookup k d (rw e at h))
  ]

  pub lookup-has : (k : ℕ) (a : A) (d : Dict A) → lookup k d ≡ some a → has k d ≡ true
  lookup-has k a [] h = cc
  lookup-has k a ((j, b) ∷ d) h = elim (Bool-cases (k == j)) [
    | inl e ↦ rw e
    | inr e ↦ rw e (lookup-has k a d (rw e at h))
  ]

  pub has→lookup : (k : ℕ) (d : Dict A) → has k d ≡ true → (a : A) × (lookup k d ≡ some a)
  has→lookup k [] h = cc
  has→lookup k ((j, a) ∷ d) h = elim (Bool-cases (k == j)) [
    | inl e ↦ (a, rw e)
    | inr e ↦ let (b, f) = has→lookup k d (rw e at h) in (b, rw e f)
  ]
