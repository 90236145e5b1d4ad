-- ===== src/Common/Keys.antt =====
-- Dictionaries whose keys are distinct, as those of Python are.
use Prim.Native.Nat.{ℕ}
use mathlib.Core.Path.{◌≡◌, refl, ◌∙◌}
use mathlib.Core.Bool.{false}
use mathlib.Core.Logic.{inl, inr}
use mathlib.Core.Option.{some}
use mathlib.Core.List.{[], ◌∷◌}
use native.Mathlib.Omega.{arith}
use ne_mo_rl_enhanced_math_r.Common.Tests.{◌==◌, Bool-cases}
use ne_mo_rl_enhanced_math_r.Common.Dicts.{Dict, lookup, has, put}

module _ {ℓ} {A : Type ℓ} where
  abbrev pub HasDistinctKeys : Dict A → Type 0
  HasDistinctKeys [] = Unit {0}
  HasDistinctKeys ((k, a) ∷ d) = (has k d ≡ false) × HasDistinctKeys d

  pub has-put_ne : (k j : ℕ) (a : A) (d : Dict A) → (j == k) ≡ false → has j (put k a d) ≡ has j d
  has-put_ne k j a [] h = rw h refl
  has-put_ne k j a ((i, b) ∷ d) h = elim (Bool-cases (k == i)) [
    | inl e ↦
        let same : k ≡ i = ground (arith, e) in
        let h' : (j == i) ≡ false = rw same at h in rw (e, h, h') refl
    | inr e ↦ elim (Bool-cases (j == i)) [
      | inl f ↦ rw (e, f) refl
      | inr f ↦ rw (e, f) (has-put_ne k j a d h)
    ]
  ]

  pub put-HasDistinctKeys :
      (k : ℕ) (a : A) (d : Dict A) → HasDistinctKeys d → HasDistinctKeys (put k a d)
  put-HasDistinctKeys k a [] h = (refl, tt)
  put-HasDistinctKeys k a ((i, b) ∷ d) h = elim (Bool-cases (k == i)) [
    | inl e ↦
        let same : k ≡ i = ground (arith, e) in
        let first : has k d ≡ false = rw same (h.0) in rw e (first, h.1)
    | inr e ↦
        let differ : (i == k) ≡ false = ground (arith, e) in
        rw e (has-put_ne k i a d differ ∙ h.0, put-HasDistinctKeys k a d (h.1))
  ]

  -- A key of the rest is not the first one.
  pub lookup_rest :
      (k j : ℕ) (a b : A) (d : Dict A)
      → has k d ≡ false
      → lookup j d ≡ some b
      → lookup j ((k, a) ∷ d) ≡ some b
  lookup_rest k j a b d h e = elim (Bool-cases (j == k)) [
    | inr f ↦ rw f e
    | inl f ↦
        let same : j ≡ k = ground (arith, f) in
        let e' : lookup k d ≡ some b = rw same at e in absurd (missing d h e')
  ]
    where
      missing : (d : Dict A) → has k d ≡ false → lookup k d ≡ some b → ⊥
      missing [] h e = cc
      missing ((i, c) ∷ d) h e = elim (Bool-cases (k == i)) [
        | inl f ↦ let x = rw f at h in cc
        | inr f ↦ missing d (rw f at h) (rw f at e)
      ]
