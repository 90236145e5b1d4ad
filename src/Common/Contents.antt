-- ===== src/Common/Contents.antt =====
-- Two lists hold the same elements, as often, if every weighing of the elements gives both the same
-- sum. Such an equation of sums is arithmetic; at the end it is turned into a permutation.
use mathlib.Core.List.Perm
use mathlib.Core.Path.{◌≡◌, refl}
use mathlib.Core.Logic.{ite, if_pos, if_neg}
use mathlib.Core.List.{List, [], ◌∷◌, Perm}
use Prim.Native.Nat.{ℕ, ◌<◌}
use native.Mathlib.Omega.{arith}
use ne_mo_rl_enhanced_math_r.Common.Sums.{sum_of, sum_of-perm}

module _ {ℓ} {A : Type ℓ} where
  abbrev pub Same : List A → List A → Type ℓ
  Same xs ys = (f : A → ℕ) → sum_of f xs ≡ sum_of f ys

  pub perm-Same : {xs ys : List A} → Perm xs ys → Same xs ys
  perm-Same p f = sum_of-perm f p

  module _ (d : Discrete A) where
    abbrev is_elem : A → A → ℕ
    is_elem a x = ite (d x a) 1 0

    take_out : (a : A) (ys : List A) → 0 < sum_of (is_elem a) ys → (r : List A) × Perm ys (a ∷ r)
    take_out a [] h = absurd (omega arith)
    take_out a (y ∷ ys) h = elim (d y a) [
      | yes e ↦ (ys, Perm.cons' e Perm.rfl)
      | no n ↦
          let (r, p) = take_out a ys (omega (arith, h, if_neg {C = ℕ} (d y a) n 1 0)) in
          (y ∷ r, Perm.trans (Perm.cons y p) (Perm.swap a y r))
    ]

    pub Same-perm : (xs ys : List A) → Same xs ys → Perm xs ys
    Same-perm [] [] h = Perm.rfl
    Same-perm [] (y ∷ ys) h = absurd (omega (arith, h (λ x. 1)))
    Same-perm (x ∷ xs) ys h =
        let (r, p) =
          take_out x ys (omega (arith, h (is_elem x), if_pos {C = ℕ} (d x x) refl 1 0)) in
        Perm.trans (Perm.cons x (Same-perm xs r (λ f. omega (arith, h f, sum_of-perm f p))))
          (Perm.symm p)
