-- ===== src/Async/Buffer/Select.antt =====
-- The abstract view of the replay buffer: one list of entries, oldest first. The loops over
-- positions in three parallel lists select from that list.
use mathlib.Core.List.{perm_middle}
use mathlib.Core.List.Perm
use ne_mo_rl_enhanced_math_r.Common.{
  ℕ, zero, suc, ◌+◌, ◌≤◌, ◌≡◌, refl, ap, ◌∙◌, Bool, true, ◌&&◌, List, [], ◌∷◌, ◌++◌, map, Option,
  some, arith, ◌==◌, if◌then◌else◌, Bool-cases, inl, inr, ok, length, take, get_elem?, All, Perm,
}
use ne_mo_rl_enhanced_math_r.Async.Buffer.{ReplayBuffer, indices_from, positions_of, gather}

pub record Entry (A : Type 0) : Type 0 where
  pub trajectory : A
  pub version : ℕ
  pub target : ℕ

-- The buffer that holds these entries.
abbrev pub holds : {A : Type 0} → ℕ → Option ℕ → List (Entry A) → ReplayBuffer A
holds max_size last es = record {
  max_size = max_size;
  trajectories = map (λ e. e.trajectory) es;
  trajectory_versions = map (λ e. e.version) es;
  target_weight_versions = map (λ e. e.target) es;
  last_target_weight_already_generated = last;
}

module _ {A : Type 0} (test : A → Bool) where
  -- The first `n` elements that pass the test; all others; how many pass.
  abbrev pub first : ℕ → List A → List A
  first zero xs = []
  first (suc n) [] = []
  first (suc n) (x ∷ xs) = if test x then x ∷ first n xs else first (suc n) xs

  abbrev pub leave : ℕ → List A → List A
  leave zero xs = xs
  leave (suc n) [] = []
  leave (suc n) (x ∷ xs) = if test x then leave n xs else x ∷ leave (suc n) xs

  abbrev pub count : List A → ℕ
  count [] = 0
  count (x ∷ xs) = if test x then suc (count xs) else count xs

  pub length-indices_from : (k : ℕ) (xs : List A) → length (indices_from k test xs) ≡ count xs
  unfolding indices_from
  length-indices_from k [] = refl
  length-indices_from k (x ∷ xs) = elim (Bool-cases (test x)) [
    | inl e ↦ rw e (ap suc (length-indices_from (suc k) xs))
    | inr e ↦ rw e (length-indices_from (suc k) xs)
  ]

  pub length-first : (n : ℕ) (xs : List A) → n ≤ count xs → length (first n xs) ≡ n
  length-first zero xs h = refl
  length-first (suc n) [] h = absurd (omega arith)
  length-first (suc n) (x ∷ xs) h = elim (Bool-cases (test x)) [
    | inl e ↦ rw e (ap suc (length-first n xs (ground (arith, e, h))))
    | inr e ↦ rw e (length-first (suc n) xs (ground (arith, e, h)))
  ]

  -- What is selected passes the test, and nothing is lost.
  pub first-All : (n : ℕ) (xs : List A) → All (λ x. test x ≡ true) (first n xs)
  first-All zero xs = tt
  first-All (suc n) [] = tt
  first-All (suc n) (x ∷ xs) = elim (Bool-cases (test x)) [
    | inl e ↦ rw e (e, first-All n xs)
    | inr e ↦ rw e (first-All (suc n) xs)
  ]

  pub first-leave-perm : (n : ℕ) (xs : List A) → Perm (first n xs ++ leave n xs) xs
  first-leave-perm zero xs = Perm.rfl
  first-leave-perm (suc n) [] = Perm.rfl
  first-leave-perm (suc n) (x ∷ xs) = elim (Bool-cases (test x)) [
    | inl e ↦ rw e (Perm.cons x (first-leave-perm n xs))
    | inr e ↦ rw e (
        Perm.trans (perm_middle (first (suc n) xs) (leave (suc n) xs))
          (Perm.cons x (first-leave-perm (suc n) xs)))
  ]

  module _ {B : Type 0} (f : A → B) (all : List A) where
    -- `get_elem?` of the whole list, from position `k` on, is that of the part.
    abbrev Suffix : ℕ → List A → Type 0
    Suffix k xs = (j : ℕ) → get_elem? (map f all) (k + j) ≡ get_elem? (map f xs) j

    pub Suffix-all : Suffix 0 all
    Suffix-all j = ap (get_elem? (map f all)) (omega arith)

    Suffix-tail : (k : ℕ) (x : A) (xs : List A) → Suffix k (x ∷ xs) → Suffix (suc k) xs
    Suffix-tail k x xs h j = ap (get_elem? (map f all)) (omega arith) ∙ h (suc j)

    Suffix-head :
        (k : ℕ) (x : A) (xs : List A) → Suffix k (x ∷ xs) → get_elem? (map f all) k ≡ some (f x)
    Suffix-head k x xs h = ap (get_elem? (map f all)) (omega arith) ∙ h 0

    pub gather-first :
        (k n : ℕ) (xs : List A)
        → Suffix k xs
        → gather (map f all) (take n (indices_from k test xs)) ≡ ok (map f (first n xs))
    unfolding gather indices_from
    gather-first k zero xs h = refl
    gather-first k (suc n) [] h = refl
    gather-first k (suc n) (x ∷ xs) h = elim (Bool-cases (test x)) [
      | inl e ↦ rw (e, Suffix-head k x xs h, gather-first (suc k) n xs (Suffix-tail k x xs h))
      | inr e ↦ rw e (gather-first (suc k) (suc n) xs (Suffix-tail k x xs h))
    ]

module _ {A : Type 0} (version target : A → ℕ) (window : ℕ → Bool) (value : ℕ) (all : List A) where
  -- The second comprehension of `sample` reads the targets at the positions of the first.
  pub positions_of-indices :
      (k : ℕ) (xs : List A)
      → ((j : ℕ) → get_elem? (map target all) (k + j) ≡ get_elem? (map target xs) j)
      → positions_of value (map target all) (indices_from k window (map version xs))
        ≡ ok (indices_from k (λ e. window (version e) && (target e == value)) xs)
  unfolding positions_of indices_from
  positions_of-indices k [] h = refl
  positions_of-indices k (x ∷ xs) h =
      let head : get_elem? (map target all) k ≡ some (target x) =
        ap (get_elem? (map target all)) (omega arith) ∙ h 0 in
      let rest =
        positions_of-indices (suc k) xs
          (λ j. ap (get_elem? (map target all)) (omega arith) ∙ h (suc j)) in
      elim (Bool-cases (window (version x))) [
        | inl e ↦ rw (e, head, rest) refl
        | inr e ↦ rw (e, rest) refl
      ]
