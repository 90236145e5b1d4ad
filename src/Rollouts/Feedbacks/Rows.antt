-- ===== src/Rollouts/Feedbacks/Rows.antt =====
-- Every sample gets the answer of the environment of its own task.
use ne_mo_rl_enhanced_math_r.Common.{
  ℕ, suc, ◌+◌, ◌<◌, ◌≡◌, refl, ap, ◌∙◌, inl, inr, List, [], ◌∷◌, ◌++◌, some, arith, ◌==◌,
  Bool-cases, Dict, lookup, put, get_elem?, length, length-append, All, All-append, range_from,
  sum_of, sum_of-append,
}
use ne_mo_rl_enhanced_math_r.Rollouts.Feedbacks.{Sample, members, group_from}

module _ {M : Type 0} where
  -- The sum of a weight of the places in all groups.
  abbrev pub weigh : (ℕ → ℕ) → Dict (List (ℕ × M)) → ℕ
  weigh f groups = sum_of (λ (g : ℕ × List (ℕ × M)). sum_of (λ (p : ℕ × M). f (p.0)) (g.1)) groups

  put-weigh :
      (f : ℕ → ℕ) (task : ℕ) (group : List (ℕ × M)) (groups : Dict (List (ℕ × M)))
      → weigh f (put task group groups)
          + sum_of (λ (p : ℕ × M). f (p.0)) (members (lookup task groups))
        ≡ weigh f groups + sum_of (λ (p : ℕ × M). f (p.0)) group
  put-weigh f task group [] = omega arith
  put-weigh f task group ((j, g) ∷ groups) = elim (Bool-cases (task == j)) [
    | inl e ↦ rw e (omega arith)
    | inr e ↦ let rest = put-weigh f task group groups in rw e (omega (arith, rest))
  ]

module _ {M I : Type 0} where
  pub group_from-weigh :
      (f : ℕ → ℕ) (i : ℕ) (samples : List (Sample M I)) (groups : Dict (List (ℕ × M)))
      → weigh f (group_from i samples groups)
        ≡ weigh f groups + sum_of f (range_from i (length samples))
  group_from-weigh f i [] groups = omega arith
  group_from-weigh f i (s ∷ samples) groups =
      let old = members (lookup s.task_name groups) in
      omega (
        arith,
        group_from-weigh f (suc i) samples
            (put s.task_name (old ++ (i, s.message_log) ∷ []) groups),
        put-weigh f s.task_name (old ++ (i, s.message_log) ∷ []) groups,
        sum_of-append (λ (p : ℕ × M). f (p.0)) old ((i, s.message_log) ∷ []),
      )

  module _ (all : List (Sample M I)) where
    -- A member of the group of `task` is a sample of it, at its place.
    abbrev pub IsMember : ℕ → ℕ × M → Type 0
    IsMember task p =
        (s : Sample M I) × (get_elem? all (p.0) ≡ some s)
        × (s.task_name ≡ task)
        × (s.message_log ≡ p.1)

    abbrev pub Grouped : Dict (List (ℕ × M)) → Type 0
    Grouped groups =
        All (λ (g : ℕ × List (ℕ × M)). All (IsMember (g.0)) (g.1) × (0 < length (g.1))) groups

    members-Grouped :
        (task : ℕ) (groups : Dict (List (ℕ × M)))
        → Grouped groups
        → All (IsMember task) (members (lookup task groups))
    members-Grouped task [] h = tt
    members-Grouped task ((j, g) ∷ groups) h = elim (Bool-cases (task == j)) [
      | inl e ↦
          let same : task ≡ j = ground (arith, e) in
          let here : All (IsMember task) g = rw same (h.0.0) in rw e here
      | inr e ↦ rw e (members-Grouped task groups (h.1))
    ]

    put-Grouped :
        (task : ℕ) (group : List (ℕ × M)) (groups : Dict (List (ℕ × M)))
        → All (IsMember task) group
        → 0 < length group
        → Grouped groups
        → Grouped (put task group groups)
    put-Grouped task group [] m l h = ((m, l), tt)
    put-Grouped task group ((j, g) ∷ groups) m l h = elim (Bool-cases (task == j)) [
      | inl e ↦ rw e ((m, l), h.1)
      | inr e ↦ rw e (h.0, put-Grouped task group groups m l (h.1))
    ]

    pub group_from-Grouped :
        (i : ℕ) (samples : List (Sample M I)) (groups : Dict (List (ℕ × M)))
        → ((k : ℕ) → get_elem? all (i + k) ≡ get_elem? samples k)
        → Grouped groups
        → Grouped (group_from i samples groups)
    group_from-Grouped i [] groups at h = h
    group_from-Grouped i (s ∷ samples) groups at h =
        let here : get_elem? all i ≡ some s = ap (get_elem? all) (omega arith) ∙ at 0 in
        let group = members (lookup s.task_name groups) in
        group_from-Grouped (suc i) samples
          (put s.task_name (group ++ (i, s.message_log) ∷ []) groups)
          (λ k. ap (get_elem? all) (omega arith) ∙ at (suc k))
          (put-Grouped s.task_name (group ++ (i, s.message_log) ∷ []) groups
            (All-append (IsMember s.task_name) group ((i, s.message_log) ∷ [])
              (members-Grouped s.task_name groups h) ((s, here, refl, refl), tt))
            (omega (arith, length-append group ((i, s.message_log) ∷ []))) h)
