-- ===== src/Async/Buffer/Returns.antt =====
-- What a successful `sample` returns.
use ne_mo_rl_enhanced_math_r.Common.{
  ℕ, ◌+◌, ◌-◌, ◌≤◌, ◌<◌, ◌≡◌, sym, ◌∙◌, Bool, true, List, [], ◌∷◌, ◌++◌, map, Option, some, arith,
  ltb, Bool-cases, inl, inr, ok, length, All, Perm,
}
use ne_mo_rl_enhanced_math_r.Async.Buffer.{ReplayBuffer, Sample, count_if, sample}
use ne_mo_rl_enhanced_math_r.Async.Buffer.Select.{
  Entry, holds, first, leave, count, length-first, first-All, first-leave-perm,
}
use ne_mo_rl_enhanced_math_r.Async.Buffer.Correct.{intended, select_entries, sample-holds}

module _ {A : Type 0} where
  -- What a successful `sample` returns: exactly as many groups as asked for, the first ones that are
  -- meant for this step and generated within the window; the others stay, in their order.
  pub sample_returns :
      (max_size : ℕ) (last : Option ℕ) (es : List (Entry A)) (n current max_age : ℕ) {s : Sample A}
      {b : ReplayBuffer A}
      → 0 < n
      → sample (holds max_size last es) n current max_age ≡ ok (some s, b)
      → let taken = first (intended current max_age) n es in
        (s.trajectories ≡ map (λ e. e.trajectory) taken)
        × (length taken ≡ n)
        × All
            (λ e. (e.target ≡ current) × (current ≤ e.version + max_age) × (e.version ≤ current))
            taken
        × (b ≡ holds max_size last (leave (intended current max_age) n es))
        × Perm (taken ++ leave (intended current max_age) n es) es
  unfolding select_entries
  sample_returns max_size last es n current max_age {s} {b} h e =
      let p : Entry A → Bool = intended current max_age in
      let old = count_if (λ v. ltb v (current - max_age)) (map (λ (e : Entry A). e.version) es) in
      let f = sym (sample-holds max_size last current max_age n es h) ∙ e in
      elim (Bool-cases (ltb 0 old)) [
        | inl g ↦ let x = rw g at f in cc
        | inr g ↦ elim (Bool-cases (ltb (count p es) n)) [
          | inl k ↦ let x = rw (g, k) at f in cc
          | inr k ↦
              let x = rw (g, k) at f in
              (
                ground (arith, x),
                length-first p n es (ground (arith, k)),
                meets (first p n es) (first-All p n es),
                ground (arith, x),
                first-leave-perm p n es,
              )
        ]
      ]
    where
      meets :
          (xs : List (Entry A))
          → All (λ e. intended current max_age e ≡ true) xs
          → All
              (λ e. (e.target ≡ current) × (current ≤ e.version + max_age) × (e.version ≤ current))
              xs
      meets [] a = tt
      meets (x ∷ xs) a = (ground (arith, a.0), meets xs a.1)
