-- ===== src/Timing/Timer/Reductions.antt =====
-- What `get_timing_metrics` gives for each label.
use ne_mo_rl_enhanced_math_r.Common.{
  ℕ, ◌≡◌, refl, ap, ◌∙◌, inl, inr, Bool, true, false, List, [], ◌∷◌, Option, none, some, arith,
  ◌==◌, Bool-cases, Option-cases, ok, Dict, lookup, has, put, ==-self, lookup-put_self,
  lookup-put_ne, has-lookup, has→lookup,
}
use ne_mo_rl_enhanced_math_r.Common.Int.{ℤ}
use ne_mo_rl_enhanced_math_r.Timing.Timer.{
  Reduction, Timer, needs_measurement, reduce, Metric, all_of, reduced, metric_for, add_reductions,
  add_others, get_timing_metrics,
}
use ne_mo_rl_enhanced_math_r.Timing.Timer.Recorded.{Recorded}

-- The keys of a dictionary are all different.
abbrev pub Unique {ℓ} : {A : Type ℓ} → Dict A → Type 0
Unique [] = Unit {0}
Unique ((k, a) ∷ d) = (has k d ≡ false) × Unique d

module _ {V : Type 0} (apply : Reduction → List ℤ → V) where
  -- A known operation reduces the measurements, an unknown one leaves them.
  abbrev pub metric : Option Reduction → List ℤ → Metric V
  metric none xs = all_of xs
  metric (some op) xs = reduced (apply op xs)

  -- A label's metric, by its measurements and its operation, if it has any.
  abbrev pub expected : Option (List ℤ) → Option (Option Reduction) → Option (Metric V)
  expected none op = none
  expected (some xs) none = some (all_of xs)
  expected (some xs) (some op) = some (metric op xs)

  abbrev overlay :
      Option (List ℤ) → Option (Option Reduction) → Option (Metric V) → Option (Metric V)
  overlay xs none old = old
  overlay none (some op) old = old
  overlay (some xs) (some op) old = some (metric op xs)

  metric_for_lem :
      (label : ℕ) (op : Option Reduction) (xs : List ℤ) (t : Timer)
      → Recorded t
      → lookup label t.timers ≡ some xs
      → metric_for apply label op xs t ≡ ok (metric op xs)
  unfolding metric_for reduce Recorded
  metric_for_lem label none xs t h e = refl
  metric_for_lem label (some op) [] t h e = absurd (h label e)
  metric_for_lem label (some op) (x ∷ xs) t h e = elim (Bool-cases (needs_measurement op)) [
    | inl f ↦ rw (e, f, reduce)
    | inr f ↦ rw (e, f, reduce)
  ]

  add_reductions_lem :
      (ops : Dict (Option Reduction)) (t : Timer) (results : Dict (Metric V))
      → Unique ops
      → Recorded t
      → (results' : Dict (Metric V)) × (add_reductions apply ops t results ≡ ok results')
        × ((l : ℕ)
            → lookup l results' ≡ overlay (lookup l t.timers) (lookup l ops) (lookup l results))
  unfolding add_reductions
  add_reductions_lem [] t results u m = (results, refl, λ l. refl)
  add_reductions_lem ((label, op) ∷ ops) t results (new, u) m =
      elim (Option-cases (lookup label t.timers)) [
        | inl e ↦
            let (results', r, h) = add_reductions_lem ops t results u m in
            (
              results',
              rw (e, add_reductions) r,
              λ l. elim (Bool-cases (l == label)) [
                | inl f ↦
                    let same : l ≡ label = ground (arith, f) in
                    rw same (h label ∙ rw (==-self label, has-lookup label ops new, e))
                | inr f ↦ h l ∙ rw f
              ],
            )
        | inr (xs, e) ↦
            let (results', r, h) =
              add_reductions_lem ops t (put label (metric op xs) results) u m in
            (
              results',
              rw (e, metric_for_lem label op xs t m e, add_reductions) r,
              λ l. elim (Bool-cases (l == label)) [
                | inl f ↦
                    let same : l ≡ label = ground (arith, f) in
                    rw same (
                      h label
                      ∙ rw (==-self label, has-lookup label ops new, e)
                          (lookup-put_self label (metric op xs) results))
                | inr f ↦
                    h l
                    ∙ rw f (
                        ap (overlay (lookup l t.timers) (lookup l ops)) (
                          lookup-put_ne label l (metric op xs) results
                            (λ same. ground (arith, f, same))))
              ],
            )
      ]

  abbrev others : Bool → Option (List ℤ) → Option (Metric V) → Option (Metric V)
  others true xs old = old
  others false none old = old
  others false (some xs) old = some (all_of xs)

  add_others_lem :
      (ops : Dict (Option Reduction)) (timers : Dict (List ℤ)) (results : Dict (Metric V))
      → Unique timers
      → (l : ℕ)
      → lookup l (add_others ops timers results)
        ≡ others (has l ops) (lookup l timers) (lookup l results)
  unfolding add_others
  add_others_lem ops [] results u l = elim (Bool-cases (has l ops)) [ inl e ↦ rw e | inr e ↦ rw e ]
  add_others_lem ops ((label, xs) ∷ timers) results (new, u) l = elim (Bool-cases (has label ops)) [
    | inl e ↦ rw e (elim (Bool-cases (l == label)) [
      | inl f ↦
          let same : l ≡ label = ground (arith, f) in
          rw same (add_others_lem ops timers results u label ∙ rw e)
      | inr f ↦ rw f (add_others_lem ops timers results u l)
    ])
    | inr e ↦ rw e (elim (Bool-cases (l == label)) [
      | inl f ↦
          let same : l ≡ label = ground (arith, f) in
          rw same (
            add_others_lem ops timers (put label (all_of xs) results) u label
            ∙ rw (e, has-lookup label timers new, ==-self label)
                (lookup-put_self label (all_of xs) results))
      | inr f ↦ rw f (
          add_others_lem ops timers (put label (all_of xs) results) u l
          ∙ ap (others (has l ops) (lookup l timers))
              (lookup-put_ne label l (all_of xs) results (λ same. ground (arith, f, same))))
    ])
  ]

  -- Where every label of the timer has a measurement, and no label stands twice in it or in the
  -- operations, `get_timing_metrics` does not raise: each label that was timed has its operation's
  -- reduction, or all its measurements if it has no operation or an unknown one; no other label has
  -- a metric.
  pub get_timing_metrics-lookup :
      (ops : Dict (Option Reduction)) (t : Timer)
      → Unique ops
      → Unique t.timers
      → Recorded t
      → (results : Dict (Metric V)) × (get_timing_metrics apply ops t ≡ ok results)
        × ((l : ℕ) → lookup l results ≡ expected (lookup l t.timers) (lookup l ops))
  unfolding get_timing_metrics
  get_timing_metrics-lookup ops t u v m =
      let (results, r, h) = add_reductions_lem ops t [] u m in
      (
        add_others ops t.timers results,
        rw r refl,
        λ l.
            add_others_lem ops t.timers results v l
            ∙ ap (others (has l ops) (lookup l t.timers)) (h l)
            ∙ settled l (lookup l t.timers),
      )
    where
      with_op :
          (xs : Option (List ℤ)) (op : Option Reduction)
          → overlay xs (some op) none ≡ expected xs (some op)
      with_op none op = refl
      with_op (some xs) op = refl

      without : (xs : Option (List ℤ)) → others false xs (overlay xs none none) ≡ expected xs none
      without none = refl
      without (some xs) = refl

      settled :
          (l : ℕ) (xs : Option (List ℤ))
          → others (has l ops) xs (overlay xs (lookup l ops) none) ≡ expected xs (lookup l ops)
      settled l xs = elim (Bool-cases (has l ops)) [
        | inl e ↦ let (op, f) = has→lookup l ops e in rw (e, f) (with_op xs op)
        | inr e ↦ rw (e, has-lookup l ops e) (without xs)
      ]
