-- ===== src/Async/Pipeline/Careful/Trainer.antt =====
-- nemo_rl/algorithms/async_utils.py and nemo_rl/algorithms/grpo.py: careful runs, the steps of
-- the trainer.
use ne_mo_rl_enhanced_math_r.Common.{
  ℕ, zero, suc, ◌<◌, ◌≡◌, sym, ap, ◌∙◌, inl, inr, Bool, List, [], ◌∷◌, map, Option, some, ok, arith,
  ◌==◌, Bool-cases, All, All-map, sum_of, subst,
}
use ne_mo_rl_enhanced_math_r.Async.Buffer.{ReplayBuffer, Sample, sample}
use ne_mo_rl_enhanced_math_r.Async.Buffer.Select.{Entry, leave}
use ne_mo_rl_enhanced_math_r.Async.Buffer.Correct.{intended}
use ne_mo_rl_enhanced_math_r.Async.Pipeline.{System, train}
use ne_mo_rl_enhanced_math_r.Async.Pipeline.Ages.{Aged}
use ne_mo_rl_enhanced_math_r.Async.Pipeline.Shares.{share, total, Past, Ordered, Ordered-train}
use ne_mo_rl_enhanced_math_r.Async.Pipeline.Amounts.{train_total}
use ne_mo_rl_enhanced_math_r.Async.Pipeline.Careful.{Orderly, last_of}

-- A step that has a group has what holds of all.
pub present : (P : ℕ → Type 0) (t : ℕ) (xs : List ℕ) → 0 < sum_of (share t) xs → All P xs → P t
present P t [] h all = absurd (omega (arith, h))
present P t (x ∷ xs) h all = elim (Bool-cases (x == t)) [
  | inl e ↦ let same : x ≡ t = ground (arith, e) in rw (← same) (all.0)
  | inr e ↦ present P t xs (omega (arith, rw e at h)) (all.1)
]

leave-All :
    {X : Type 0} (P : X → Type 0) (test : X → Bool) (k : ℕ) (xs : List X)
    → All P xs
    → All P (leave test k xs)
leave-All P test zero xs h = h
leave-All P test (suc k) [] h = tt
leave-All P test (suc k) (x ∷ xs) h = elim (Bool-cases (test x)) [
  | inl e ↦ rw e (leave-All P test k xs h.1)
  | inr e ↦ rw e (h.0, leave-All P test (suc k) xs h.1)
]

All-unmap :
    {X : Type 0} (P : ℕ → Type 0) (f : X → ℕ) (xs : List X)
    → All P (map f xs)
    → All (λ x. P (f x)) xs
All-unmap P f [] h = tt
All-unmap P f (x ∷ xs) h = (h.0, All-unmap P f xs h.1)

module _ {A : Type 0} (first_step n max_age : ℕ) (s : System A) where
  abbrev last : Option ℕ
  last = last_of s

  pub train-Orderly :
      (x : Sample A) (b : ReplayBuffer A)
      → 0 < n
      → sample s.buffer n s.trainer_version max_age ≡ ok (some x, b)
      → Aged first_step max_age (train b s)
      → Orderly first_step n max_age s
      → Orderly first_step n max_age (train b s)
  train-Orderly x b positive e aged h =
      let now = s.trainer_version in
      let (es, f, is, less, spent) = train_total n max_age s x b positive e h.aged.buffer in
      let same_last : b.last_target_weight_already_generated ≡ last =
        ap (λ (b : ReplayBuffer A). b.last_target_weight_already_generated) f
        ∙ ap (λ (b : ReplayBuffer A). b.last_target_weight_already_generated) (sym is) in
      let left : All (λ (e : Entry A). Past last e.target) (leave (intended now max_age) n es) =
        leave-All (λ (e : Entry A). Past last e.target) (intended now max_age) n es
          (All-unmap (Past last) (λ (e : Entry A). e.target) es
            (subst (λ (b : ReplayBuffer A). All (Past last) b.target_weight_versions) is
              h.buffered)) in
      record {
        aged = aged;
        buffered = rw same_last (
            subst (λ (b : ReplayBuffer A). All (Past last) b.target_weight_versions) (sym f)
              (All-map (Past last) (λ (e : Entry A). e.target) (leave (intended now max_age) n es)
                left));
        workers = rw same_last h.workers;
        ordered =
            subst
              (λ l.
                Ordered first_step n l (s.collector).generating_targets (suc now)
                  (total n (train b s)))
              (sym same_last)
              (Ordered-train first_step n last (s.collector).generating_targets now (total n s)
                (total n (train b s))
                (present (Past last) now (s.buffer).target_weight_versions
                  (omega (arith, spent, positive)) h.buffered)
                (omega (arith, spent, h.ordered.within now)) (λ t. omega (arith, less t))
                h.ordered);
      }
