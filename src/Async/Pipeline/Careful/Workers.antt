-- ===== src/Async/Pipeline/Careful/Workers.antt =====
-- nemo_rl/algorithms/async_utils.py and nemo_rl/algorithms/grpo.py: careful runs, the steps of
-- the workers.
use ne_mo_rl_enhanced_math_r.Common.{
  ℕ, ◌+◌, ◌≡◌, sym, inl, inr, true, false, List, [], ◌∷◌, ◌++◌, Option, arith, All, All-append,
  All-split, sum_of, sum_of-append, subst,
}
use ne_mo_rl_enhanced_math_r.Async.Buffer.{ReplayBuffer, newer}
use ne_mo_rl_enhanced_math_r.Async.Collector.{
  Collector, contains, newer_than, finish_worker, after_push,
}
use ne_mo_rl_enhanced_math_r.Async.Pipeline.{
  Worker, generating, pushed, released, System, push, release, finish,
}
use ne_mo_rl_enhanced_math_r.Async.Pipeline.Effects.{Frees, after_push-Frees, finish_worker-Frees}
use ne_mo_rl_enhanced_math_r.Async.Pipeline.Ages.{Aged}
use ne_mo_rl_enhanced_math_r.Async.Pipeline.Shares.{
  worker_share, total, Past, Ordered, Past-newer, newer-Past, not_Past, Ordered-le,
}
use ne_mo_rl_enhanced_math_r.Async.Pipeline.Amounts.{workers_total, push_total, push_cases}
use ne_mo_rl_enhanced_math_r.Async.Pipeline.Careful.{
  Stored, WorkerStored, Stored-onward, All-onward, Orderly, last_of, steady,
}

Frees-Past :
    (c d : Collector) (last : Option ℕ) (target u : ℕ)
    → Frees target c d
    → Past last target
    → newer_than last u ≡ true
    → contains u d.generating_targets ≡ false
    → contains u c.generating_targets ≡ false
Frees-Past c d last target u frees past new free = elim (frees u free) [
  | inl e ↦ absurd (not_Past last u new (rw e past))
  | inr e ↦ e
]

module _ {A : Type 0} (first_step n max_age : ℕ) (s : System A) where
  abbrev last : Option ℕ
  last = last_of s

  -- A worker that has pushed frees its target, and is gone or in a new phase.
  free-Orderly :
      (d : Collector) (before after : List Worker) (w : Worker) (ws : List Worker)
      → s.workers ≡ before ++ w ∷ after
      → Past last w.target
      → Frees w.target s.collector d
      → Aged first_step max_age (record s { collector = d; workers = ws })
      → All (WorkerStored last) ws
      → ((u : ℕ)
          → sum_of (worker_share u) ws
            ≡ sum_of (worker_share u) before + sum_of (worker_share u) after)
      → Orderly first_step n max_age s
      → Orderly first_step n max_age (record s { collector = d; workers = ws })
  free-Orderly d before after w ws at past frees aged stored_ws less h =
      steady first_step n max_age s d s.loop ws aged stored_ws
        (λ u new free. Frees-Past s.collector d last w.target u frees past new free)
        (λ u. omega (arith, less u, workers_total u s.workers before after w at)) h

  pub release-Orderly :
      (before after : List Worker) (w : Worker)
      → s.workers ≡ before ++ w ∷ after
      → w.phase ≡ pushed
      → Aged first_step max_age (release before w after s)
      → Orderly first_step n max_age s
      → Orderly first_step n max_age (release before w after s)
  release-Orderly before after w at phase aged h =
      let u = record w { phase = released } in
      let (x, y) =
        All-split (WorkerStored last) before (w ∷ after)
          (subst (All (WorkerStored last)) at h.workers) in
      let past : Past last w.target = subst (λ p. Stored last p w.target) phase (y.0) in
      free-Orderly (after_push s.collector w.prompt_idx w.target) before after w
        (before ++ u ∷ after) at past (after_push-Frees s.collector w.prompt_idx w.target).1 aged
        (All-append (WorkerStored last) before (u ∷ after) x (past, y.1))
        (λ t. omega (arith, sum_of-append (worker_share t) before (u ∷ after))) h

  pub finish-Orderly :
      (before after : List Worker) (w : Worker)
      → s.workers ≡ before ++ w ∷ after
      → w.phase ≡ released
      → Aged first_step max_age (finish before w after s)
      → Orderly first_step n max_age s
      → Orderly first_step n max_age (finish before w after s)
  finish-Orderly before after w at phase aged h =
      let (x, y) =
        All-split (WorkerStored last) before (w ∷ after)
          (subst (All (WorkerStored last)) at h.workers) in
      free-Orderly (finish_worker s.collector w.target) before after w (before ++ after) at
        (subst (λ p. Stored last p w.target) phase (y.0))
        (finish_worker-Frees s.collector w.target).1 aged
        (All-append (WorkerStored last) before after x (y.1))
        (λ t. sum_of-append (worker_share t) before after) h

  pushed-Orderly :
      (b : ReplayBuffer A) (before after : List Worker) (w : Worker)
      → s.workers ≡ before ++ w ∷ after
      → w.phase ≡ generating
      → b.last_target_weight_already_generated ≡ newer last w.target
      → b.target_weight_versions ≡ (s.buffer).target_weight_versions ++ w.target ∷ []
      → Aged first_step max_age
          (record s { buffer = b; workers = before ++ record w { phase = pushed } ∷ after })
      → Orderly first_step n max_age s
      → Orderly first_step n max_age
          (record s { buffer = b; workers = before ++ record w { phase = pushed } ∷ after })
  pushed-Orderly b before after w at phase same_last targets aged h =
      let now = newer last w.target in
      let u = record w { phase = pushed } in
      let ws = before ++ u ∷ after in
      let t = record s { buffer = b; workers = ws } in
      let old = (s.buffer).target_weight_versions in
      let onward : (v : ℕ) → Past last v → Past now v = Past-newer last w.target in
      let (x, y) =
        All-split (WorkerStored last) before (w ∷ after)
          (subst (All (WorkerStored last)) at h.workers) in
      let stays : (v : Worker) → WorkerStored last v → WorkerStored now v =
        λ v. Stored-onward last now v.phase v.target onward in
      let past : Past now w.target = newer-Past last w.target in
      record {
        aged = aged;
        buffered =
            rw (same_last, targets)
              (All-append (Past now) old (w.target ∷ [])
                (All-onward (Past last) (Past now) old onward h.buffered) (past, tt));
        workers = rw same_last (
            All-append (WorkerStored now) before (u ∷ after)
              (All-onward (WorkerStored last) (WorkerStored now) before stays x)
              (past, All-onward (WorkerStored last) (WorkerStored now) after stays (y.1)));
        ordered =
            subst
              (λ l.
                Ordered first_step n l (s.collector).generating_targets s.trainer_version
                  (total n t))
              (sym same_last)
              (Ordered-le first_step n last now (s.collector).generating_targets
                (s.collector).generating_targets s.trainer_version (total n s) (total n t) onward
                (λ v new free. free)
                (λ v. omega (arith, push_total n max_age s b before after w at phase targets v))
                h.ordered);
      }

  pub push-Orderly :
      (before after : List Worker) (w : Worker) (group : A)
      → s.workers ≡ before ++ w ∷ after
      → w.phase ≡ generating
      → Aged first_step max_age (push before w after group s)
      → Orderly first_step n max_age s
      → Orderly first_step n max_age (push before w after group s)
  push-Orderly before after w group at phase aged h =
      elim (push_cases n max_age s before after w group h.aged.buffer) [
        | inl f ↦ rw f h
        | inr (b, f, same_last, targets) ↦
            rw f (pushed-Orderly b before after w at phase same_last targets (rw f at aged) h)
      ]
