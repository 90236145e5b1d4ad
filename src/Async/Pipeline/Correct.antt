-- ===== src/Async/Pipeline/Correct.antt =====
-- nemo_rl/algorithms/async_utils.py and nemo_rl/algorithms/grpo.py: what a careful run guarantees.
use ne_mo_rl_enhanced_math_r.Common.{
  ℕ, ◌≤◌, ◌<◌, ◌≡◌, refl, sym, ap, inl, inr, true, false, List, [], ◌∷◌, Option, none, ok, arith,
  ◌==◌, ltb, Bool-cases, All, ltb→lt, ==-self, sum_of, subst,
}
use ne_mo_rl_enhanced_math_r.Async.Buffer
use ne_mo_rl_enhanced_math_r.Async.Buffer.{
  ReplayBuffer, Sample, newer, sample, push_with_wait_signal,
}
use ne_mo_rl_enhanced_math_r.Async.Buffer.Select.{holds}
use ne_mo_rl_enhanced_math_r.Async.Collector
use ne_mo_rl_enhanced_math_r.Async.Collector.{
  Collector, contains, newer_than, get_next_target_for_generation, assign_version, start_worker,
  finish_worker, after_push,
}
use ne_mo_rl_enhanced_math_r.Async.Pipeline.{
  idle, System, deliver, controlled, Step, notes, asks, reserves, spawns, refreshes, rests, pushes,
  releases, finishes, fails, trains, delivers, controls, start, Reach, here, later,
}
use ne_mo_rl_enhanced_math_r.Async.Pipeline.Effects.{controlled-Kept}
use ne_mo_rl_enhanced_math_r.Async.Pipeline.Ages.{Aged, LoopAged}
use ne_mo_rl_enhanced_math_r.Async.Pipeline.Ages.Steps.{Step-Aged}
use ne_mo_rl_enhanced_math_r.Async.Pipeline.Shares.{share, loop_share, total}
use ne_mo_rl_enhanced_math_r.Async.Pipeline.Careful.{Orderly, steady}
use ne_mo_rl_enhanced_math_r.Async.Pipeline.Young.{start-Aged, sample_young}
use ne_mo_rl_enhanced_math_r.Async.Pipeline.Careful.Reservations.{reserve-Orderly, spawn-Orderly}
use ne_mo_rl_enhanced_math_r.Async.Pipeline.Careful.Workers.{
  push-Orderly, release-Orderly, finish-Orderly,
}
use ne_mo_rl_enhanced_math_r.Async.Pipeline.Careful.Trainer.{train-Orderly}

true-false : true ≡ false → ⊥
true-false e = cc

module _ {A : Type 0} (first_step n max_age : ℕ) (s : System A) where
  deliver-Orderly :
      (version : ℕ)
      → Aged first_step max_age (deliver version s)
      → Orderly first_step n max_age s
      → Orderly first_step n max_age (deliver version s)
  unfolding assign_version
  deliver-Orderly version aged h =
      steady first_step n max_age s (assign_version s.collector version) s.loop s.workers aged
        h.workers (λ u new free. free) (λ u. omega arith) h

  Step-Orderly :
      {t : System A}
      → 0 < n
      → Step true n max_age s t
      → Orderly first_step n max_age s
      → Orderly first_step n max_age t
  Step-Orderly positive st h = kinds st (Step-Aged first_step max_age true n positive st h.aged)
    where
      kinds :
          {t : System A}
          → Step true n max_age s t
          → Aged first_step max_age t
          → Orderly first_step n max_age t
      kinds (notes at) aged =
          steady first_step n max_age s s.collector _ s.workers aged h.workers (λ u new free. free)
            (λ u. omega (arith, ap (loop_share n u) at)) h
      kinds (asks version at) aged =
          steady first_step n max_age s s.collector _ s.workers aged h.workers (λ u new free. free)
            (λ u. omega (arith, ap (loop_share n u) at)) h
      kinds (reserves version before at fresh) aged =
          let noted_before =
            subst (LoopAged first_step max_age ((s.collector).current_weight_version)) at
              h.aged.loop in
          reserve-Orderly first_step n max_age s version before at (fresh refl) aged
            (noted_before.0) h
      kinds (spawns version target next c at below e) aged =
          spawn-Orderly first_step n max_age s version target next c at below e aged h
      kinds (refreshes version target next at) aged =
          steady first_step n max_age s s.collector _ s.workers aged h.workers (λ u new free. free)
            (λ u. omega (arith, ap (loop_share n u) at)) h
      kinds (rests version target next at over) aged =
          steady first_step n max_age s s.collector idle s.workers aged h.workers
            (λ u new free. free) (λ u. omega arith) h
      kinds (pushes before w after group at phase) aged =
          push-Orderly first_step n max_age s before after w group at phase aged h
      kinds (releases before w after at phase) aged =
          release-Orderly first_step n max_age s before after w at phase aged h
      kinds (finishes before w after at phase) aged =
          finish-Orderly first_step n max_age s before after w at phase aged h
      kinds (fails before w after at c) aged = absurd (true-false c)
      kinds (trains x b e) aged = train-Orderly first_step n max_age s x b positive e aged h
      kinds (delivers version rises known) aged = deliver-Orderly version aged h
      kinds (controls k) aged =
          let (_, same) = controlled-Kept k s.collector in
          steady first_step n max_age s (controlled k s.collector) s.loop s.workers aged h.workers
            (λ u new free. rw same at free) (λ u. omega arith) h

Reach-Orderly :
    {A : Type 0} (first_step n max_age : ℕ) {s t : System A}
    → 0 < n
    → Reach true n max_age s t
    → Orderly first_step n max_age s
    → Orderly first_step n max_age t
Reach-Orderly first_step n max_age positive here h = h
Reach-Orderly first_step n max_age positive (later {t} r st) h =
    Step-Orderly first_step n max_age t positive st
      (Reach-Orderly first_step n max_age positive r h)

start-Orderly :
    {A : Type 0} (n max_age first_step max_size : ℕ) (b : ReplayBuffer A)
    → Buffer.init max_size ≡ ok b
    → Orderly first_step n max_age (start n max_age first_step b)
unfolding Buffer.init Collector.init
start-Orderly {A} n max_age first_step max_size b e = elim (Bool-cases (max_size == 0)) [
  | inl f ↦ let x = rw f at e in cc
  | inr f ↦
      let same : holds {A = A} max_size none [] ≡ b = ground (arith, f, e) in
      subst (λ b. Orderly first_step n max_age (start n max_age first_step b)) same
        record {
          aged =
              subst (λ b. Aged first_step max_age (start n max_age first_step b)) (sym same)
                (start-Aged n max_age first_step max_size b e);
          buffered = tt;
          workers = tt;
          ordered = record {
            known = λ t new free. refl;
            within = λ t. omega arith;
            trained = λ t early. refl;
            reached = λ t from early. absurd (omega (arith, from, early));
          };
        }
]

-- With nothing for a step before `k`, all is for `k` or a later one.
none_late :
    (k : ℕ) (xs : List ℕ) → ((t : ℕ) → t < k → sum_of (share t) xs ≡ 0) → All (λ t. k ≤ t) xs
none_late k [] h = tt
none_late k (x ∷ xs) h = (
  elim (Bool-cases (ltb x k)) [
    | inl e ↦
        let counted = rw (==-self x) at (h x (ltb→lt x k e)) in absurd (omega (arith, counted))
    | inr e ↦ ground (arith, e)
  ],
  none_late k xs λ t early. omega (arith, h t early),
)

-- In a run without failures, in which the buffer's last target is still the one that it answered
-- when the collector reserves a target: the trainer's `sample` never raises, every group in the
-- buffer is meant for the trainer's step or a later one, and for no step are there more groups, in
-- the buffer, being generated and yet to be started together, than a batch has prompts.
pub Reach-sample :
    {A : Type 0} (n max_age first_step max_size : ℕ) (b : ReplayBuffer A) (s : System A)
    → 0 < n
    → Buffer.init max_size ≡ ok b
    → Reach true n max_age (start n max_age first_step b) s
    → ((r : Option (Sample A) × ReplayBuffer A) × (sample s.buffer n s.trainer_version max_age
          ≡ ok r))
      × All (λ t. s.trainer_version ≤ t) (s.buffer).target_weight_versions
      × ((t : ℕ) → total n s t ≤ n)
Reach-sample n max_age first_step max_size b s positive e r =
    let h =
      Reach-Orderly first_step n max_age positive r
        (start-Orderly n max_age first_step max_size b e) in
    let ahead =
      none_late s.trainer_version (s.buffer).target_weight_versions
        (λ t early. omega (arith, h.ordered.trained t early)) in
    (sample_young first_step max_age n s positive h.aged ahead, ahead, h.ordered.within)
