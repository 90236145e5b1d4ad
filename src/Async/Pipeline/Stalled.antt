-- ===== src/Async/Pipeline/Stalled.antt =====
-- nemo_rl/algorithms/async_utils.py and nemo_rl/algorithms/grpo.py: a group that is lost is not made up
-- for.
use ne_mo_rl_enhanced_math_r.Common.{
  ℕ, ◌≤◌, ◌<◌, ◌≡◌, refl, sym, ap, ◌∙◌, inl, inr, true, false, List, ◌∷◌, ◌++◌, Option, none, some,
  ok, arith, ◌==◌, Bool-cases, sum_of-append,
}
use ne_mo_rl_enhanced_math_r.Async.Buffer
use ne_mo_rl_enhanced_math_r.Async.Buffer.{ReplayBuffer, newer}
use ne_mo_rl_enhanced_math_r.Async.Collector.{Collector, newer_than, get_next_target_for_generation}
use ne_mo_rl_enhanced_math_r.Async.Collector.Targets.{get_next_target_reserves}
use ne_mo_rl_enhanced_math_r.Async.Pipeline.{
  Worker, answered, generating, spawning, released, System, reserve, reserved, push, Step, notes,
  asks, reserves, spawns, refreshes, rests, pushes, releases, finishes, fails, trains, delivers,
  controls, start, Reach, here, later,
}
use ne_mo_rl_enhanced_math_r.Async.Pipeline.Ages.{BufferAged, Aged}
use ne_mo_rl_enhanced_math_r.Async.Pipeline.Ages.Steps.{Reach-Aged}
use ne_mo_rl_enhanced_math_r.Async.Pipeline.Young.{start-Aged}
use ne_mo_rl_enhanced_math_r.Async.Pipeline.Shares.{
  worker_share, loop_share, total, Past, Past-newer, not_Past,
}
use ne_mo_rl_enhanced_math_r.Async.Pipeline.Careful.{last_of}
use ne_mo_rl_enhanced_math_r.Async.Pipeline.Amounts.{
  spawn_share, workers_total, push_total, push_cases, train_total,
}

-- The trainer is not past step `t`, for which too few groups are there or to come, and none is
-- reserved any more.
abbrev pub Short : {A : Type 0} → (num_prompts t : ℕ) → System A → Type 0
Short n t s = (total n s t < n) × Past (last_of s) t × (s.trainer_version ≤ t)

module _ {A : Type 0} (n max_age t : ℕ) (s : System A) where
  reserve-Short :
      (version : ℕ) (before : Option ℕ)
      → s.loop ≡ answered version before
      → before ≡ last_of s
      → Short n t s
      → Short n t (reserve version before s)
  reserve-Short version before at fresh (few, past, behind) =
      outcome (get_next_target_for_generation s.collector version before) refl
    where
      outcome :
          (r : Option ℕ × Collector)
          → get_next_target_for_generation s.collector version before ≡ r
          → Short n t (reserved version r s)
      outcome (none, d) e = (omega (arith, few, ap (loop_share n t) at), past, behind)
      outcome (some u, d) e =
          let (_, new, _, _, _) = get_next_target_reserves s.collector d version u before e in
          let new' : newer_than (last_of s) u ≡ true = rw fresh at new in
          let other : (u == t) ≡ false = elim (Bool-cases (u == t)) [
            | inl f ↦
                let same : u ≡ t = ground (arith, f) in
                absurd (not_Past (last_of s) u new' (rw same past))
            | inr f ↦ f
          ] in
          let nothing : loop_share n t (spawning version u 0) ≡ 0 = rw other refl in
          (omega (arith, few, ap (loop_share n t) at, nothing), past, behind)

  push-Short :
      (before after : List Worker) (w : Worker) (group : A)
      → s.workers ≡ before ++ w ∷ after
      → w.phase ≡ generating
      → BufferAged max_age s.buffer
      → Short n t s
      → Short n t (push before w after group s)
  push-Short before after w group at phase aged (few, past, behind) =
      elim (push_cases n max_age s before after w group aged) [
        | inl f ↦ rw f (few, past, behind)
        | inr (b, f, same_last, targets) ↦ rw f (
          omega (arith, few, push_total n max_age s b before after w at phase targets t),
          rw same_last (Past-newer (last_of s) w.target t past),
          behind,
        )
      ]

  Step-Short :
      {u : System A}
      → 0 < n
      → BufferAged max_age s.buffer
      → Step true n max_age s u
      → Short n t s
      → Short n t u
  Step-Short positive aged (notes at) (few, past, behind) =
      (omega (arith, few, ap (loop_share n t) at), past, behind)
  Step-Short positive aged (asks version at) (few, past, behind) =
      (omega (arith, few, ap (loop_share n t) at), past, behind)
  Step-Short positive aged (reserves version before at fresh) h =
      reserve-Short version before at (fresh refl) h
  Step-Short positive aged (spawns version target next c at below e) (few, past, behind) =
      (omega (arith, few, ap (loop_share n t) at, spawn_share n target t next below), past, behind)
  Step-Short positive aged (refreshes version target next at) (few, past, behind) =
      (omega (arith, few, ap (loop_share n t) at), past, behind)
  Step-Short positive aged (rests version target next at over) (few, past, behind) =
      (omega (arith, few), past, behind)
  Step-Short positive aged (pushes before w after group at phase) h =
      push-Short before after w group at phase aged h
  Step-Short positive aged (releases before w after at phase) (few, past, behind) = (
    omega (
      arith,
      few,
      workers_total t s.workers before after w at,
      sum_of-append (worker_share t) before (record w { phase = released } ∷ after),
    ),
    past,
    behind,
  )
  Step-Short positive aged (finishes before w after at phase) (few, past, behind) = (
    omega (
      arith,
      few,
      workers_total t s.workers before after w at,
      sum_of-append (worker_share t) before after,
    ),
    past,
    behind,
  )
  Step-Short positive aged (fails before w after at c) h = absurd (unlike c)
    where
      unlike : true ≡ false → ⊥
      unlike e = cc
  Step-Short positive aged (trains x b e) (few, past, behind) =
      let (es, f, is, less, spent) = train_total n max_age s x b positive e aged in
      let same_last : b.last_target_weight_already_generated ≡ last_of s =
        ap (λ (b : ReplayBuffer A). b.last_target_weight_already_generated) f
        ∙ ap (λ (b : ReplayBuffer A). b.last_target_weight_already_generated) (sym is) in
      (
        omega (arith, few, less t),
        rw same_last past,
        elim (Bool-cases (s.trainer_version == t)) [
          | inl g ↦
              let same : s.trainer_version ≡ t = ground (arith, g) in
              absurd (omega (arith, few, rw same at spent))
          | inr g ↦ ground (arith, g, behind)
        ],
      )
  Step-Short positive aged (delivers version rises known) h = h
  Step-Short positive aged (controls k) h = h

Reach-Short :
    {A : Type 0} (first_step n max_age t : ℕ) {s u : System A}
    → 0 < n
    → Aged first_step max_age s
    → Reach true n max_age s u
    → Short n t s
    → Short n t u
Reach-Short first_step n max_age t positive aged here h = h
Reach-Short first_step n max_age t positive aged (later {t = v} r st) h =
    Step-Short n max_age t v positive (Reach-Aged first_step max_age true n positive r aged).buffer
      st (Reach-Short first_step n max_age t positive aged r h)

-- If, after whatever run, fewer groups than a batch has prompts are in the buffer or to come for a
-- step, none is reserved for it any more, and the trainer is not past it, then in every careful
-- continuation there are still too few, and the trainer does not get past that step.
pub Reach-trainer_stalls :
    {A : Type 0} (n max_age first_step max_size t : ℕ) (b : ReplayBuffer A) (s u : System A)
    → 0 < n
    → Buffer.init max_size ≡ ok b
    → Reach false n max_age (start n max_age first_step b) s
    → Short n t s
    → Reach true n max_age s u
    → (total n u t < n) × (u.trainer_version ≤ t)
Reach-trainer_stalls n max_age first_step max_size t b s u positive e r short r' =
    let aged =
      Reach-Aged first_step max_age false n positive r
        (start-Aged n max_age first_step max_size b e) in
    let (few, _, behind) = Reach-Short first_step n max_age t positive aged r' short in
    (few, behind)
