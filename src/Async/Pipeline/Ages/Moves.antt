-- ===== src/Async/Pipeline/Ages/Moves.antt =====
-- nemo_rl/algorithms/async_utils.py: what each step does to the ages.
use native.Mathlib.Bridge.{le_prop}
use mathlib.Core.List.Perm
use ne_mo_rl_enhanced_math_r.Common.{
  ℕ, ◌≤◌, ◌<◌, ◌≡◌, refl, sym, ap, ◌∙◌, inl, inr, List, [], ◌∷◌, ◌++◌, Option, none, some, ok,
  arith, All, All-append, All-split, All-perm, subst,
}
use ne_mo_rl_enhanced_math_r.Async.Buffer.{ReplayBuffer, Sample, newer, sample}
use ne_mo_rl_enhanced_math_r.Async.Buffer.Select.{leave, first, first-leave-perm}
use ne_mo_rl_enhanced_math_r.Async.Buffer.Correct.{intended}
use ne_mo_rl_enhanced_math_r.Async.Collector.{
  Collector, get_next_target_for_generation, assign_version, start_worker, finish_worker,
}
use ne_mo_rl_enhanced_math_r.Async.Collector.Targets.{
  get_next_target_cases, get_next_target_reserves,
}
use ne_mo_rl_enhanced_math_r.Async.Pipeline.{
  Worker, answered, spawning, pushed, System, reserve, reserved, spawn, push, finish, train,
  deliver,
}
use ne_mo_rl_enhanced_math_r.Async.Pipeline.Effects.{
  Kept, start_worker-Kept, finish_worker-Frees, stored_cases, sample-takes,
}
use ne_mo_rl_enhanced_math_r.Async.Pipeline.Ages.{
  LoopAged, WorkerAged, EntryAged, Aged, kept, LoopAged-le, loop-Kept, moved, left,
}

module _ {A : Type 0} (first_step max_age : ℕ) where
  pub reserve-Aged :
      (s : System A) (version : ℕ) (last : Option ℕ)
      → s.loop ≡ answered version last
      → Aged first_step max_age s
      → Aged first_step max_age (reserve version last s)
  reserve-Aged s version last at h =
      outcome (get_next_target_for_generation s.collector version last) refl
    where
      outcome :
          (r : Option ℕ × Collector)
          → get_next_target_for_generation s.collector version last ≡ r
          → Aged first_step max_age (reserved version r s)
      outcome (none, d) e =
          let same : Kept s.collector d = elim (get_next_target_cases s.collector version last) [
            | inl f ↦ rw (sym (ap (λ r. r.1) e) ∙ f) (refl, refl)
            | inr (t, _, f) ↦ rw (sym (ap (λ r. r.1) e) ∙ f) (refl, refl)
          ] in
          record {
            collector = kept first_step max_age s.collector d same h.collector;
            buffer = h.buffer;
            loop = tt;
            workers = h.workers;
          }
      outcome (some t, d) e =
          let (_, _, _, ahead, f) = get_next_target_reserves s.collector d version t last e in
          let noted_before =
            subst (LoopAged first_step max_age ((s.collector).current_weight_version)) at h.loop in
          let same : Kept s.collector d = rw f (refl, refl) in
          record {
            collector = kept first_step max_age s.collector d same h.collector;
            buffer = h.buffer;
            loop = (omega (arith, ahead, h.collector.0), omega (arith, noted_before.1, same.1));
            workers = h.workers;
          }

  pub spawn-Aged :
      (s : System A) (version target next : ℕ) (c : Collector)
      → s.loop ≡ spawning version target next
      → start_worker s.collector ≡ some c
      → Aged first_step max_age s
      → Aged first_step max_age (spawn version target next c s)
  spawn-Aged s version target next c at e h =
      let (same, _) = start_worker-Kept s.collector c e in
      let (ahead, known) =
        subst (LoopAged first_step max_age ((s.collector).current_weight_version)) at h.loop in
      record {
        collector = kept first_step max_age s.collector c same h.collector;
        buffer = h.buffer;
        loop = (ahead, omega (arith, known, same.1));
        workers = (ahead, h.workers);
      }

  pub push-Aged :
      (s : System A) (before after : List Worker) (w : Worker) (group : A)
      → s.workers ≡ before ++ w ∷ after
      → Aged first_step max_age s
      → Aged first_step max_age (push before w after group s)
  push-Aged s before after w group at h =
      let workers = subst (All (WorkerAged max_age)) at h.workers in
      let ahead = (All-split (WorkerAged max_age) before (w ∷ after) workers).1 in
      elim (stored_cases h.buffer.max_size h.buffer.last h.buffer.entries before after w group s
        h.buffer.is) [
          | inl e ↦ rw e h
          | inr e ↦ rw e record {
            collector = h.collector;
            buffer = record {
              max_size = h.buffer.max_size;
              last = newer h.buffer.last w.target;
              entries =
                  h.buffer.entries
                  ++ record { trajectory = group; version = w.version; target = w.target } ∷ [];
              is = refl;
              ages = All-append (EntryAged max_age) h.buffer.entries _ h.buffer.ages (ahead.0, tt);
            };
            loop = h.loop;
            workers = moved max_age before after w (record w { phase = pushed }) (λ a. a) workers;
          }
        ]

  pub train-Aged :
      (s : System A) (n : ℕ) (x : Sample A) (b : ReplayBuffer A)
      → 0 < n
      → sample s.buffer n s.trainer_version max_age ≡ ok (some x, b)
      → Aged first_step max_age s
      → Aged first_step max_age (train b s)
  train-Aged s n x b positive e h =
      let es = h.buffer.entries in
      let p = intended {A = A} s.trainer_version max_age in
      let (f, _) =
        sample-takes h.buffer.max_size h.buffer.last s.trainer_version max_age n es x b positive
          (rw h.buffer.is at e) in
      record {
        collector = h.collector;
        buffer = record {
          max_size = h.buffer.max_size;
          last = h.buffer.last;
          entries = leave p n es;
          is = f;
          ages =
              (All-split (EntryAged max_age) (first p n es) (leave p n es) (
                All-perm (EntryAged max_age) (λ e. le_prop) (Perm.symm (first-leave-perm p n es))
                  h.buffer.ages)).1;
        };
        loop = h.loop;
        workers = h.workers;
      }

  pub deliver-Aged :
      (s : System A) (version : ℕ)
      → (s.collector).current_weight_version ≤ version
      → Aged first_step max_age s
      → Aged first_step max_age (deliver version s)
  unfolding assign_version
  deliver-Aged s version rises h = record {
    collector = (h.collector.0, omega (arith, h.collector.1, rises));
    buffer = h.buffer;
    loop =
        LoopAged-le first_step max_age s.loop ((s.collector).current_weight_version) version rises
          h.loop;
    workers = h.workers;
  }

  pub collector-Aged :
      (s : System A) (d : Collector) (ws : List Worker)
      → Kept s.collector d
      → All (WorkerAged max_age) ws
      → Aged first_step max_age s
      → Aged first_step max_age (record s { collector = d; workers = ws })
  collector-Aged s d ws same aged h = record {
    collector = kept first_step max_age s.collector d same h.collector;
    buffer = h.buffer;
    loop = loop-Kept first_step max_age s.loop s.collector d same h.loop;
    workers = aged;
  }

  pub finish-Aged :
      (s : System A) (before after : List Worker) (w : Worker)
      → s.workers ≡ before ++ w ∷ after
      → Aged first_step max_age s
      → Aged first_step max_age (finish before w after s)
  finish-Aged s before after w at h =
      collector-Aged s (finish_worker s.collector w.target) (before ++ after)
        (finish_worker-Frees s.collector w.target).0
        (left max_age before after w (subst (All (WorkerAged max_age)) at h.workers)) h
