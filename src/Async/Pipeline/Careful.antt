-- ===== src/Async/Pipeline/Careful.antt =====
-- nemo_rl/algorithms/async_utils.py and nemo_rl/algorithms/grpo.py: the runs in which no worker fails
-- and no reservation follows an outdated answer of the buffer.
pub mod Reservations
pub mod Workers
pub mod Trainer
use mathlib.Core.List.{map-append}
use ne_mo_rl_enhanced_math_r.Common.{
  ℕ, zero, suc, ◌+◌, ◌-◌, ◌≤◌, ◌<◌, ◌≡◌, refl, sym, ap, ◌∙◌, ◌⊎◌, inl, inr, Bool, true, false, List,
  [], ◌∷◌, ◌++◌, map, Option, none, some, Result, ok, arith, ◌==◌, ltb, if◌then◌else◌, Bool-cases,
  All, All-append, All-split, All-map, sum_of, sum_of-append, sum_of-perm, length, subst,
}
use ne_mo_rl_enhanced_math_r.Async.Buffer
use ne_mo_rl_enhanced_math_r.Async.Buffer.{
  ReplayBuffer, Sample, newer, sample, push_with_wait_signal,
}
use ne_mo_rl_enhanced_math_r.Async.Buffer.Select.{
  Entry, holds, first, leave, count, length-first, first-All, first-leave-perm,
}
use ne_mo_rl_enhanced_math_r.Async.Buffer.Correct.{intended}
use ne_mo_rl_enhanced_math_r.Async.Collector
use ne_mo_rl_enhanced_math_r.Async.Collector.{
  Collector, contains, newer_than, get_next_target_for_generation, assign_version, start_worker,
  finish_worker, after_push,
}
use ne_mo_rl_enhanced_math_r.Async.Collector.Targets.{
  get_next_target_cases, get_next_target_reserves,
}
use ne_mo_rl_enhanced_math_r.Async.Pipeline.{
  Phase, Worker, Loop, idle, noted, answered, spawning, generating, pushed, released, System, note,
  ask, reserve, reserved, spawn, refresh, stored, push, release, finish, train, deliver, control,
  controlled, Step, notes, asks, reserves, spawns, refreshes, rests, pushes, releases, finishes,
  fails, trains, delivers, controls, start, Reach, here, later,
}
use ne_mo_rl_enhanced_math_r.Async.Pipeline.Effects.{
  Frees, start_worker-Kept, controlled-Kept, after_push-Frees, finish_worker-Frees, stored_cases,
  sample-takes,
}
use ne_mo_rl_enhanced_math_r.Async.Pipeline.Ages.{Aged, LoopAged}
use ne_mo_rl_enhanced_math_r.Async.Pipeline.Ages.Steps.{Step-Aged}
use ne_mo_rl_enhanced_math_r.Async.Pipeline.Shares.{
  share, due, worker_share, loop_share, total, Past, Ordered, Past-newer, newer-Past, not_Past,
  Ordered-le, Ordered-reserve, Ordered-train,
}

-- A worker that has pushed is past.
abbrev pub Stored : Option ℕ → Phase → ℕ → Type 0
Stored last generating t = Unit {0}
Stored last pushed t = Past last t
Stored last released t = Past last t

abbrev pub WorkerStored : Option ℕ → Worker → Type 0
WorkerStored last w = Stored last w.phase w.target

pub Stored-onward :
    (last last' : Option ℕ) (p : Phase) (t : ℕ)
    → ((t : ℕ) → Past last t → Past last' t)
    → Stored last p t
    → Stored last' p t
Stored-onward last last' generating t f h = tt
Stored-onward last last' pushed t f h = f t h
Stored-onward last last' released t f h = f t h

pub All-onward {ℓ} :
    {X : Type ℓ} (P Q : X → Type 0) (xs : List X) → ((x : X) → P x → Q x) → All P xs → All Q xs
All-onward P Q [] f h = tt
All-onward P Q (x ∷ xs) f h = (f x h.0, All-onward P Q xs f h.1)

pub record Orderly {A : Type 0} (first_step n max_age : ℕ) (s : System A) : Type 0 where
  pub aged : Aged first_step max_age s
  pub buffered :
      All (Past ((s.buffer).last_target_weight_already_generated)) (s.buffer).target_weight_versions
  pub workers : All (WorkerStored ((s.buffer).last_target_weight_already_generated)) s.workers
  pub ordered :
      Ordered first_step n
        ((s.buffer).last_target_weight_already_generated)
        ((s.collector).generating_targets)
        s.trainer_version
        (total n s)

-- Groups that workers generate or that have no worker yet.
abbrev pub coming : ℕ → List Worker → Loop → ℕ → ℕ
coming n ws l t = sum_of (worker_share t) ws + loop_share n t l

-- The last target that the buffer knows of.
abbrev pub last_of : {A : Type 0} → System A → Option ℕ
last_of s = (s.buffer).last_target_weight_already_generated

module _ {A : Type 0} (first_step n max_age : ℕ) (s : System A) where
  abbrev last : Option ℕ
  last = last_of s

  -- A step that leaves the buffer and the trainer alone, and reserves nothing.
  pub steady :
      (d : Collector) (l : Loop) (ws : List Worker)
      → Aged first_step max_age (record s { collector = d; loop = l; workers = ws })
      → All (WorkerStored last) ws
      → ((u : ℕ)
          → newer_than last u ≡ true
          → contains u d.generating_targets ≡ false
          → contains u (s.collector).generating_targets ≡ false)
      → ((u : ℕ) → coming n ws l u ≤ coming n s.workers s.loop u)
      → Orderly first_step n max_age s
      → Orderly first_step n max_age (record s { collector = d; loop = l; workers = ws })
  steady d l ws aged stored_ws frees le h = record {
    aged = aged;
    buffered = h.buffered;
    workers = stored_ws;
    ordered =
        Ordered-le first_step n last last (s.collector).generating_targets d.generating_targets
          s.trainer_version (total n s)
          (total n (record s { collector = d; loop = l; workers = ws })) (λ u p. p) frees
          (λ u. omega (arith, le u)) h.ordered;
  }
