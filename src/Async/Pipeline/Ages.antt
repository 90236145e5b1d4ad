-- ===== src/Async/Pipeline/Ages.antt =====
-- nemo_rl/algorithms/async_utils.py: how far ahead a group may be meant, in every run.
pub mod Moves
pub mod Steps
use native.Mathlib.Bridge.{le_prop}
use mathlib.Core.List.Perm
use ne_mo_rl_enhanced_math_r.Common.{
  ℕ, ◌+◌, ◌≤◌, ◌<◌, ◌≡◌, refl, sym, ap, ◌∙◌, inl, inr, Bool, List, [], ◌∷◌, ◌++◌, Option, none,
  some, ok, arith, All, All-append, All-split, All-perm, subst,
}
use ne_mo_rl_enhanced_math_r.Async.Buffer.{ReplayBuffer, Sample, newer, sample}
use ne_mo_rl_enhanced_math_r.Async.Buffer.Select.{Entry, holds, leave, first, first-leave-perm}
use ne_mo_rl_enhanced_math_r.Async.Buffer.Correct.{intended}
use ne_mo_rl_enhanced_math_r.Async.Collector.{
  Collector, get_next_target_for_generation, assign_version, start_worker, finish_worker,
  after_push,
}
use ne_mo_rl_enhanced_math_r.Async.Collector.Targets.{
  get_next_target_cases, get_next_target_reserves,
}
use ne_mo_rl_enhanced_math_r.Async.Pipeline.{
  Worker, Loop, idle, noted, answered, spawning, pushed, released, System, reserve, reserved, spawn,
  push, finish, train, deliver, Step, notes, asks, reserves, spawns, refreshes, rests, pushes,
  releases, finishes, fails, trains, delivers, controls, controlled, Reach, here, later,
}
use ne_mo_rl_enhanced_math_r.Async.Pipeline.Effects.{
  Kept, start_worker-Kept, controlled-Kept, after_push-Frees, finish_worker-Frees, stored_cases,
  sample-takes,
}

-- The collector keeps the age limit and has no version before the first; what it notes is one of its
-- versions; a target is at most the age limit ahead of its version.
abbrev pub CollectorAged : (first_step max_age : ℕ) → Collector → Type 0
CollectorAged first_step max_age c =
    (c.max_trajectory_age_steps ≡ max_age) × (first_step ≤ c.current_weight_version)

abbrev pub LoopAged : (first_step max_age current : ℕ) → Loop → Type 0
LoopAged first_step max_age current idle = Unit {0}
LoopAged first_step max_age current (noted version) = (first_step ≤ version) × (version ≤ current)
LoopAged first_step max_age current (answered version last) =
    (first_step ≤ version) × (version ≤ current)
LoopAged first_step max_age current (spawning version target next) =
    (target ≤ version + max_age) × (version ≤ current)

abbrev pub WorkerAged : ℕ → Worker → Type 0
WorkerAged max_age w = w.target ≤ w.version + max_age

module _ (first_step max_age : ℕ) where
  pub kept :
      (c d : Collector)
      → Kept c d
      → CollectorAged first_step max_age c
      → CollectorAged first_step max_age d
  kept c d (same_age, same_version) (age, from) =
      (same_age ∙ age, omega (arith, same_version, from))

  pub LoopAged-le :
      (l : Loop) (v w : ℕ)
      → v ≤ w
      → LoopAged first_step max_age v l
      → LoopAged first_step max_age w l
  LoopAged-le idle v w h a = tt
  LoopAged-le (noted _) v w h (a, b) = (a, omega (arith, b, h))
  LoopAged-le (answered _ _) v w h (a, b) = (a, omega (arith, b, h))
  LoopAged-le (spawning _ _ _) v w h (a, b) = (a, omega (arith, b, h))

  pub loop-Kept :
      (l : Loop) (c d : Collector)
      → Kept c d
      → LoopAged first_step max_age c.current_weight_version l
      → LoopAged first_step max_age d.current_weight_version l
  loop-Kept l c d (_, same) a =
      LoopAged-le l c.current_weight_version d.current_weight_version (omega (arith, same)) a

module _ (max_age : ℕ) where
  -- A worker in a new phase; a worker less.
  pub moved :
      (before after : List Worker) (w u : Worker)
      → (WorkerAged max_age w → WorkerAged max_age u)
      → All (WorkerAged max_age) (before ++ w ∷ after)
      → All (WorkerAged max_age) (before ++ u ∷ after)
  moved before after w u f h =
      let (x, y) = All-split (WorkerAged max_age) before (w ∷ after) h in
      All-append (WorkerAged max_age) before (u ∷ after) x (f (y.0), y.1)

  pub left :
      (before after : List Worker) (w : Worker)
      → All (WorkerAged max_age) (before ++ w ∷ after)
      → All (WorkerAged max_age) (before ++ after)
  left before after w h =
      let (x, y) = All-split (WorkerAged max_age) before (w ∷ after) h in
      All-append (WorkerAged max_age) before after x (y.1)

module _ {A : Type 0} where
  abbrev pub EntryAged : ℕ → Entry A → Type 0
  EntryAged max_age e = e.target ≤ e.version + max_age

  pub record BufferAged (max_age : ℕ) (b : ReplayBuffer A) : Type 0 where
    pub max_size : ℕ
    pub last : Option ℕ
    pub entries : List (Entry A)
    pub is : b ≡ holds max_size last entries
    pub ages : All (EntryAged max_age) entries

  pub record Aged (first_step max_age : ℕ) (s : System A) : Type 0 where
    pub collector : CollectorAged first_step max_age s.collector
    pub buffer : BufferAged max_age s.buffer
    pub loop : LoopAged first_step max_age ((s.collector).current_weight_version) s.loop
    pub workers : All (WorkerAged max_age) s.workers
