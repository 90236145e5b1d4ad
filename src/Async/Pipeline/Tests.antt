-- ===== src/Async/Pipeline/Tests.antt =====
-- nemo_rl/algorithms/async_utils.py and nemo_rl/algorithms/grpo.py: runs with small batches.
use ne_mo_rl_enhanced_math_r.Common.{
  ℕ, ◌<◌, ◌≤◌, ◌≡◌, refl, true, false, [], ◌∷◌, Option, none, some, ok, raise, arith, All, Bool,
}
use ne_mo_rl_enhanced_math_r.Async.Buffer
use ne_mo_rl_enhanced_math_r.Async.Buffer.{
  ReplayBuffer, Sample, sample, old_trajectories, positions_of, gather, pop, pop_entry, pop_entries,
  consume, choose, indices_from, push_with_wait_signal,
}
use ne_mo_rl_enhanced_math_r.Async.Collector
use ne_mo_rl_enhanced_math_r.Async.Collector.{
  get_next_target_for_generation, find_target, needs_generation, calculate_target_weights,
  after_push, release_reservation, finish_worker, start_worker, assign_version,
}
use ne_mo_rl_enhanced_math_r.Async.Pipeline.{
  fails, noted, Worker, idle, generating, pushed, released, System, Step, notes, asks, reserves,
  spawns, rests, pushes, releases, finishes, trains, start, Reach, here, later,
}
use ne_mo_rl_enhanced_math_r.Async.Pipeline.Shares.{total}
use ne_mo_rl_enhanced_math_r.Async.Pipeline.Young.{Reach-sample_returns}
use ne_mo_rl_enhanced_math_r.Async.Pipeline.Correct.{Reach-sample}
use ne_mo_rl_enhanced_math_r.Async.Pipeline.Stalled.{Reach-trainer_stalls}

abbrev empty : ReplayBuffer ℕ
empty = record {
  max_size = 2;
  trajectories = [];
  trajectory_versions = [];
  target_weight_versions = [];
  last_target_weight_already_generated = none;
}

abbrev begin : System ℕ
begin = start 1 1 0 empty

abbrev worker : Worker
worker = record { prompt_idx = 0; version = 0; target = 0; phase = generating }

-- One worker generates for target 0.
abbrev first_worker : System ℕ
first_worker = record begin {
  collector = record begin.collector { inflight_permits = 0; generating_targets = 0 ∷ [] };
  loop = idle;
  workers = worker ∷ [];
}

infixl 5 ◌▸◌
◌▸◌ :
    {careful : Bool} {t u : System ℕ}
    → Reach careful 1 1 begin t
    → Step careful 1 1 t u
    → Reach careful 1 1 begin u
r ▸ st = later r st

starts_worker : {careful : Bool} → Reach careful 1 1 begin first_worker
unfolding Collector.init get_next_target_for_generation find_target needs_generation
    calculate_target_weights start_worker
starts_worker =
    here
    ▸ notes refl
    ▸ asks 0 refl
    ▸ reserves 0 none refl (λ _. refl)
    ▸ spawns 0 0 0 _ refl (omega arith) refl
    ▸ rests 0 0 1 refl (omega arith)

-- The worker's group is buffered, its permit is back, and target 1 can be reserved.
abbrev one_group : System ℕ
one_group = record begin {
  buffer = record {
    max_size = 2;
    trajectories = 7 ∷ [];
    trajectory_versions = 0 ∷ [];
    target_weight_versions = 0 ∷ [];
    last_target_weight_already_generated = some 0;
  };
}

stores_group : Reach true 1 1 begin one_group
unfolding Collector.init push_with_wait_signal after_push release_reservation finish_worker
stores_group =
    starts_worker
    ▸ pushes [] worker [] 7 refl refl
    ▸ releases [] (record worker { phase = pushed }) [] refl refl
    ▸ finishes [] (record worker { phase = released }) [] refl refl

-- The collector has asked the buffer before the worker pushes and frees the target, and reserves the
-- target again after that: two groups for a step that needs one.
abbrev two_groups : System ℕ
two_groups = record begin {
  buffer = record {
    max_size = 2;
    trajectories = 7 ∷ 8 ∷ [];
    trajectory_versions = 0 ∷ 0 ∷ [];
    target_weight_versions = 0 ∷ 0 ∷ [];
    last_target_weight_already_generated = some 0;
  };
}

race_doubles : Reach false 1 1 begin two_groups
unfolding Collector.init push_with_wait_signal after_push release_reservation finish_worker
    get_next_target_for_generation find_target needs_generation calculate_target_weights
    start_worker
race_doubles =
    starts_worker
    ▸ notes refl
    ▸ asks 0 refl
    ▸ pushes [] worker [] 7 refl refl
    ▸ releases [] (record worker { phase = pushed }) [] refl refl
    ▸ finishes [] (record worker { phase = released }) [] refl refl
    ▸ reserves 0 none refl (λ e. cc)
    ▸ spawns 0 0 0 _ refl (omega arith) refl
    ▸ rests 0 0 1 refl (omega arith)
    ▸ pushes [] worker [] 8 refl refl
    ▸ releases [] (record worker { phase = pushed }) [] refl refl
    ▸ finishes [] (record worker { phase = released }) [] refl refl

abbrev next_worker : Worker
next_worker = record worker { target = 1 }

-- The group that is left over is still there two training steps later.
abbrev left_over : System ℕ
left_over = record begin {
  buffer = record {
    max_size = 2;
    trajectories = 8 ∷ [];
    trajectory_versions = 0 ∷ [];
    target_weight_versions = 0 ∷ [];
    last_target_weight_already_generated = some 1;
  };
  trainer_version = 2;
}

race_leaves : Reach false 1 1 begin left_over
unfolding Collector.init push_with_wait_signal after_push release_reservation finish_worker
    get_next_target_for_generation find_target needs_generation calculate_target_weights
    start_worker sample choose consume indices_from positions_of gather pop pop_entry pop_entries
race_leaves =
    race_doubles
    ▸ trains _ _ refl
    ▸ notes refl
    ▸ asks 0 refl
    ▸ reserves 0 (some 0) refl (λ _. refl)
    ▸ spawns 0 1 0 _ refl (omega arith) refl
    ▸ rests 0 1 1 refl (omega arith)
    ▸ pushes [] next_worker [] 9 refl refl
    ▸ releases [] (record next_worker { phase = pushed }) [] refl refl
    ▸ finishes [] (record next_worker { phase = released }) [] refl refl
    ▸ trains _ _ refl

-- From then on the trainer's call raises.
race_raises : sample left_over.buffer 1 left_over.trainer_version 1 ≡ raise (old_trajectories 1 1)
unfolding sample
race_raises = refl

Reach-sample_example :
    ((r : Option (Sample ℕ) × ReplayBuffer ℕ) × (sample one_group.buffer 1 one_group.trainer_version
          1
        ≡ ok r))
    × All (λ t. one_group.trainer_version ≤ t) (one_group.buffer).target_weight_versions
    × ((t : ℕ) → total 1 one_group t ≤ 1)
unfolding Buffer.init
Reach-sample_example = Reach-sample 1 1 0 2 empty one_group (omega arith) refl stores_group

Reach-sample_returns_example :
    (r : Option (Sample ℕ) × ReplayBuffer ℕ) × (sample two_groups.buffer 1
        two_groups.trainer_version 1
      ≡ ok r)
unfolding Buffer.init
Reach-sample_returns_example =
    Reach-sample_returns false 1 1 0 2 empty two_groups (omega arith) refl race_doubles
      (omega arith, (omega arith, tt))

-- Two prompts in a batch: the first worker's group is buffered, and the second worker fails.
abbrev both : System ℕ
both = start 2 1 0 empty

abbrev lost : System ℕ
lost = record both { buffer = one_group.buffer }

loses_group : Reach false 2 1 both lost
unfolding Collector.init push_with_wait_signal after_push release_reservation finish_worker
    get_next_target_for_generation find_target needs_generation calculate_target_weights
    start_worker
loses_group =
    let two = record worker { prompt_idx = 1 } ∷ [] in
    later
      (later
        (later
          (later
            (later
              (later
                (later
                  (later (later (later here (notes refl)) (asks 0 refl))
                    (reserves 0 none refl (λ _. refl)))
                  (spawns 0 0 0 _ refl (omega arith) refl))
                (spawns 0 0 1 _ refl (omega arith) refl))
              (rests 0 0 2 refl (omega arith)))
            (pushes two worker [] 7 refl refl))
          (releases two (record worker { phase = pushed }) [] refl refl))
        (finishes two (record worker { phase = released }) [] refl refl))
      (fails [] (record worker { prompt_idx = 1 }) [] refl refl)

Reach-trainer_stalls_example :
    (total 2 (record lost { loop = noted 0 }) 0 < 2)
    × ((record lost { loop = noted 0 }).trainer_version ≤ 0)
unfolding Buffer.init Collector.init
Reach-trainer_stalls_example =
    Reach-trainer_stalls 2 1 0 2 0 empty lost (record lost { loop = noted 0 }) (omega arith) refl
      loses_group (omega arith, refl, omega arith) (later here (notes refl))
