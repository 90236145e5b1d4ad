-- ===== src/Async/Collector.antt =====
-- nemo_rl/algorithms/async_utils.py: the state of `AsyncTrajectoryCollector` and the methods that
-- decide what is generated. What is done under a lock or in one assignment is one function; a method
-- that takes no lock is put together from its steps. An event is a Boolean that says whether it is
-- set; the set of targets in progress is a list. The buffer's answer is an argument.
pub mod Targets
pub mod Sessions
use ne_mo_rl_enhanced_math_r.Common.{
  ℕ, zero, suc, ◌+◌, ◌*◌, Bool, true, false, ◌&&◌, ◌||◌, not, List, [], ◌∷◌, ◌++◌, Option, none,
  some, ltb, ◌==◌, if◌then◌else◌, range_from,
}

pub record Collector : Type 0 where
  pub max_trajectory_age_steps : ℕ
  pub running : Bool
  pub manual_pause_cleared : Bool
  pub refit_pause_cleared : Bool
  pub current_weight_version : ℕ
  pub initial_weight_version : ℕ
  pub last_limit_warning_version : Option ℕ
  pub generation_limit_cleared : Bool
  pub inflight_permits : ℕ
  pub generating_targets : List ℕ

-- `(num_prompts_per_step * max_trajectory_age_steps) or 1`.
abbrev pub max_inflight : ℕ → ℕ → ℕ
max_inflight num_prompts max_age = if num_prompts * max_age == 0 then 1 else num_prompts * max_age

unfoldable pub init : (num_prompts_per_step max_age start_step : ℕ) → Collector
init num_prompts_per_step max_age start_step = record {
  max_trajectory_age_steps = max_age;
  running = false;
  manual_pause_cleared = true;
  refit_pause_cleared = true;
  current_weight_version = start_step;
  initial_weight_version = start_step;
  last_limit_warning_version = none;
  generation_limit_cleared = true;
  inflight_permits = max_inflight num_prompts_per_step max_age;
  generating_targets = [];
}

unfoldable pub calculate_target_weights : Collector → ℕ → List ℕ
calculate_target_weights c version =
    if version == c.initial_weight_version
    then range_from c.initial_weight_version (c.max_trajectory_age_steps + 1)
    else range_from (version + 1) c.max_trajectory_age_steps

abbrev pub contains : ℕ → List ℕ → Bool
contains x [] = false
contains x (y ∷ ys) = (x == y) || contains x ys

-- `set.discard`: every occurrence, of which a set has one at most.
abbrev pub discard : ℕ → List ℕ → List ℕ
discard x [] = []
discard x (y ∷ ys) = if x == y then discard x ys else y ∷ discard x ys

-- `target > last`, where no target yet is -1.
abbrev pub newer_than : Option ℕ → ℕ → Bool
newer_than none target = true
newer_than (some last) target = ltb last target

-- The test in the loop that reserves.
unfoldable pub needs_generation : Option ℕ → List ℕ → ℕ → Bool
needs_generation last generating target = newer_than last target && not (contains target generating)

unfoldable pub find_target : Option ℕ → List ℕ → List ℕ → Option ℕ
find_target last generating [] = none
find_target last generating (target ∷ rest) =
    if needs_generation last generating target
    then some target
    else find_target last generating rest

-- The target, and the collector with its reservation.
unfoldable pub get_next_target_for_generation : Collector → ℕ → Option ℕ → Option ℕ × Collector
get_next_target_for_generation c version last =
    elim (find_target last c.generating_targets (calculate_target_weights c version)) [
      | none ↦ (none, c)
      | some target ↦ (some target, record c { generating_targets = target ∷ c.generating_targets })
    ]

-- The loop of the pause, with a test of its own.
unfoldable pub any_needs : Option ℕ → List ℕ → List ℕ → Bool
any_needs last generating [] = false
any_needs last generating (target ∷ rest) =
    (newer_than last target && not (contains target generating)) || any_needs last generating rest

unfoldable pub should_pause_for_generation_limits : Collector → Option ℕ → Bool
should_pause_for_generation_limits c last =
    not (any_needs last c.generating_targets (calculate_target_weights c c.current_weight_version))

-- The two steps of `set_weight_version`, which takes no lock.
unfoldable pub assign_version : Collector → ℕ → Collector
assign_version c version = record c { current_weight_version = version }

unfoldable pub set_limit_event : Collector → Collector
set_limit_event c = record c { generation_limit_cleared = true }

unfoldable pub set_weight_version : Collector → ℕ → Collector
set_weight_version c version = set_limit_event (assign_version c version)

abbrev pub is_version : Option ℕ → ℕ → Bool
is_version none version = false
is_version (some v) version = v == version

-- In `_collection_loop`, when generation should pause: the event is cleared once for each version,
-- without a lock. The thread then waits until the event is set.
unfoldable pub note_limit : Collector → Collector
note_limit c = record c { last_limit_warning_version = some c.current_weight_version }

unfoldable pub clear_limit_event : Collector → Collector
clear_limit_event c = record c { generation_limit_cleared = false }

unfoldable pub pause_for_limits : Collector → Collector
pause_for_limits c =
    if is_version c.last_limit_warning_version c.current_weight_version
    then c
    else clear_limit_event (note_limit c)

unfoldable pub pause : Collector → Collector
pause c = record c { manual_pause_cleared = false }

unfoldable pub resume : Collector → Collector
resume c = record c { manual_pause_cleared = true }

-- Without the wait for pending generations, which changes nothing else.
unfoldable pub prepare_for_refit : Collector → Collector
prepare_for_refit c = record c { refit_pause_cleared = false }

unfoldable pub resume_after_refit : Collector → Collector
resume_after_refit c = record c { refit_pause_cleared = true }

-- A worker drops the reservation once the first prompt's group is buffered, and in any case at its
-- end, where it gives its permit back.
unfoldable pub release_reservation : Collector → ℕ → Collector
release_reservation c target = record c { generating_targets = discard target c.generating_targets }

unfoldable pub after_push : Collector → (prompt_idx target : ℕ) → Collector
unfolding release_reservation
after_push c prompt_idx target = if prompt_idx == 0 then release_reservation c target else c

unfoldable pub finish_worker : Collector → ℕ → Collector
unfolding release_reservation
finish_worker c target = record (release_reservation c target) {
  inflight_permits = c.inflight_permits + 1;
}

-- `self._inflight_sema.acquire()`, which waits while there is no permit.
abbrev pub take_permit : Collector → ℕ → Option Collector
take_permit c zero = none
take_permit c (suc permits) = some record c { inflight_permits = permits }

unfoldable pub start_worker : Collector → Option Collector
start_worker c = take_permit c c.inflight_permits
