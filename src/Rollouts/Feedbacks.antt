-- ===== src/Rollouts/Feedbacks.antt =====
-- nemo_rl/experience/rollouts.py: `calculate_rewards`, which groups the samples of a batch by task,
-- calls the environment of each task once, and puts the answers back in the order of the batch.
pub mod Rows
pub mod Answers
mod Tests
use ne_mo_rl_enhanced_math_r.Common.{
  ℕ, zero, suc, List, [], ◌∷◌, ◌++◌, map, Option, none, some, leb, Bool, Result, ok, raise, ◌>>=◌,
  Dict, lookup, put, get_elem?, sort_by,
}

-- The `ValueError`, an exception of an environment, and Python's for a list that is too short.
pub data TaskError (E : Type 0) : Type 0 where
  no_environment : (task_name : ℕ) → TaskError E
  environment_failed : E → TaskError E
  index_error : TaskError E

-- A sample of the batch: what the environment is shown, its task and its `extra_env_info`.
pub record Sample (M I : Type 0) : Type 0 where
  pub message_log : M
  pub task_name : ℕ
  pub env_info : I

abbrev pub members : {M : Type 0} → Option (List (ℕ × M)) → List (ℕ × M)
members none = []
members (some group) = group

-- `task_groups`, for the samples from place `i` on.
abbrev pub group_from :
    {M I : Type 0} → ℕ → List (Sample M I) → Dict (List (ℕ × M)) → Dict (List (ℕ × M))
group_from i [] groups = groups
group_from i (s ∷ samples) groups =
    group_from (suc i) samples
      (put s.task_name (members (lookup s.task_name groups) ++ (i, s.message_log) ∷ []) groups)

-- `task_to_env` gives for a task the `step` of its environment, which answers a list of messages and
-- infos with a list of entries `R`: the lists of an `EnvironmentReturn` side by side.
module _ {M I R E : Type 0} (task_to_env : ℕ → Option (List M → List I → Result E (List R))) where
  abbrev pub with_info :
      Option (Sample M I) → Result (TaskError E) (List I) → Result (TaskError E) (List I)
  with_info none rest = raise index_error
  with_info (some s) rest = do infos ← rest; ok (s.env_info ∷ infos)

  -- `env_info`.
  abbrev pub infos_of : List (Sample M I) → List (ℕ × M) → Result (TaskError E) (List I)
  infos_of samples [] = ok []
  infos_of samples ((i, m) ∷ group) = with_info (get_elem? samples i) (infos_of samples group)

  abbrev pub call :
      ℕ
      → Option (List M → List I → Result E (List R))
      → List (ℕ × M)
      → Result (TaskError E) (List I)
      → Result (TaskError E) (Result E (List R))
  call task none group infos = raise (no_environment task)
  call task (some step) group infos = do
    env_info ← infos
    ok (step (map (λ (p : ℕ × M). p.1) group) env_info)

  -- `futures`, each with its group: every call is made before a result is awaited.
  abbrev pub submit :
      List (Sample M I)
      → Dict (List (ℕ × M))
      → Result (TaskError E) (List (List (ℕ × M) × Result E (List R)))
  submit samples [] = ok []
  submit samples ((task, group) ∷ groups) = do
    future ← call task (task_to_env task) group (infos_of samples group)
    futures ← submit samples groups
    ok ((group, future) ∷ futures)

  -- The entries of a result with the places of its group.
  abbrev pub with_places : List (ℕ × M) → List R → Result (TaskError E) (List (ℕ × R))
  with_places [] entries = ok []
  with_places (p ∷ group) [] = raise index_error
  with_places (p ∷ group) (e ∷ entries) = do rest ← with_places group entries; ok ((p.0, e) ∷ rest)

  abbrev pub awaited : Result E (List R) → Result (TaskError E) (List R)
  awaited (ok entries) = ok entries
  awaited (raise e) = raise (environment_failed e)

  abbrev pub collect : List (List (ℕ × M) × Result E (List R)) → Result (TaskError E) (List (ℕ × R))
  collect [] = ok []
  collect ((group, future) ∷ futures) = do
    entries ← awaited future
    here ← with_places group entries
    rest ← collect futures
    ok (here ++ rest)

  abbrev pub le_place : ℕ × R → ℕ × R → Bool
  le_place p q = leb (p.0) (q.0)

  unfoldable pub calculate_rewards : List (Sample M I) → Result (TaskError E) (List R)
  calculate_rewards samples = do
    futures ← submit samples (group_from 0 samples [])
    collected ← collect futures
    ok (map (λ (p : ℕ × R). p.1) (sort_by le_place collected))
