-- ===== src/Async/Buffer.antt =====
-- nemo_rl/algorithms/async_utils.py: `ReplayBuffer`. The lock makes each method one step. Weight
-- versions are natural numbers; -1, which is below each of them, is `none`.
pub mod Select
pub mod Remove
pub mod Correct
pub mod History
pub mod Returns
use ne_mo_rl_enhanced_math_r.Common.{
  ℕ, zero, suc, ◌+◌, ◌-◌, ◌*◌, Bool, true, false, ◌&&◌, List, [], ◌∷◌, ◌++◌, map, Option, none,
  some, max, ltb, leb, ◌==◌, if◌then◌else◌, Result, ok, raise, raise_if, ◌>>=◌, ◌>>◌, length, take,
  sum, get_elem?, sort_by,
}

pub data Error : Type 0 where
  nonpositive_max_size : Error
  old_trajectories : (count min_valid_version : ℕ) → Error
  index_error zero_division : Error

pub data Status : Type 0 where
  full success : Status

pub record ReplayBuffer (A : Type 0) : Type 0 where
  pub max_size : ℕ
  pub trajectories : List A
  pub trajectory_versions : List ℕ
  pub target_weight_versions : List ℕ
  pub last_target_weight_already_generated : Option ℕ

-- `sample`'s result; the average age is `age_sum / age_count`.
pub record Sample (A : Type 0) : Type 0 where
  pub trajectories : List A
  pub age_sum : ℕ
  pub age_count : ℕ

-- `max(last, version)`.
abbrev pub newer : Option ℕ → ℕ → Option ℕ
newer none version = some version
newer (some last) version = some (max last version)

-- `[i for i, x in enumerate(xs, k) if test(x)]`.
unfoldable pub indices_from {ℓ} : {A : Type ℓ} → ℕ → (A → Bool) → List A → List ℕ
indices_from k test [] = []
indices_from k test (x ∷ xs) =
    if test x then k ∷ indices_from (suc k) test xs else indices_from (suc k) test xs

-- `[i for i in positions if xs[i] == value]`.
unfoldable pub positions_of : ℕ → List ℕ → List ℕ → Result Error (List ℕ)
positions_of value xs [] = ok []
positions_of value xs (i ∷ rest) = do
  found ← elim (get_elem? xs i) [ some x ↦ ok (x == value) | none ↦ raise index_error ]
  more ← positions_of value xs rest
  ok (if found then i ∷ more else more)

abbrev pub count_if : (ℕ → Bool) → List ℕ → ℕ
count_if test [] = 0
count_if test (x ∷ xs) = if test x then suc (count_if test xs) else count_if test xs

module _ {ℓ} {B : Type ℓ} where
  -- `[xs[i] for i in positions]`.
  unfoldable pub gather : List B → List ℕ → Result Error (List B)
  gather xs [] = ok []
  gather xs (i ∷ rest) = do
    x ← elim (get_elem? xs i) [ some x ↦ ok x | none ↦ raise index_error ]
    more ← gather xs rest
    ok (x ∷ more)

  -- `xs.pop(i)`.
  unfoldable pub pop : ℕ → List B → Result Error (List B)
  pop i [] = raise index_error
  pop zero (x ∷ xs) = ok xs
  pop (suc i) (x ∷ xs) = do rest ← pop i xs; ok (x ∷ rest)

module _ {A : Type 0} where
  unfoldable pub init : ℕ → Result Error (ReplayBuffer A)
  init max_size = do
    raise_if (max_size == 0) nonpositive_max_size
    ok (record {
      max_size = max_size;
      trajectories = [];
      trajectory_versions = [];
      target_weight_versions = [];
      last_target_weight_already_generated = none;
    })

  unfoldable pub push_with_wait_signal : ReplayBuffer A → A → ℕ → ℕ → Status × ReplayBuffer A
  push_with_wait_signal b trajectory weight_version target_weight_version =
      if leb b.max_size (length b.trajectories) then (full, b) else (
        success,
        record b {
          trajectories = b.trajectories ++ trajectory ∷ [];
          trajectory_versions = b.trajectory_versions ++ weight_version ∷ [];
          target_weight_versions = b.target_weight_versions ++ target_weight_version ∷ [];
          last_target_weight_already_generated =
              newer b.last_target_weight_already_generated target_weight_version;
        },
      )

  -- One round of the loop that removes the selected entries.
  unfoldable pub pop_entry : ℕ → ReplayBuffer A → Result Error (ReplayBuffer A)
  pop_entry idx b = do
    versions ← pop idx b.trajectory_versions
    targets ← pop idx b.target_weight_versions
    trajectories ← pop idx b.trajectories
    ok (record b {
      trajectories = trajectories;
      trajectory_versions = versions;
      target_weight_versions = targets;
    })

  unfoldable pub pop_entries : List ℕ → ReplayBuffer A → Result Error (ReplayBuffer A)
  pop_entries [] b = ok b
  pop_entries (idx ∷ rest) b = do b' ← pop_entry idx b; pop_entries rest b'

  -- The second half of `sample`: the selected entries are read and removed. Without any, the average
  -- divides by zero.
  unfoldable pub consume :
      ReplayBuffer A → ℕ → List ℕ → Result Error (Option (Sample A) × ReplayBuffer A)
  consume b current selected = do
    weights ← gather b.trajectory_versions selected
    raise_if (length weights == 0) zero_division
    items ← gather b.trajectories selected
    b' ← pop_entries (sort_by (λ i j. leb j i) selected) b
    ok (
      some (record {
        trajectories = items;
        age_sum = current * length weights - sum weights;
        age_count = length weights;
      }),
      b',
    )

  -- The middle of `sample`, once the positions within the age window are known.
  unfoldable pub choose :
      ReplayBuffer A → ℕ → ℕ → List ℕ → Result Error (Option (Sample A) × ReplayBuffer A)
  choose b num_prompt_groups current valid =
      if length valid == 0
      then ok (none, b)
      else if ltb (length valid) num_prompt_groups
      then ok (none, b)
      else do
        intended ← positions_of current b.target_weight_versions valid
        if ltb (length intended) num_prompt_groups
            then ok (none, b)
            else consume b current (take num_prompt_groups intended)

  unfoldable pub sample :
      ReplayBuffer A → ℕ → ℕ → ℕ → Result Error (Option (Sample A) × ReplayBuffer A)
  sample b num_prompt_groups current max_age =
      let min_valid = current - max_age in
      let old = count_if (λ v. ltb v min_valid) b.trajectory_versions in
      if length b.trajectories == 0
      then ok (none, b)
      else (raise_if (ltb 0 old) (old_trajectories old min_valid)
          >> choose b num_prompt_groups current
              (indices_from 0 (λ v. leb min_valid v && leb v current) b.trajectory_versions))

  unfoldable pub size : ReplayBuffer A → ℕ
  size b = length b.trajectories

  unfoldable pub clear : ReplayBuffer A → ReplayBuffer A
  clear b = record b { trajectories = []; trajectory_versions = []; target_weight_versions = [] }
