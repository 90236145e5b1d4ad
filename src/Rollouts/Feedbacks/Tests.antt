-- ===== src/Rollouts/Feedbacks/Tests.antt =====
-- Four samples of two tasks, in turn.
use ne_mo_rl_enhanced_math_r.Common.{
  ℕ, ◌+◌, ◌*◌, ◌≡◌, refl, List, [], ◌∷◌, Option, none, some, ◌==◌, if◌then◌else◌, Result, ok, raise,
  get_elem?,
}
use ne_mo_rl_enhanced_math_r.Rollouts.Feedbacks.{
  Sample, calculate_rewards, no_environment, environment_failed, index_error,
}
use ne_mo_rl_enhanced_math_r.Rollouts.Feedbacks.Answers.{zip_with, calculate_rewards-rows}

abbrev sample : ℕ → ℕ → ℕ → Sample ℕ ℕ
sample task m i = record { message_log = m; task_name = task; env_info = i }

abbrev samples : List (Sample ℕ ℕ)
samples = sample 2 10 1 ∷ sample 5 20 2 ∷ sample 2 30 3 ∷ sample 5 40 4 ∷ []

-- The environment of a task adds its name, the message and the info.
abbrev row : ℕ → ℕ → ℕ → ℕ
row task m i = 100 * task + m + i

abbrev environments : ℕ → Option (List ℕ → List ℕ → Result ℕ (List ℕ))
environments task = some (λ ms infos. ok (zip_with (row task) ms infos))

abbrev only_two : ℕ → Option (List ℕ → List ℕ → Result ℕ (List ℕ))
only_two task = if task == 2 then environments task else none

abbrev failing : ℕ → Option (List ℕ → List ℕ → Result ℕ (List ℕ))
failing task = some (λ ms infos. if task == 5 then raise 7 else ok (zip_with (row task) ms infos))

abbrev too_short : ℕ → Option (List ℕ → List ℕ → Result ℕ (List ℕ))
too_short task = some (λ ms infos. ok (1 ∷ []))

unknown_raises : calculate_rewards only_two samples ≡ raise (no_environment 5)
unfolding calculate_rewards
unknown_raises = refl

failure_raises : calculate_rewards failing samples ≡ raise (environment_failed 7)
unfolding calculate_rewards
failure_raises = refl

too_few_raise : calculate_rewards too_short samples ≡ raise index_error
unfolding calculate_rewards
too_few_raise = refl

row_by_row :
    (i : ℕ) (s : Sample ℕ ℕ)
    → get_elem? samples i ≡ some s
    → (step : List ℕ → List ℕ → Result ℕ (List ℕ)) × (environments s.task_name ≡ some step)
      × ((ms infos : List ℕ) → step ms infos ≡ ok (zip_with (row s.task_name) ms infos))
row_by_row i s e = (_, refl, λ ms infos. refl)

calculate_rewards-rows_example :
    calculate_rewards environments samples ≡ ok (211 ∷ 522 ∷ 233 ∷ 544 ∷ [])
calculate_rewards-rows_example = calculate_rewards-rows environments row samples row_by_row
