-- ===== src/Timing/Tests.antt =====
-- Runs of the timer and of the timeout checker, and each theorem at a concrete input.
use ne_mo_rl_enhanced_math_r.Common.{
  ℕ, ◌≤◌, ◌≡◌, refl, inl, inr, true, false, List, [], ◌∷◌, none, some, arith, ok, length, Dict,
  lookup, ◌==◌, Bool-cases,
}
use ne_mo_rl_enhanced_math_r.Common.Int.{ℤ, pos}
use ne_mo_rl_enhanced_math_r.Timing.Timer.{
  Timer, Reduction, count, mean, Metric, get_timing_metrics,
}
use ne_mo_rl_enhanced_math_r.Timing.Timer.Recorded.{Recorded}
use ne_mo_rl_enhanced_math_r.Timing.Timer.Reductions.{expected, get_timing_metrics-lookup}
use ne_mo_rl_enhanced_math_r.Timing.Timeout.{TimeoutChecker, convert_to_seconds}
use ne_mo_rl_enhanced_math_r.Timing.Timeout.Deadline.{
  check, begin, mark, saves, saves_once, saves-deadline,
}

abbrev timer : Timer
timer = record { timers = (2, pos 5 ∷ []) ∷ []; start_times = (2, 7) ∷ [] }

-- A stand-in for numpy: each reduction is the number of measurements.
abbrev counted : Reduction → List ℤ → ℕ
counted op xs = length xs

timer-Recorded : Recorded timer
unfolding Recorded
timer-Recorded l e = elim (Bool-cases (l == 2)) [
  | inl f ↦ let x = rw f at e in cc
  | inr f ↦ let x = rw f at e in cc
]

get_timing_metrics-lookup_example :
    (results : Dict (Metric ℕ)) × (get_timing_metrics counted
        ((2, some count) ∷ (4, some mean) ∷ [])
        timer
      ≡ ok results)
    × ((l : ℕ)
        → lookup l results
          ≡ expected counted
              (lookup l timer.timers)
              (lookup l ((2, some count) ∷ (4, some mean) ∷ [])))
get_timing_metrics-lookup_example =
    get_timing_metrics-lookup counted ((2, some count) ∷ (4, some mean) ∷ []) timer
      (refl, (refl, tt)) (refl, tt) timer-Recorded

-- The default of the checker, "00:03:45:00".
default_seconds : convert_to_seconds (0 ∷ 3 ∷ 45 ∷ 0 ∷ []) ≡ ok 13500
unfolding convert_to_seconds
default_seconds = refl

abbrev checker : TimeoutChecker
checker = record {
  last_save_time = some 100;
  start_time = 1000;
  last_saved = false;
  iteration_times = [];
  previous_iteration_time = none;
  fit_last_save_time = true;
}

saves_once_example :
    saves (begin 1000 ∷ mark 1040 ∷ check 1050 ∷ check 1070 ∷ check 1200 ∷ []) checker ≤ 1
saves_once_example =
    saves_once (begin 1000 ∷ mark 1040 ∷ check 1050 ∷ check 1070 ∷ check 1200 ∷ []) checker

saves-deadline_example : saves (begin 1000 ∷ mark 1040 ∷ check 1050 ∷ check 1100 ∷ []) checker ≡ 1
saves-deadline_example =
    saves-deadline (begin 1000 ∷ mark 1040 ∷ check 1050 ∷ []) checker 100 1100 refl refl
      (omega arith)
