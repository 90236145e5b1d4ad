-- ===== src/Timing/Timer.antt =====
-- nemo_rl/utils/timer.py: the class `Timer`. Each method takes what `time.perf_counter` says.
pub mod Recorded
pub mod Reductions
use ne_mo_rl_enhanced_math_r.Common.{
  ℕ, zero, suc, Bool, true, false, ◌&&◌, List, [], ◌∷◌, ◌++◌, map, Option, none, some, ◌==◌,
  if◌then◌else◌, Result, ok, raise, ◌>>=◌, raise_if, ◌>>◌, not, Dict, lookup, has, put, delete,
  length,
}
use ne_mo_rl_enhanced_math_r.Common.Int.{ℤ, sub_ℕ}

-- `empty_reduction` is numpy's `ValueError` for the least or the greatest of no measurements.
pub data Error : Type 0 where
  already_running : Error
  not_running : Error
  no_timings : Error
  no_measurements : Error
  invalid_operation : Error
  empty_reduction : Error

pub data Reduction : Type 0 where
  mean : Reduction
  median : Reduction
  minimum : Reduction
  maximum : Reduction
  std : Reduction
  total : Reduction
  count : Reduction

pub record Timer : Type 0 where
  pub timers : Dict (List ℤ)
  pub start_times : Dict ℕ

unfoldable pub init : Timer
init = record { timers = []; start_times = [] }

unfoldable pub start : ℕ → ℕ → Timer → Result Error Timer
start label now t =
    raise_if (has label t.start_times) already_running
    >> ok record t { start_times = put label now t.start_times }

-- `self._timers[label]`, and the empty list that a new label is given.
abbrev pub measurements : Option (List ℤ) → List ℤ
measurements none = []
measurements (some xs) = xs

unfoldable pub stop : ℕ → ℕ → Timer → Result Error (ℤ × Timer)
stop label now t = elim (lookup label t.start_times) [
  | none ↦ raise not_running
  | some began ↦
      let elapsed = sub_ℕ now began in
      ok (
        elapsed,
        record {
          timers = put label (measurements (lookup label t.timers) ++ elapsed ∷ []) t.timers;
          start_times = delete label t.start_times;
        },
      )
]

-- The context manager, around a block that does not raise.
unfoldable pub time : ℕ → ℕ → ℕ → (Timer → Timer) → Timer → Result Error Timer
time label began ended block t = start label began t >>= λ started.
    stop label ended (block started) >>= λ stopped. ok (stopped.1)

unfoldable pub get_elapsed : ℕ → Timer → Result Error (List ℤ)
get_elapsed label t = elim (lookup label t.timers) [ none ↦ raise no_timings | some xs ↦ ok xs ]

abbrev pub last_of : List ℤ → Option ℤ
last_of [] = none
last_of (x ∷ xs) = elim (last_of xs) [ none ↦ some x | some y ↦ some y ]

unfoldable pub get_latest_elapsed : ℕ → Timer → Result Error ℤ
get_latest_elapsed label t = elim (lookup label t.timers) [
  | none ↦ raise no_timings
  | some xs ↦ elim (last_of xs) [ none ↦ raise no_measurements | some x ↦ ok x ]
]

-- An empty label, like none, resets all.
unfoldable pub reset : Option ℕ → Timer → Timer
reset none t = init
reset (some label) t =
    if label == 0
    then init
    else record { timers = delete label t.timers; start_times = delete label t.start_times }

abbrev pub needs_measurement : Reduction → Bool
needs_measurement minimum = true
needs_measurement maximum = true
needs_measurement op = false

abbrev pub none_measured : List ℤ → Bool
none_measured [] = true
none_measured (x ∷ xs) = false

-- numpy's reductions, over what numbers they give, NaN included.
module _ {V : Type 0} (apply : Reduction → List ℤ → V) where
  -- An operation is a valid name, or none of them.
  unfoldable pub reduce : ℕ → Option Reduction → Timer → Result Error V
  reduce label none t = raise invalid_operation
  reduce label (some op) t = elim (lookup label t.timers) [
    | none ↦ raise no_timings
    | some xs ↦
        raise_if (needs_measurement op && none_measured xs) empty_reduction >> ok (apply op xs)
  ]

-- A label's entry in the metrics: all its measurements, or one reduction of them.
pub data Metric (V : Type 0) : Type 0 where
  all_of : List ℤ → Metric V
  reduced : V → Metric V

module _ {V : Type 0} where
  -- The loop over the labels that `reduction_op` does not name.
  unfoldable pub add_others :
      Dict (Option Reduction) → Dict (List ℤ) → Dict (Metric V) → Dict (Metric V)
  add_others ops [] results = results
  add_others ops ((label, xs) ∷ timers) results =
      add_others ops timers (if has label ops then results else put label (all_of xs) results)

module _ {V : Type 0} (apply : Reduction → List ℤ → V) where
  -- `self.reduce(label, op)` if the operation is known, else the list.
  unfoldable pub metric_for : ℕ → Option Reduction → List ℤ → Timer → Result Error (Metric V)
  metric_for label none xs t = ok (all_of xs)
  metric_for label (some op) xs t = reduce apply label (some op) t >>= λ v. ok (reduced v)

  -- The loop over `reduction_op.items()`.
  unfoldable pub add_reductions :
      Dict (Option Reduction) → Timer → Dict (Metric V) → Result Error (Dict (Metric V))
  add_reductions [] t results = ok results
  add_reductions ((label, op) ∷ ops) t results = elim (lookup label t.timers) [
    | none ↦ add_reductions ops t results
    | some xs ↦
        metric_for label op xs t >>= λ metric. add_reductions ops t (put label metric results)
  ]

  unfoldable pub get_timing_metrics :
      Dict (Option Reduction) → Timer → Result Error (Dict (Metric V))
  get_timing_metrics ops t =
      add_reductions ops t [] >>= λ results. ok (add_others ops t.timers results)

  -- One operation for every label.
  unfoldable pub get_timing_metrics_all : Option Reduction → Timer → Result Error (Dict (Metric V))
  get_timing_metrics_all op t =
      get_timing_metrics (map (λ (entry : ℕ × List ℤ). (entry.0, op)) t.timers) t
