-- ===== src/Timing/Timeout.antt =====
-- nemo_rl/utils/timer.py: `convert_to_seconds` and the class `TimeoutChecker`. Times are whole
-- seconds; each method takes what `time.time` says. A time string is the list of its numbers.
pub mod Deadline
use ne_mo_rl_enhanced_math_r.Common.{
  ℕ, zero, suc, ◌+◌, ◌*◌, Bool, true, false, ◌&&◌, ◌||◌, not, List, [], ◌∷◌, ◌++◌, Option, none,
  some, if◌then◌else◌, Result, ok, raise, ◌>>=◌, length,
}
use ne_mo_rl_enhanced_math_r.Common.Int.{ℤ, pos, sub_ℕ, ◌+ℤ◌, scale, ltb_ℤ}

-- `wrong_format` is the `ValueError` of a string without four parts, `unbound_local` the
-- `UnboundLocalError` of `elapsed_time` before the first iteration started.
pub data Error : Type 0 where
  wrong_format : Error
  unbound_local : Error

unfoldable pub convert_to_seconds : List ℕ → Result Error ℕ
convert_to_seconds (days ∷ hours ∷ minutes ∷ seconds ∷ []) =
    ok (days * 86400 + hours * 3600 + minutes * 60 + seconds)
convert_to_seconds _ = raise wrong_format

-- No time to save by is an infinite one.
pub record TimeoutChecker : Type 0 where
  pub last_save_time : Option ℕ
  pub start_time : ℕ
  pub last_saved : Bool
  pub iteration_times : List ℤ
  pub previous_iteration_time : Option ℕ
  pub fit_last_save_time : Bool

abbrev checker : Bool → ℕ → Option ℕ → TimeoutChecker
checker fit now last_save_time = record {
  last_save_time = last_save_time;
  start_time = now;
  last_saved = false;
  iteration_times = [];
  previous_iteration_time = none;
  fit_last_save_time = fit;
}

unfoldable pub init : Option (List ℕ) → Bool → ℕ → Result Error TimeoutChecker
init none fit now = ok (checker fit now none)
init (some timeout) fit now =
    convert_to_seconds timeout >>= λ seconds. ok (checker fit now (some seconds))

abbrev pub sum_ℤ : List ℤ → ℤ
sum_ℤ [] = pos 0
sum_ℤ (x ∷ xs) = x +ℤ sum_ℤ xs

abbrev pub no_times : List ℤ → Bool
no_times [] = true
no_times (x ∷ xs) = false

-- `elapsed_time >= self.last_save_time`.
unfoldable pub past : Option ℕ → ℤ → Bool
past none elapsed = false
past (some deadline) elapsed = not (ltb_ℤ elapsed (pos deadline))

-- `elapsed_time + average_iteration_time >= self.last_save_time`, times the number of iterations.
unfoldable pub past_with_average : Option ℕ → ℤ → List ℤ → Bool
past_with_average none elapsed times = false
past_with_average (some deadline) elapsed times =
    not (ltb_ℤ (scale elapsed (length times) +ℤ sum_ℤ times) (pos (deadline * length times)))

abbrev pub saved : TimeoutChecker → Bool × TimeoutChecker
saved c = (true, record c { last_saved = true })

unfoldable pub check_save : ℕ → TimeoutChecker → Bool × TimeoutChecker
check_save now c =
    let elapsed = sub_ℕ now c.start_time in
    if c.last_saved
    then (false, c)
    else (if (c.fit_last_save_time && not (no_times c.iteration_times))
          && past_with_average c.last_save_time elapsed c.iteration_times
        then saved c
        else (if past c.last_save_time elapsed then saved c else (false, c)))

unfoldable pub start_iterations : ℕ → TimeoutChecker → TimeoutChecker
start_iterations now c = record c { previous_iteration_time = some now }

unfoldable pub mark_iteration : ℕ → TimeoutChecker → Result Error TimeoutChecker
mark_iteration now c = elim c.previous_iteration_time [
  | none ↦ raise unbound_local
  | some previous ↦ ok record c {
    previous_iteration_time = some now;
    iteration_times = c.iteration_times ++ sub_ℕ now previous ∷ [];
  }
]
