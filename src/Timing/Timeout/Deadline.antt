-- ===== src/Timing/Timeout/Deadline.antt =====
-- When a checkpoint is asked for.
use ne_mo_rl_enhanced_math_r.Common.{
  ℕ, ◌+◌, ◌*◌, ◌/◌, ◌%◌, ◌≤◌, ◌<◌, ◌≡◌, ◌⊎◌, refl, ap, ◌∙◌, inl, inr, true, false, ◌&&◌, not, List,
  [], ◌∷◌, ◌++◌, some, arith, if◌then◌else◌, Bool-cases, Option-cases, Result, ok, raise,
}
use ne_mo_rl_enhanced_math_r.Common.Int.{sub_ℕ}
use ne_mo_rl_enhanced_math_r.Timing.Timeout.{
  Error, convert_to_seconds, TimeoutChecker, past, past_with_average, no_times, saved, check_save,
  start_iterations, mark_iteration,
}

-- A time with hours below 24, and minutes and seconds below 60, is some number of seconds, from
-- which division finds its four parts again.
pub convert_to_seconds-parts :
    (days hours minutes seconds : ℕ)
    → hours < 24
    → minutes < 60
    → seconds < 60
    → (total : ℕ) × (convert_to_seconds (days ∷ hours ∷ minutes ∷ seconds ∷ []) ≡ ok total)
      × (total / 86400 ≡ days)
      × (total % 86400 / 3600 ≡ hours)
      × (total % 3600 / 60 ≡ minutes)
      × (total % 60 ≡ seconds)
unfolding convert_to_seconds
convert_to_seconds-parts days hours minutes seconds h m s = (
  days * 86400 + hours * 3600 + minutes * 60 + seconds,
  refl,
  omega arith,
  omega arith,
  omega arith,
  omega arith,
)

-- The calls of the training loop. A mark that raises leaves the checker as it was.
pub data Call : Type 0 where
  check : ℕ → Call
  begin : ℕ → Call
  mark : ℕ → Call

abbrev pub after_mark : TimeoutChecker → Result Error TimeoutChecker → TimeoutChecker
after_mark c (ok c') = c'
after_mark c (raise e) = c

-- How often the calls of `check_save` say to save.
unfoldable pub saves : List Call → TimeoutChecker → ℕ
saves [] c = 0
saves (check now ∷ calls) c = let r = check_save now c in (if r.0 then 1 else 0) + saves calls (r.1)
saves (begin now ∷ calls) c = saves calls (start_iterations now c)
saves (mark now ∷ calls) c = saves calls (after_mark c (mark_iteration now c))

-- A check either says to save, and the checker remembers it, or changes nothing.
check_save_cases :
    (now : ℕ) (c : TimeoutChecker)
    → ((c.last_saved ≡ false) × (check_save now c ≡ saved c)) ⊎ (check_save now c ≡ (false, c))
unfolding check_save
check_save_cases now c =
    let elapsed = sub_ℕ now c.start_time in
    let soon =
      (c.fit_last_save_time && not (no_times c.iteration_times))
      && past_with_average c.last_save_time elapsed c.iteration_times in
    elim (Bool-cases c.last_saved) [
      | inl e ↦ inr (rw e refl)
      | inr e ↦ elim (Bool-cases soon) [
        | inl f ↦ inl (e, rw (e, f) refl)
        | inr f ↦ elim (Bool-cases (past c.last_save_time elapsed)) [
          | inl g ↦ inl (e, rw (e, f, g) refl)
          | inr g ↦ inr (rw (e, f, g) refl)
        ]
      ]
    ]

abbrev left_to_save : TimeoutChecker → ℕ
left_to_save c = if c.last_saved then 0 else 1

after_mark-left :
    (now : ℕ) (c : TimeoutChecker)
    → left_to_save (after_mark c (mark_iteration now c)) ≡ left_to_save c
unfolding mark_iteration
after_mark-left now c = elim (Option-cases c.previous_iteration_time) [
  | inl e ↦ rw (e, mark_iteration)
  | inr (previous, e) ↦ rw (e, mark_iteration)
]

-- However the calls follow one another, a save is asked for at most once, and never after one.
pub saves_once :
    (calls : List Call) (c : TimeoutChecker) → saves calls c ≤ (if c.last_saved then 0 else 1)
unfolding saves start_iterations
saves_once [] c = omega arith
saves_once (check now ∷ calls) c = elim (check_save_cases now c) [
  | inl (e, f) ↦ rw (f, e) (omega (arith, saves_once calls (record c { last_saved = true })))
  | inr f ↦ rw f (omega (arith, saves_once calls c))
]
saves_once (begin now ∷ calls) c = saves_once calls (start_iterations now c)
saves_once (mark now ∷ calls) c =
    omega (arith, saves_once calls (after_mark c (mark_iteration now c)), after_mark-left now c)

past-deadline :
    (deadline start now : ℕ)
    → start + deadline ≤ now
    → past (some deadline) (sub_ℕ now start) ≡ true
unfolding past
past-deadline deadline start now h = ground (arith, h)

-- A check once the time is over says to save, unless that was said before, whatever the iterations
-- took.
check_save-deadline :
    (now : ℕ) (c : TimeoutChecker) (deadline : ℕ)
    → c.last_save_time ≡ some deadline
    → c.last_saved ≡ false
    → c.start_time + deadline ≤ now
    → check_save now c ≡ (true, record c { last_saved = true })
unfolding check_save
check_save-deadline now c deadline e f h =
    let elapsed = sub_ℕ now c.start_time in
    let over : past c.last_save_time elapsed ≡ true =
      ap (λ o. past o elapsed) e ∙ past-deadline deadline c.start_time now h in
    let soon =
      (c.fit_last_save_time && not (no_times c.iteration_times))
      && past_with_average c.last_save_time elapsed c.iteration_times in
    elim (Bool-cases soon) [ inl g ↦ rw (f, g) refl | inr g ↦ rw (f, g, over) refl ]

after_mark-times :
    (now : ℕ) (c : TimeoutChecker)
    → ((after_mark c (mark_iteration now c)).last_save_time ≡ c.last_save_time)
      × ((after_mark c (mark_iteration now c)).start_time ≡ c.start_time)
      × ((after_mark c (mark_iteration now c)).last_saved ≡ c.last_saved)
unfolding mark_iteration
after_mark-times now c = elim (Option-cases c.previous_iteration_time) [
  | inl e ↦ rw (e, mark_iteration) (refl, refl, refl)
  | inr (previous, e) ↦ rw (e, mark_iteration) (refl, refl, refl)
]

-- Once saved, no call asks again.
saved-quiet : (calls : List Call) (c : TimeoutChecker) → c.last_saved ≡ true → saves calls c ≡ 0
saved-quiet calls c e =
    let none_left : ◌≡◌ {A = ℕ} (if c.last_saved then 0 else 1) 0 = ground (arith, e) in
    omega (arith, saves_once calls c, none_left)

-- For a checker that has a deadline and did not ask for a save yet: whatever calls come before, at
-- whatever times, exactly one save is asked for by the end of a check at or after the deadline,
-- counted from the start.
pub saves-deadline :
    (calls : List Call) (c : TimeoutChecker) (deadline now : ℕ)
    → c.last_save_time ≡ some deadline
    → c.last_saved ≡ false
    → c.start_time + deadline ≤ now
    → saves (calls ++ check now ∷ []) c ≡ 1
unfolding saves start_iterations
saves-deadline [] c deadline now e f h = rw (check_save-deadline now c deadline e f h) refl
saves-deadline (check t ∷ calls) c deadline now e f h = elim (check_save_cases t c) [
  | inl (_, g) ↦
      let rest = saved-quiet (calls ++ check now ∷ []) (record c { last_saved = true }) refl in
      rw g (omega (arith, rest))
  | inr g ↦ rw g (omega (arith, saves-deadline calls c deadline now e f h))
]
saves-deadline (begin t ∷ calls) c deadline now e f h =
    saves-deadline calls (start_iterations t c) deadline now e f h
saves-deadline (mark t ∷ calls) c deadline now e f h =
    let same = after_mark-times t c in
    saves-deadline calls (after_mark c (mark_iteration t c)) deadline now (same.0 ∙ e) (same.2 ∙ f)
      (omega (arith, same.1, h))
