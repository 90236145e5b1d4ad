-- ===== src/Timing/Timer/Recorded.antt =====
-- What a pair of `start` and `stop` records, and what holds of every timer.
use ne_mo_rl_enhanced_math_r.Common.{
  ℕ, ◌≡◌, ◌≢◌, refl, sym, ap, ◌∙◌, inl, inr, false, List, [], ◌∷◌, ◌++◌, Option, none, some, arith,
  ◌==◌, Bool-cases, Option-cases, ok, raise, ◌>>=◌, lookup, has, put, delete, lookup-put_self,
  lookup-put_ne, lookup-delete_self, lookup-delete_ne, has-lookup,
}
use ne_mo_rl_enhanced_math_r.Common.Int.{ℤ, sub_ℕ}
use ne_mo_rl_enhanced_math_r.Timing.Timer.{
  no_measurements, Timer, init, start, stop, measurements, last_of, get_latest_elapsed, reset,
}

last_of-append : (xs : List ℤ) (x : ℤ) → last_of (xs ++ x ∷ []) ≡ some x
last_of-append [] x = refl
last_of-append (y ∷ ys) x = rw (last_of-append ys x)

last_of-none : (xs : List ℤ) → last_of xs ≡ none → xs ≡ []
last_of-none [] e = refl
last_of-none (x ∷ xs) e = elim (Option-cases (last_of xs)) [
  | inl f ↦ let y = rw f at e in cc
  | inr (z, f) ↦ let y = rw f at e in cc
]

-- Started and later stopped, a label that was not running has the time between the two as its
-- latest; no other label is touched, and what was running still is.
stop-start :
    (label began ended : ℕ) (t : Timer)
    → has label t.start_times ≡ false
    → let elapsed = sub_ℕ ended began in
      (t' : Timer) × ((start label began t >>= λ started. stop label ended started)
        ≡ ok (elapsed, t'))
      × (get_latest_elapsed label t' ≡ ok elapsed)
      × ((l : ℕ) → lookup l t'.start_times ≡ lookup l t.start_times)
      × ((l : ℕ) → (l ≡ label → ⊥) → lookup l t'.timers ≡ lookup l t.timers)
unfolding start stop get_latest_elapsed
stop-start label began ended t idle =
    let elapsed = sub_ℕ ended began in
    let recorded = measurements (lookup label t.timers) ++ elapsed ∷ [] in
    (
      record {
        timers = put label recorded t.timers;
        start_times = delete label (put label began t.start_times);
      },
      rw idle (rw (lookup-put_self label began t.start_times, stop) refl),
      rw (
        lookup-put_self label recorded t.timers,
        last_of-append (measurements (lookup label t.timers)) elapsed,
        get_latest_elapsed,
      ),
      λ l. elim (Bool-cases (l == label)) [
        | inl e ↦
            let same : l ≡ label = ground (arith, e) in
            rw same (
              lookup-delete_self label (put label began t.start_times)
              ∙ sym (has-lookup label t.start_times idle))
        | inr e ↦
            let other : l ≡ label → ⊥ = λ same. ground (arith, e, same) in
            lookup-delete_ne label l (put label began t.start_times) other
            ∙ lookup-put_ne label l began t.start_times other
      ],
      λ l other. lookup-put_ne label l recorded t.timers other,
    )

-- Every label that is there has a measurement.
unfoldable pub Recorded : Timer → Type 0
Recorded t = (l : ℕ) → lookup l t.timers ≡ some [] → ⊥

-- A call of one of the methods that change the timer; one that raises leaves it as it was.
pub data Call : Type 0 where
  starting : ℕ → ℕ → Call
  stopping : ℕ → ℕ → Call
  resetting : Option ℕ → Call

unfoldable pub call : Call → Timer → Timer
call (starting label now) t = elim (start label now t) [ ok t' ↦ t' | raise e ↦ t ]
call (stopping label now) t = elim (stop label now t) [ ok r ↦ r.1 | raise e ↦ t ]
call (resetting label) t = reset label t

unfoldable pub calls : List Call → Timer → Timer
calls [] t = t
calls (c ∷ cs) t = calls cs (call c t)

nonempty : (xs : List ℤ) (x : ℤ) → ◌≡◌ {A = Option (List ℤ)} (some (xs ++ x ∷ [])) (some []) → ⊥
nonempty [] x e = cc
nonempty (y ∷ ys) x e = cc

init-Recorded : Recorded init
unfolding Recorded init
init-Recorded l e = cc

reset-Recorded : (label : Option ℕ) (t : Timer) → Recorded t → Recorded (reset label t)
unfolding Recorded reset
reset-Recorded none t r = init-Recorded
reset-Recorded (some label) t r = elim (Bool-cases (label == 0)) [
  | inl e ↦ rw e init-Recorded
  | inr e ↦ rw e λ l f. elim (Bool-cases (l == label)) [
    | inl g ↦
        let same : l ≡ label = ground (arith, g) in
        clash (lookup-delete_self label t.timers) (rw same at f)
    | inr g ↦ r l (sym (lookup-delete_ne label l t.timers (λ same. ground (arith, g, same))) ∙ f)
  ]
]
  where
    clash : {o : Option (List ℤ)} → o ≡ none → o ≡ some [] → ⊥
    clash p q = cc

call-Recorded : (c : Call) (t : Timer) → Recorded t → Recorded (call c t)
unfolding Recorded call start stop
call-Recorded (starting label now) t r = elim (Bool-cases (has label t.start_times)) [
  | inl e ↦ rw (e, call) r
  | inr e ↦ rw (e, call) r
]
call-Recorded (stopping label now) t r = elim (Option-cases (lookup label t.start_times)) [
  | inl e ↦ rw (e, call) r
  | inr (began, e) ↦
      let elapsed = sub_ℕ now began in
      let recorded = measurements (lookup label t.timers) ++ elapsed ∷ [] in
      rw (e, call)
        λ l f. elim (Bool-cases (l == label)) [
          | inl g ↦
              let same : l ≡ label = ground (arith, g) in
              nonempty (measurements (lookup label t.timers)) elapsed
                (sym (lookup-put_self label recorded t.timers) ∙ (rw same at f))
          | inr g ↦
              r l (
                sym (lookup-put_ne label l recorded t.timers (λ same. ground (arith, g, same))) ∙ f)
        ]
]
call-Recorded (resetting label) t r = reset-Recorded label t r

calls-Recorded : (cs : List Call) (t : Timer) → Recorded t → Recorded (calls cs t)
unfolding calls
calls-Recorded [] t r = r
calls-Recorded (c ∷ cs) t r = calls-Recorded cs (call c t) (call-Recorded c t r)

-- Whatever is called on a new timer, `get_latest_elapsed` never finds a label without a
-- measurement: its `IndexError` does not happen.
calls-get_latest_elapsed :
    (cs : List Call) (label : ℕ) → get_latest_elapsed label (calls cs init) ≢ raise no_measurements
unfolding get_latest_elapsed Recorded
calls-get_latest_elapsed cs label e =
    let t = calls cs init in
    elim (Option-cases (lookup label t.timers)) [
      | inl f ↦ let x = rw (f, get_latest_elapsed) at e in cc
      | inr (xs, f) ↦ elim (Option-cases (last_of xs)) [
        | inl g ↦ calls-Recorded cs init init-Recorded label (f ∙ ap some (last_of-none xs g))
        | inr (x, g) ↦ let y = rw (f, g, get_latest_elapsed) at e in cc
      ]
    ]
