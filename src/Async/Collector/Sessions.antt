-- ===== src/Async/Collector/Sessions.antt =====
-- What holds of the collector, however its methods and its workers follow one another.
use ne_mo_rl_enhanced_math_r.Common.{
  ℕ, zero, suc, ◌+◌, ◌≡◌, refl, inl, inr, false, List, [], ◌∷◌, Option, none, some, arith, ◌==◌,
  Bool-cases,
}
use ne_mo_rl_enhanced_math_r.Async.Collector.{
  Collector, max_inflight, init, contains, discard, get_next_target_for_generation, assign_version,
  set_limit_event, note_limit, clear_limit_event, pause, resume, prepare_for_refit,
  resume_after_refit, release_reservation, after_push, finish_worker, take_permit, start_worker,
}
use ne_mo_rl_enhanced_math_r.Async.Collector.Targets.{get_next_target_cases}

-- A step of the collection loop, of a worker or of a caller. What the buffer answers is given. The
-- steps that take no lock are events of their own, which may come at any time.
pub data Event : Type 0 where
  reserves : ℕ → Option ℕ → Event
  updates : ℕ → Event
  limit_set limit_noted limit_cleared : Event
  pauses resumes refits refitted : Event
  starts : Event
  pushed : ℕ → ℕ → Event
  finishes : ℕ → Event

-- The state, and how many workers run; a worker that has no permit waits.
abbrev pub started : Collector × ℕ → Option Collector → Collector × ℕ
started s none = s
started s (some c) = (c, suc (s.1))

-- Only a running worker ends.
abbrev pub finished : Collector → ℕ → ℕ → Collector × ℕ
finished c zero target = (c, zero)
finished c (suc n) target = (finish_worker c target, n)

unfoldable pub event : Event → Collector × ℕ → Collector × ℕ
event (reserves version last) (c, n) = ((get_next_target_for_generation c version last).1, n)
event (updates version) (c, n) = (assign_version c version, n)
event limit_set (c, n) = (set_limit_event c, n)
event limit_noted (c, n) = (note_limit c, n)
event limit_cleared (c, n) = (clear_limit_event c, n)
event pauses (c, n) = (pause c, n)
event resumes (c, n) = (resume c, n)
event refits (c, n) = (prepare_for_refit c, n)
event refitted (c, n) = (resume_after_refit c, n)
event starts (c, n) = started (c, n) (start_worker c)
event (pushed prompt_idx target) (c, n) = (after_push c prompt_idx target, n)
event (finishes target) (c, n) = finished c n target

unfoldable pub events : List Event → Collector × ℕ → Collector × ℕ
events [] s = s
events (e ∷ es) s = events es (event e s)

-- No target stands twice in the list.
abbrev pub Distinct : List ℕ → Type 0
Distinct [] = Unit {0}
Distinct (t ∷ ts) = (contains t ts ≡ false) × Distinct ts

-- No target stands twice among those in progress, and the permits and the running workers make up
-- the limit of requests.
pub record Sound (limit : ℕ) (s : Collector × ℕ) : Type 0 where
  pub distinct : Distinct ((s.0).generating_targets)
  pub permits : (s.0).inflight_permits + s.1 ≡ limit

contains-discard :
    (t u : ℕ) (ts : List ℕ) → contains t ts ≡ false → contains t (discard u ts) ≡ false
contains-discard t u [] h = refl
contains-discard t u (x ∷ xs) h = elim (Bool-cases (t == x)) [
  | inl e ↦ let y = rw e at h in cc
  | inr e ↦
      let rest = contains-discard t u xs (rw e at h) in
      elim (Bool-cases (u == x)) [ inl f ↦ rw f rest | inr f ↦ rw (f, e) rest ]
]

discard-Distinct : (u : ℕ) (ts : List ℕ) → Distinct ts → Distinct (discard u ts)
discard-Distinct u [] d = tt
discard-Distinct u (x ∷ xs) (new, d) = elim (Bool-cases (u == x)) [
  | inl f ↦ rw f (discard-Distinct u xs d)
  | inr f ↦ rw f ((contains-discard x u xs new, discard-Distinct u xs d))
]

reserves-Sound :
    (limit version : ℕ) (last : Option ℕ) (c : Collector) (n : ℕ)
    → Sound limit (c, n)
    → Sound limit ((get_next_target_for_generation c version last).1, n)
reserves-Sound limit version last c n s = elim (get_next_target_cases c version last) [
  | inl e ↦ rw e s
  | inr (t, new, e) ↦ rw e record { distinct = (new, s.distinct); permits = s.permits }
]

release-Sound :
    (limit target : ℕ) (c : Collector) (n : ℕ)
    → Sound limit (c, n)
    → Sound limit (release_reservation c target, n)
unfolding release_reservation
release-Sound limit target c n s = record {
  distinct = discard-Distinct target c.generating_targets s.distinct;
  permits = s.permits;
}

starts-Sound :
    (limit : ℕ) (c : Collector) (n : ℕ)
    → Sound limit (c, n)
    → Sound limit (started (c, n) (start_worker c))
unfolding start_worker
starts-Sound limit c n s = with_permits c.inflight_permits refl
  where
    with_permits : (k : ℕ) → c.inflight_permits ≡ k → Sound limit (started (c, n) (take_permit c k))
    with_permits zero e = s
    with_permits (suc k) e = record { distinct = s.distinct; permits = omega (arith, s.permits, e) }

event-Sound : (limit : ℕ) (e : Event) (s : Collector × ℕ) → Sound limit s → Sound limit (event e s)
unfolding event assign_version set_limit_event note_limit clear_limit_event pause resume
    prepare_for_refit resume_after_refit release_reservation after_push finish_worker start_worker
event-Sound limit (reserves version last) (c, n) s = reserves-Sound limit version last c n s
event-Sound limit (updates version) (c, n) s = record { distinct = s.distinct; permits = s.permits }
event-Sound limit limit_set (c, n) s = record { distinct = s.distinct; permits = s.permits }
event-Sound limit limit_noted (c, n) s = record { distinct = s.distinct; permits = s.permits }
event-Sound limit limit_cleared (c, n) s = record { distinct = s.distinct; permits = s.permits }
event-Sound limit pauses (c, n) s = record { distinct = s.distinct; permits = s.permits }
event-Sound limit resumes (c, n) s = record { distinct = s.distinct; permits = s.permits }
event-Sound limit refits (c, n) s = record { distinct = s.distinct; permits = s.permits }
event-Sound limit refitted (c, n) s = record { distinct = s.distinct; permits = s.permits }
event-Sound limit starts (c, n) s = starts-Sound limit c n s
event-Sound limit (pushed idx target) (c, n) s = elim (Bool-cases (idx == 0)) [
  | inl e ↦ rw e (release-Sound limit target c n s)
  | inr e ↦ rw e s
]
event-Sound limit (finishes target) (c, zero) s = s
event-Sound limit (finishes target) (c, suc n) s =
    let r = release-Sound limit target c (suc n) s in
    record { distinct = r.distinct; permits = omega (arith, r.permits) }

events-Sound :
    (limit : ℕ) (es : List Event) (s : Collector × ℕ) → Sound limit s → Sound limit (events es s)
unfolding events
events-Sound limit [] s h = h
events-Sound limit (e ∷ es) s h = events-Sound limit es (event e s) (event-Sound limit e s h)

-- Whatever happens to a new collector, no target stands twice among those in progress, and the
-- permits and the running workers add up to the limit of requests.
pub events-init-Sound :
    (num_prompts max_age start_step : ℕ) (es : List Event)
    → Sound (max_inflight num_prompts max_age) (events es (init num_prompts max_age start_step, 0))
unfolding init
events-init-Sound num_prompts max_age start_step es =
    events-Sound (max_inflight num_prompts max_age) es (init num_prompts max_age start_step, 0)
      (record { distinct = tt; permits = omega arith })
