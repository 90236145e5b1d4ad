-- ===== src/Async/Pipeline/Effects.antt =====
-- What the calls of nemo_rl/algorithms/async_utils.py do to the parts of the system.
use ne_mo_rl_enhanced_math_r.Common.{
  ℕ, zero, suc, ◌-◌, ◌≤◌, ◌<◌, ◌≡◌, refl, sym, ap, ◌∙◌, ◌⊎◌, inl, inr, false, List, [], ◌∷◌, ◌++◌,
  map, Option, some, Result, ok, raise, arith, ◌==◌, ltb, leb, Bool-cases, length,
}
use ne_mo_rl_enhanced_math_r.Async.Buffer.{
  Error, ReplayBuffer, Sample, newer, count_if, push_with_wait_signal, sample,
}
use ne_mo_rl_enhanced_math_r.Async.Buffer.Select.{Entry, holds, leave, count}
use ne_mo_rl_enhanced_math_r.Async.Buffer.Correct.{intended, select_entries, sample-holds}
use ne_mo_rl_enhanced_math_r.Async.Buffer.History.{push-holds}
use ne_mo_rl_enhanced_math_r.Async.Collector.{
  Collector, contains, discard, set_limit_event, note_limit, clear_limit_event, pause, resume,
  prepare_for_refit, resume_after_refit, release_reservation, after_push, finish_worker,
  take_permit, start_worker,
}
use ne_mo_rl_enhanced_math_r.Async.Pipeline.{
  Worker, pushed, System, Control, pauses, resumes, refits, refitted, limit_noted, limit_cleared,
  limit_set, controlled, stored,
}

-- The age limit and the version stay as they are.
abbrev pub Kept : Collector → Collector → Type 0
Kept c d =
    (d.max_trajectory_age_steps ≡ c.max_trajectory_age_steps)
    × (d.current_weight_version ≡ c.current_weight_version)

pub start_worker-Kept :
    (c d : Collector)
    → start_worker c ≡ some d
    → Kept c d × (d.generating_targets ≡ c.generating_targets)
unfolding start_worker
start_worker-Kept c d e = with_permits c.inflight_permits e
  where
    with_permits :
        (k : ℕ)
        → take_permit c k ≡ some d
        → Kept c d × (d.generating_targets ≡ c.generating_targets)
    with_permits zero e = cc
    with_permits (suc k) e =
        let same : record c { inflight_permits = k } ≡ d = ground (arith, e) in
        rw (← same) ((refl, refl), refl)

pub controlled-Kept :
    (k : Control) (c : Collector)
    → Kept c (controlled k c) × ((controlled k c).generating_targets ≡ c.generating_targets)
unfolding pause resume prepare_for_refit resume_after_refit note_limit clear_limit_event
    set_limit_event
controlled-Kept pauses c = ((refl, refl), refl)
controlled-Kept resumes c = ((refl, refl), refl)
controlled-Kept refits c = ((refl, refl), refl)
controlled-Kept refitted c = ((refl, refl), refl)
controlled-Kept limit_noted c = ((refl, refl), refl)
controlled-Kept limit_cleared c = ((refl, refl), refl)
controlled-Kept limit_set c = ((refl, refl), refl)

-- Only the given target may lose its reservation.
abbrev pub Frees : ℕ → Collector → Collector → Type 0
Frees target c d =
    (t : ℕ)
    → contains t d.generating_targets ≡ false
    → (t ≡ target) ⊎ (contains t c.generating_targets ≡ false)

pub discard-frees :
    (target t : ℕ) (ts : List ℕ)
    → contains t (discard target ts) ≡ false
    → (t ≡ target) ⊎ (contains t ts ≡ false)
discard-frees target t [] h = inr refl
discard-frees target t (u ∷ ts) h = elim (Bool-cases (target == u)) [
  | inl e ↦ elim (Bool-cases (t == u)) [
    | inl f ↦ inl (ground (arith, e, f))
    | inr f ↦ elim (discard-frees target t ts (rw e at h)) [
      | inl g ↦ inl g
      | inr g ↦ inr (rw (f, g))
    ]
  ]
  | inr e ↦
      let h' = rw e at h in
      elim (Bool-cases (t == u)) [
        | inl f ↦ let x = rw f at h' in cc
        | inr f ↦ elim (discard-frees target t ts (rw f at h')) [
          | inl g ↦ inl g
          | inr g ↦ inr (rw (f, g))
        ]
      ]
]

pub after_push-Frees :
    (c : Collector) (idx target : ℕ)
    → Kept c (after_push c idx target) × Frees target c (after_push c idx target)
unfolding after_push release_reservation
after_push-Frees c idx target = elim (Bool-cases (idx == 0)) [
  | inl e ↦ rw e ((refl, refl), λ t h. discard-frees target t c.generating_targets h)
  | inr e ↦ rw e ((refl, refl), λ t h. inr h)
]

pub finish_worker-Frees :
    (c : Collector) (target : ℕ)
    → Kept c (finish_worker c target) × Frees target c (finish_worker c target)
unfolding finish_worker release_reservation
finish_worker-Frees c target = ((refl, refl), λ t h. discard-frees target t c.generating_targets h)

module _ {A : Type 0} where
  -- The buffer takes a group behind the others, or nothing happens.
  pub stored_cases :
      (max_size : ℕ) (last : Option ℕ) (es : List (Entry A)) (before after : List Worker)
      (w : Worker) (group : A) (s : System A)
      → s.buffer ≡ holds max_size last es
      → let outcome =
          stored before w after (push_with_wait_signal s.buffer group w.version w.target) s in
        (outcome ≡ s)
        ⊎ (outcome ≡ record s {
          buffer =
              holds max_size
                (newer last w.target)
                (es ++ record { trajectory = group; version = w.version; target = w.target } ∷ []);
          workers = before ++ record w { phase = pushed } ∷ after;
        })
  stored_cases max_size last es before after w group s is =
      elim (Bool-cases (leb max_size (length es))) [
        | inl f ↦ inl (rw (is, push-holds max_size last es group w.version w.target, f) refl)
        | inr f ↦ inr (rw (is, push-holds max_size last es group w.version w.target, f) refl)
      ]

  buffer_of : ReplayBuffer A → Result Error (Option (Sample A) × ReplayBuffer A) → ReplayBuffer A
  buffer_of b (ok (x, b')) = b'
  buffer_of b (raise e) = b

  -- A sample takes the first groups that are meant for the step, of which there are enough.
  pub sample-takes :
      (max_size : ℕ) (last : Option ℕ) (current max_age n : ℕ) (es : List (Entry A)) (x : Sample A)
      (b : ReplayBuffer A)
      → 0 < n
      → sample (holds max_size last es) n current max_age ≡ ok (some x, b)
      → (b ≡ holds max_size last (leave (intended current max_age) n es))
        × (n ≤ count (intended current max_age) es)
  unfolding select_entries buffer_of
  sample-takes max_size last current max_age n es x b positive e =
      let p = intended {A = A} current max_age in
      let old = count_if (λ v. ltb v (current - max_age)) (map (λ (e : Entry A). e.version) es) in
      let e' = sym (sample-holds max_size last current max_age n es positive) ∙ e in
      elim (Bool-cases (ltb 0 old)) [
        | inl f ↦ let y = rw f at e' in cc
        | inr f ↦ elim (Bool-cases (ltb (count p es) n)) [
          | inl g ↦ let y = rw (f, g) at e' in cc
          | inr g ↦ let y = rw (f, g) at e' in (sym (ap (buffer_of b) y), ground (arith, g))
        ]
      ]
