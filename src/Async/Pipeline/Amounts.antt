-- ===== src/Async/Pipeline/Amounts.antt =====
-- nemo_rl/algorithms/async_utils.py: what the steps do to the number of groups for a training step.
use mathlib.Core.List.{map-append}
use ne_mo_rl_enhanced_math_r.Common.{
  ℕ, suc, ◌+◌, ◌-◌, ◌≤◌, ◌<◌, ◌≡◌, refl, sym, ap, ◌∙◌, ◌⊎◌, inl, inr, true, List, [], ◌∷◌, ◌++◌,
  map, some, ok, arith, ◌==◌, if◌then◌else◌, Bool-cases, All, sum_of, sum_of-append, sum_of-perm,
  length,
}
use ne_mo_rl_enhanced_math_r.Async.Buffer.{ReplayBuffer, Sample, newer, sample}
use ne_mo_rl_enhanced_math_r.Async.Buffer.Select.{
  Entry, holds, first, leave, length-first, first-All, first-leave-perm,
}
use ne_mo_rl_enhanced_math_r.Async.Buffer.Correct.{intended}
use ne_mo_rl_enhanced_math_r.Async.Pipeline.{Worker, spawning, generating, pushed, System, push}
use ne_mo_rl_enhanced_math_r.Async.Pipeline.Effects.{stored_cases, sample-takes}
use ne_mo_rl_enhanced_math_r.Async.Pipeline.Ages.{BufferAged}
use ne_mo_rl_enhanced_math_r.Async.Pipeline.Shares.{share, due, worker_share, loop_share, total}

pub whole_batch :
    (n version target t : ℕ)
    → loop_share n t (spawning version target 0) ≡ (if target == t then n else 0)
whole_batch n version target t = elim (Bool-cases (target == t)) [
  | inl e ↦ rw e (omega arith)
  | inr e ↦ rw e refl
]

-- A prompt less to start, a worker more.
pub spawn_share :
    (n target u next : ℕ)
    → next < n
    → share u target + (if target == u then n - suc next else 0)
      ≡ (if target == u then n - next else 0)
spawn_share n target u next below = elim (Bool-cases (target == u)) [
  | inl f ↦ rw f (omega (arith, below))
  | inr f ↦ rw f (omega arith)
]

-- The share of the workers, one of whom is given.
pub workers_total :
    (t : ℕ) (ws before after : List Worker) (w : Worker)
    → ws ≡ before ++ w ∷ after
    → sum_of (worker_share t) ws
      ≡ sum_of (worker_share t) before + (worker_share t w + sum_of (worker_share t) after)
workers_total t ws before after w at =
    ap (sum_of (worker_share t)) at ∙ sum_of-append (worker_share t) before (w ∷ after)

module _ {A : Type 0} (n max_age : ℕ) (s : System A) where
  -- A group moves from a worker to the buffer.
  pub push_total :
      (b : ReplayBuffer A) (before after : List Worker) (w : Worker)
      → s.workers ≡ before ++ w ∷ after
      → w.phase ≡ generating
      → b.target_weight_versions ≡ (s.buffer).target_weight_versions ++ w.target ∷ []
      → (t : ℕ)
      → total n (record s { buffer = b; workers = before ++ record w { phase = pushed } ∷ after }) t
        ≡ total n s t
  push_total b before after w at phase targets t =
      let due_one : worker_share t w ≡ share t w.target =
        ap (λ p. due p (share t w.target)) phase in
      let stored_one =
        ap (sum_of (share t)) targets
        ∙ sum_of-append (share t) (s.buffer).target_weight_versions (w.target ∷ []) in
      omega (
        arith,
        stored_one,
        due_one,
        workers_total t s.workers before after w at,
        sum_of-append (worker_share t) before (record w { phase = pushed } ∷ after),
      )

  -- A push leaves all as it is, or the buffer takes the group.
  pub push_cases :
      (before after : List Worker) (w : Worker) (group : A)
      → BufferAged max_age s.buffer
      → (push before w after group s ≡ s)
        ⊎ ((b : ReplayBuffer A) × (push before w after group s
              ≡ record s { buffer = b; workers = before ++ record w { phase = pushed } ∷ after })
            × (b.last_target_weight_already_generated
                ≡ newer ((s.buffer).last_target_weight_already_generated) w.target)
            × (b.target_weight_versions ≡ (s.buffer).target_weight_versions ++ w.target ∷ []))
  push_cases before after w group aged =
      let es = aged.entries in
      let e : Entry A = record { trajectory = group; version = w.version; target = w.target } in
      elim (stored_cases aged.max_size aged.last es before after w group s aged.is) [
        | inl f ↦ inl f
        | inr f ↦ inr (
          holds aged.max_size (newer aged.last w.target) (es ++ e ∷ []),
          f,
          ap (λ (b : ReplayBuffer A). newer b.last_target_weight_already_generated w.target)
              (sym aged.is),
          map-append (λ (e : Entry A). e.target) es (e ∷ [])
              ∙ ap (λ (b : ReplayBuffer A). b.target_weight_versions ++ w.target ∷ [])
                  (sym aged.is),
        )
      ]

  -- The groups that a sample takes are all meant for the trainer's step.
  taken_share :
      (t : ℕ) (es : List (Entry A))
      → All (λ e. intended t max_age e ≡ true) es
      → sum_of (λ (e : Entry A). share t e.target) es ≡ length es
  taken_share t [] h = refl
  taken_share t (e ∷ es) h =
      let meant : (e.target == t) ≡ true = ground (arith, h.0) in
      rw meant (omega (arith, taken_share t es h.1))

  targets_share :
      (t : ℕ) (es : List (Entry A))
      → sum_of (share t) (map (λ (e : Entry A). e.target) es)
        ≡ sum_of (λ (e : Entry A). share t e.target) es
  targets_share t [] = refl
  targets_share t (e ∷ es) = omega (arith, targets_share t es)

  -- A training step takes a batch of groups for the trainer's step, and no other.
  pub train_total :
      (x : Sample A) (b : ReplayBuffer A)
      → 0 < n
      → sample s.buffer n s.trainer_version max_age ≡ ok (some x, b)
      → (aged : BufferAged max_age s.buffer)
      → (es : List (Entry A)) × (b
          ≡ holds aged.max_size aged.last (leave (intended s.trainer_version max_age) n es))
        × (s.buffer ≡ holds aged.max_size aged.last es)
        × ((t : ℕ)
            → sum_of (share t) b.target_weight_versions
              ≤ sum_of (share t) (s.buffer).target_weight_versions)
        × (sum_of (share s.trainer_version) b.target_weight_versions + n
            ≡ sum_of (share s.trainer_version) (s.buffer).target_weight_versions)
  train_total x b positive e aged =
      let es = aged.entries in
      let now = s.trainer_version in
      let p = intended {A = A} now max_age in
      let is = aged.is in
      let (f, enough) =
        sample-takes aged.max_size aged.last now max_age n es x b positive (rw is at e) in
      let before : (t : ℕ)
          → sum_of (share t) (s.buffer).target_weight_versions
            ≡ sum_of (λ (e : Entry A). share t e.target) es =
        λ t.
          ap (λ (b : ReplayBuffer A). sum_of (share t) b.target_weight_versions) is
          ∙ targets_share t es in
      let after : (t : ℕ)
          → sum_of (share t) b.target_weight_versions
            ≡ sum_of (λ (e : Entry A). share t e.target) (leave p n es) =
        λ t.
          ap (λ (b : ReplayBuffer A). sum_of (share t) b.target_weight_versions) f
          ∙ targets_share t (leave p n es) in
      let parts : (t : ℕ)
          → sum_of (λ (e : Entry A). share t e.target) (first p n es)
              + sum_of (λ (e : Entry A). share t e.target) (leave p n es)
            ≡ sum_of (λ (e : Entry A). share t e.target) es =
        λ t.
          sym (sum_of-append (λ (e : Entry A). share t e.target) (first p n es) (leave p n es))
          ∙ sum_of-perm (λ (e : Entry A). share t e.target) (first-leave-perm p n es) in
      let taken = taken_share now (first p n es) (first-All p n es) ∙ length-first p n es enough in
      (
        es,
        f,
        is,
        λ t. omega (arith, before t, after t, parts t),
        omega (arith, before now, after now, parts now, taken),
      )
