-- ===== src/Async/Pipeline/Young.antt =====
-- nemo_rl/algorithms/async_utils.py: a trajectory that is not late is not too old.
use ne_mo_rl_enhanced_math_r.Common.{
  ℕ, ◌-◌, ◌≤◌, ◌<◌, ◌≡◌, refl, sym, ◌∙◌, inl, inr, Bool, false, List, [], ◌∷◌, map, Option, none,
  some, ok, arith, ◌==◌, ltb, Bool-cases, All,
}
use ne_mo_rl_enhanced_math_r.Async.Buffer
use ne_mo_rl_enhanced_math_r.Async.Buffer.{ReplayBuffer, Sample, newer, count_if, sample}
use ne_mo_rl_enhanced_math_r.Async.Buffer.Select.{count, Entry, holds, leave, first}
use ne_mo_rl_enhanced_math_r.Async.Buffer.Correct.{
  to_sample, intended, select_entries, sample-holds,
}
use ne_mo_rl_enhanced_math_r.Async.Collector
use ne_mo_rl_enhanced_math_r.Async.Collector.{
  Collector, get_next_target_for_generation, assign_version, start_worker, finish_worker,
  after_push,
}
use ne_mo_rl_enhanced_math_r.Async.Pipeline.{System, start, Reach}
use ne_mo_rl_enhanced_math_r.Async.Pipeline.Ages.{EntryAged, Aged}
use ne_mo_rl_enhanced_math_r.Async.Pipeline.Ages.Steps.{Reach-Aged}

-- A group that is meant for the present step or a later one is young enough for it.
none_old :
    {A : Type 0} (current max_age : ℕ) (es : List (Entry A))
    → All (EntryAged max_age) es
    → All (λ t. current ≤ t) (map (λ (e : Entry A). e.target) es)
    → count_if (λ v. ltb v (current - max_age)) (map (λ (e : Entry A). e.version) es) ≡ 0
none_old current max_age [] h k = refl
none_old current max_age (e ∷ es) h k =
    let young : ltb e.version (current - max_age) ≡ false = ground (arith, h.0, k.0) in
    rw young (none_old current max_age es h.1 k.1)

pub sample_young :
    {A : Type 0} (first_step max_age n : ℕ) (s : System A)
    → 0 < n
    → Aged first_step max_age s
    → All (λ t. s.trainer_version ≤ t) (s.buffer).target_weight_versions
    → (r : Option (Sample A) × ReplayBuffer A) × (sample s.buffer n s.trainer_version max_age
        ≡ ok r)
unfolding select_entries
sample_young {A} first_step max_age n s positive h k =
    let es = h.buffer.entries in
    let p = intended {A = A} s.trainer_version max_age in
    let k' : All (λ t. s.trainer_version ≤ t) (map (λ (e : Entry A). e.target) es) =
      rw h.buffer.is at k in
    let young = none_old s.trainer_version max_age es h.buffer.ages k' in
    let known =
      sample-holds h.buffer.max_size h.buffer.last s.trainer_version max_age n es positive in
    elim (Bool-cases (ltb (count p es) n)) [
      | inl g ↦ (
        (none, holds h.buffer.max_size h.buffer.last es),
        rw h.buffer.is (known ∙ rw (young, g) refl),
      )
      | inr g ↦ (
        (
          some (to_sample s.trainer_version (first p n es)),
          holds h.buffer.max_size h.buffer.last (leave p n es),
        ),
        rw h.buffer.is (known ∙ rw (young, g) refl),
      )
    ]

-- The start of a run: an empty buffer.
pub start-Aged :
    {A : Type 0} (n max_age first_step max_size : ℕ) (b : ReplayBuffer A)
    → Buffer.init max_size ≡ ok b
    → Aged first_step max_age (start n max_age first_step b)
unfolding Buffer.init Collector.init
start-Aged n max_age first_step max_size b e = elim (Bool-cases (max_size == 0)) [
  | inl f ↦ let x = rw f at e in cc
  | inr f ↦
      let same : holds max_size none [] ≡ b = ground (arith, f, e) in
      record {
        collector = (refl, omega arith);
        buffer = record {
          max_size = max_size;
          last = none;
          entries = [];
          is = sym same;
          ages = tt;
        };
        loop = tt;
        workers = tt;
      }
]

-- In every run, with failures and with a buffer that has moved on since it answered: as long as the
-- buffer has no group for a step that is over, the trainer's `sample` does not raise.
pub Reach-sample_returns :
    {A : Type 0} (careful : Bool) (n max_age first_step max_size : ℕ) (b : ReplayBuffer A)
    (s : System A)
    → 0 < n
    → Buffer.init max_size ≡ ok b
    → Reach careful n max_age (start n max_age first_step b) s
    → All (λ t. s.trainer_version ≤ t) (s.buffer).target_weight_versions
    → (r : Option (Sample A) × ReplayBuffer A) × (sample s.buffer n s.trainer_version max_age
        ≡ ok r)
Reach-sample_returns careful n max_age first_step max_size b s positive e r k =
    sample_young first_step max_age n s positive
      (Reach-Aged first_step max_age careful n positive r
        (start-Aged n max_age first_step max_size b e))
      k
