-- ===== src/Async/Pipeline/Shares.antt =====
-- nemo_rl/algorithms/async_utils.py: how many groups there are for a training step, buffered or to
-- come.
use ne_mo_rl_enhanced_math_r.Common.{
  ℕ, suc, ◌+◌, ◌-◌, ◌≤◌, ◌<◌, ◌≡◌, inl, inr, true, false, List, ◌∷◌, Option, none, some, arith,
  ◌==◌, if◌then◌else◌, Bool-cases, sum_of,
}
use ne_mo_rl_enhanced_math_r.Async.Buffer.{newer}
use ne_mo_rl_enhanced_math_r.Async.Collector.{contains, newer_than}
use ne_mo_rl_enhanced_math_r.Async.Pipeline.{
  Phase, Worker, Loop, idle, noted, answered, spawning, generating, pushed, released, System,
}

-- Whether `x` is the step `t`, as a number.
abbrev pub share : ℕ → ℕ → ℕ
share t x = if x == t then 1 else 0

-- A worker that generates will push one group.
abbrev pub due : Phase → ℕ → ℕ
due generating k = k
due pushed k = 0
due released k = 0

abbrev pub worker_share : ℕ → Worker → ℕ
worker_share t w = due w.phase (share t w.target)

-- The prompts that have no worker yet.
abbrev pub loop_share : (num_prompts t : ℕ) → Loop → ℕ
loop_share n t idle = 0
loop_share n t (noted version) = 0
loop_share n t (answered version last) = 0
loop_share n t (spawning version target next) = if target == t then n - next else 0

-- The groups for step `t` that are in the buffer, are generated or will be.
abbrev pub total : {A : Type 0} → (num_prompts : ℕ) → System A → ℕ → ℕ
total n s t =
    sum_of (share t) (s.buffer).target_weight_versions
    + (sum_of (worker_share t) s.workers + loop_share n t s.loop)

-- A step that no group is reserved for any more, since a group for it or for a later one came.
abbrev pub Past : Option ℕ → ℕ → Type 0
Past last t = newer_than last t ≡ false

-- Of what is neither past nor reserved there is nothing; of no step are there more groups than a
-- batch has prompts, of a step that is trained there are none, and each such step is past.
pub record Ordered (first_step n : ℕ) (last : Option ℕ) (reserved : List ℕ) (trainer : ℕ)
    (amount : ℕ → ℕ) : Type 0 where
  pub known : (t : ℕ) → newer_than last t ≡ true → contains t reserved ≡ false → amount t ≡ 0
  pub within : (t : ℕ) → amount t ≤ n
  pub trained : (t : ℕ) → t < trainer → amount t ≡ 0
  pub reached : (t : ℕ) → first_step ≤ t → t < trainer → Past last t

pub Past-newer : (last : Option ℕ) (w t : ℕ) → Past last t → Past (newer last w) t
Past-newer none w t h = cc
Past-newer (some l) w t h = ground (arith, h)

pub newer-Past : (last : Option ℕ) (w : ℕ) → Past (newer last w) w
newer-Past none w = ground arith
newer-Past (some l) w = ground arith

pub not_Past : (last : Option ℕ) (t : ℕ) → newer_than last t ≡ true → Past last t → ⊥
not_Past last t e f = cc

pub Ordered-le :
    (first_step n : ℕ) (last last' : Option ℕ) (reserved reserved' : List ℕ) (trainer : ℕ)
    (amount amount' : ℕ → ℕ)
    → ((t : ℕ) → Past last t → Past last' t)
    → ((t : ℕ)
        → newer_than last' t ≡ true
        → contains t reserved' ≡ false
        → contains t reserved ≡ false)
    → ((t : ℕ) → amount' t ≤ amount t)
    → Ordered first_step n last reserved trainer amount
    → Ordered first_step n last' reserved' trainer amount'
Ordered-le first_step n last last' reserved reserved' trainer amount amount' onward frees le h =
    record {
      known = λ t e f.
          let still : newer_than last t ≡ true = elim (Bool-cases (newer_than last t)) [
            | inl g ↦ g
            | inr g ↦ absurd (not_Past last' t e (onward t g))
          ] in
          omega (arith, le t, h.known t still (frees t e f));
      within = λ t. omega (arith, le t, h.within t);
      trained = λ t b. omega (arith, le t, h.trained t b);
      reached = λ t b c. onward t (h.reached t b c);
    }

-- A new reservation, with a group to come for each prompt.
pub Ordered-reserve :
    (first_step n : ℕ) (last : Option ℕ) (reserved : List ℕ) (trainer : ℕ) (amount amount' : ℕ → ℕ)
    (target : ℕ)
    → newer_than last target ≡ true
    → contains target reserved ≡ false
    → first_step ≤ target
    → ((t : ℕ) → amount' t ≡ amount t + (if target == t then n else 0))
    → Ordered first_step n last reserved trainer amount
    → Ordered first_step n last (target ∷ reserved) trainer amount'
Ordered-reserve first_step n last reserved trainer amount amount' target new free from grows h =
    let unused : amount target ≡ 0 = h.known target new free in
    record {
      known = λ t e f. elim (Bool-cases (t == target)) [
        | inl g ↦ let x = rw g at f in cc
        | inr g ↦
            let other : (target == t) ≡ false = ground (arith, g) in
            let nothing : amount t ≡ 0 = h.known t e (rw g at f) in
            let same = rw other at (grows t) in omega (arith, same, nothing)
      ];
      within = λ t. elim (Bool-cases (target == t)) [
        | inl g ↦
            let same : target ≡ t = ground (arith, g) in
            let now = rw g at (grows t) in
            let none_yet : amount t ≡ 0 = rw same at unused in omega (arith, now, none_yet)
        | inr g ↦ let now = rw g at (grows t) in omega (arith, now, h.within t)
      ];
      trained = λ t b. elim (Bool-cases (target == t)) [
        | inl g ↦
            let same : target ≡ t = ground (arith, g) in
            absurd (not_Past last target new (h.reached target from (omega (arith, same, b))))
        | inr g ↦ let now = rw g at (grows t) in omega (arith, now, h.trained t b)
      ];
      reached = h.reached;
    }

-- A step is trained, and with it the groups that there can be for it.
pub Ordered-train :
    (first_step n : ℕ) (last : Option ℕ) (reserved : List ℕ) (trainer : ℕ) (amount amount' : ℕ → ℕ)
    → Past last trainer
    → amount' trainer ≡ 0
    → ((t : ℕ) → amount' t ≤ amount t)
    → Ordered first_step n last reserved trainer amount
    → Ordered first_step n last reserved (suc trainer) amount'
Ordered-train first_step n last reserved trainer amount amount' past spent le h = record {
  known = λ t e f. omega (arith, le t, h.known t e f);
  within = λ t. omega (arith, le t, h.within t);
  trained = λ t b. elim (Bool-cases (t == trainer)) [
    | inl g ↦ let same : t ≡ trainer = ground (arith, g) in rw same spent
    | inr g ↦ omega (arith, le t, h.trained t (ground (arith, b, g)))
  ];
  reached = λ t b c. elim (Bool-cases (t == trainer)) [
    | inl g ↦ let same : t ≡ trainer = ground (arith, g) in rw same past
    | inr g ↦ h.reached t b (ground (arith, c, g))
  ];
}
