-- ===== src/Async/Collector/Targets.antt =====
-- Which targets are reserved, and for how long.
use ne_mo_rl_enhanced_math_r.Common.{
  ℕ, zero, suc, ◌+◌, ◌≤◌, ◌≡◌, ◌↔◌, refl, sym, ap, ◌⊎◌, inl, inr, true, false, List, [], ◌∷◌,
  Option, none, some, arith, ◌==◌, ◌&&◌, not, ltb, Bool-cases, range_from, All,
}
use ne_mo_rl_enhanced_math_r.Async.Collector.{
  Collector, calculate_target_weights, contains, newer_than, needs_generation, find_target,
  get_next_target_for_generation, any_needs, should_pause_for_generation_limits,
}

-- The first target that needs generation, none before it, or none at all.
abbrev Finds : Option ℕ → List ℕ → List ℕ → Type 0
Finds last generating targets =
    ((find_target last generating targets ≡ none) × (any_needs last generating targets ≡ false))
    ⊎ ((t : ℕ) × (find_target last generating targets ≡ some t)
        × (any_needs last generating targets ≡ true)
        × (needs_generation last generating t ≡ true))

find_target-Finds : (last : Option ℕ) (generating targets : List ℕ) → Finds last generating targets
unfolding find_target any_needs needs_generation
find_target-Finds last generating [] = inl (refl, refl)
find_target-Finds last generating (t ∷ ts) =
    elim (Bool-cases (needs_generation last generating t)) [
      | inl e ↦ inr (t, rw e, rw e, e)
      | inr e ↦ elim (find_target-Finds last generating ts) [
        | inl (f, g) ↦ inl (rw (e, f), rw (e, g))
        | inr (u, f, g, h) ↦ inr (u, rw (e, f), rw (e, g), h)
      ]
    ]

-- A target is generated once the last one generated is no less.
abbrev IsGenerated : Option ℕ → ℕ → Type 0
IsGenerated none target = ⊥
IsGenerated (some last) target = target ≤ last

-- Generated, or being generated.
abbrev pub IsTaken : Option ℕ → List ℕ → ℕ → Type 0
IsTaken last generating target = IsGenerated last target ⊎ (contains target generating ≡ true)

needs-IsTaken :
    (last : Option ℕ) (generating : List ℕ) (t : ℕ)
    → (newer_than last t && not (contains t generating)) ≡ false
    → IsTaken last generating t
needs-IsTaken none generating t e = inr (ground (arith, e))
needs-IsTaken (some l) generating t e = elim (Bool-cases (ltb l t)) [
  | inl f ↦ inr (ground (arith, e, f))
  | inr f ↦ inl (ground (arith, f))
]

IsTaken-needs :
    (last : Option ℕ) (generating : List ℕ) (t : ℕ)
    → IsTaken last generating t
    → (newer_than last t && not (contains t generating)) ≡ false
IsTaken-needs none generating t (inl h) = absurd h
IsTaken-needs none generating t (inr h) = ground (arith, h)
IsTaken-needs (some l) generating t (inl h) = ground (arith, h)
IsTaken-needs (some l) generating t (inr h) = ground (arith, h)

any_needs→ :
    (last : Option ℕ) (generating targets : List ℕ)
    → any_needs last generating targets ≡ false
    → All (IsTaken last generating) targets
unfolding any_needs
any_needs→ last generating [] e = tt
any_needs→ last generating (t ∷ ts) e =
    elim (Bool-cases (newer_than last t && not (contains t generating))) [
      | inl f ↦ let x = rw f at e in cc
      | inr f ↦ (needs-IsTaken last generating t f, any_needs→ last generating ts (rw f at e))
    ]

→any_needs :
    (last : Option ℕ) (generating targets : List ℕ)
    → All (IsTaken last generating) targets
    → any_needs last generating targets ≡ false
unfolding any_needs
→any_needs last generating [] a = refl
→any_needs last generating (t ∷ ts) (h, a) =
    rw (IsTaken-needs last generating t h) (→any_needs last generating ts a)

-- Collection pauses exactly when each target for the current weights is generated or in progress,
-- and exactly when no target could be reserved for the current weights.
pub should_pause_iff :
    (c : Collector) (last : Option ℕ)
    → ((should_pause_for_generation_limits c last ≡ true)
        ↔ All
            (IsTaken last c.generating_targets)
            (calculate_target_weights c c.current_weight_version))
      × ((should_pause_for_generation_limits c last ≡ true)
          ↔ ((get_next_target_for_generation c c.current_weight_version last).0 ≡ none))
unfolding should_pause_for_generation_limits get_next_target_for_generation
should_pause_iff c last =
    let targets = calculate_target_weights c c.current_weight_version in
    let taken : (should_pause_for_generation_limits c last ≡ true)
        ↔ All (IsTaken last c.generating_targets) targets =
      (
        (λ h. any_needs→ last c.generating_targets targets (ground (arith, h))),
        (λ h. rw (→any_needs last c.generating_targets targets h) refl),
      ) in
    elim (find_target-Finds last c.generating_targets targets) [
      | inl (e, f) ↦ (taken, ((λ _. ground (arith, e)), (λ _. ground (arith, f))))
      | inr (t, e, f, _) ↦ (taken, ((λ h. ground (arith, h, f)), (λ h. ground (arith, h, e))))
    ]

abbrev Within : ℕ → ℕ → List ℕ → Type 0
Within low high ts = All (λ t. (low ≤ t) × (t ≤ high)) ts

range_from-Within :
    (low high k n : ℕ) → low ≤ k → k + n ≤ high + 1 → Within low high (range_from k n)
range_from-Within low high k zero h l = tt
range_from-Within low high k (suc n) h l =
    ((h, omega arith), range_from-Within low high (suc k) n (omega arith) (omega arith))

-- A generator with weights `version` aims at most `max_trajectory_age_steps` steps ahead.
pub calculate_target_weights-Within :
    (c : Collector) (version : ℕ)
    → All
        (λ t. (version ≤ t) × (t ≤ version + c.max_trajectory_age_steps))
        (calculate_target_weights c version)
unfolding calculate_target_weights
calculate_target_weights-Within c version =
    let age = c.max_trajectory_age_steps in
    elim (Bool-cases (version == c.initial_weight_version)) [
      | inl e ↦ rw e (
          range_from-Within version (version + age) c.initial_weight_version (age + 1)
            (ground (arith, e)) (ground (arith, e)))
      | inr e ↦
          rw e (
            range_from-Within version (version + age) (version + 1) age (omega arith) (omega arith))
    ]

find_target-All {κ} :
    (P : ℕ → Type κ) (last : Option ℕ) (generating targets : List ℕ) (t : ℕ)
    → All P targets
    → find_target last generating targets ≡ some t
    → P t
unfolding find_target
find_target-All P last generating [] t a e = cc
find_target-All P last generating (u ∷ ts) t a e =
    elim (Bool-cases (needs_generation last generating u)) [
      | inl f ↦ let same : u ≡ t = ground (arith, e, f) in rw (← same) (a.0)
      | inr f ↦ find_target-All P last generating ts t a.1 (rw f at e)
    ]

-- A target that is reserved was not reserved before, is newer than the last one generated, and is
-- at least the version and at most `max_trajectory_age_steps` more; nothing else changes.
pub get_next_target_reserves :
    (c c' : Collector) (version t : ℕ) (last : Option ℕ)
    → get_next_target_for_generation c version last ≡ (some t, c')
    → (contains t c.generating_targets ≡ false)
      × (newer_than last t ≡ true)
      × (version ≤ t)
      × (t ≤ version + c.max_trajectory_age_steps)
      × (c' ≡ record c { generating_targets = t ∷ c.generating_targets })
unfolding get_next_target_for_generation needs_generation
get_next_target_reserves c c' version t last e =
    let targets = calculate_target_weights c version in
    elim (find_target-Finds last c.generating_targets targets) [
      | inl (f, _) ↦ let x = rw (f, get_next_target_for_generation) at e in cc
      | inr (u, f, _, needs) ↦
          let reserved : Collector = record c { generating_targets = u ∷ c.generating_targets } in
          let x : ◌≡◌ {A = Option ℕ × Collector} (some u, reserved) (some t, c') =
            rw (f, get_next_target_for_generation) at e in
          let found : some u ≡ some t = ap (λ r. r.0) x in
          let same : u ≡ t = ground (arith, found) in
          let range =
            find_target-All (λ t. (version ≤ t) × (t ≤ version + c.max_trajectory_age_steps)) last
              c.generating_targets targets u (calculate_target_weights-Within c version) f in
          let kept : c' ≡ reserved = sym (ap (λ r. r.1) x) in
          rw (← same) (ground (arith, needs), ground (arith, needs), range.0, range.1, kept)
    ]

-- The collector stays as it is, or gets a reservation that it did not have.
pub get_next_target_cases :
    (c : Collector) (version : ℕ) (last : Option ℕ)
    → ((get_next_target_for_generation c version last).1 ≡ c)
      ⊎ ((t : ℕ) × (contains t c.generating_targets ≡ false)
          × ((get_next_target_for_generation c version last).1
              ≡ record c { generating_targets = t ∷ c.generating_targets }))
unfolding get_next_target_for_generation needs_generation
get_next_target_cases c version last =
    elim (find_target-Finds last c.generating_targets (calculate_target_weights c version)) [
      | inl (e, _) ↦ inl (rw (e, get_next_target_for_generation))
      | inr (t, e, _, needs) ↦
          inr (t, ground (arith, needs), rw (e, get_next_target_for_generation))
    ]
