-- ===== src/Async/Buffer/History.antt =====
-- What holds of the replay buffer after any sequence of calls.
use mathlib.Core.List.{map-append}
use mathlib.Core.List.Perm
use ne_mo_rl_enhanced_math_r.Common.{
  ℕ, zero, suc, ◌-◌, ◌≤◌, ◌<◌, ◌≡◌, refl, sym, Bool, List, [], ◌∷◌, ◌++◌, map, Option, none, some,
  arith, ltb, leb, if◌then◌else◌, Bool-cases, inl, inr, Result, ok, raise, length, length-map, All,
  All-append, All-split, All-perm, length-append,
}
use native.Mathlib.Bridge.{le_prop}
use ne_mo_rl_enhanced_math_r.Async.Buffer.{
  Error, full, success, newer, ReplayBuffer, Sample, count_if, sample, push_with_wait_signal, clear,
  init,
}
use ne_mo_rl_enhanced_math_r.Async.Buffer.Select.{
  Entry, holds, first, leave, count, first-leave-perm,
}
use ne_mo_rl_enhanced_math_r.Async.Buffer.Correct.{intended, select_entries, sample-holds}

-- What a caller may do, at whatever time.
pub data Call (A : Type 0) : Type 0 where
  pushes : A → (version target : ℕ) → Call A
  samples : (num_prompt_groups current max_age : ℕ) → Call A
  clears : Call A

module _ {A : Type 0} where
  -- A push stores the entry behind the others, or refuses it in a full buffer.
  pub push-holds :
      (max_size : ℕ) (last : Option ℕ) (es : List (Entry A)) (t : A) (v w : ℕ)
      → push_with_wait_signal (holds max_size last es) t v w ≡ (
          if leb max_size (length es) then (full, holds max_size last es) else (
            success,
            holds max_size
                (newer last w)
                (es ++ record { trajectory = t; version = v; target = w } ∷ []),
          ))
  unfolding push_with_wait_signal
  push-holds max_size last es t v w =
      let e : Entry A = record { trajectory = t; version = v; target = w } in
      rw (
        length-map es (λ (e : Entry A). e.trajectory),
        map-append (λ (e : Entry A). e.trajectory) es (e ∷ []),
        map-append (λ (e : Entry A). e.version) es (e ∷ []),
        map-append (λ (e : Entry A). e.target) es (e ∷ []),
      )

  abbrev after_sample :
      ReplayBuffer A → Result Error (Option (Sample A) × ReplayBuffer A) → ReplayBuffer A
  after_sample b (ok (s, b')) = b'
  after_sample b (raise e) = b

  pub step : ReplayBuffer A → Call A → ReplayBuffer A
  step b (pushes t v w) = (push_with_wait_signal b t v w).1
  step b (samples n current max_age) = after_sample b (sample b n current max_age)
  step b clears = clear b

  pub run : ReplayBuffer A → List (Call A) → ReplayBuffer A
  run b [] = b
  run b (c ∷ cs) = run (step b c) cs

  -- A trainer asks for at least one group.
  abbrev pub Asks : Call A → Type 0
  Asks (samples n current max_age) = 0 < n
  Asks _ = Unit {0}

  abbrev pub Covers : Option ℕ → Entry A → Type 0
  Covers none e = ⊥
  Covers (some last) e = e.target ≤ last

  -- The buffer holds at most `max_size` entries, and no target beyond the last one recorded.
  pub record Holds (max_size : ℕ) (b : ReplayBuffer A) : Type 0 where
    pub last : Option ℕ
    pub entries : List (Entry A)
    pub is : b ≡ holds max_size last entries
    pub bounded : length entries ≤ max_size
    pub covered : All (Covers last) entries

  Covers-prop : (last : Option ℕ) (e : Entry A) → IsProp (Covers last e)
  Covers-prop none e = λ x y. absurd x
  Covers-prop (some l) e = le_prop

  Covers-newer :
      (last : Option ℕ) (w : ℕ) (es : List (Entry A))
      → All (Covers last) es
      → All (Covers (newer last w)) es
  Covers-newer last w [] h = tt
  Covers-newer none w (e ∷ es) h = absurd h.0
  Covers-newer (some l) w (e ∷ es) h = (omega arith, Covers-newer (some l) w es h.1)

  newest :
      (last : Option ℕ) (t : A) (v w : ℕ)
      → Covers (newer last w) (record { trajectory = t; version = v; target = w })
  newest none t v w = omega arith
  newest (some l) t v w = omega arith

  leave-length :
      (test : Entry A → Bool) (n : ℕ) (es : List (Entry A)) → length (leave test n es) ≤ length es
  leave-length test zero es = omega arith
  leave-length test (suc n) [] = omega arith
  leave-length test (suc n) (e ∷ es) =
      ground (arith, leave-length test n es, leave-length test (suc n) es)

  push-Holds :
      (max_size : ℕ) (last : Option ℕ) (es : List (Entry A)) (t : A) (v w : ℕ)
      → length es ≤ max_size
      → All (Covers last) es
      → Holds max_size (push_with_wait_signal (holds max_size last es) t v w).1
  push-Holds max_size last es t v w l c =
      let e : Entry A = record { trajectory = t; version = v; target = w } in
      rw (push-holds max_size last es t v w) (elim (Bool-cases (leb max_size (length es))) [
        | inl f ↦ rw f (record { last = last; entries = es; is = refl; bounded = l; covered = c })
        | inr f ↦ rw f (record {
          last = newer last w;
          entries = es ++ e ∷ [];
          is = refl;
          bounded = ground (arith, f, length-append es (e ∷ []));
          covered =
              All-append (Covers (newer last w)) es (e ∷ []) (Covers-newer last w es c)
                (newest last t v w, tt);
        })
      ])

  leave-Holds :
      (max_size : ℕ) (last : Option ℕ) (test : Entry A → Bool) (n : ℕ) (es : List (Entry A))
      → length es ≤ max_size
      → All (Covers last) es
      → Holds max_size (holds max_size last (leave test n es))
  leave-Holds max_size last test n es l c = record {
    last = last;
    entries = leave test n es;
    is = refl;
    bounded = omega (arith, leave-length test n es);
    covered =
        (All-split (Covers last) (first test n es) (leave test n es)
          (All-perm (Covers last) (Covers-prop last) (Perm.symm (first-leave-perm test n es)) c)).1;
  }

  sample-Holds :
      (max_size : ℕ) (last : Option ℕ) (es : List (Entry A)) (n current max_age : ℕ)
      → 0 < n
      → length es ≤ max_size
      → All (Covers last) es
      → Holds max_size (
          after_sample (holds max_size last es) (sample (holds max_size last es) n current max_age))
  unfolding select_entries
  sample-Holds max_size last es n current max_age h l c =
      let p : Entry A → Bool = intended current max_age in
      let old = count_if (λ v. ltb v (current - max_age)) (map (λ (e : Entry A). e.version) es) in
      let stays : Holds max_size (holds max_size last es) = record {
        last = last;
        entries = es;
        is = refl;
        bounded = l;
        covered = c;
      } in
      rw (sample-holds max_size last current max_age n es h) (elim (Bool-cases (ltb 0 old)) [
        | inl f ↦ rw f stays
        | inr f ↦ elim (Bool-cases (ltb (count p es) n)) [
          | inl g ↦ rw (f, g) stays
          | inr g ↦ rw (f, g) (leave-Holds max_size last p n es l c)
        ]
      ])

  step-Holds :
      (max_size : ℕ) (b : ReplayBuffer A) (c : Call A)
      → Asks c
      → Holds max_size b
      → Holds max_size (step b c)
  unfolding step clear
  step-Holds max_size b (pushes t v w) a h =
      rw (h.is) (push-Holds max_size h.last h.entries t v w h.bounded h.covered)
  step-Holds max_size b (samples n current max_age) a h =
      rw (h.is) (sample-Holds max_size h.last h.entries n current max_age a h.bounded h.covered)
  step-Holds max_size b clears a h =
      rw (h.is)
        (record { last = h.last; entries = []; is = refl; bounded = omega arith; covered = tt })

  run-Holds :
      (max_size : ℕ) (b : ReplayBuffer A) (cs : List (Call A))
      → All Asks cs
      → Holds max_size b
      → Holds max_size (run b cs)
  unfolding run
  run-Holds max_size b [] a h = h
  run-Holds max_size b (c ∷ cs) a h =
      run-Holds max_size (step b c) cs a.1 (step-Holds max_size b c a.0 h)

  -- After any calls on a new buffer, of which each sample asks for at least one group, the three
  -- lists are those of one list of entries, at most `max_size` long, and every target is at most the
  -- last one recorded.
  pub run-init-Holds :
      (max_size : ℕ) (b : ReplayBuffer A) (cs : List (Call A))
      → All Asks cs
      → init max_size ≡ ok b
      → Holds max_size (run b cs)
  unfolding init
  run-init-Holds max_size b cs a e =
      let same : holds max_size none [] ≡ b = ground (arith, e) in
      run-Holds max_size b cs a
        (record { last = none; entries = []; is = sym same; bounded = omega arith; covered = tt })
