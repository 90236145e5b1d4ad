-- ===== src/Async/Buffer/Correct.antt =====
-- The replay buffer implements a list of entries, from which `sample` takes those of its step.
use ne_mo_rl_enhanced_math_r.Common.{
  ℕ, suc, ◌-◌, ◌*◌, ◌≤◌, ◌<◌, ◌≡◌, Bool, true, false, ◌&&◌, List, [], ◌∷◌, map, Option, none, some,
  arith, ltb, leb, ◌==◌, if◌then◌else◌, Bool-cases, inl, inr, Result, ok, raise, length, length-map,
  take, sum,
}
use ne_mo_rl_enhanced_math_r.Async.Buffer.{
  Error, old_trajectories, ReplayBuffer, Sample, indices_from, count_if, consume, choose, sample,
}
use ne_mo_rl_enhanced_math_r.Async.Buffer.Select.{
  Entry, holds, first, leave, count, length-indices_from, length-first, Suffix-all, gather-first,
  positions_of-indices,
}
use ne_mo_rl_enhanced_math_r.Async.Buffer.Remove.{pop_entries-holds}

nonzero : (n : ℕ) → 0 < n → (n == 0) ≡ false
nonzero n h = ground arith

none_left : (n : ℕ) → 0 < n → ltb 0 n ≡ true
none_left n h = ground arith

abbrev pub in_window : ℕ → ℕ → ℕ → Bool
in_window current max_age v = leb (current - max_age) v && leb v current

module _ {A : Type 0} where
  -- Generated with weights within the age window, and meant for this step.
  abbrev pub intended : ℕ → ℕ → Entry A → Bool
  intended current max_age e = in_window current max_age e.version && (e.target == current)

  -- The specification of `sample`: the selected entries, and what is left.
  unfoldable pub select_entries :
      ℕ → ℕ → ℕ → List (Entry A) → Result Error (Option (List (Entry A)) × List (Entry A))
  select_entries n current max_age es =
      let old = count_if (λ v. ltb v (current - max_age)) (map (λ (e : Entry A). e.version) es) in
      if ltb 0 old
      then raise (old_trajectories old (current - max_age))
      else if ltb (count (intended current max_age) es) n
      then ok (none, es)
      else ok (some (first (intended current max_age) n es), leave (intended current max_age) n es)

  abbrev pub to_sample : ℕ → List (Entry A) → Sample A
  to_sample current es = record {
    trajectories = map (λ e. e.trajectory) es;
    age_sum = current * length es - sum (map (λ e. e.version) es);
    age_count = length es;
  }

  -- The concrete outcome for an abstract one.
  abbrev pub concrete :
      ℕ
      → Option ℕ
      → ℕ
      → Result Error (Option (List (Entry A)) × List (Entry A))
      → Result Error (Option (Sample A) × ReplayBuffer A)
  concrete max_size last current (raise e) = raise e
  concrete max_size last current (ok (none, es)) = ok (none, holds max_size last es)
  concrete max_size last current (ok (some taken, es)) =
      ok (some (to_sample current taken), holds max_size last es)

  module _ (max_size : ℕ) (last : Option ℕ) (current max_age : ℕ) where
    abbrev p : Entry A → Bool
    p = intended current max_age

    consume-holds :
        (n : ℕ) (es : List (Entry A))
        → 0 < n
        → n ≤ count p es
        → consume (holds max_size last es) current (take n (indices_from 0 p es))
          ≡ ok (some (to_sample current (first p n es)), holds max_size last (leave p n es))
    unfolding consume
    consume-holds n es positive enough = rw (
      gather-first p (λ (e : Entry A). e.version) es 0 n es
          (Suffix-all p (λ (e : Entry A). e.version) es),
      gather-first p (λ (e : Entry A). e.trajectory) es 0 n es
          (Suffix-all p (λ (e : Entry A). e.trajectory) es),
      length-map (first p n es) (λ (e : Entry A). e.version),
      length-first p n es enough,
      nonzero n positive,
      pop_entries-holds max_size last p n [] es,
    )

    -- A selected entry is in the window too.
    count-le-window :
        (es : List (Entry A))
        → count p es ≤ count (in_window current max_age) (map (λ (e : Entry A). e.version) es)
    count-le-window [] = omega arith
    count-le-window (e ∷ es) = ground (arith, count-le-window es)

    choose-holds :
        (n : ℕ) (es : List (Entry A))
        → 0 < n
        → choose
            (holds max_size last es)
            n
            current
            (indices_from 0 (in_window current max_age) (map (λ (e : Entry A). e.version) es))
          ≡ concrete max_size last current
              (if ltb (count p es) n then ok (none, es) else ok (some (first p n es), leave p n es))
    unfolding choose
    choose-holds n es positive =
        let versions = map (λ (e : Entry A). e.version) es in
        let valid = indices_from 0 (in_window current max_age) versions in
        let lv = length-indices_from (in_window current max_age) 0 versions in
        let li = length-indices_from p 0 es in
        let le = count-le-window es in
        let found =
          positions_of-indices (λ (e : Entry A). e.version) (λ (e : Entry A). e.target)
            (in_window current max_age) current es 0 es
            (Suffix-all p (λ (e : Entry A). e.target) es) in
        elim (Bool-cases (ltb (count p es) n)) [
          | inl few ↦ elim (Bool-cases (length valid == 0)) [
            | inl none_valid ↦ rw (few, none_valid)
            | inr some_valid ↦ elim (Bool-cases (ltb (length valid) n)) [
              | inl short ↦ rw (few, some_valid, short)
              | inr long ↦ rw (some_valid, long, found, li, few)
            ]
          ]
          | inr many ↦
              let some_valid : (length valid == 0) ≡ false = ground (arith, many, lv, le) in
              let long : ltb (length valid) n ≡ false = ground (arith, many, lv, le) in
              rw (some_valid, long, found, li, many)
                (consume-holds n es positive (ground (arith, many)))
        ]

    -- For at least one group, `sample` does on the three lists what the specification does.
    pub sample-holds :
        (n : ℕ) (es : List (Entry A))
        → 0 < n
        → sample (holds max_size last es) n current max_age
          ≡ concrete max_size last current (select_entries n current max_age es)
    unfolding sample select_entries
    sample-holds n [] positive = rw (none_left n positive)
    sample-holds n (e ∷ es) positive =
        let versions = map (λ (e : Entry A). e.version) (e ∷ es) in
        let full = length-map (e ∷ es) (λ (e : Entry A). e.trajectory) in
        elim (Bool-cases (ltb 0 (count_if (λ v. ltb v (current - max_age)) versions))) [
          | inl old ↦
              rw
                (nonzero (suc (length (map (λ (e : Entry A). e.trajectory) es))) (omega arith), old)
          | inr old ↦
              rw
                (nonzero (suc (length (map (λ (e : Entry A). e.trajectory) es))) (omega arith), old)
                (choose-holds n (e ∷ es) positive)
        ]
