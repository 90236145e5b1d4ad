-- ===== src/Checkpoint/Finalize.antt =====
-- What finalizing a checkpoint does to the directory.
use ne_mo_rl_enhanced_math_r.Common.{
  ℕ, ◌≤◌, ◌≡◌, ◌↔◌, refl, sym, ap, ◌∙◌, inl, inr, true, false, ◌&&◌, not, [], ◌∷◌, Option, none,
  some, arith, ◌==◌, Bool-cases, Option-cases, Result, ok, raise, >>=-eq-ok, Dict, lookup, has,
  ==-self, lookup-has, has→lookup,
}
use ne_mo_rl_enhanced_math_r.Checkpoint.{
  Error, Info, Contents, Directory, Manager, load_checkpoint_history, latest_step,
  remove_old_checkpoints, keep_only, move_into_place, finalize_checkpoint,
}
use ne_mo_rl_enhanced_math_r.Checkpoint.Retention.{remove_old_keeps_latest}
use ne_mo_rl_enhanced_math_r.Checkpoint.Moves.{
  move_into_place-Placed, move_into_place-raises, move_into_place-ok,
}

latest_step-≤ :
    (n : ℕ) (steps : Dict Contents)
    → ((j : ℕ) → has j steps ≡ true → j ≤ n)
    → latest_step (load_checkpoint_history steps) ≤ n
unfolding latest_step load_checkpoint_history
latest_step-≤ n [] h = omega arith
latest_step-≤ n ((j, c) ∷ steps) h =
    let rest = latest_step-≤ n steps (λ i g. h i (later i g)) in
    let here : j ≤ n = h j (rw (==-self j) refl) in
    elim (Option-cases c.training_info) [
      | inl e ↦ rw e rest
      | inr (info, e) ↦ rw e (omega (arith, here, rest))
    ]
  where
    later : (i : ℕ) → has i steps ≡ true → has i ((j, c) ∷ steps) ≡ true
    later i g = elim (Bool-cases (i == j)) [ inl e ↦ rw e refl | inr e ↦ rw e g ]

latest_step-≥ :
    (n : ℕ) (steps : Dict Contents) (c : Contents) (info : Info)
    → lookup n steps ≡ some c
    → c.training_info ≡ some info
    → n ≤ latest_step (load_checkpoint_history steps)
unfolding latest_step load_checkpoint_history
latest_step-≥ n [] c info e f = cc
latest_step-≥ n ((j, b) ∷ steps) c info e f = elim (Bool-cases (n == j)) [
  | inl g ↦
      let x : ◌≡◌ {A = Option Contents} (some b) (some c) = rw g at e in
      let same : b ≡ c = cc in
      rw (ap (λ (k : Contents). k.training_info) same ∙ f) (ground (arith, g))
  | inr g ↦
      let rest = latest_step-≥ n steps c info (rw g at e) f in
      elim (Option-cases b.training_info) [
        | inl h ↦ rw h rest
        | inr (other, h) ↦ rw h (omega (arith, rest))
      ]
]

keep_only-rest :
    (o : Option ℕ) (m : Manager) (dir : Directory)
    → ((keep_only o m true dir).tmp_steps ≡ dir.tmp_steps)
      × ((keep_only o m true dir).old_steps ≡ dir.old_steps)
unfolding keep_only
keep_only-rest none m dir = (refl, refl)
keep_only-rest (some k) m dir = (refl, refl)

-- A temporary checkpoint with training info, of a step no earlier than any that is there, is
-- finalized without an error if no `old_step` directory of its number is left over: it is then the
-- step's checkpoint, whatever its metric and however many are kept.
pub finalize_keeps_new :
    (m : Manager) (n : ℕ) (dir : Directory) (c : Contents) (info : Info)
    → lookup n dir.tmp_steps ≡ some c
    → c.training_info ≡ some info
    → has n dir.old_steps ≡ false
    → ((j : ℕ) → has j dir.steps ≡ true → j ≤ n)
    → (dir' : Directory) × (finalize_checkpoint m n dir ≡ ok dir')
      × (lookup n dir'.steps ≡ some c)
      × (lookup n dir'.tmp_steps ≡ none)
      × (lookup n dir'.old_steps ≡ none)
unfolding finalize_checkpoint remove_old_checkpoints
finalize_keeps_new m n dir c info e f g newest =
    let (placed, moved, p) = move_into_place-Placed n dir c e g in
    let bound : (j : ℕ) → has j placed.steps ≡ true → j ≤ n = λ j h. elim (Bool-cases (j == n)) [
      | inl same ↦ ground (arith, same)
      | inr other ↦
          let (old, found) = has→lookup j placed.steps h in
          let kept = (p.others j (λ same. ground (arith, other, same))).0 in
          newest j (lookup-has j old dir.steps (sym kept ∙ found))
    ] in
    let latest : latest_step (load_checkpoint_history placed.steps) ≡ n = omega (
      arith,
      latest_step-≤ n placed.steps bound,
      latest_step-≥ n placed.steps c info p.in_place f,
    ) in
    (
      remove_old_checkpoints m true placed,
      rw moved refl,
      ap (λ k. lookup k (remove_old_checkpoints m true placed).steps) (sym latest)
          ∙ remove_old_keeps_latest m placed
          ∙ ap (λ k. lookup k placed.steps) latest
          ∙ p.in_place,
      ap (lookup n) ((keep_only-rest m.keep_top_k m placed).0) ∙ p.no_tmp,
      ap (lookup n) ((keep_only-rest m.keep_top_k m placed).1) ∙ p.no_old,
    )

-- A finalization returns, and does not raise, exactly if the temporary checkpoint is there and not
-- both a `step` and an `old_step` directory of its number are.
pub finalize_ok_iff :
    (m : Manager) (n : ℕ) (dir : Directory)
    → ((dir' : Directory) × (finalize_checkpoint m n dir ≡ ok dir'))
      ↔ ((has n dir.tmp_steps && not (has n dir.steps && has n dir.old_steps)) ≡ true)
unfolding finalize_checkpoint
finalize_ok_iff m n dir =
    let test = has n dir.tmp_steps && not (has n dir.steps && has n dir.old_steps) in
    (
      λ r. elim (Bool-cases test) [
        | inl e ↦ e
        | inr e ↦
            let (error, f) = move_into_place-raises n dir e in
            let (placed, g, _) = >>=-eq-ok (move_into_place n dir) _ (r.1) in absurd (clash f g)
      ],
      λ e.
          let (placed, moved) = move_into_place-ok n dir e in
          (remove_old_checkpoints m true placed, rw moved refl),
    )
  where
    clash :
        {r : Result Error Directory} {error : Error} {d : Directory}
        → r ≡ raise error
        → r ≡ ok d
        → ⊥
    clash p q = cc
