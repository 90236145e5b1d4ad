-- ===== src/Checkpoint/Tests.antt =====
-- A directory of three checkpoints, and each theorem at a concrete input.
use ne_mo_rl_enhanced_math_r.Common.{
  ℕ, ◌≤◌, ◌≡◌, ◌↔◌, refl, true, ◌&&◌, not, List, [], ◌∷◌, ◌++◌, none, some, min, arith,
  if◌then◌else◌, ok, raise, length, lookup, has, All, Perm,
}
use ne_mo_rl_enhanced_math_r.Common.Int.{ℤ, pos}
use ne_mo_rl_enhanced_math_r.Checkpoint.{
  directory_not_empty, Contents, Directory, Manager, Item, rename, load_checkpoint_history, better,
  metric_of, may_precede, latest_step, remove_all, keep_only, remove_old_checkpoints,
  move_into_place, finalize_checkpoint, value_order, get_best_checkpoint_path, best_of,
  metric_values,
}
use ne_mo_rl_enhanced_math_r.Checkpoint.Order.{IsAsGood, IsPreferred}
use ne_mo_rl_enhanced_math_r.Checkpoint.Best.{Values, get_best_checkpoint_path-best}
use ne_mo_rl_enhanced_math_r.Checkpoint.Retention.{Distinct, doomed, remove_old_keeps_best}
use ne_mo_rl_enhanced_math_r.Checkpoint.Finalize.{finalize_keeps_new, finalize_ok_iff}

abbrev scored : ℕ → Contents
scored value = record { training_info = some ((7, pos value) ∷ []); config = none }

abbrev directory : Directory
directory = record {
  steps = (1, scored 90) ∷ (2, scored 40) ∷ (3, scored 70) ∷ [];
  tmp_steps = (4, scored 10) ∷ [];
  old_steps = [];
}

abbrev manager : Manager
manager = record { metric_name = some 7; higher_is_better = true; keep_top_k = some 2 }

abbrev kept_directory : Directory
kept_directory = record {
  steps = (1, scored 90) ∷ (3, scored 70) ∷ (4, scored 10) ∷ [];
  tmp_steps = [];
  old_steps = [];
}

finalize_run : finalize_checkpoint manager 4 directory ≡ ok kept_directory
unfolding finalize_checkpoint move_into_place rename remove_old_checkpoints keep_only remove_all
    load_checkpoint_history latest_step may_precede better
finalize_run = refl

directory-Distinct : Distinct (load_checkpoint_history directory.steps)
unfolding load_checkpoint_history
directory-Distinct n = grind arith

remove_old_keeps_best_example :
    let history = load_checkpoint_history directory.steps in
    let after = (remove_old_checkpoints manager true directory).steps in
    (top : List Item) × (rest : List Item) × Perm (top ++ rest) history
    × (length top ≡ min 2 (length history))
    × All
        (λ x.
          All
            (λ y.
              IsPreferred true
                (metric_of manager.metric_name x)
                (metric_of manager.metric_name y)
                (x.0)
                (y.0))
            rest)
        top
    × ((n : ℕ) → has n top ≡ true → lookup n after ≡ lookup n directory.steps)
    × ((n : ℕ)
        → lookup n after
          ≡ (if doomed true (latest_step history) rest n then none else lookup n directory.steps))
remove_old_keeps_best_example =
    remove_old_keeps_best manager true directory 2 refl directory-Distinct

three_steps : (j : ℕ) → has j directory.steps ≡ true → j ≤ 4
three_steps j h = ground (arith, h)

finalize_keeps_new_example :
    (dir' : Directory) × (finalize_checkpoint manager 4 directory ≡ ok dir')
    × (lookup 4 dir'.steps ≡ some (scored 10))
    × (lookup 4 dir'.tmp_steps ≡ none)
    × (lookup 4 dir'.old_steps ≡ none)
finalize_keeps_new_example =
    finalize_keeps_new manager 4 directory (scored 10) ((7, pos 10) ∷ []) refl refl refl three_steps

-- The finalization of step 4 after one that stopped between its renames and its cleanup.
abbrev interrupted : Directory
interrupted = record {
  steps = (4, scored 20) ∷ [];
  tmp_steps = (4, scored 30) ∷ [];
  old_steps = (4, scored 10) ∷ [];
}

interrupted_run : finalize_checkpoint manager 4 interrupted ≡ raise directory_not_empty
unfolding finalize_checkpoint move_into_place rename
interrupted_run = refl

finalize_ok_iff_example :
    ((dir' : Directory) × (finalize_checkpoint manager 4 interrupted ≡ ok dir')) ↔ (
      (has 4 interrupted.tmp_steps && not (has 4 interrupted.steps && has 4 interrupted.old_steps))
      ≡ true)
finalize_ok_iff_example = finalize_ok_iff manager 4 interrupted

best_run : get_best_checkpoint_path manager kept_directory ≡ ok (some 1)
unfolding get_best_checkpoint_path best_of metric_values value_order load_checkpoint_history
best_run = refl

kept_history :
    load_checkpoint_history kept_directory.steps
    ≡ (1, (7, pos 90) ∷ []) ∷ (3, (7, pos 70) ∷ []) ∷ (4, (7, pos 10) ∷ []) ∷ []
unfolding load_checkpoint_history
kept_history = refl

get_best_checkpoint_path-best_example :
    (best : ℕ × ℤ) × (rest values : List (ℕ × ℤ)) × (get_best_checkpoint_path manager kept_directory
      ≡ ok (some (best.0)))
    × Values 7 ((1, (7, pos 90) ∷ []) ∷ (3, (7, pos 70) ∷ []) ∷ (4, (7, pos 10) ∷ []) ∷ []) values
    × Perm (best ∷ rest) values
    × All (λ y. IsAsGood true (best.1) (y.1)) rest
get_best_checkpoint_path-best_example =
    get_best_checkpoint_path-best manager 7 kept_directory (1, (7, pos 90) ∷ [])
      ((3, (7, pos 70) ∷ []) ∷ (4, (7, pos 10) ∷ []) ∷ []) refl kept_history
      (refl, (refl, (refl, tt)))
