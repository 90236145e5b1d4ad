-- ===== src/Checkpoint.antt =====
-- nemo_rl/utils/checkpoint.py: `CheckpointManager` over the files of its directory, of which
-- `step_<n>`, `tmp_step_<n>` and `old_step_<n>` are three dictionaries by the number. A metric's name
-- is a number, its value an integer.
pub mod Order
pub mod Retention
pub mod Moves
pub mod Finalize
pub mod Best
mod Tests
use ne_mo_rl_enhanced_math_r.Common.{
  ℕ, zero, suc, ◌+◌, ◌*◌, max, Bool, true, false, ◌&&◌, ◌||◌, not, List, [], ◌∷◌, map, Option, none,
  some, ltb, leb, ◌==◌, if◌then◌else◌, Result, ok, raise, ◌>>=◌, sort_by, drop, Dict, lookup, has,
  put, delete,
}
use ne_mo_rl_enhanced_math_r.Common.Int.{ℤ, ltb_ℤ}

pub data Error : Type 0 where
  not_found : Error
  directory_not_empty : Error
  missing_metric : Error

abbrev pub Info : Type 0
Info = Dict ℤ

-- `training_info.json`, and `config.yaml` as a number.
pub record Contents : Type 0 where
  pub training_info : Option Info
  pub config : Option ℕ

pub record Directory : Type 0 where
  pub steps : Dict Contents
  pub tmp_steps : Dict Contents
  pub old_steps : Dict Contents

pub record Manager : Type 0 where
  pub metric_name : Option ℕ
  pub higher_is_better : Bool
  pub keep_top_k : Option ℕ

-- The configuration that a second call finds is kept if it has none of its own.
abbrev pub config_of : Option Contents → Option ℕ
config_of none = none
config_of (some c) = c.config

abbrev pub or_else {ℓ} : {A : Type ℓ} → Option A → Option A → Option A
or_else none b = b
or_else (some a) b = some a

unfoldable pub init_tmp_checkpoint : ℕ → Info → Option ℕ → Directory → Directory
init_tmp_checkpoint step info run_config dir = record dir {
  tmp_steps =
      put step
        (record {
          training_info = some info;
          config = or_else run_config (config_of (lookup step dir.tmp_steps));
        })
        dir.tmp_steps;
}

-- `os.rename` of a directory to the name `n` in `target`: it fails if there is none, or if the
-- target exists, since a checkpoint's directory is not empty. What is left, and what there is then.
unfoldable pub rename :
    ℕ → Dict Contents → Dict Contents → Result Error (Dict Contents × Dict Contents)
rename n source target = elim (lookup n source) [
  | none ↦ raise not_found
  | some c ↦
      if has n target then raise directory_not_empty else ok (delete n source, put n c target)
]

-- The step, and its training info.
abbrev pub Item : Type 0
Item = ℕ × Info

-- A directory with no training info is passed over.
unfoldable pub load_checkpoint_history : Dict Contents → List Item
load_checkpoint_history [] = []
load_checkpoint_history ((n, c) ∷ dirs) =
    let rest = load_checkpoint_history dirs in
    elim c.training_info [ none ↦ rest | some info ↦ (n, info) ∷ rest ]

abbrev pub metric_of : Option ℕ → Item → Option ℤ
metric_of none x = none
metric_of (some m) x = lookup m (x.1)

-- Whether a value is strictly better; a missing one, which counts as an infinity, is the worst.
unfoldable pub better : Bool → Option ℤ → Option ℤ → Bool
better higher none b = false
better higher (some a) none = true
better higher (some a) (some b) = if higher then ltb_ℤ b a else ltb_ℤ a b

-- The order of the three sorts: by the value, then the more recent step. With no metric no value is
-- better than another.
unfoldable pub may_precede : Manager → Item → Item → Bool
may_precede m x y =
    let a = metric_of m.metric_name x in
    let b = metric_of m.metric_name y in
    better m.higher_is_better a b || (not (better m.higher_is_better b a) && leb (y.0) (x.0))

-- `max` of the steps; of no steps it is 0, which is then not read.
unfoldable pub latest_step : List Item → ℕ
latest_step [] = 0
latest_step (x ∷ xs) = max (x.0) (latest_step xs)

unfoldable pub remove_all : Bool → ℕ → List Item → Dict Contents → Dict Contents
remove_all exclude_latest latest [] steps = steps
remove_all exclude_latest latest (x ∷ xs) steps =
    remove_all exclude_latest latest xs
      (if exclude_latest && (x.0 == latest) then steps else delete (x.0) steps)

-- The cleanup to a number of checkpoints; with none set, all are kept.
unfoldable pub keep_only : Option ℕ → Manager → Bool → Directory → Directory
keep_only none m exclude_latest dir = dir
keep_only (some k) m exclude_latest dir =
    let history = load_checkpoint_history dir.steps in
    record dir {
      steps =
          remove_all exclude_latest (latest_step history) (drop k (sort_by (may_precede m) history))
            dir.steps;
    }

unfoldable pub remove_old_checkpoints : Manager → Bool → Directory → Directory
remove_old_checkpoints m exclude_latest dir = keep_only m.keep_top_k m exclude_latest dir

-- The renames, before the cleanup.
unfoldable pub move_into_place : ℕ → Directory → Result Error Directory
move_into_place n dir =
    if has n dir.steps
    then (rename n dir.steps dir.old_steps >>= λ first.
        rename n dir.tmp_steps (first.0) >>= λ second.
        ok record { steps = second.1; tmp_steps = second.0; old_steps = delete n (first.1) })
    else rename n dir.tmp_steps dir.steps >>= λ moved.
        ok record dir { steps = moved.1; tmp_steps = moved.0 }

unfoldable pub finalize_checkpoint : Manager → ℕ → Directory → Result Error Directory
finalize_checkpoint m n dir =
    move_into_place n dir >>= λ placed. ok (remove_old_checkpoints m true placed)

abbrev pub highest : Dict Contents → Option ℕ
highest [] = none
highest ((n, c) ∷ dirs) = elim (highest dirs) [ none ↦ some n | some k ↦ some (max n k) ]

unfoldable pub get_latest_checkpoint_path : Directory → Option ℕ
get_latest_checkpoint_path dir = highest dir.steps

-- `x[2][self.metric_name]` of every checkpoint, as the sort reads it.
unfoldable pub metric_values : ℕ → List Item → Result Error (List (ℕ × ℤ))
metric_values metric [] = ok []
metric_values metric (x ∷ xs) = elim (lookup metric (x.1)) [
  | none ↦ raise missing_metric
  | some v ↦ metric_values metric xs >>= λ rest. ok ((x.0, v) ∷ rest)
]

unfoldable pub value_order : Bool → ℕ × ℤ → ℕ × ℤ → Bool
value_order higher x y = if higher then not (ltb_ℤ (x.1) (y.1)) else not (ltb_ℤ (y.1) (x.1))

abbrev pub first_step : List (ℕ × ℤ) → Option ℕ
first_step [] = none
first_step (x ∷ xs) = some (x.0)

-- The best of a history. The metric is looked for in the first checkpoint alone; no metric's name is
-- in none.
unfoldable pub best_of : Option ℕ → Bool → Directory → List Item → Result Error (Option ℕ)
best_of name higher dir [] = ok none
best_of none higher dir (x ∷ xs) = ok (get_latest_checkpoint_path dir)
best_of (some metric) higher dir (x ∷ xs) =
    if has metric (x.1)
    then (metric_values metric (x ∷ xs) >>= λ values.
        ok (first_step (sort_by (value_order higher) values)))
    else ok (get_latest_checkpoint_path dir)

unfoldable pub get_best_checkpoint_path : Manager → Directory → Result Error (Option ℕ)
get_best_checkpoint_path m dir =
    best_of m.metric_name m.higher_is_better dir (load_checkpoint_history dir.steps)
