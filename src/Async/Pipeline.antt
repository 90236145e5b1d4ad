-- ===== src/Async/Pipeline.antt =====
-- The replay buffer, the collector with its workers and the trainer as one system:
-- nemo_rl/algorithms/async_utils.py, `_process_batch` and `_run_prompt_group_worker`, and the loop of
-- `async_grpo_train`, nemo_rl/algorithms/grpo.py. A step is what one thread does under one lock, in one
-- remote call or in one assignment. No step waits for a pause or for a refit, so that whatever the pauses let happen
-- is a run here.
pub mod Effects
pub mod Ages
pub mod Shares
pub mod Amounts
pub mod Careful
pub mod Young
pub mod Correct
pub mod Stalled
mod Tests
use ne_mo_rl_enhanced_math_r.Common.{
  ℕ, suc, ◌+◌, ◌≤◌, ◌<◌, ◌≡◌, Bool, true, false, List, [], ◌∷◌, ◌++◌, Option, none, some, Result,
  ok,
}
use ne_mo_rl_enhanced_math_r.Async.Buffer.{
  ReplayBuffer, Status, full, success, Sample, push_with_wait_signal, sample,
}
use ne_mo_rl_enhanced_math_r.Async.Collector
use ne_mo_rl_enhanced_math_r.Async.Collector.{
  Collector, get_next_target_for_generation, assign_version, set_limit_event, note_limit,
  clear_limit_event, pause, resume, prepare_for_refit, resume_after_refit, after_push,
  finish_worker, start_worker,
}

pub data Phase : Type 0 where
  generating pushed released : Phase

-- A thread of `_run_prompt_group_worker` with its arguments.
pub record Worker : Type 0 where
  pub prompt_idx : ℕ
  pub version : ℕ
  pub target : ℕ
  pub phase : Phase

-- Where the collection thread is: outside `_process_batch`, or in it with the version, then with the
-- last target that the buffer answered, then at the next prompt.
pub data Loop : Type 0 where
  idle : Loop
  noted : (version : ℕ) → Loop
  answered : (version : ℕ) (last : Option ℕ) → Loop
  spawning : (version target next : ℕ) → Loop

pub record System (A : Type 0) : Type 0 where
  pub collector : Collector
  pub buffer : ReplayBuffer A
  pub loop : Loop
  pub workers : List Worker
  pub trainer_version : ℕ

-- What the other methods of the collector do to it, and the steps around the limit event, which no
-- lock keeps in order: each of them may come at any time.
pub data Control : Type 0 where
  pauses resumes refits refitted limit_noted limit_cleared limit_set : Control

abbrev pub controlled : Control → Collector → Collector
controlled pauses c = pause c
controlled resumes c = resume c
controlled refits c = prepare_for_refit c
controlled refitted c = resume_after_refit c
controlled limit_noted c = note_limit c
controlled limit_cleared c = clear_limit_event c
controlled limit_set c = set_limit_event c

module _ {A : Type 0} where
  abbrev pub note : System A → System A
  note s = record s { loop = noted ((s.collector).current_weight_version) }

  abbrev pub ask : ℕ → System A → System A
  ask version s = record s {
    loop = answered version ((s.buffer).last_target_weight_already_generated);
  }

  abbrev pub reserved : ℕ → Option ℕ × Collector → System A → System A
  reserved version (none, c) s = record s { collector = c; loop = idle }
  reserved version (some target, c) s = record s { collector = c; loop = spawning version target 0 }

  abbrev pub reserve : ℕ → Option ℕ → System A → System A
  reserve version last s =
      reserved version (get_next_target_for_generation s.collector version last) s

  -- The worker of the next prompt has its permit and starts.
  abbrev pub spawn : (version target next : ℕ) → Collector → System A → System A
  spawn version target next c s = record s {
    collector = c;
    loop = spawning version target (suc next);
    workers =
        record { prompt_idx = next; version = version; target = target; phase = generating }
        ∷ s.workers;
  }

  -- After a wait for a refit the thread takes the new version.
  abbrev pub refresh : (target next : ℕ) → System A → System A
  refresh target next s = record s {
    loop = spawning ((s.collector).current_weight_version) target next;
  }

  -- A worker that the buffer refuses tries again.
  abbrev pub stored :
      List Worker → Worker → List Worker → Status × ReplayBuffer A → System A → System A
  stored before w after (full, b) s = s
  stored before w after (success, b) s = record s {
    buffer = b;
    workers = before ++ record w { phase = pushed } ∷ after;
  }

  abbrev pub push : List Worker → Worker → List Worker → A → System A → System A
  push before w after group s =
      stored before w after (push_with_wait_signal s.buffer group w.version w.target) s

  abbrev pub release : List Worker → Worker → List Worker → System A → System A
  release before w after s = record s {
    collector = after_push s.collector w.prompt_idx w.target;
    workers = before ++ record w { phase = released } ∷ after;
  }

  abbrev pub finish : List Worker → Worker → List Worker → System A → System A
  finish before w after s = record s {
    collector = finish_worker s.collector w.target;
    workers = before ++ after;
  }

  abbrev pub train : ReplayBuffer A → System A → System A
  train b s = record s { buffer = b; trainer_version = suc s.trainer_version }

  abbrev pub deliver : ℕ → System A → System A
  deliver version s = record s { collector = assign_version s.collector version }

  abbrev pub control : Control → System A → System A
  control k s = record s { collector = controlled k s.collector }

-- The steps, with `num_prompts` prompts in a batch and as many groups in a training step. In a
-- careful run no worker fails and the buffer's last target is still the one that it answered when
-- the collector reserves the next. The trainer's message with a version may arrive late.
pub data Step {A : Type 0} (careful : Bool) (num_prompts max_age : ℕ) (s : System A)
    : System A → Type 0 where
  notes : s.loop ≡ idle → Step careful num_prompts max_age s (note s)
  asks : (version : ℕ) → s.loop ≡ noted version → Step careful num_prompts max_age s (ask version s)
  reserves :
      (version : ℕ) (last : Option ℕ)
      → s.loop ≡ answered version last
      → (careful ≡ true → last ≡ (s.buffer).last_target_weight_already_generated)
      → Step careful num_prompts max_age s (reserve version last s)
  spawns :
      (version target next : ℕ) (c : Collector)
      → s.loop ≡ spawning version target next
      → next < num_prompts
      → start_worker s.collector ≡ some c
      → Step careful num_prompts max_age s (spawn version target next c s)
  refreshes :
      (version target next : ℕ)
      → s.loop ≡ spawning version target next
      → Step careful num_prompts max_age s (refresh target next s)
  rests :
      (version target next : ℕ)
      → s.loop ≡ spawning version target next
      → num_prompts ≤ next
      → Step careful num_prompts max_age s (record s { loop = idle })
  pushes :
      (before : List Worker) (w : Worker) (after : List Worker) (group : A)
      → s.workers ≡ before ++ w ∷ after
      → w.phase ≡ generating
      → Step careful num_prompts max_age s (push before w after group s)
  releases :
      (before : List Worker) (w : Worker) (after : List Worker)
      → s.workers ≡ before ++ w ∷ after
      → w.phase ≡ pushed
      → Step careful num_prompts max_age s (release before w after s)
  finishes :
      (before : List Worker) (w : Worker) (after : List Worker)
      → s.workers ≡ before ++ w ∷ after
      → w.phase ≡ released
      → Step careful num_prompts max_age s (finish before w after s)
  fails :
      (before : List Worker) (w : Worker) (after : List Worker)
      → s.workers ≡ before ++ w ∷ after
      → careful ≡ false
      → Step careful num_prompts max_age s (finish before w after s)
  trains :
      (x : Sample A) (b : ReplayBuffer A)
      → sample s.buffer num_prompts s.trainer_version max_age ≡ ok (some x, b)
      → Step careful num_prompts max_age s (train b s)
  delivers :
      (version : ℕ)
      → (s.collector).current_weight_version ≤ version
      → version ≤ s.trainer_version
      → Step careful num_prompts max_age s (deliver version s)
  controls : (k : Control) → Step careful num_prompts max_age s (control k s)

-- Before the first step: a new collector, and the buffer that it is given.
abbrev pub start : {A : Type 0} → (num_prompts max_age start_step : ℕ) → ReplayBuffer A → System A
start num_prompts max_age start_step b = record {
  collector = Collector.init num_prompts max_age start_step;
  buffer = b;
  loop = idle;
  workers = [];
  trainer_version = start_step;
}

pub data Reach {A : Type 0} (careful : Bool) (num_prompts max_age : ℕ) (s : System A)
    : System A → Type 0 where
  here : Reach careful num_prompts max_age s s
  later :
      {t u : System A}
      → Reach careful num_prompts max_age s t
      → Step careful num_prompts max_age t u
      → Reach careful num_prompts max_age s u
