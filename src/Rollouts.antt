-- ===== src/Rollouts.antt =====
-- nemo_rl/experience/rollouts.py: `run_sample_multi_turn_rollout` and the generation of one response,
-- `async_generate_response_for_sample_turn` with `generate_responses_async`, for one sample.
pub mod Budget
pub mod Returns
pub mod Feedbacks
mod Tests
use ne_mo_rl_enhanced_math_r.Common.{
  ℕ, zero, suc, ◌+◌, ◌-◌, Bool, true, false, ◌||◌, not, List, [], ◌∷◌, ◌++◌, map, Option, none,
  some, ltb, leb, if◌then◌else◌, Result, ok, raise, ◌>>=◌, length, take, Dict, lookup, put, flatten,
}
use ne_mo_rl_enhanced_math_r.Common.Int.{ℤ, pos, ◌+ℤ◌}

pub data Role : Type 0 where
  system user assistant environment : Role

pub record Message (C : Type 0) : Type 0 where
  pub role : Role
  pub content : C
  pub token_ids : List ℕ

-- What the backend gives: the text, its tokens and `gen_leader_worker_idx`.
pub record Generated (C : Type 0) : Type 0 where
  pub text : C
  pub tokens : List ℕ
  pub worker : Option ℕ

-- One entry of each list of an `EnvironmentReturn`.
pub record Feedback (C S I : Type 0) : Type 0 where
  pub reward : ℤ
  pub terminated : Bool
  pub observation_role : Role
  pub observation : C
  pub next_stop_strings : Option S
  pub metadata : Option I

-- The locals of the rollout, for contents `C`, stop strings `S` and environment infos `I`.
pub record Rollout (C S I : Type 0) : Type 0 where
  pub message_log : List (Message C)
  pub extra_env_info : I
  pub stop_strings : Option S
  pub total_reward : ℤ
  pub turn_count : ℕ
  pub token_count : ℕ
  pub assistant_token_count : ℕ
  pub env_token_count : ℕ
  pub terminated : Bool
  pub truncated : Bool
  pub turn_gen_tokens : List ℕ
  pub turn_input_tokens : List ℕ
  pub turn_total_tokens : List ℕ
  pub per_worker_token_counts : Dict ℕ

abbrev pub start : {C S I : Type 0} → List (Message C) → I → Option S → Rollout C S I
start log info stop = record {
  message_log = log;
  extra_env_info = info;
  stop_strings = stop;
  total_reward = pos 0;
  turn_count = 0;
  token_count = 0;
  assistant_token_count = 0;
  env_token_count = 0;
  terminated = false;
  truncated = false;
  turn_gen_tokens = [];
  turn_input_tokens = [];
  turn_total_tokens = [];
  per_worker_token_counts = [];
}

-- The tokens of a log, one message after the other.
abbrev pub flat_tokens : {C : Type 0} → List (Message C) → List ℕ
flat_tokens [] = []
flat_tokens (m ∷ log) = m.token_ids ++ flat_tokens log

-- `per_worker_token_counts.get(worker_idx, 0)`.
abbrev pub count_of : Option ℕ → ℕ
count_of none = 0
count_of (some n) = n

abbrev pub count_worker : Option ℕ → ℕ → Dict ℕ → Dict ℕ
count_worker none tokens counts = counts
count_worker (some worker) tokens counts =
    put worker (count_of (lookup worker counts) + tokens) counts

-- The tokens of an observation that the sequence has room for.
abbrev pub cut : (max_seq_len used : ℕ) → List ℕ → List ℕ
cut max_seq_len used tokens = if ltb used max_seq_len then take (max_seq_len - used) tokens else []

abbrev pub kept {ℓ} : {A : Type ℓ} → A → Option A → A
kept old none = old
kept old (some new) = new

abbrev pub kept_some {ℓ} : {A : Type ℓ} → Option A → Option A → Option A
kept_some old none = old
kept_some old (some new) = some new

-- `engine` is the backend of the policy, `step` the environment of the sample's task and `tokenize`
-- the tokenizer; the turn is an argument of the first two, since they need not answer alike twice.
module _ {C S I E : Type 0} (max_seq_len : ℕ)
    (engine : ℕ → List ℕ → Option S → Result E (Generated C))
    (step : ℕ → List (Role × C) → I → Result E (Feedback C S I)) (tokenize : C → List ℕ) where
  -- The turn's response: the log with the assistant's message, and what was generated.
  unfoldable pub generate_response :
      ℕ → List (Message C) → Option S → Result E (List (Message C) × Generated C)
  generate_response turn log stop = do
    out ← engine turn (flat_tokens log) stop
    ok (log ++ record { role = assistant; content = out.text; token_ids = out.tokens } ∷ [], out)

  -- The counts after the generation.
  unfoldable pub after_generation : List (Message C) × Generated C → Rollout C S I → Rollout C S I
  after_generation (log, out) s =
      let gen_token_count = length (out.tokens) in
      let input_length = length (flat_tokens s.message_log) in
      record s {
        message_log = log;
        turn_count = s.turn_count + 1;
        assistant_token_count = s.assistant_token_count + gen_token_count;
        token_count = s.token_count + gen_token_count;
        turn_gen_tokens = s.turn_gen_tokens ++ gen_token_count ∷ [];
        turn_input_tokens = s.turn_input_tokens ++ input_length ∷ [];
        turn_total_tokens = s.turn_total_tokens ++ (input_length + gen_token_count) ∷ [];
        per_worker_token_counts =
            count_worker (out.worker) gen_token_count s.per_worker_token_counts;
      }

  -- The rest of the turn: `used` is the input length and the number of the generated tokens.
  unfoldable pub observe : Bool → List ℕ → Feedback C S I → Rollout C S I → Rollout C S I
  observe overflows tokens f s =
      let truncated = s.truncated || overflows in
      let going_on = not (f.terminated || truncated) in
      record s {
        total_reward = s.total_reward +ℤ f.reward;
        terminated = f.terminated;
        truncated = truncated;
        message_log =
            s.message_log
            ++ record { role = f.observation_role; content = f.observation; token_ids = tokens }
              ∷ [];
        env_token_count = s.env_token_count + length tokens;
        token_count = s.token_count + length tokens;
        stop_strings =
            if going_on then kept_some s.stop_strings f.next_stop_strings else s.stop_strings;
        extra_env_info = if going_on then kept s.extra_env_info f.metadata else s.extra_env_info;
      }

  unfoldable pub after_feedback : ℕ → Feedback C S I → Rollout C S I → Rollout C S I
  after_feedback used f s =
      let tokens = tokenize (f.observation) in
      let overflows = leb max_seq_len (used + length tokens) in
      observe overflows (if overflows then cut max_seq_len used tokens else tokens) f s

  abbrev pub shown : List (Message C) → List (Role × C)
  shown log = map (λ (m : Message C). (m.role, m.content)) log

  -- The loop over `n` turns from `turn` on. A generation that fails ends it, an exception of the
  -- environment is raised.
  abbrev pub turns : (turn n : ℕ) → Rollout C S I → Result E (Rollout C S I)
  turns turn zero s = ok s
  turns turn (suc n) s = elim (s.terminated || s.truncated) [
    | true ↦ ok s
    | false ↦ elim (generate_response turn s.message_log s.stop_strings) [
      | raise e ↦ ok (record s { turn_count = s.turn_count + 1 })
      | ok (log, out) ↦ do
        f ← step turn (shown log) s.extra_env_info
        turns (suc turn) n (
            after_feedback (length (flat_tokens s.message_log) + length (out.tokens)) f
              (after_generation (log, out) s))
    ]
  ]

  -- The rollout, and `max_turns_reached`.
  unfoldable pub run_sample_multi_turn_rollout :
      ℕ → List (Message C) → I → Option S → Result E (Rollout C S I × Bool)
  run_sample_multi_turn_rollout max_rollout_turns log info stop = do
    s ← turns 0 max_rollout_turns (start log info stop)
    ok (s, leb max_rollout_turns s.turn_count)
