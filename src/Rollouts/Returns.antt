-- ===== src/Rollouts/Returns.antt =====
-- When a rollout returns, within its budget of tokens and turns.
use ne_mo_rl_enhanced_math_r.Common.{
  ℕ, zero, suc, ◌+◌, ◌≤◌, ◌<◌, ◌≡◌, refl, ap, ◌⊎◌, inl, inr, Bool, ◌||◌, List, [], ◌∷◌, ◌++◌,
  Option, leb, arith, Bool-cases, Result, Result-cases, ok, raise, >>=-eq-ok, length,
}
use ne_mo_rl_enhanced_math_r.Rollouts.{
  Role, assistant, Message, Generated, Feedback, Rollout, start, flat_tokens, generate_response,
  after_generation, after_feedback, shown, turns, run_sample_multi_turn_rollout,
}
use ne_mo_rl_enhanced_math_r.Rollouts.Budget.{
  size_of, size_of-append, Counted, Bounded, after_generation-Counted, after_generation-size,
  turn_count-next, after_feedback-Bounded,
}

-- `fits`: the backend, which has a context of `max_seq_len` tokens, adds no more than fits; the rollout
-- does not check it.
module _ {C S I E : Type 0} (max_seq_len : ℕ)
    (engine : ℕ → List ℕ → Option S → Result E (Generated C))
    (step : ℕ → List (Role × C) → I → Result E (Feedback C S I)) (tokenize : C → List ℕ)
    (fits : (turn : ℕ) (ids : List ℕ) (stop : Option S) (out : Generated C)
      → length ids < max_seq_len
      → engine turn ids stop ≡ ok out
      → length ids + length out.tokens ≤ max_seq_len) where
  -- Where a response is generated, it is the log with one more message.
  generate_response-log :
      (turn : ℕ) (log log' : List (Message C)) (stop : Option S) (out : Generated C)
      → size_of log < max_seq_len
      → generate_response max_seq_len engine step tokenize turn log stop ≡ ok (log', out)
      → (size_of log' ≡ size_of log + length out.tokens)
        × (size_of log + length out.tokens ≤ max_seq_len)
  unfolding generate_response
  generate_response-log turn log log' stop out l e =
      let (found, f, g) = >>=-eq-ok (engine turn (flat_tokens log) stop) _ e in
      let same_out : found ≡ out = ap (λ r. value r) g in
      let same_log : log
            ++ record { role = assistant; content = found.text; token_ids = found.tokens } ∷ []
          ≡ log' =
        ap (λ r. log_of r) g in
      let size =
        size_of-append log
          (record { role = assistant; content = found.text; token_ids = found.tokens }) in
      let bound = fits turn (flat_tokens log) stop found l f in
      rw (← same_out, ← same_log) (size, bound)
    where
      value : Result E (List (Message C) × Generated C) → Generated C
      value (ok p) = p.1
      value (raise x) = out

      log_of : Result E (List (Message C) × Generated C) → List (Message C)
      log_of (ok p) = p.0
      log_of (raise x) = log'

  -- The environment's exception, which ends the rollout.
  abbrev pub Raises : {R : Type 0} → Result E R → Type 0
  Raises outcome =
      (turn : ℕ) × (messages : List (Role × C)) × (info : I) × (x : E) × (step turn messages info
        ≡ raise x)
      × (outcome ≡ raise x)

  turns-Bounded :
      (initial turn n : ℕ) (s : Rollout C S I)
      → Counted initial s
      → Bounded max_seq_len s
      → s.turn_count ≡ turn
      → ((r : Rollout C S I) × (turns max_seq_len engine step tokenize turn n s ≡ ok r)
          × Counted initial r
          × Bounded max_seq_len r
          × (r.turn_count ≤ turn + n))
        ⊎ Raises (turns max_seq_len engine step tokenize turn n s)
  turns-Bounded initial turn zero s c b e = inl (s, refl, c, b, omega (arith, e))
  turns-Bounded initial turn (suc n) s c b e = elim (Bool-cases (s.terminated || s.truncated)) [
    | inl f ↦ inl (s, rw (turns, f) refl, c, b, omega (arith, e))
    | inr f ↦
        elim (Result-cases
          (generate_response max_seq_len engine step tokenize turn s.message_log s.stop_strings)) [
            | inr (failure, g) ↦ inl (
              record s { turn_count = s.turn_count + 1 },
              rw (turns, f, g) refl,
              record {
                split = c.split;
                log_size = c.log_size;
                generated = c.generated;
                by_worker = c.by_worker;
                turns_counted = omega (arith, c.turns_counted);
              },
              record { within = b.within; room = b.room },
              omega (arith, e),
            )
            | inl ((log, out), g) ↦
                let messages = shown max_seq_len engine step tokenize log in
                elim (Result-cases (step turn messages s.extra_env_info)) [
                  | inr (x, h) ↦
                      inr (turn, messages, s.extra_env_info, x, h, rw (turns, f, g, h) refl)
                  | inl (answer, h) ↦
                      let (grown, within) =
                        generate_response-log turn s.message_log log s.stop_strings out (b.room f)
                          g in
                      let used = size_of s.message_log + length out.tokens in
                      let generated =
                        after_generation max_seq_len engine step tokenize (log, out) s in
                      let counted : Counted initial generated =
                        after_generation-Counted max_seq_len engine step tokenize initial turn out
                          log s grown c in
                      let (c', b') =
                        after_feedback-Bounded max_seq_len engine step tokenize initial used answer
                          generated
                          (after_generation-size max_seq_len engine step tokenize out log s grown)
                          within counted in
                      let s' =
                        after_feedback max_seq_len engine step tokenize used answer generated in
                      elim (turns-Bounded initial (suc turn) n s' c' b' (
                        turn_count-next max_seq_len engine step tokenize used out log answer s e)) [
                          | inl (r, i, c'', b'', count) ↦
                              inl (r, rw (turns, f, g, h) i, c'', b'', omega (arith, count))
                          | inr (t, m, info, x, k, i) ↦
                              inr (t, m, info, x, k, rw (turns, f, g, h) i)
                        ]
                ]
          ]
  ]

  -- If the backend's response to a log shorter than `max_seq_len` never makes it longer than that,
  -- and if the first log is shorter, then the rollout returns, or raises an exception that the
  -- environment raised. The log that it returns has the tokens that it started with and those that
  -- were counted, of the assistant and of the environment, and never more than `max_seq_len`; there
  -- is room for a token whenever a response is asked for. The turns are at most
  -- `max_rollout_turns`, and their token counts add up to the assistant's.
  pub run_sample_multi_turn_rollout-budget :
      (max_rollout_turns : ℕ) (log : List (Message C)) (info : I) (stop : Option S)
      → size_of log < max_seq_len
      → ((r : Rollout C S I) × (reached : Bool) × (run_sample_multi_turn_rollout max_seq_len engine
              step tokenize max_rollout_turns log info stop
            ≡ ok (r, reached))
          × Counted (size_of log) r
          × Bounded max_seq_len r
          × (r.turn_count ≤ max_rollout_turns))
        ⊎ Raises (
            run_sample_multi_turn_rollout max_seq_len engine step tokenize max_rollout_turns log
              info stop)
  unfolding run_sample_multi_turn_rollout
  run_sample_multi_turn_rollout-budget most log info stop l =
      let none_yet : size_of log ≡ size_of log + 0 = omega arith in
      let counted : Counted (size_of log) (start log info stop) = record {
        split = refl;
        log_size = none_yet;
        generated = refl;
        by_worker = omega arith;
        turns_counted = omega arith;
      } in
      let bounded : Bounded max_seq_len (start log info stop) = record {
        within = omega (arith, l);
        room = λ h. l;
      } in
      elim (turns-Bounded (size_of log) 0 most (start log info stop) counted bounded refl) [
        | inl (r, e, c, b, count) ↦
            inl (r, leb most r.turn_count, rw e refl, c, b, omega (arith, count))
        | inr (t, m, i, x, k, e) ↦ inr (t, m, i, x, k, rw e refl)
      ]
