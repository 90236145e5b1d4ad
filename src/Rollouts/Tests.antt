-- ===== src/Rollouts/Tests.antt =====
-- A rollout of a sample whose contents are their own tokens.
use ne_mo_rl_enhanced_math_r.Common.{
  ℕ, suc, ◌+◌, ◌-◌, ◌≤◌, ◌<◌, ◌≡◌, ◌⊎◌, refl, Bool, true, false, List, [], ◌∷◌, Option, none, some,
  arith, sym, ap, Result, ok, raise, length, length-take, take,
}
use ne_mo_rl_enhanced_math_r.Common.Int.{pos}
use ne_mo_rl_enhanced_math_r.Rollouts.{
  Role, user, environment, Message, Generated, Feedback, Rollout, run_sample_multi_turn_rollout,
  generate_response, after_generation, after_feedback, observe,
}
use ne_mo_rl_enhanced_math_r.Rollouts.Budget.{Counted, Bounded}
use ne_mo_rl_enhanced_math_r.Rollouts.Returns.{Raises, run_sample_multi_turn_rollout-budget}

-- Two tokens, if the limit of ten leaves room for them.
abbrev engine : ℕ → List ℕ → Option ℕ → Result ℕ (Generated (List ℕ))
engine turn ids stop =
    ok (record { text = []; tokens = take (10 - length ids) (7 ∷ 8 ∷ []); worker = some 0 })

-- Three tokens for an answer, and no end.
abbrev game : ℕ → List (Role × List ℕ) → ℕ → Result ℕ (Feedback (List ℕ) ℕ ℕ)
game turn messages info = ok (record {
  reward = pos 1;
  terminated = false;
  observation_role = environment;
  observation = 1 ∷ 2 ∷ 3 ∷ [];
  next_stop_strings = none;
  metadata = some (suc info);
})

abbrev tokenize : List ℕ → List ℕ
tokenize content = content

abbrev prompt : List (Message (List ℕ))
prompt = record { role = user; content = []; token_ids = 5 ∷ 6 ∷ [] } ∷ []

engine_fits :
    (turn : ℕ) (ids : List ℕ) (stop : Option ℕ) (out : Generated (List ℕ))
    → length ids < 10
    → engine turn ids stop ≡ ok out
    → length ids + length out.tokens ≤ 10
engine_fits turn ids stop out l e =
    let size : length out.tokens
        ≡ length (take (10 - length ids) (let t : List ℕ = 7 ∷ 8 ∷ [] in t)) =
      ap (λ r. tokens_of r) (sym e) in
    omega (arith, size, length-take (10 - length ids) (let t : List ℕ = 7 ∷ 8 ∷ [] in t), l)
  where
    tokens_of : Result ℕ (Generated (List ℕ)) → ℕ
    tokens_of (ok g) = length g.tokens
    tokens_of (raise x) = 0

-- What the rollout of five turns ends with: 2 + 2 + 3 + 2 tokens, and one of the last observation.
abbrev summary : Result ℕ (Rollout (List ℕ) ℕ ℕ × Bool) → ℕ × ℕ × ℕ × Bool
summary (raise e) = (0, 0, 0, false)
summary (ok (r, reached)) = (r.turn_count, r.assistant_token_count, r.env_token_count, r.truncated)

truncated_run :
    summary (run_sample_multi_turn_rollout 10 engine game tokenize 5 prompt 0 none)
    ≡ (2, 4, 4, true)
unfolding run_sample_multi_turn_rollout generate_response after_generation after_feedback observe
truncated_run = refl

run_sample_multi_turn_rollout-budget_example :
    ((r : Rollout (List ℕ) ℕ ℕ) × (reached : Bool) × (run_sample_multi_turn_rollout 10 engine game
          tokenize 5 prompt 0 none
        ≡ ok (r, reached))
      × Counted 2 r
      × Bounded 10 r
      × (r.turn_count ≤ 5))
    ⊎ Raises 10 engine game tokenize engine_fits
        (run_sample_multi_turn_rollout 10 engine game tokenize 5 prompt 0 none)
run_sample_multi_turn_rollout-budget_example =
    run_sample_multi_turn_rollout-budget 10 engine game tokenize engine_fits 5 prompt 0 none
      (omega arith)
