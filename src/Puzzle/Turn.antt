-- ===== src/Puzzle/Turn.antt =====
-- nemo_rl/environments/games/sliding_puzzle.py: `SlidingPuzzleRunner` and `SlidingPuzzleEnv`. What the
-- last message says, once its action is parsed, is an argument.
pub mod Episode
use ne_mo_rl_enhanced_math_r.Common.{
  ℕ, zero, suc, ◌+◌, ◌*◌, Bool, true, false, List, [], ◌∷◌, map, Option, none, some, ltb, leb, ◌==◌,
  if◌then◌else◌, length,
}
use ne_mo_rl_enhanced_math_r.Puzzle.Game.{GameState, Action, Response, Outcome, step}

pub record Metadata : Type 0 where
  pub game_state : GameState
  pub num_moves : ℕ
  pub max_moves : ℕ

-- The content of the last pair of action tags.
pub data Command : Type 0 where
  view : Command
  act : Action → Command

-- What the environment answers; `board_shown` and `no_action` come with the rendered board.
pub data Observation : Type 0 where
  max_moves_reached : ℕ → Observation
  no_action : GameState → Observation
  board_shown : GameState → Observation
  says : Response → Observation

pub record TurnResult : Type 0 where
  pub observation : Observation
  pub reward : ℕ
  pub is_terminated : Bool
  pub has_stop_strings : Bool
  pub next_metadata : Option Metadata

-- The last branch: the game's step, which counts as a move.
unfoldable pub take_action : Action → Metadata → TurnResult
take_action a m =
    let o = step a m.game_state in
    record {
      observation = says o.response;
      reward = o.reward;
      is_terminated = o.is_terminated;
      has_stop_strings = true;
      next_metadata =
          if o.is_terminated
          then none
          else some record m { game_state = o.new_state; num_moves = m.num_moves + 1 };
    }

unfoldable pub follow_command : Option Command → Metadata → TurnResult
follow_command none m = record {
  observation = no_action m.game_state;
  reward = 0;
  is_terminated = false;
  has_stop_strings = true;
  next_metadata = none;
}
follow_command (some view) m = record {
  observation = board_shown m.game_state;
  reward = 0;
  is_terminated = false;
  has_stop_strings = true;
  next_metadata = some m;
}
follow_command (some (act a)) m = take_action a m

unfoldable pub process_turn : Option Command → Metadata → TurnResult
process_turn command m =
    if leb m.max_moves m.num_moves
    then record {
      observation = max_moves_reached m.max_moves;
      reward = 0;
      is_terminated = true;
      has_stop_strings = false;
      next_metadata = none;
    }
    else follow_command command m

-- The fields of the results, one list for each.
pub record EnvironmentReturn : Type 0 where
  pub observations : List Observation
  pub metadata : List (Option Metadata)
  pub next_stop_strings : List Bool
  pub rewards : List ℕ
  pub terminateds : List Bool

-- `zip` stops at the end of the shorter list.
unfoldable pub process_turns : List (Option Command) → List Metadata → List TurnResult
process_turns [] ms = []
process_turns (c ∷ cs) [] = []
process_turns (c ∷ cs) (m ∷ ms) = process_turn c m ∷ process_turns cs ms

unfoldable pub env_step : List (Option Command) → List Metadata → EnvironmentReturn
env_step commands ms =
    let results = process_turns commands ms in
    record {
      observations = map (λ (r : TurnResult). r.observation) results;
      metadata = map (λ (r : TurnResult). r.next_metadata) results;
      next_stop_strings = map (λ (r : TurnResult). r.has_stop_strings) results;
      rewards = map (λ (r : TurnResult). r.reward) results;
      terminateds = map (λ (r : TurnResult). r.is_terminated) results;
    }
