-- ===== src/Puzzle/Tests.antt =====
-- A small puzzle, and each theorem at a concrete input.
use ne_mo_rl_enhanced_math_r.Common.{
  ◌+◌, ◌-◌, ◌≤◌, ◌≡◌, ◌⊎◌, refl, List, [], ◌∷◌, map, some, arith, length,
}
use ne_mo_rl_enhanced_math_r.Common.Int.{pos}
use ne_mo_rl_enhanced_math_r.Puzzle.Grid.{Place, cell, set_cell}
use ne_mo_rl_enhanced_math_r.Puzzle.Game.{
  GameState, Direction, up, left, right, Action, slide, move, within, place_within, neighbour,
  possible_moves, slide_tile, swap_empty, shuffle_move, shuffle, solved_grid, solved, generate,
  eq_grid, after_move, step,
}
use ne_mo_rl_enhanced_math_r.Puzzle.Moves.{WellFormed}
use ne_mo_rl_enhanced_math_r.Puzzle.Correct.{step-WellFormed, step_undo}
use ne_mo_rl_enhanced_math_r.Puzzle.Solvable.{play, generate_solvable}
use ne_mo_rl_enhanced_math_r.Puzzle.Rewards.{Asks, Moves, Stays, step-Moves}
use ne_mo_rl_enhanced_math_r.Puzzle.Turn.{
  Metadata, view, act, process_turn, follow_command, take_action,
}
use ne_mo_rl_enhanced_math_r.Puzzle.Turn.Episode.{episode, rewards, episode-length_le}

abbrev shuffled : GameState
shuffled = record {
  size = 2;
  grid = (0 ∷ 1 ∷ []) ∷ (3 ∷ 2 ∷ []) ∷ [];
  solution = (1 ∷ 2 ∷ []) ∷ (3 ∷ 0 ∷ []) ∷ [];
  empty_pos = (0, 0);
}

generate_run : generate 2 (1 ∷ 1 ∷ []) ≡ some shuffled
unfolding generate shuffle shuffle_move possible_moves neighbour place_within within swap_empty
    solved_grid cell set_cell
generate_run = refl

shuffled-WellFormed : WellFormed shuffled
unfolding cell
shuffled-WellFormed = record {
  square = (refl, (refl, (refl, tt)));
  inside = (omega arith, omega arith);
  blank = refl;
  same_tiles = λ v. omega arith;
}

step-WellFormed_example : WellFormed ((step (slide (pos 1) (pos 2)) shuffled).new_state)
step-WellFormed_example = step-WellFormed shuffled (slide (pos 1) (pos 2)) shuffled-WellFormed

moved_left : neighbour 2 (0, 0) left ≡ some (0, 1)
unfolding neighbour place_within within
moved_left = refl

step_undo_example : (step (move right) ((step (move left) shuffled).new_state)).new_state ≡ shuffled
step_undo_example = step_undo shuffled left (0, 1) shuffled-WellFormed moved_left

generate_solvable_example :
    (s : GameState) × (generate 2 (1 ∷ 1 ∷ []) ≡ some s)
    × WellFormed s
    × ((ds : List Direction) × (play ds s ≡ solved 2))
generate_solvable_example = generate_solvable 2 (1 ∷ 1 ∷ []) (omega arith)

step-Moves_example :
    ((p : Place) × Asks shuffled (move up) p × Moves shuffled p (step (move up) shuffled))
    ⊎ (((p : Place) × Asks shuffled (move up) p → ⊥) × Stays shuffled (step (move up) shuffled))
step-Moves_example = step-Moves shuffled (move up)

abbrev game : Metadata
game = record { game_state = shuffled; num_moves = 0; max_moves = 3 }

-- Two moves solve the board.
abbrev solving : List Action
solving = move left ∷ move up ∷ []

solved_by_two :
    rewards (episode (some (act (move left)) ∷ some (act (move up)) ∷ some view ∷ []) game) ≡ 1
unfolding episode process_turn follow_command take_action step neighbour place_within within
    after_move slide_tile cell set_cell eq_grid
solved_by_two = refl

episode-length_le_example : length (episode (map (λ a. some (act a)) solving) game) ≤ (3 - 0) + 1
episode-length_le_example = episode-length_le solving game
