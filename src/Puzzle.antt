-- ===== src/Puzzle.antt =====
-- nemo_rl/environments/games/sliding_puzzle.py: the sliding puzzle that a model plays.
pub mod Grid
pub mod Game
pub mod Turn
pub mod Moves
pub mod Correct
pub mod Solvable
pub mod Rewards
mod Tests
