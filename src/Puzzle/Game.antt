-- ===== src/Puzzle/Game.antt =====
-- nemo_rl/environments/games/sliding_puzzle.py: `SlidingPuzzleGameLogic`. An action is given parsed
-- from its text, a response by what it says, and a random choice by the index that it draws.
use ne_mo_rl_enhanced_math_r.Common.{
  ℕ, zero, suc, ◌+◌, ◌-◌, ◌*◌, ◌%◌, Bool, true, false, ◌&&◌, List, [], ◌∷◌, map, Option, none, some,
  ltb, ◌==◌, if◌then◌else◌, range, range_from, length, get_or,
}
use ne_mo_rl_enhanced_math_r.Common.Int.{ℤ, pos, negsuc, sub_ℕ}
use ne_mo_rl_enhanced_math_r.Puzzle.Grid.{Grid, Place, cell, set_cell}

pub record GameState : Type 0 where
  pub size : ℕ
  pub grid : Grid
  pub solution : Grid
  pub empty_pos : Place

pub data Direction : Type 0 where
  up : Direction
  down : Direction
  left : Direction
  right : Direction

-- `slide row col` with its two numbers as written, from 1; `malformed_slide` is any other text that
-- starts with "slide "; `unknown` is all other text.
pub data Action : Type 0 where
  slide : ℤ → ℤ → Action
  malformed_slide : Action
  move : Direction → Action
  unknown : Action

pub data Response : Type 0 where
  unknown_command : Response
  invalid_position : Response
  not_adjacent : Response
  invalid_format : Response
  slid_tile : ℕ → Response
  slid_tile_towards : ℕ → Direction → Response
  cannot_slide : Direction → Response
  congratulations : Response

-- `0 <= n < size`, and the number it then is.
unfoldable pub within : ℕ → ℤ → Option ℕ
within size (pos n) = if ltb n size then some n else none
within size (negsuc n) = none

unfoldable pub place_within : ℕ → ℤ → ℤ → Option Place
place_within size r c = elim (within size r) [
  | none ↦ none
  | some r' ↦ elim (within size c) [ none ↦ none | some c' ↦ some (r', c') ]
]

-- (0, 1), (1, 0), (0, -1), (-1, 0) from a place, those on the board.
unfoldable pub neighbour : ℕ → Place → Direction → Option Place
neighbour size p up = place_within size (pos (p.0 + 1)) (pos (p.1))
neighbour size p down = place_within size (sub_ℕ (p.0) 1) (pos (p.1))
neighbour size p left = place_within size (pos (p.0)) (pos (p.1 + 1))
neighbour size p right = place_within size (pos (p.0)) (sub_ℕ (p.1) 1)

abbrev pub somes {ℓ} : {A : Type ℓ} → List (Option A) → List A
somes [] = []
somes (none ∷ xs) = somes xs
somes (some x ∷ xs) = x ∷ somes xs

unfoldable pub possible_moves : ℕ → Place → List Place
possible_moves size p = somes (
    neighbour size p left
    ∷ neighbour size p up
    ∷ neighbour size p right
    ∷ neighbour size p down
    ∷ [])

-- `new_state`'s three writes when the tile at `p` slides.
unfoldable pub slide_tile : GameState → Place → GameState
slide_tile s p = record s {
  grid = set_cell (set_cell s.grid s.empty_pos (cell s.grid p)) p 0;
  empty_pos = p;
}

-- `grid[r][c], grid[new_r][new_c] = grid[new_r][new_c], grid[r][c]`.
unfoldable pub swap_empty : GameState → Place → GameState
swap_empty s p = record s {
  grid = set_cell (set_cell s.grid s.empty_pos (cell s.grid p)) p (cell s.grid s.empty_pos);
  empty_pos = p;
}

unfoldable pub shuffle_move : ℕ → GameState → GameState
shuffle_move draw s =
    let moves = possible_moves s.size s.empty_pos in
    elim moves [ [] ↦ s | m ∷ ms ↦ swap_empty s (get_or (m ∷ ms) (draw % length (m ∷ ms)) m) ]

-- One draw for each of the `shuffle_moves`.
unfoldable pub shuffle : List ℕ → GameState → GameState
shuffle [] s = s
shuffle (draw ∷ draws) s = shuffle draws (shuffle_move draw s)

unfoldable pub solved_grid : ℕ → Grid
solved_grid size =
    set_cell (map (λ r. range_from (r * size + 1) size) (range size)) (size - 1, size - 1) 0

abbrev pub solved : ℕ → GameState
solved size = record {
  size = size;
  grid = solved_grid size;
  solution = solved_grid size;
  empty_pos = (size - 1, size - 1);
}

-- `none` is the `IndexError` of an empty board.
unfoldable pub generate : ℕ → List ℕ → Option GameState
generate size draws = if size == 0 then none else some (shuffle draws (solved size))

abbrev pub eq_row : List ℕ → List ℕ → Bool
eq_row [] [] = true
eq_row [] (y ∷ ys) = false
eq_row (x ∷ xs) [] = false
eq_row (x ∷ xs) (y ∷ ys) = (x == y) && eq_row xs ys

unfoldable pub eq_grid : Grid → Grid → Bool
eq_grid [] [] = true
eq_grid [] (y ∷ ys) = false
eq_grid (x ∷ xs) [] = false
eq_grid (x ∷ xs) (y ∷ ys) = eq_row x y && eq_grid xs ys

-- What a step returns; a reward is 0.0 or 1.0.
pub record Outcome : Type 0 where
  pub response : Response
  pub reward : ℕ
  pub is_terminated : Bool
  pub new_state : GameState

abbrev pub no_move : Response → GameState → Outcome
no_move response s = record {
  response = response;
  reward = 0;
  is_terminated = false;
  new_state = s;
}

-- `if move_made: …`.
unfoldable pub after_move : Response → GameState → Outcome
after_move response s =
    if eq_grid s.grid s.solution
    then record { response = congratulations; reward = 1; is_terminated = true; new_state = s }
    else record { response = response; reward = 0; is_terminated = false; new_state = s }

abbrev pub distance : ℕ → ℕ → ℕ
distance a b = (a - b) + (b - a)

-- `abs(r - empty_r) + abs(c - empty_c) == 1`.
unfoldable pub adjacent : Place → Place → Bool
adjacent p q = (distance (p.0) (q.0) + distance (p.1) (q.1)) == 1

abbrev pub before : ℤ → ℤ
before (pos zero) = negsuc 0
before (pos (suc n)) = pos n
before (negsuc n) = negsuc (suc n)

unfoldable pub step : Action → GameState → Outcome
step (slide r c) s = elim (place_within s.size (before r) (before c)) [
  | none ↦ no_move invalid_position s
  | some p ↦
      if adjacent p s.empty_pos
      then after_move (slid_tile (cell s.grid p)) (slide_tile s p)
      else no_move not_adjacent s
]
step malformed_slide s = no_move invalid_format s
step (move d) s = elim (neighbour s.size s.empty_pos d) [
  | none ↦ no_move (cannot_slide d) s
  | some p ↦ after_move (slid_tile_towards (cell s.grid p) d) (slide_tile s p)
]
step unknown s = no_move unknown_command s
