-- ===== src/Puzzle/Correct.antt =====
-- A step keeps the board well-formed, and a move can be taken back.
use ne_mo_rl_enhanced_math_r.Common.{◌≡◌, ap, ◌∙◌, inl, inr, some, Bool-cases, Option-cases}
use ne_mo_rl_enhanced_math_r.Puzzle.Grid.{Place}
use ne_mo_rl_enhanced_math_r.Puzzle.Game.{
  GameState, Direction, Action, slide, malformed_slide, move, unknown, Response, place_within,
  neighbour, slide_tile, eq_grid, after_move, adjacent, before, step,
}
use ne_mo_rl_enhanced_math_r.Puzzle.Moves.{
  WellFormed, place_within-eq_some, neighbour-Inside, opposite, neighbour_ne, neighbour_back,
  adjacent_ne, slide_tile-WellFormed, slide_tile_back,
}

-- The state of an outcome does not depend on what it says.
after_move-new_state : (r : Response) (s : GameState) → (after_move r s).new_state ≡ s
unfolding after_move
after_move-new_state r s = elim (Bool-cases (eq_grid s.grid s.solution)) [
  | inl e ↦ rw e
  | inr e ↦ rw e
]

-- Whatever the action, a step keeps the board well-formed: square, with the empty space where the
-- state says, and with the tiles of the solution.
pub step-WellFormed :
    (s : GameState) (a : Action) → WellFormed s → WellFormed ((step a s).new_state)
unfolding step
step-WellFormed s (slide r c) w = elim (Option-cases (place_within s.size (before r) (before c))) [
  | inl e ↦ rw (e, step) w
  | inr (p, e) ↦
      let i = (place_within-eq_some s.size _ _ e).2 in
      elim (Bool-cases (adjacent p s.empty_pos)) [
        | inl f ↦
            rw (e, f, step, after_move-new_state)
              (slide_tile-WellFormed s p w i (adjacent_ne p s.empty_pos f))
        | inr f ↦ rw (e, f, step) w
      ]
]
step-WellFormed s malformed_slide w = w
step-WellFormed s (move d) w = elim (Option-cases (neighbour s.size s.empty_pos d)) [
  | inl e ↦ rw (e, step) w
  | inr (p, e) ↦
      rw (e, step, after_move-new_state)
        (slide_tile-WellFormed s p w (neighbour-Inside s.size s.empty_pos d e)
          (neighbour_ne s.size s.empty_pos p d e))
]
step-WellFormed s unknown w = w

-- The state after a direction.
pub move-new_state :
    (s : GameState) (d : Direction) {p : Place}
    → neighbour s.size s.empty_pos d ≡ some p
    → (step (move d) s).new_state ≡ slide_tile s p
unfolding step
move-new_state s d {p} e = rw (e, step, after_move-new_state)

-- A direction that moves a tile is undone, to the very same state, by the opposite direction.
pub step_undo :
    (s : GameState) (d : Direction) (p : Place)
    → WellFormed s
    → neighbour s.size s.empty_pos d ≡ some p
    → (step (move (opposite d)) ((step (move d) s).new_state)).new_state ≡ s
unfolding slide_tile
step_undo s d p w e =
    let back = neighbour_back s.size s.empty_pos p d w.inside e in
    ap (λ t. (step (move (opposite d)) t).new_state) (move-new_state s d e)
    ∙ move-new_state (slide_tile s p) (opposite d) back
    ∙ slide_tile_back s p w (neighbour-Inside s.size s.empty_pos d e)
        (neighbour_ne s.size s.empty_pos p d e)
