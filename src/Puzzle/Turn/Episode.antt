-- ===== src/Puzzle/Turn/Episode.antt =====
-- A whole game: turns until one is the last, each with the metadata that the one before it gave.
use ne_mo_rl_enhanced_math_r.Common.{
  ℕ, ◌+◌, ◌-◌, ◌≤◌, ◌<◌, ◌≡◌, refl, inl, inr, Bool, true, false, List, [], ◌∷◌, map, Option, none,
  some, arith, leb, if◌then◌else◌, Bool-cases, Option-cases, length, sum,
}
use ne_mo_rl_enhanced_math_r.Puzzle.Game.{
  GameState, Action, slide, malformed_slide, move, unknown, Response, step, place_within, neighbour,
  before, adjacent, slide_tile, after_move, eq_grid,
}
use ne_mo_rl_enhanced_math_r.Puzzle.Moves.{WellFormed}
use ne_mo_rl_enhanced_math_r.Puzzle.Correct.{step-WellFormed}
use ne_mo_rl_enhanced_math_r.Puzzle.Turn.{
  Metadata, Command, view, act, TurnResult, take_action, follow_command, process_turn,
}

-- What the next turn starts from: no new metadata keeps the old.
abbrev pub carry : Metadata → Option Metadata → Metadata
carry m none = m
carry m (some m') = m'

unfoldable pub episode : List (Option Command) → Metadata → List TurnResult
episode [] m = []
episode (c ∷ cs) m =
    let result = process_turn c m in
    let rest = episode cs (carry m result.next_metadata) in
    if result.is_terminated then result ∷ [] else result ∷ rest

abbrev pub rewards : List TurnResult → ℕ
rewards rs = sum (map (λ (r : TurnResult). r.reward) rs)

-- The metadata of a game in progress.
pub record InPlay (m : Metadata) : Type 0 where
  pub board : WellFormed m.game_state
  pub moves : m.num_moves ≤ m.max_moves

-- No reward before the last turn, and at most 1 in it.
Scores : Bool → ℕ → Type 0
Scores is_terminated reward = (is_terminated ≡ false → reward ≡ 0) × (reward ≤ 1)

no_reward : (b : Bool) → Scores b 0
unfolding Scores
no_reward b = ((λ _. refl), omega arith)

after_move-Scores :
    (r : Response) (s : GameState)
    → Scores ((after_move r s).is_terminated) ((after_move r s).reward)
unfolding Scores after_move
after_move-Scores r s = elim (Bool-cases (eq_grid s.grid s.solution)) [
  | inl e ↦ rw e ((λ h. cc), omega arith)
  | inr e ↦ rw e ((λ _. refl), omega arith)
]

step-Scores : (s : GameState) (a : Action) → Scores ((step a s).is_terminated) ((step a s).reward)
unfolding step
step-Scores s (slide r c) = elim (Option-cases (place_within s.size (before r) (before c))) [
  | inl e ↦ rw (e, step) (no_reward false)
  | inr (p, e) ↦ elim (Bool-cases (adjacent p s.empty_pos)) [
    | inl f ↦ rw (e, f, step) (after_move-Scores _ (slide_tile s p))
    | inr f ↦ rw (e, f, step) (no_reward false)
  ]
]
step-Scores s malformed_slide = no_reward false
step-Scores s (move d) = elim (Option-cases (neighbour s.size s.empty_pos d)) [
  | inl e ↦ rw (e, step) (no_reward false)
  | inr (p, e) ↦ rw (e, step) (after_move-Scores _ (slide_tile s p))
]
step-Scores s unknown = no_reward false

follow_command-Scores :
    (c : Option Command) (m : Metadata)
    → Scores ((follow_command c m).is_terminated) ((follow_command c m).reward)
unfolding follow_command take_action
follow_command-Scores none m = no_reward false
follow_command-Scores (some view) m = no_reward false
follow_command-Scores (some (act a)) m = step-Scores m.game_state a

process_turn-Scores :
    (c : Option Command) (m : Metadata)
    → Scores ((process_turn c m).is_terminated) ((process_turn c m).reward)
unfolding process_turn
process_turn-Scores c m = elim (Bool-cases (leb m.max_moves m.num_moves)) [
  | inl e ↦ rw e (no_reward true)
  | inr e ↦ rw e (follow_command-Scores c m)
]

-- However a game is played, its rewards add up to at most 1.
pub episode-rewards_le :
    (commands : List (Option Command)) (m : Metadata) → rewards (episode commands m) ≤ 1
unfolding episode Scores
episode-rewards_le [] m = omega arith
episode-rewards_le (c ∷ cs) m =
    let result = process_turn c m in
    let (before_last, last) = process_turn-Scores c m in
    let rest = episode-rewards_le cs (carry m result.next_metadata) in
    elim (Bool-cases result.is_terminated) [
      | inl e ↦ rw e (omega (arith, last))
      | inr e ↦ rw e (omega (arith, before_last e, rest))
    ]

take_action-next :
    (a : Action) (m : Metadata)
    → InPlay m
    → m.num_moves < m.max_moves
    → InPlay (carry m ((take_action a m).next_metadata))
unfolding take_action
take_action-next a m p l = elim (Bool-cases ((step a m.game_state).is_terminated)) [
  | inl e ↦ rw e p
  | inr e ↦ rw e record { board = step-WellFormed m.game_state a p.board; moves = omega (arith, l) }
]

-- After any turn the game is still in play: a well-formed board, and no more moves than allowed.
process_turn-InPlay :
    (command : Option Command) (m : Metadata)
    → InPlay m
    → InPlay (carry m ((process_turn command m).next_metadata))
unfolding process_turn follow_command
process_turn-InPlay c m p = elim (Bool-cases (leb m.max_moves m.num_moves)) [
  | inl e ↦ rw e p
  | inr e ↦ elim c as (λ c. InPlay (carry m ((process_turn c m).next_metadata))) [
    | none ↦ rw e p
    | some view ↦ rw e p
    | some (act a) ↦ rw e (take_action-next a m p (ground (arith, e)))
  ]
]

-- A turn that acts and is not the last counts a move.
process_turn-counts :
    (a : Action) (m : Metadata)
    → (process_turn (some (act a)) m).is_terminated ≡ false
    → let next = carry m ((process_turn (some (act a)) m).next_metadata) in
      (m.num_moves < m.max_moves)
      × (next.num_moves ≡ m.num_moves + 1)
      × (next.max_moves ≡ m.max_moves)
unfolding process_turn follow_command take_action
process_turn-counts a m h = elim (Bool-cases (leb m.max_moves m.num_moves)) [
  | inl e ↦ let x = rw (e, process_turn) at h in cc
  | inr e ↦
      let f : (step a m.game_state).is_terminated ≡ false = rw e at h in
      rw (e, f) ((ground (arith, e)), refl, refl)
]

-- A model that always acts has its game ended after at most one turn more than the moves left.
pub episode-length_le :
    (actions : List Action) (m : Metadata)
    → length (episode (map (λ a. some (act a)) actions) m) ≤ (m.max_moves - m.num_moves) + 1
unfolding episode
episode-length_le [] m = omega arith
episode-length_le (a ∷ rest) m =
    let result = process_turn (some (act a)) m in
    elim (Bool-cases result.is_terminated) [
      | inl e ↦ rw e (omega arith)
      | inr e ↦
          let (l, counted, same) = process_turn-counts a m e in
          let bound = episode-length_le rest (carry m result.next_metadata) in
          rw e (omega (arith, l, counted, same, bound))
    ]
