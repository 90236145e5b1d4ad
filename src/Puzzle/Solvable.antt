-- ===== src/Puzzle/Solvable.antt =====
-- Every generated puzzle can be solved: the shuffle is made of moves, which can be taken back.
use ne_mo_rl_enhanced_math_r.Common.{
  ℕ, zero, suc, ◌+◌, ◌-◌, ◌*◌, ◌%◌, ◌<◌, ◌≡◌, refl, sym, ap, ◌∙◌, ◌⊎◌, inl, inr, List, [], ◌∷◌, map,
  Option, none, some, arith, range, range_from, length, get_or, length-range_from, length-map, All,
}
use ne_mo_rl_enhanced_math_r.Puzzle.Grid.{
  Place, Square, Inside, set_cell-Square, cell-set_cell_self,
}
use ne_mo_rl_enhanced_math_r.Puzzle.Game.{
  GameState, Direction, up, down, left, right, move, neighbour, somes, possible_moves, slide_tile,
  swap_empty, shuffle_move, shuffle, solved_grid, solved, generate, step,
}
use ne_mo_rl_enhanced_math_r.Puzzle.Moves.{
  WellFormed, neighbour-Inside, opposite, neighbour_ne, slide_tile-WellFormed,
}
use ne_mo_rl_enhanced_math_r.Puzzle.Correct.{step_undo, move-new_state}

-- The state after some directions.
unfoldable pub play : List Direction → GameState → GameState
play [] s = s
play (d ∷ ds) s = play ds ((step (move d) s).new_state)

-- Every possible move of the shuffle is a direction.
somes-get_or {ℓ} :
    {A : Type ℓ} (P : A → Type 0) (xs : List (Option A)) (i : ℕ) (d : A)
    → All (λ o. (a : A) → o ≡ some a → P a) xs
    → i < length (somes xs)
    → P (get_or (somes xs) i d)
somes-get_or P [] i d h l = elim l [ ]
somes-get_or P (none ∷ xs) i d h l = somes-get_or P xs i d (h.1) l
somes-get_or P (some x ∷ xs) zero d h l = h.0 x refl
somes-get_or P (some x ∷ xs) (suc i) d h l = somes-get_or P xs i d (h.1) (omega arith)

possible_moves_directed :
    (size : ℕ) (e m : Place) (i : ℕ) (moves : List Place)
    → possible_moves size e ≡ moves
    → i < length moves
    → (d : Direction) × (neighbour size e d ≡ some (get_or moves i m))
unfolding possible_moves
possible_moves_directed size e m i moves same = rw (← same) λ l.
    somes-get_or (λ p. (d : Direction) × (neighbour size e d ≡ some p))
      (neighbour size e left
        ∷ neighbour size e up
        ∷ neighbour size e right
        ∷ neighbour size e down
        ∷ [])
      i m ((λ a h. (left, h)), ((λ a h. (up, h)), ((λ a h. (right, h)), ((λ a h. (down, h)), tt))))
      l

List-cases {ℓ} : {A : Type ℓ} (xs : List A) → (xs ≡ []) ⊎ ((x : A) × (ys : List A) × (xs ≡ x ∷ ys))
List-cases [] = inl refl
List-cases (x ∷ xs) = inr (x, xs, refl)

swap_empty_lem : (s : GameState) (p : Place) → WellFormed s → swap_empty s p ≡ slide_tile s p
unfolding swap_empty slide_tile
swap_empty_lem s p w = rw (w.blank) refl

-- A draw leaves the board, or slides a tile in some direction.
shuffle_move-cases :
    (draw : ℕ) (s : GameState)
    → WellFormed s
    → (shuffle_move draw s ≡ s)
      ⊎ ((d : Direction) × (p : Place) × (neighbour s.size s.empty_pos d ≡ some p)
          × (shuffle_move draw s ≡ slide_tile s p))
unfolding shuffle_move
shuffle_move-cases draw s w = elim (List-cases (possible_moves s.size s.empty_pos)) [
  | inl e ↦ inl (rw (e, shuffle_move))
  | inr (m, ms, e) ↦
      let i = draw % length (m ∷ ms) in
      let p = get_or (m ∷ ms) i m in
      let (d, h) = possible_moves_directed s.size s.empty_pos m i (m ∷ ms) e (omega arith) in
      inr (d, p, h, rw (e, shuffle_move) (swap_empty_lem s p w))
]

shuffle_move-WellFormed :
    (draw : ℕ) (s : GameState) → WellFormed s → WellFormed (shuffle_move draw s)
shuffle_move-WellFormed draw s w = elim (shuffle_move-cases draw s w) [
  | inl e ↦ rw e w
  | inr (d, p, h, e) ↦ rw e (
      slide_tile-WellFormed s p w (neighbour-Inside s.size s.empty_pos d h)
        (neighbour_ne s.size s.empty_pos p d h))
]

shuffle_move-size : (draw : ℕ) (s : GameState) → WellFormed s → (shuffle_move draw s).size ≡ s.size
unfolding slide_tile
shuffle_move-size draw s w = elim (shuffle_move-cases draw s w) [
  | inl e ↦ rw e
  | inr (_, _, _, e) ↦ rw e
]

-- What can be brought to a state can still be after a draw.
Leads : GameState → GameState → Type 0
Leads s t = (ds : List Direction) × (play ds s ≡ t)

shuffle_move-Leads :
    (draw : ℕ) (s t : GameState) → WellFormed s → Leads s t → Leads (shuffle_move draw s) t
unfolding play Leads slide_tile
shuffle_move-Leads draw s t w (ds, l) = elim (shuffle_move-cases draw s w) [
  | inl e ↦ rw e ((ds, l))
  | inr (d, p, h, e) ↦
      let undo : (step (move (opposite d)) (slide_tile s p)).new_state ≡ s =
        ap (λ u. (step (move (opposite d)) u).new_state) (sym (move-new_state s d h))
        ∙ step_undo s d p w h in
      rw e ((opposite d ∷ ds, ap (play ds) undo ∙ l))
]

shuffle-Leads :
    (draws : List ℕ) (s t : GameState)
    → WellFormed s
    → Leads s t
    → Leads (shuffle draws s) t × WellFormed (shuffle draws s)
unfolding shuffle
shuffle-Leads [] s t w l = (l, w)
shuffle-Leads (draw ∷ draws) s t w l =
    shuffle-Leads draws (shuffle_move draw s) t (shuffle_move-WellFormed draw s w)
      (shuffle_move-Leads draw s t w l)

rows-width :
    (size : ℕ) (rs : List ℕ)
    → All (λ row. length row ≡ size) (map (λ r. range_from (r * size + 1) size) rs)
rows-width size [] = tt
rows-width size (r ∷ rs) = (length-range_from (r * size + 1) size, rows-width size rs)

-- The solved board is well-formed.
solved-WellFormed : (size : ℕ) → 0 < size → WellFormed (solved size)
unfolding solved_grid
solved-WellFormed size h =
    let rows = map (λ r. range_from (r * size + 1) size) (range size) in
    let corner : Place = (size - 1, size - 1) in
    let square : Square size rows =
      (length-map (range size) _ ∙ length-range_from 0 size, rows-width size (range size)) in
    let inside : Inside size corner = (omega (arith, h), omega (arith, h)) in
    record {
      square = set_cell-Square size rows corner 0 square;
      inside = inside;
      blank = cell-set_cell_self size rows corner 0 square inside;
      same_tiles = λ v. refl;
    }

-- For every positive size and all random draws, `generate` returns a well-formed puzzle that some
-- sequence of directions brings to the solved board.
pub generate_solvable :
    (size : ℕ) (draws : List ℕ)
    → 0 < size
    → (s : GameState) × (generate size draws ≡ some s)
      × WellFormed s
      × ((ds : List Direction) × (play ds s ≡ solved size))
unfolding generate Leads play
generate_solvable size draws h =
    let start =
      shuffle-Leads draws (solved size) (solved size) (solved-WellFormed size h) ([], refl) in
    (shuffle draws (solved size), ground (arith, h), start.1, start.0)
