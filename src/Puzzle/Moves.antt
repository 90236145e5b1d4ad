-- ===== src/Puzzle/Moves.antt =====
-- A well-formed board, and what a single move does to it.
use ne_mo_rl_enhanced_math_r.Common.{
  ℕ, ◌+◌, ◌<◌, ◌≡◌, sym, ap, ◌∙◌, inl, inr, true, Option, some, arith, Option-cases,
}
use ne_mo_rl_enhanced_math_r.Common.Int.{ℤ, pos, negsuc, sub_ℕ}
use ne_mo_rl_enhanced_math_r.Puzzle.Grid.{
  Grid, Place, cell, set_cell, Square, Inside, set_cell_twice, set_cell_swap, set_cell_id,
  set_cell-Square, cell-set_cell_self, cell-set_cell_ne, tally, tally-set_cell,
}
use ne_mo_rl_enhanced_math_r.Puzzle.Game.{
  GameState, Direction, up, down, left, right, within, place_within, neighbour, slide_tile,
  adjacent,
}

-- A square board whose empty space is where the state says, with the tiles of the solution.
pub record WellFormed (s : GameState) : Type 0 where
  pub square : Square s.size s.grid
  pub inside : Inside s.size s.empty_pos
  pub blank : cell s.grid s.empty_pos ≡ 0
  pub same_tiles : (v : ℕ) → tally v s.grid ≡ tally v s.solution

within-eq_some : (size : ℕ) (z : ℤ) {n : ℕ} → within size z ≡ some n → (z ≡ pos n) × (n < size)
unfolding within
within-eq_some size (pos m) {n} e = ground (arith, e)
within-eq_some size (negsuc m) e = cc

within_pos : (size n : ℕ) → n < size → within size (pos n) ≡ some n
unfolding within
within_pos size n h = ground (arith, h)

pub place_within-eq_some :
    (size : ℕ) (r c : ℤ) {p : Place}
    → place_within size r c ≡ some p
    → (r ≡ pos (p.0)) × (c ≡ pos (p.1)) × Inside size p
unfolding place_within
place_within-eq_some size r c {p} e = elim (Option-cases (within size r)) [
  | inl f ↦ let x = rw (f, place_within) at e in cc
  | inr (r', f) ↦ elim (Option-cases (within size c)) [
    | inl g ↦ let x = rw (f, g, place_within) at e in cc
    | inr (c', g) ↦
        let x : ◌≡◌ {A = Option Place} (some (r', c')) (some p) = rw (f, g, place_within) at e in
        let (er, hr) = within-eq_some size r f in
        let (ec, hc) = within-eq_some size c g in
        let same : ◌≡◌ {A = Place} (r', c') p = cc in rw (← same) ((er, ec, (hr, hc)))
  ]
]

pub place_within_pos :
    (size : ℕ) (p : Place) → Inside size p → place_within size (pos (p.0)) (pos (p.1)) ≡ some p
unfolding place_within
place_within_pos size (r, c) (hr, hc) =
    rw (within_pos size r hr, within_pos size c hc, place_within)

pub neighbour-Inside :
    (size : ℕ) (e : Place) (d : Direction) {p : Place} → neighbour size e d ≡ some p → Inside size p
unfolding neighbour
neighbour-Inside size e up h = (place_within-eq_some size _ _ h).2
neighbour-Inside size e down h = (place_within-eq_some size _ _ h).2
neighbour-Inside size e left h = (place_within-eq_some size _ _ h).2
neighbour-Inside size e right h = (place_within-eq_some size _ _ h).2

abbrev pub opposite : Direction → Direction
opposite up = down
opposite down = up
opposite left = right
opposite right = left

pub pos_inj : (m n : ℕ) → pos m ≡ pos n → m ≡ n
pos_inj m n e = ground (arith, e)

pub less_one : (n m : ℕ) → sub_ℕ n 1 ≡ pos m → n ≡ m + 1
less_one n m e = ground (arith, e)

pub neighbour_ne :
    (size : ℕ) (e p : Place) (d : Direction) → neighbour size e d ≡ some p → (e ≡ p → ⊥)
unfolding neighbour
neighbour_ne size e p up h same =
    let (a, b, _) = place_within-eq_some size _ _ h in
    let x : e.0 ≡ p.0 = ap (λ q. q.0) same in omega (arith, x, pos_inj _ _ a)
neighbour_ne size e p down h same =
    let (a, b, _) = place_within-eq_some size _ _ h in
    let x : e.0 ≡ p.0 = ap (λ q. q.0) same in omega (arith, x, less_one _ _ a)
neighbour_ne size e p left h same =
    let (a, b, _) = place_within-eq_some size _ _ h in
    let x : e.1 ≡ p.1 = ap (λ q. q.1) same in omega (arith, x, pos_inj _ _ b)
neighbour_ne size e p right h same =
    let (a, b, _) = place_within-eq_some size _ _ h in
    let x : e.1 ≡ p.1 = ap (λ q. q.1) same in omega (arith, x, less_one _ _ b)

pub less_one_back : (n m : ℕ) → m + 1 ≡ n → sub_ℕ n 1 ≡ pos m
less_one_back n m e = ground (arith, e)

pub neighbour_back :
    (size : ℕ) (e p : Place) (d : Direction)
    → Inside size e
    → neighbour size e d ≡ some p
    → neighbour size p (opposite d) ≡ some e
unfolding neighbour
neighbour_back size e p up i h =
    let (a, b, _) = place_within-eq_some size _ _ h in
    rw (less_one_back (p.0) (e.0) (pos_inj _ _ a)) (rw (← b) (place_within_pos size e i))
neighbour_back size e p down i h =
    let (a, b, _) = place_within-eq_some size _ _ h in
    rw (← less_one (e.0) (p.0) a) (rw (← b) (place_within_pos size e i))
neighbour_back size e p left i h =
    let (a, b, _) = place_within-eq_some size _ _ h in
    rw (less_one_back (p.1) (e.1) (pos_inj _ _ b)) (rw (← a) (place_within_pos size e i))
neighbour_back size e p right i h =
    let (a, b, _) = place_within-eq_some size _ _ h in
    rw (← less_one (e.1) (p.1) b) (rw (← a) (place_within_pos size e i))

pub adjacent_ne : (p e : Place) → adjacent p e ≡ true → (e ≡ p → ⊥)
unfolding adjacent
adjacent_ne p e h same =
    let x : e.0 ≡ p.0 = ap (λ q. q.0) same in
    let y : e.1 ≡ p.1 = ap (λ q. q.1) same in ground (arith, h, x, y)

-- A slide moves one tile: the board stays a well-formed one.
pub slide_tile-WellFormed :
    (s : GameState) (p : Place)
    → WellFormed s
    → Inside s.size p
    → (s.empty_pos ≡ p → ⊥)
    → WellFormed (slide_tile s p)
unfolding slide_tile
slide_tile-WellFormed s p w i ne =
    let tile = cell s.grid p in
    let moved = set_cell s.grid s.empty_pos tile in
    let square = set_cell-Square s.size s.grid s.empty_pos tile w.square in
    record {
      square = set_cell-Square s.size moved p 0 square;
      inside = i;
      blank = cell-set_cell_self s.size moved p 0 square i;
      same_tiles = λ v. omega (
        arith,
        tally-set_cell s.size s.grid s.empty_pos tile 0 v w.square w.inside w.blank,
        tally-set_cell s.size moved p 0 tile v square i
            (cell-set_cell_ne s.grid s.empty_pos p tile ne),
        w.same_tiles v,
      );
    }

-- Sliding the same tile back restores the whole state.
pub slide_tile_back :
    (s : GameState) (p : Place)
    → WellFormed s
    → Inside s.size p
    → (s.empty_pos ≡ p → ⊥)
    → slide_tile (slide_tile s p) s.empty_pos ≡ s
unfolding slide_tile
slide_tile_back s p w i ne =
    let e = s.empty_pos in
    let tile = cell s.grid p in
    let moved = set_cell s.grid e tile in
    let slid = set_cell moved p 0 in
    let tile_back : cell slid e ≡ tile =
      cell-set_cell_ne moved p e 0 (λ same. ne (sym same))
      ∙ cell-set_cell_self s.size s.grid e tile w.square w.inside in
    let blank_back : set_cell s.grid e 0 ≡ s.grid =
      ap (set_cell s.grid e) (sym w.blank) ∙ set_cell_id s.grid e in
    let grid_back : set_cell (set_cell slid p (cell slid e)) e 0 ≡ s.grid =
      ap (λ t. set_cell (set_cell slid p t) e 0) tile_back
      ∙ ap (λ g. set_cell g e 0) (set_cell_twice moved p 0 tile)
      ∙ set_cell_swap moved e p 0 tile ne
      ∙ ap (λ g. set_cell g p tile) (set_cell_twice s.grid e tile 0 ∙ blank_back)
      ∙ set_cell_id s.grid p in
    ap (λ (g : Grid). record s { grid = g }) grid_back
