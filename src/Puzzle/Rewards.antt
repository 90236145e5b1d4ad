-- ===== src/Puzzle/Rewards.antt =====
-- When a step gives a reward and ends the game.
use ne_mo_rl_enhanced_math_r.Common.{
  ℕ, zero, suc, ◌+◌, ◌≡◌, ◌≢◌, refl, sym, ap, ◌∙◌, ◌⊎◌, inl, inr, true, false, List, [], ◌∷◌, some,
  arith, ◌==◌, Bool-cases, Option-cases,
}
use ne_mo_rl_enhanced_math_r.Common.Int.{ℤ, pos, negsuc}
use ne_mo_rl_enhanced_math_r.Puzzle.Grid.{Grid, Place, cell, set_cell, Inside}
use ne_mo_rl_enhanced_math_r.Puzzle.Moves.{
  place_within-eq_some, place_within_pos, pos_inj, less_one, less_one_back,
}
use ne_mo_rl_enhanced_math_r.Puzzle.Game.{
  GameState, Direction, Action, slide, malformed_slide, move, up, down, left, right, unknown,
  Response, slid_tile, slid_tile_towards, place_within, neighbour, slide_tile, eq_row, eq_grid,
  Outcome, after_move, adjacent, before, step,
}

eq_row→≡ : (xs ys : List ℕ) → eq_row xs ys ≡ true → xs ≡ ys
eq_row→≡ [] [] e = refl
eq_row→≡ [] (y ∷ ys) e = cc
eq_row→≡ (x ∷ xs) [] e = cc
eq_row→≡ (x ∷ xs) (y ∷ ys) e = elim (Bool-cases (x == y)) [
  | inl f ↦
      let same : x ≡ y = ground (arith, f) in
      rw same (ap (λ zs. y ∷ zs) (eq_row→≡ xs ys (rw f at e)))
  | inr f ↦ let x = rw f at e in cc
]

≡→eq_row : (xs : List ℕ) → eq_row xs xs ≡ true
≡→eq_row [] = refl
≡→eq_row (x ∷ xs) = let f : (x == x) ≡ true = ground arith in rw f (≡→eq_row xs)

eq_grid→≡ : (g h : Grid) → eq_grid g h ≡ true → g ≡ h
unfolding eq_grid
eq_grid→≡ [] [] e = refl
eq_grid→≡ [] (y ∷ ys) e = cc
eq_grid→≡ (x ∷ xs) [] e = cc
eq_grid→≡ (x ∷ xs) (y ∷ ys) e = elim (Bool-cases (eq_row x y)) [
  | inl f ↦ rw (eq_row→≡ x y f) (ap (λ zs. y ∷ zs) (eq_grid→≡ xs ys (rw f at e)))
  | inr f ↦ let x = rw f at e in cc
]

≡→eq_grid : (g : Grid) → eq_grid g g ≡ true
unfolding eq_grid
≡→eq_grid [] = refl
≡→eq_grid (x ∷ xs) = rw (≡→eq_row x) (≡→eq_grid xs)

true≢false : true ≡ false → ⊥
true≢false e = cc

-- One step up, down, left or right.
abbrev IsNextTo : Place → Place → Type 0
IsNextTo (r, c) (r', c') =
    ((r ≡ r') × ((c ≡ c' + 1) ⊎ (c' ≡ c + 1))) ⊎ ((c ≡ c') × ((r ≡ r' + 1) ⊎ (r' ≡ r + 1)))

-- `p` is a place of the board with the tile that the action asks to slide into the empty space.
abbrev pub Asks : GameState → Action → Place → Type 0
Asks s (slide r c) p =
    (r ≡ pos (p.0 + 1)) × (c ≡ pos (p.1 + 1)) × Inside s.size p × IsNextTo p s.empty_pos
Asks s malformed_slide p = ⊥
Asks s (move up) p = (p.0 ≡ (s.empty_pos).0 + 1) × (p.1 ≡ (s.empty_pos).1) × Inside s.size p
Asks s (move down) p = (p.0 + 1 ≡ (s.empty_pos).0) × (p.1 ≡ (s.empty_pos).1) × Inside s.size p
Asks s (move left) p = (p.0 ≡ (s.empty_pos).0) × (p.1 ≡ (s.empty_pos).1 + 1) × Inside s.size p
Asks s (move right) p = (p.0 ≡ (s.empty_pos).0) × (p.1 + 1 ≡ (s.empty_pos).1) × Inside s.size p
Asks s unknown p = ⊥

-- A board with the tile of `p` and the empty space exchanged; a reward and an end exactly where that
-- is the solution.
abbrev pub Moves : GameState → Place → Outcome → Type 0
Moves s p o =
    let grid = set_cell (set_cell s.grid s.empty_pos (cell s.grid p)) p 0 in
    (o.new_state ≡ record s { grid = grid; empty_pos = p })
    × (((grid ≡ s.solution) × (o.reward ≡ 1) × (o.is_terminated ≡ true))
        ⊎ ((grid ≢ s.solution) × (o.reward ≡ 0) × (o.is_terminated ≡ false)))

abbrev pub Stays : GameState → Outcome → Type 0
Stays s o = (o.new_state ≡ s) × (o.reward ≡ 0) × (o.is_terminated ≡ false)

after_move-Moves :
    (r : Response) (s : GameState) (p : Place) → Moves s p (after_move r (slide_tile s p))
unfolding after_move slide_tile
after_move-Moves r s p =
    let grid = set_cell (set_cell s.grid s.empty_pos (cell s.grid p)) p 0 in
    elim (Bool-cases (eq_grid grid s.solution)) [
      | inl e ↦ rw e (refl, inl (eq_grid→≡ grid s.solution e, refl, refl))
      | inr e ↦
          let other : grid ≢ s.solution = λ same.
            true≢false
              (sym (≡→eq_grid s.solution) ∙ ap (λ g. eq_grid g s.solution) (sym same) ∙ e) in
          rw e (refl, inr (other, refl, refl))
    ]

adjacent→ : (p q : Place) → adjacent p q ≡ true → IsNextTo p q
unfolding adjacent
adjacent→ (r, c) (r', c') e = ground (arith, e)

→adjacent : (p q : Place) → IsNextTo p q → adjacent p q ≡ true
unfolding adjacent
→adjacent (r, c) (r', c') h = ground (arith, h)

before-pos : (z : ℤ) (n : ℕ) → before z ≡ pos n → z ≡ pos (n + 1)
before-pos (pos zero) n e = cc
before-pos (pos (suc m)) n e = ground (arith, e)
before-pos (negsuc m) n e = cc

before_pos : (n : ℕ) → before (pos (n + 1)) ≡ pos n
before_pos n = ground arith

slide-place :
    (s : GameState) (r c : ℤ) (p : Place)
    → Asks s (slide r c) p
    → place_within s.size (before r) (before c) ≡ some p
slide-place s r c p (hr, hc, inside, _) =
    rw (hr, hc, before_pos (p.0), before_pos (p.1)) (place_within_pos s.size p inside)

move-place :
    (s : GameState) (d : Direction) (p : Place)
    → Asks s (move d) p
    → neighbour s.size s.empty_pos d ≡ some p
unfolding neighbour
move-place s up p (a, b, inside) = rw (← a, ← b) (place_within_pos s.size p inside)
move-place s down p (a, b, inside) =
    rw (less_one_back ((s.empty_pos).0) (p.0) a, ← b) (place_within_pos s.size p inside)
move-place s left p (a, b, inside) = rw (← a, ← b) (place_within_pos s.size p inside)
move-place s right p (a, b, inside) =
    rw (less_one_back ((s.empty_pos).1) (p.1) b, ← a) (place_within_pos s.size p inside)

place-move :
    (s : GameState) (d : Direction) (p : Place)
    → neighbour s.size s.empty_pos d ≡ some p
    → Asks s (move d) p
unfolding neighbour
place-move s up p e =
    let (a, b, i) = place_within-eq_some s.size _ _ e in
    (sym (pos_inj _ _ a), sym (pos_inj _ _ b), i)
place-move s down p e =
    let (a, b, i) = place_within-eq_some s.size _ _ e in
    (sym (less_one _ _ a), sym (pos_inj _ _ b), i)
place-move s left p e =
    let (a, b, i) = place_within-eq_some s.size _ _ e in
    (sym (pos_inj _ _ a), sym (pos_inj _ _ b), i)
place-move s right p e =
    let (a, b, i) = place_within-eq_some s.size _ _ e in
    (sym (pos_inj _ _ a), sym (less_one _ _ b), i)

-- A step either exchanges the empty space with the tile that the action asks for, a tile of the
-- board next to it, with a reward of 1 and an end of the game when the new board is the solution
-- and neither otherwise; or the action asks for no such tile, and the step changes nothing, gives no
-- reward and does not end the game.
pub step-Moves :
    (s : GameState) (a : Action)
    → ((p : Place) × Asks s a p × Moves s p (step a s))
      ⊎ (((p : Place) × Asks s a p → ⊥) × Stays s (step a s))
unfolding step
step-Moves s (slide r c) = elim (Option-cases (place_within s.size (before r) (before c))) [
  | inl e ↦
      inr ((λ (p, asked). let x = slide-place s r c p asked in cc), rw (e, step) (refl, refl, refl))
  | inr (p, e) ↦
      let (hr, hc, inside) = place_within-eq_some s.size _ _ e in
      elim (Bool-cases (adjacent p s.empty_pos)) [
        | inl f ↦ inl (
          p,
          (before-pos r (p.0) hr, before-pos c (p.1) hc, inside, adjacent→ p s.empty_pos f),
          rw (e, f, step) (after_move-Moves (slid_tile (cell s.grid p)) s p),
        )
        | inr f ↦ inr (
          (λ (q, asked).
              let found = slide-place s r c q asked in
              let next = →adjacent q s.empty_pos (asked.3) in cc),
          rw (e, f, step) (refl, refl, refl),
        )
      ]
]
step-Moves s malformed_slide = inr ((λ (p, asked). asked), (refl, refl, refl))
step-Moves s (move d) = elim (Option-cases (neighbour s.size s.empty_pos d)) [
  | inl e ↦
      inr ((λ (p, asked). let x = move-place s d p asked in cc), rw (e, step) (refl, refl, refl))
  | inr (p, e) ↦ inl (
    p,
    place-move s d p e,
    rw (e, step) (after_move-Moves (slid_tile_towards (cell s.grid p) d) s p),
  )
]
step-Moves s unknown = inr ((λ (p, asked). asked), (refl, refl, refl))
