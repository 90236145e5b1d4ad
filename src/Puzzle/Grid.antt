-- ===== src/Puzzle/Grid.antt =====
-- The board of nemo_rl/environments/games/sliding_puzzle.py: rows of numbers, 0 the empty space.
use ne_mo_rl_enhanced_math_r.Common.{
  ℕ, zero, suc, ◌+◌, ◌<◌, ◌≡◌, refl, sym, ap, ◌∙◌, inl, inr, List, [], ◌∷◌, arith, ◌==◌,
  if◌then◌else◌, Bool-cases, length, get_or, modify, length-modify, get_or-modify_ne,
  get_or-modify_self, All, All-get_or, All-modify,
}

abbrev pub Grid : Type 0
Grid = List (List ℕ)

-- A row and a column, from 0.
abbrev pub Place : Type 0
Place = ℕ × ℕ

-- `grid[r][c]`.
unfoldable pub cell : Grid → Place → ℕ
cell grid p = get_or (get_or grid (p.0) []) (p.1) 0

-- `grid[r][c] = v`.
unfoldable pub set_cell : Grid → Place → ℕ → Grid
set_cell grid p v = modify (p.0) (λ row. modify (p.1) (λ _. v) row) grid

module _ {ℓ} {A : Type ℓ} where
  modify_twice :
      (i : ℕ) (f g h : A → A) (xs : List A)
      → ((x : A) → f (g x) ≡ h x)
      → modify i f (modify i g xs) ≡ modify i h xs
  modify_twice i f g h [] e = refl
  modify_twice zero f g h (x ∷ xs) e = ap (λ y. y ∷ xs) (e x)
  modify_twice (suc i) f g h (x ∷ xs) e = ap (λ ys. x ∷ ys) (modify_twice i f g h xs e)

  modify_swap :
      (i j : ℕ) (f g : A → A) (xs : List A)
      → (i ≡ j → (x : A) → f (g x) ≡ g (f x))
      → modify i f (modify j g xs) ≡ modify j g (modify i f xs)
  modify_swap i j f g [] h = refl
  modify_swap zero zero f g (x ∷ xs) h = ap (λ y. y ∷ xs) (h refl x)
  modify_swap zero (suc j) f g (x ∷ xs) h = refl
  modify_swap (suc i) zero f g (x ∷ xs) h = refl
  modify_swap (suc i) (suc j) f g (x ∷ xs) h =
      ap (λ ys. x ∷ ys) (modify_swap i j f g xs (λ e. h (ap suc e)))

  modify_id :
      (i : ℕ) (f : A → A) (xs : List A) (d : A)
      → f (get_or xs i d) ≡ get_or xs i d
      → modify i f xs ≡ xs
  modify_id i f [] d h = refl
  modify_id zero f (x ∷ xs) d h = ap (λ y. y ∷ xs) h
  modify_id (suc i) f (x ∷ xs) d h = ap (λ ys. x ∷ ys) (modify_id i f xs d h)

  get_or-modify_fixed :
      (i : ℕ) (f : A → A) (xs : List A) (d : A)
      → f d ≡ d
      → get_or (modify i f xs) i d ≡ f (get_or xs i d)
  get_or-modify_fixed i f [] d h = sym h
  get_or-modify_fixed zero f (x ∷ xs) d h = refl
  get_or-modify_fixed (suc i) f (x ∷ xs) d h = get_or-modify_fixed i f xs d h

pub set_cell_twice :
    (grid : Grid) (p : Place) (v w : ℕ) → set_cell (set_cell grid p v) p w ≡ set_cell grid p w
unfolding set_cell
set_cell_twice grid p v w =
    modify_twice (p.0) _ _ _ grid (λ row. modify_twice (p.1) _ _ _ row (λ _. refl))

pub set_cell_swap :
    (grid : Grid) (p q : Place) (v w : ℕ)
    → (p ≡ q → ⊥)
    → set_cell (set_cell grid q w) p v ≡ set_cell (set_cell grid p v) q w
unfolding set_cell
set_cell_swap grid (r, c) (r', c') v w h =
    modify_swap r r' _ _ grid λ e row. modify_swap c c' _ _ row λ e' _. absurd (h (rw (e, e')))

pub set_cell_id : (grid : Grid) (p : Place) → set_cell grid p (cell grid p) ≡ grid
unfolding set_cell cell
set_cell_id grid p = modify_id (p.0) _ grid [] (modify_id (p.1) _ (get_or grid (p.0) []) 0 refl)

-- The board has `size` rows of `size` numbers.
abbrev pub Square : ℕ → Grid → Type 0
Square size grid = (length grid ≡ size) × All (λ row. length row ≡ size) grid

abbrev pub Inside : ℕ → Place → Type 0
Inside size p = (p.0 < size) × (p.1 < size)

pub set_cell-Square :
    (size : ℕ) (grid : Grid) (p : Place) (v : ℕ)
    → Square size grid
    → Square size (set_cell grid p v)
unfolding set_cell
set_cell-Square size grid (r, c) v (rows, columns) = (
  length-modify r _ grid ∙ rows,
  All-modify _ r _ grid (λ row h. length-modify c _ row ∙ h) columns,
)

pub cell-set_cell_self :
    (size : ℕ) (grid : Grid) (p : Place) (v : ℕ)
    → Square size grid
    → Inside size p
    → cell (set_cell grid p v) p ≡ v
unfolding set_cell cell
cell-set_cell_self size grid (r, c) v (rows, columns) (hr, hc) =
    let inside : r < length grid = omega (arith, rows, hr) in
    let width = All-get_or _ r grid [] columns inside in
    rw (get_or-modify_self r (λ row. modify c (λ _. v) row) grid [] inside)
      (get_or-modify_self c (λ _. v) (get_or grid r []) 0 (omega (arith, width, hc)))

pub cell-set_cell_ne :
    (grid : Grid) (p q : Place) (v : ℕ) → (p ≡ q → ⊥) → cell (set_cell grid p v) q ≡ cell grid q
unfolding set_cell cell
cell-set_cell_ne grid (r, c) (r', c') v h = elim (Bool-cases (r == r')) [
  | inl e ↦
      let same : r ≡ r' = ground (arith, e) in
      ap (λ row. get_or row c' 0)
        (ap (λ k. get_or (modify r (λ row. modify c (λ _. v) row) grid) k []) (sym same)
          ∙ get_or-modify_fixed r (λ row. modify c (λ _. v) row) grid [] refl)
      ∙ get_or-modify_ne c c' (λ _. v) (get_or grid r []) 0 (λ f. h (rw (same, f)))
      ∙ ap (λ k. get_or (get_or grid k []) c' 0) same
  | inr e ↦
      ap (λ row. get_or row c' 0)
        (get_or-modify_ne r r' (λ row. modify c (λ _. v) row) grid [] (λ f. ground (arith, e, f)))
]

-- How often a number occurs in a row, and on the board.
abbrev pub count : ℕ → List ℕ → ℕ
count v [] = 0
count v (x ∷ xs) = (if v == x then 1 else 0) + count v xs

abbrev pub tally : ℕ → Grid → ℕ
tally v [] = 0
tally v (row ∷ rows) = count v row + tally v rows

count-modify :
    (v c a : ℕ) (row : List ℕ)
    → c < length row
    → count v (modify c (λ _. a) row) + (if v == get_or row c 0 then 1 else 0)
      ≡ count v row + (if v == a then 1 else 0)
count-modify v c a [] h = elim h [ ]
count-modify v zero a (x ∷ xs) h = omega arith
count-modify v (suc c) a (x ∷ xs) h = omega (arith, count-modify v c a xs (omega arith))

tally-modify :
    (v r : ℕ) (f : List ℕ → List ℕ) (grid : Grid)
    → r < length grid
    → tally v (modify r f grid) + count v (get_or grid r [])
      ≡ tally v grid + count v (f (get_or grid r []))
tally-modify v r f [] h = elim h [ ]
tally-modify v zero f (row ∷ rows) h = omega arith
tally-modify v (suc r) f (row ∷ rows) h = omega (arith, tally-modify v r f rows (omega arith))

-- Writing a cell replaces one occurrence.
pub tally-set_cell :
    (size : ℕ) (grid : Grid) (p : Place) (a old v : ℕ)
    → Square size grid
    → Inside size p
    → cell grid p ≡ old
    → tally v (set_cell grid p a) + (if v == old then 1 else 0)
      ≡ tally v grid + (if v == a then 1 else 0)
unfolding set_cell cell
tally-set_cell size grid (r, c) a old v (rows, columns) (hr, hc) e =
    let inside : r < length grid = omega (arith, rows, hr) in
    let width = All-get_or _ r grid [] columns inside in
    let row = get_or grid r [] in
    rw (← e) omega (
      arith,
      tally-modify v r (λ row. modify c (λ _. a) row) grid inside,
      count-modify v c a row (omega (arith, width, hc)),
    )
