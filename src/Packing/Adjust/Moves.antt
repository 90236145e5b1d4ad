-- ===== src/Packing/Adjust/Moves.antt =====
-- One move of `_adjust_bin_count`, and how many moves the bins leave room for.
use mathlib.Core.List.Perm
use mathlib.Core.List.{perm_middle}
use ne_mo_rl_enhanced_math_r.Common.{
  ℕ, zero, suc, ◌+◌, ◌-◌, ◌≤◌, ◌<◌, ◌≡◌, ◌≢◌, refl, ap, ◌∙◌, sym, inl, inr, List, [], ◌∷◌, ◌++◌,
  Perm, flatten, some, arith, ltb, Bool-cases, length, get_or, modify, length-modify,
  get_or-modify_ne, get_or-modify_self, sum_of, All, append_assoc,
}
use ne_mo_rl_enhanced_math_r.Packing.Bins.{append_to-perm}
use ne_mo_rl_enhanced_math_r.Packing.Adjust.{init_of, last_of, find_source, move_sequence}

pub init_of-last_of : (b : List ℕ) → 0 < length b → init_of b ++ last_of b ∷ [] ≡ b
init_of-last_of [] h = absurd (omega arith)
init_of-last_of (x ∷ []) h = refl
init_of-last_of (x ∷ y ∷ b) h = ap (λ t. x ∷ t) (init_of-last_of (y ∷ b) (omega arith))

pub length-init_of : (b : List ℕ) → length (init_of b) ≡ length b - 1
length-init_of [] = omega arith
length-init_of (x ∷ []) = omega arith
length-init_of (x ∷ y ∷ b) = omega (arith, length-init_of (y ∷ b))

pop-perm :
    (i : ℕ) (bins : List (List ℕ))
    → 0 < length (get_or bins i [])
    → Perm (last_of (get_or bins i []) ∷ flatten (modify i init_of bins)) (flatten bins)
unfolding flatten
pop-perm i [] h = absurd (omega arith)
pop-perm zero (b ∷ bs) h =
    Perm.trans (Perm.symm (perm_middle (init_of b) (flatten bs)))
      (rw (← append_assoc (init_of b) (last_of b ∷ []) (flatten bs), init_of-last_of b h) Perm.rfl)
pop-perm (suc i) (b ∷ bs) h =
    Perm.trans (Perm.symm (perm_middle b (flatten (modify i init_of bs))))
      (Perm.append_left b (pop-perm i bs h))

-- A move loses no sequence and makes none up.
pub move_sequence-perm :
    (i j : ℕ) (bins : List (List ℕ))
    → 0 < length (get_or bins i [])
    → j < length bins
    → Perm (flatten (move_sequence i j bins)) (flatten bins)
unfolding move_sequence
move_sequence-perm i j bins h k =
    Perm.trans
      (append_to-perm j (last_of (get_or bins i [])) (modify i init_of bins)
        (omega (arith, length-modify i init_of bins)))
      (pop-perm i bins h)

pub length-move_sequence :
    (i j : ℕ) (bins : List (List ℕ)) → length (move_sequence i j bins) ≡ length bins
unfolding move_sequence
length-move_sequence i j bins =
    length-modify j (λ bin. bin ++ last_of (get_or bins i []) ∷ []) (modify i init_of bins)
    ∙ length-modify i init_of bins

-- The sizes of the other bins stay.
pub size-move_sequence_ne :
    (i j k : ℕ) (bins : List (List ℕ))
    → i ≢ k
    → j ≢ k
    → get_or (move_sequence i j bins) k [] ≡ get_or bins k []
unfolding move_sequence
size-move_sequence_ne i j k bins h g =
    get_or-modify_ne j k (λ bin. bin ++ last_of (get_or bins i []) ∷ []) (modify i init_of bins) []
      g
    ∙ get_or-modify_ne i k init_of bins [] h

-- Bin `i` loses its last sequence, and bin `j` gets it.
pub get_or-move_sequence_source :
    (i j : ℕ) (bins : List (List ℕ))
    → i < length bins
    → i ≢ j
    → get_or (move_sequence i j bins) i [] ≡ init_of (get_or bins i [])
unfolding move_sequence
get_or-move_sequence_source i j bins l h =
    get_or-modify_ne j i (λ bin. bin ++ last_of (get_or bins i []) ∷ []) (modify i init_of bins) []
      (λ e. h (sym e))
    ∙ get_or-modify_self i init_of bins [] l

pub get_or-move_sequence_target :
    (i j : ℕ) (bins : List (List ℕ))
    → j < length bins
    → i ≢ j
    → get_or (move_sequence i j bins) j [] ≡ get_or bins j [] ++ last_of (get_or bins i []) ∷ []
unfolding move_sequence
get_or-move_sequence_target i j bins l h =
    get_or-modify_self j (λ bin. bin ++ last_of (get_or bins i []) ∷ []) (modify i init_of bins) []
      (omega (arith, length-modify i init_of bins))
    ∙ ap (λ b. b ++ last_of (get_or bins i []) ∷ []) (get_or-modify_ne i j init_of bins [] h)

pub size-move_sequence_self :
    (i j : ℕ) (bins : List (List ℕ))
    → i < length bins
    → i ≢ j
    → length (get_or (move_sequence i j bins) i []) ≡ length (get_or bins i []) - 1
size-move_sequence_self i j bins l h =
    ap length (get_or-move_sequence_source i j bins l h) ∙ length-init_of (get_or bins i [])

-- How many sequences the listed bins can give away.
abbrev pub spare : List (List ℕ) → List (ℕ × ℕ) → ℕ
spare bins = sum_of (λ p. length (get_or bins p.1 []) - 1)

-- Every listed bin is named once and stands in front of the new bins.
abbrev pub Sources : ℕ → List (ℕ × ℕ) → Type 0
Sources bound [] = Unit {0}
Sources bound ((size, i) ∷ rest) = (i < bound) × All (λ p. i ≢ p.1) rest × Sources bound rest

spare-move_ne :
    (i j bound : ℕ) (bins : List (List ℕ)) (sources : List (ℕ × ℕ))
    → bound ≤ j
    → All (λ p. i ≢ p.1) sources
    → Sources bound sources
    → spare (move_sequence i j bins) sources ≡ spare bins sources
spare-move_ne i j bound bins [] h a s = refl
spare-move_ne i j bound bins ((size, k) ∷ rest) h a s = omega (
  arith,
  ap length (size-move_sequence_ne i j k bins a.0 (omega arith)),
  spare-move_ne i j bound bins rest h a.1 s.2,
)

pub spare-move_self :
    (i j bound size : ℕ) (bins : List (List ℕ)) (rest : List (ℕ × ℕ))
    → bound ≤ j
    → bound ≤ length bins
    → 1 < length (get_or bins i [])
    → Sources bound ((size, i) ∷ rest)
    → spare (move_sequence i j bins) ((size, i) ∷ rest) + 1 ≡ spare bins ((size, i) ∷ rest)
spare-move_self i j bound size bins rest h l two s = omega (
  arith,
  size-move_sequence_self i j bins (omega arith) (omega arith),
  spare-move_ne i j bound bins rest h s.1 s.2,
)

-- While there is a sequence to spare the search finds a bin, and skips nothing that is spare.
pub find_source_cases :
    (bound : ℕ) (bins : List (List ℕ)) (sources : List (ℕ × ℕ))
    → Sources bound sources
    → 0 < spare bins sources
    → (i : ℕ) × (size : ℕ) × (rest : List (ℕ × ℕ)) × (find_source bins sources
        ≡ some (i, (size, i) ∷ rest))
      × (1 < length (get_or bins i []))
      × Sources bound ((size, i) ∷ rest)
      × (spare bins ((size, i) ∷ rest) ≡ spare bins sources)
unfolding find_source
find_source_cases bound bins [] s h = absurd (omega arith)
find_source_cases bound bins ((size, i) ∷ rest) s h =
    elim (Bool-cases (ltb 1 (length (get_or bins i [])))) [
      | inl e ↦ (i, size, rest, rw e, ground arith, s, refl)
      | inr e ↦
          let (j, m, rest', f, two, s', same) =
            find_source_cases bound bins rest s.2 (ground (arith, e, h)) in
          (j, m, rest', rw (e, f), two, s', ground (arith, e, same))
    ]
