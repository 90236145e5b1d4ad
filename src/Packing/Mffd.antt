-- ===== src/Packing/Mffd.antt =====
-- nemo_rl/data/packing/algorithms.py: `ModifiedFirstFitDecreasingPacker`. An item is a pair
-- (index, size). `size > capacity / 2` is `capacity < 2 * size`: the quotient is exact, or lies
-- strictly between two integers, in floats too while the capacity is below 2 ^ 50.
pub mod Phases
pub mod FirstPhases
pub mod Leftovers
pub mod Indices
pub mod Correct
use ne_mo_rl_enhanced_math_r.Common.{
  ℕ, zero, suc, ◌+◌, ◌-◌, ◌*◌, Bool, true, false, ◌&&◌, ◌||◌, not, List, [], ◌∷◌, ◌++◌, map,
  flatten, Option, none, some, ltb, leb, ◌==◌, if◌then◌else◌, Result, ok, raise, raise_if, ◌>>=◌,
  ◌>>◌, length, enumerate, sum_of, sort_by, insert_at,
}
use mathlib.Core.Option
use ne_mo_rl_enhanced_math_r.Packing.Base.{
  Error, nonpositive_capacity, nonpositive_length, index_error, validate_sequence_lengths,
}

abbrev pub Item : Type 0
Item = ℕ × ℕ

-- `sum(size for _, size in b)`.
abbrev pub bin_size : List Item → ℕ
bin_size = sum_of (λ p. p.1)

pub record Classes : Type 0 where
  pub large : List Item
  pub medium : List Item
  pub small : List Item
  pub tiny : List Item

abbrev pub no_items : Classes
no_items = record { large = []; medium = []; small = []; tiny = [] }

-- The body of the loop of `_classify_items`.
unfoldable pub classify_item : ℕ → Classes → Item → Classes
classify_item capacity c (idx, size) =
    if ltb capacity (2 * size)
    then record c { large = c.large ++ (idx, size) ∷ [] }
    else if ltb capacity (3 * size)
    then record c { medium = c.medium ++ (idx, size) ∷ [] }
    else if ltb capacity (6 * size)
    then record c { small = c.small ++ (idx, size) ∷ [] }
    else record c { tiny = c.tiny ++ (idx, size) ∷ [] }

unfoldable pub classify_items : ℕ → Classes → List Item → Classes
classify_items capacity c [] = c
classify_items capacity c (item ∷ rest) =
    classify_items capacity (classify_item capacity c item) rest

-- `sort(key=size, reverse=True)` and `sort(key=size)`.
abbrev pub ge_size : Item → Item → Bool
ge_size x y = leb y.1 x.1

abbrev pub le_size : Item → Item → Bool
le_size x y = leb x.1 y.1

-- The first element that passes a test is popped; then the last one.
unfoldable pub pop_first : (Item → Bool) → List Item → Option (Item × List Item)
pop_first test [] = none
pop_first test (x ∷ xs) =
    if test x then some (x, xs) else Option.map (λ r. (r.0, x ∷ r.1)) (pop_first test xs)

unfoldable pub pop_last : (Item → Bool) → List Item → Option (Item × List Item)
pop_last test [] = none
pop_last test (x ∷ xs) = elim (pop_last test xs) [
  | some (y, rest) ↦ some (y, x ∷ rest)
  | none ↦ if test x then some (x, xs) else none
]

abbrev pub fits_in : ℕ → Item → Bool
fits_in room x = leb x.1 room

-- Phase 2: a medium item for each bin, the first that fits.
unfoldable pub add_mediums : ℕ → List (List Item) → List Item → List (List Item) × List Item
add_mediums capacity [] medium = ([], medium)
add_mediums capacity (b ∷ bs) medium = elim (pop_first (fits_in (capacity - bin_size b)) medium) [
  | some (x, rest) ↦
      let (bs', medium') = add_mediums capacity bs rest in ((b ++ x ∷ []) ∷ bs', medium')
  | none ↦ let (bs', medium') = add_mediums capacity bs medium in (b ∷ bs', medium')
]

unfoldable pub has_medium : ℕ → List Item → Bool
has_medium capacity [] = false
has_medium capacity ((idx, size) ∷ rest) =
    (ltb capacity (3 * size) && leb (2 * size) capacity) || has_medium capacity rest

-- Phase 3 for one bin: the smallest small item, and the largest that fits beside it. Without a
-- second item the first is popped and dropped, as in the source.
unfoldable pub add_pair : ℕ → List Item → List Item → List Item × List Item
add_pair capacity b (first ∷ second ∷ rest) =
    let room = capacity - bin_size b in
    if ltb room (first.1 + second.1)
    then (b, first ∷ second ∷ rest)
    else elim (pop_last (fits_in (room - first.1)) (second ∷ rest)) [
      | some (x, small') ↦ (b ++ first ∷ x ∷ [], small')
      | none ↦ (b, second ∷ rest)
    ]
add_pair capacity b small = (b, small)

unfoldable pub add_smalls_to : ℕ → List Item → List Item → List Item × List Item
add_smalls_to capacity b small =
    if has_medium capacity b || ltb (length small) 2 then (b, small) else add_pair capacity b small

-- Phase 3: from the last bin to the first.
unfoldable pub add_smalls : ℕ → List (List Item) → List Item → List (List Item) × List Item
add_smalls capacity [] small = ([], small)
add_smalls capacity (b ∷ bs) small =
    let (bs', small') = add_smalls capacity bs small in
    let (b', small'') = add_smalls_to capacity b small' in (b' ∷ bs', small'')

-- `remaining_items[-1][1]`.
abbrev pub last_size : List Item → ℕ
last_size [] = 0
last_size (x ∷ []) = x.1
last_size (x ∷ y ∷ xs) = last_size (y ∷ xs)

-- Phase 4 for one bin: the `while` loop. A round pops one item, so that the number of items is fuel.
unfoldable pub fill_bin : ℕ → ℕ → List Item → List Item → List Item × List Item
fill_bin capacity zero b items = (b, items)
fill_bin capacity (suc fuel) b [] = (b, [])
fill_bin capacity (suc fuel) b (x ∷ xs) = elim (ltb (capacity - bin_size b) (last_size (x ∷ xs))) [
  | true ↦ (b, x ∷ xs)
  | false ↦ elim (pop_first (fits_in (capacity - bin_size b)) (x ∷ xs)) [
    | some (y, rest) ↦ fill_bin capacity fuel (b ++ y ∷ []) rest
    | none ↦ (b, x ∷ xs)
  ]
]

unfoldable pub fill_bins : ℕ → List (List Item) → List Item → List (List Item) × List Item
fill_bins capacity [] items = ([], items)
fill_bins capacity (b ∷ bs) items =
    let (b', items') = fill_bin capacity (length items) b items in
    let (bs', items'') = fill_bins capacity bs items' in (b' ∷ bs', items'')

-- `bisect` on an ascending list: the number of elements that are at most `x`.
unfoldable pub bisect : List ℕ → ℕ → ℕ
bisect [] x = 0
bisect (y ∷ ys) x = if leb y x then suc (bisect ys x) else 0

pub record FfdBins : Type 0 where
  pub ffd_bins : List (List Item)
  pub ffd_bin_sizes : List ℕ

abbrev put_bin : FfdBins → List Item → ℕ → FfdBins
put_bin s new_bin new_size = record {
  ffd_bins = insert_at (bisect s.ffd_bin_sizes new_size) new_bin s.ffd_bins;
  ffd_bin_sizes = insert_at (bisect s.ffd_bin_sizes new_size) new_size s.ffd_bin_sizes;
}

-- Phase 5 for one item: into the emptiest bin, or into a new one.
unfoldable pub add_leftover : ℕ → List (List Item) → List ℕ → Item → Result Error FfdBins
unfolding bisect
add_leftover capacity (b ∷ bs) (s ∷ ss) x =
    if leb x.1 (capacity - s)
    then ok (put_bin (record { ffd_bins = bs; ffd_bin_sizes = ss }) (b ++ x ∷ []) (s + x.1))
    else ok (put_bin (record { ffd_bins = b ∷ bs; ffd_bin_sizes = s ∷ ss }) (x ∷ []) x.1)
add_leftover capacity _ _ x = raise index_error

unfoldable pub add_leftovers : ℕ → FfdBins → List Item → Result Error FfdBins
add_leftovers capacity s [] = ok s
add_leftovers capacity s (x ∷ xs) = do
  s' ← add_leftover capacity s.ffd_bins s.ffd_bin_sizes x
  add_leftovers capacity s' xs

-- `[[idx for idx, _ in b] for b in bins if b]`.
unfoldable pub bin_indices : List (List Item) → List (List ℕ)
bin_indices [] = []
bin_indices ([] ∷ bs) = bin_indices bs
bin_indices ((x ∷ b) ∷ bs) = map (λ p. p.0) (x ∷ b) ∷ bin_indices bs

-- `any(l <= 0 for l in sequence_lengths)`.
abbrev pub any_zero : List ℕ → Bool
any_zero [] = false
any_zero (l ∷ ls) = (l == 0) || any_zero ls

-- `[(i, l) for i, l in enumerate(sequence_lengths)]`.
abbrev pub items_of : List ℕ → List Item
items_of lengths = map (λ (p : ℕ × ℕ). (p.1, p.0)) (enumerate lengths)

-- Phases 1 to 4: the bins of the large items, and the items that are left.
unfoldable pub first_phases : ℕ → List Item → List (List Item) × List Item
first_phases capacity items =
    let c = classify_items capacity no_items items in
    let bins = map (λ (x : Item). x ∷ []) (sort_by ge_size c.large) in
    let (bins₂, medium) = add_mediums capacity bins (sort_by ge_size c.medium) in
    let (bins₃, small) = add_smalls capacity bins₂ (sort_by le_size c.small) in
    fill_bins capacity bins₃ (sort_by ge_size (medium ++ small ++ sort_by le_size c.tiny))

unfoldable pub modified_first_fit_decreasing : ℕ → List ℕ → Result Error (List (List ℕ))
modified_first_fit_decreasing capacity lengths = do
  raise_if (capacity == 0) nonpositive_capacity
  raise_if (any_zero lengths) nonpositive_length
  validate_sequence_lengths capacity lengths
  let (bins, leftovers) = first_phases capacity (items_of lengths)
  s ←
      add_leftovers capacity (record { ffd_bins = [] ∷ []; ffd_bin_sizes = 0 ∷ [] })
        (sort_by ge_size leftovers)
  ok (bin_indices (bins ++ s.ffd_bins))
