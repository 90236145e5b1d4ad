-- ===== src/Sharding/Select.antt =====
-- nemo_rl/distributed/named_sharding.py: `get_ranks_by_coord`, `get_ranks` and what is asked of
-- one axis. A slicing index is a number, or `none` for `slice(None)`.
use ne_mo_rl_enhanced_math_r.Common.{
  ℕ, ◌*◌, List, [], ◌∷◌, map, Option, none, some, ltb, leb, ◌==◌, if◌then◌else◌, Result, ok, raise,
  ◌>>=◌, ◌⊎◌, inl, inr, Dict, lookup, length, set, take, drop, replicate, range, flatten,
}
use ne_mo_rl_enhanced_math_r.Sharding.{
  Error, invalid_axis, key_error, index_out_of_bounds, not_one_rank, NamedSharding, product, init,
  name_to_axis, shape,
}

-- Row `i` of an array whose rows have `size` entries.
abbrev pub block : (size i : ℕ) → List ℕ → List ℕ
block size i layout = take size (drop (i * size) layout)

-- `layout[tuple(indices)]`, its entries in row order.
abbrev pub subset : List ℕ → List (Option ℕ) → List ℕ → List ℕ
subset [] indices layout = layout
subset (n ∷ dims) [] layout = layout
subset (n ∷ dims) (none ∷ indices) layout =
    flatten (map (λ i. subset dims indices (block (product dims) i layout)) (range n))
subset (n ∷ dims) (some i ∷ indices) layout = subset dims indices (block (product dims) i layout)

-- The entries of a list whose index is `slice(None)`: the axes that are left.
abbrev pub remaining : List ℕ → List (Option ℕ) → List ℕ
remaining [] indices = []
remaining (x ∷ xs) [] = x ∷ xs
remaining (x ∷ xs) (none ∷ indices) = x ∷ remaining xs indices
remaining (x ∷ xs) (some i ∷ indices) = remaining xs indices

abbrev pub insert_unique : ℕ → List ℕ → List ℕ
insert_unique x [] = x ∷ []
insert_unique x (y ∷ ys) =
    if x == y then y ∷ ys else if leb x y then x ∷ y ∷ ys else y ∷ insert_unique x ys

-- `sorted(np.unique(...))`.
abbrev pub sorted_unique : List ℕ → List ℕ
sorted_unique [] = []
sorted_unique (x ∷ xs) = insert_unique x (sorted_unique xs)

-- The slicing indices, or `none` where the method returns no rank before it has them all.
abbrev pub Indices : Type 0
Indices = Result Error (Option (List (Option ℕ)))

-- One round of the loop over the coordinates, `outside` what it does with an index out of bounds.
abbrev pub place_index :
    Indices → ℕ → Option ℕ → Option ℕ → List (Option ℕ) → (List (Option ℕ) → Indices) → Indices
place_index outside i (some axis) (some size) indices rest =
    if ltb i size then rest (set indices axis (some i)) else outside
place_index outside i _ _ indices rest = raise invalid_axis

abbrev pub slicing_indices : Indices → NamedSharding → Dict ℕ → List (Option ℕ) → Indices
slicing_indices outside s [] indices = ok (some indices)
slicing_indices outside s ((name, i) ∷ coords) indices =
    place_index outside i (lookup name (name_to_axis s)) (lookup name (shape s)) indices
      (slicing_indices outside s coords)

abbrev pub all_axes : NamedSharding → List (Option ℕ)
all_axes s = replicate (length s.dims) none

abbrev pub ranks_at : NamedSharding → Option (List (Option ℕ)) → List ℕ
ranks_at s none = []
ranks_at s (some indices) = sorted_unique (subset s.dims indices s.layout)

abbrev pub get_ranks_by_coord : NamedSharding → Dict ℕ → Result Error (List ℕ)
get_ranks_by_coord s coords = do
  indices ← slicing_indices (ok none) s coords (all_axes s)
  ok (ranks_at s indices)

-- `subset_layout.item()`.
abbrev pub item : List ℕ → Result Error (ℕ ⊎ NamedSharding)
item (rank ∷ []) = ok (inl rank)
item _ = raise not_one_rank

-- What `get_ranks` returns for a subset with these axes left.
abbrev pub sharding_of : (layout dims names : List ℕ) → Result Error (ℕ ⊎ NamedSharding)
sharding_of layout dims [] = item layout
sharding_of layout dims (name ∷ names) = do s ← init layout dims (name ∷ names); ok (inr s)

abbrev pub ranks_of : NamedSharding → Option (List (Option ℕ)) → Result Error (ℕ ⊎ NamedSharding)
ranks_of s none = raise index_out_of_bounds
ranks_of s (some indices) =
    sharding_of (subset s.dims indices s.layout) (remaining s.dims indices)
      (remaining s.names indices)

abbrev pub get_ranks : NamedSharding → Dict ℕ → Result Error (ℕ ⊎ NamedSharding)
get_ranks s coords = do
  indices ← slicing_indices (raise index_out_of_bounds) s coords (all_axes s)
  ranks_of s indices

abbrev pub or_raise : Error → Option ℕ → Result Error ℕ
or_raise e none = raise e
or_raise e (some n) = ok n

abbrev pub get_axis_index : NamedSharding → ℕ → Result Error ℕ
get_axis_index s name = or_raise invalid_axis (lookup name (name_to_axis s))

abbrev pub get_axis_size : NamedSharding → ℕ → Result Error ℕ
get_axis_size s name = or_raise key_error (lookup name (shape s))
