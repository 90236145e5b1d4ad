-- ===== src/Sharding.antt =====
-- nemo_rl/distributed/named_sharding.py: `NamedSharding`. An array is the list of its entries in row
-- order with its shape; ranks, names and coordinates are natural numbers.
pub mod Select
pub mod Coords
pub mod Axes
pub mod RoundTrip
mod Tests
use mathlib.Core.Option
use ne_mo_rl_enhanced_math_r.Common.{
  ℕ, suc, ◌*◌, ◌/◌, ◌%◌, Bool, true, false, not, ◌||◌, List, [], ◌∷◌, ◌++◌, map, Option, none, some,
  ltb, leb, ◌==◌, if◌then◌else◌, Result, ok, raise, raise_if, ◌>>=◌, ◌>>◌, ◌⊎◌, inl, inr, Dict,
  lookup, put, length, set, take, drop, replicate, range, flatten,
}

pub data Error : Type 0 where
  dimension_mismatch duplicate_ranks worker_not_found invalid_axis : Error
  index_out_of_bounds not_one_rank key_error : Error

pub record NamedSharding : Type 0 where
  pub layout : List ℕ
  pub dims : List ℕ
  pub names : List ℕ

abbrev pub product : List ℕ → ℕ
product [] = 1
product (n ∷ ns) = n * product ns

abbrev pub contains : ℕ → List ℕ → Bool
contains x [] = false
contains x (y ∷ ys) = if x == y then true else contains x ys

-- Whether `np.unique` counts an entry more than once.
abbrev pub has_duplicates : List ℕ → Bool
has_duplicates [] = false
has_duplicates (x ∷ xs) = contains x xs || has_duplicates xs

-- `NamedSharding.__init__`, for an array of integers.
abbrev pub init : (layout dims names : List ℕ) → Result Error NamedSharding
init layout dims names = do
  raise_if (not (length dims == length names)) dimension_mismatch
  raise_if (has_duplicates layout) duplicate_ranks
  ok (record { layout = layout; dims = dims; names = names })

-- `{name: i for i, name in enumerate(names)}`, from `i` on.
abbrev pub axes_from : ℕ → List ℕ → Dict ℕ → Dict ℕ
axes_from i [] axes = axes
axes_from i (name ∷ names) axes = axes_from (suc i) names (put name i axes)

-- `_name_to_axis`.
abbrev pub name_to_axis : NamedSharding → Dict ℕ
name_to_axis s = axes_from 0 s.names []

-- The loop that pairs names with numbers, over `zip`.
abbrev pub named : List ℕ → List ℕ → Dict ℕ → Dict ℕ
named [] numbers d = d
named (name ∷ names) [] d = d
named (name ∷ names) (n ∷ numbers) d = named names numbers (put name n d)

abbrev pub shape : NamedSharding → Dict ℕ
shape s = named s.names s.dims []

-- The place of the first entry that is `x`.
abbrev pub place_of : ℕ → List ℕ → Option ℕ
place_of x [] = none
place_of x (y ∷ ys) = if x == y then some 0 else Option.map suc (place_of x ys)

-- The index along each axis of the entry at place `p`.
abbrev pub unravel : List ℕ → ℕ → List ℕ
unravel [] p = []
unravel (n ∷ dims) p = (p / product dims) ∷ unravel dims (p % product dims)

abbrev pub coords_at : NamedSharding → Option ℕ → Result Error (Dict ℕ)
coords_at s none = raise worker_not_found
coords_at s (some p) = ok (named s.names (unravel s.dims p) [])

abbrev pub get_worker_coords : NamedSharding → ℕ → Result Error (Dict ℕ)
get_worker_coords s worker_id = coords_at s (place_of worker_id s.layout)
