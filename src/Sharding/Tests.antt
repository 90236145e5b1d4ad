-- ===== src/Sharding/Tests.antt =====
-- nemo_rl/distributed/named_sharding.py on a layout of two by three ranks.
use ne_mo_rl_enhanced_math_r.Common.{ℕ, flatten, [], ◌∷◌, ok, raise, inl, inr, Dict, ◌≡◌, refl}
use ne_mo_rl_enhanced_math_r.Sharding
use ne_mo_rl_enhanced_math_r.Sharding.{
  NamedSharding, duplicate_ranks, dimension_mismatch, invalid_axis, key_error, index_out_of_bounds,
  get_worker_coords,
}
use ne_mo_rl_enhanced_math_r.Sharding.Select.{
  get_ranks_by_coord, get_ranks, get_axis_index, get_axis_size,
}
use ne_mo_rl_enhanced_math_r.Sharding.RoundTrip.{IsSharding, get_worker_coords-get_ranks}

-- The axes are named 7 and 8.
abbrev layout : NamedSharding
layout = record { layout = 5 ∷ 3 ∷ 4 ∷ 0 ∷ 2 ∷ 1 ∷ []; dims = 2 ∷ 3 ∷ []; names = 7 ∷ 8 ∷ [] }

built : Sharding.init (5 ∷ 3 ∷ 4 ∷ 0 ∷ 2 ∷ 1 ∷ []) (2 ∷ 3 ∷ []) (7 ∷ 8 ∷ []) ≡ ok layout
built = refl

refused : Sharding.init (5 ∷ 3 ∷ 5 ∷ 0 ∷ []) (2 ∷ 2 ∷ []) (7 ∷ 8 ∷ []) ≡ raise duplicate_ranks
refused = refl

unnamed : Sharding.init (5 ∷ 3 ∷ []) (2 ∷ []) (7 ∷ 8 ∷ []) ≡ raise dimension_mismatch
unnamed = refl

column : get_ranks_by_coord layout ((8, 1) ∷ []) ≡ ok (2 ∷ 3 ∷ [])
unfolding flatten
column = refl

outside : get_ranks_by_coord layout ((7, 2) ∷ (9, 0) ∷ []) ≡ ok []
outside = refl

unknown : get_ranks_by_coord layout ((9, 0) ∷ (7, 2) ∷ []) ≡ raise invalid_axis
unknown = refl

row :
    get_ranks layout ((7, 1) ∷ [])
    ≡ ok (inr (record { layout = 0 ∷ 2 ∷ 1 ∷ []; dims = 3 ∷ []; names = 8 ∷ [] }))
unfolding flatten
row = refl

beyond : get_ranks layout ((8, 3) ∷ []) ≡ raise index_out_of_bounds
beyond = refl

second : get_axis_index layout 8 ≡ ok 1
second = refl

sizes : (get_axis_size layout 8 ≡ ok 3) × (get_axis_size layout 9 ≡ raise key_error)
sizes = (refl, refl)

layout-IsSharding : IsSharding layout
layout-IsSharding = record { full = refl; named_axes = refl; distinct = refl }

get_worker_coords-get_ranks_example :
    (coords : Dict ℕ) × (get_worker_coords layout 2 ≡ ok coords)
    × (get_ranks_by_coord layout coords ≡ ok (2 ∷ []))
    × (get_ranks layout coords ≡ ok (inl 2))
get_worker_coords-get_ranks_example = get_worker_coords-get_ranks layout 2 layout-IsSharding refl
