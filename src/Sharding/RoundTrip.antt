-- ===== src/Sharding/RoundTrip.antt =====
-- nemo_rl/distributed/named_sharding.py: a rank has coordinates, and they lead to it.
use ne_mo_rl_enhanced_math_r.Common.{
  ℕ, suc, ◌/◌, ◌%◌, ◌<◌, true, false, List, [], ◌∷◌, ◌++◌, map, Option, none, some, ◌==◌, ok, raise,
  ◌>>=◌, inl, inr, Dict, lookup, length, set, take, drop, replicate, ◌≡◌, refl, sym, ap, ◌∙◌, arith,
  Bool-cases, length-append, lt→ltb, append_assoc,
}
use ne_mo_rl_enhanced_math_r.Sharding.{
  Error, NamedSharding, product, contains, has_duplicates, name_to_axis, named, shape, place_of,
  axes_from, unravel, get_worker_coords, coords_at,
}
use ne_mo_rl_enhanced_math_r.Sharding.Select.{
  subset, Indices, slicing_indices, place_index, all_axes, get_ranks_by_coord, get_ranks, ranks_at,
  ranks_of, remaining, sharding_of, sorted_unique,
}
use ne_mo_rl_enhanced_math_r.Sharding.Axes.{
  distinct_parts, lookup-axes_from, lookup-named, pairs, named-pairs,
}
use ne_mo_rl_enhanced_math_r.Sharding.Coords.{row_of, subset-unravel}

-- An array of the shape has its entries, an axis a name of its own.
pub record IsSharding (s : NamedSharding) : Type 0 where
  pub full : length s.layout ≡ product s.dims
  pub named_axes : length s.names ≡ length s.dims
  pub distinct : has_duplicates s.names ≡ false

place_inside :
    (outside : Indices) (i axis size : ℕ) (indices : List (Option ℕ))
    (rest : List (Option ℕ) → Indices)
    → i < size
    → place_index outside i (some axis) (some size) indices rest ≡ rest (set indices axis (some i))
place_inside outside i axis size indices rest h = rw (lt→ltb i size h) refl

set_after :
    (given : List (Option ℕ)) (v w : Option ℕ) (rest : List (Option ℕ))
    → set (given ++ w ∷ rest) (length given) v ≡ (given ++ v ∷ []) ++ rest
set_after [] v w rest = refl
set_after (x ∷ given) v w rest = ap (λ t. x ∷ t) (set_after given v w rest)

length_next {ℓ} : {A : Type ℓ} (xs : List A) (x : A) → length (xs ++ x ∷ []) ≡ suc (length xs)
length_next xs x = length-append xs (x ∷ []) ∙ omega arith

module _ (outside : Indices) (s : NamedSharding) where
  -- The coordinates of a place, axis by axis, replace every `slice(None)`.
  slicing_indices-pairs :
      (before ns befores dims : List ℕ) (given : List (Option ℕ)) (p : ℕ)
      → s.names ≡ before ++ ns
      → s.dims ≡ befores ++ dims
      → length before ≡ length befores
      → length given ≡ length before
      → length ns ≡ length dims
      → has_duplicates ns ≡ false
      → p < product dims
      → slicing_indices outside s
          (pairs ns (unravel dims p))
          (given ++ replicate (length dims) none)
        ≡ ok (some (given ++ map some (unravel dims p)))
  slicing_indices-pairs before [] befores [] given p e f b g l h below = refl
  slicing_indices-pairs before [] befores (d ∷ dims) given p e f b g l h below =
      absurd (omega (arith, l))
  slicing_indices-pairs before (n ∷ ns) befores [] given p e f b g l h below =
      absurd (omega (arith, l))
  slicing_indices-pairs before (n ∷ ns) befores (d ∷ dims) given p e f b g l h below =
      let m = product dims in
      let (apart, rest) = distinct_parts n ns h in
      let (inside, within, _) = row_of d m p below in
      let axis : lookup n (name_to_axis s) ≡ some (length given) =
        ap (λ names. lookup n (axes_from 0 names [])) e
        ∙ lookup-axes_from n 0 before ns [] apart
        ∙ ap some (omega (arith, g)) in
      let size : lookup n (shape s) ≡ some d =
        ap (λ names. lookup n (named names s.dims [])) e
        ∙ ap (λ sizes. lookup n (named (before ++ n ∷ ns) sizes [])) f
        ∙ lookup-named n d before ns befores dims [] apart b in
      let loop = slicing_indices outside s (pairs ns (unravel dims (p % m))) in
      let none_left = replicate (length dims) none in
      let next = given ++ some (p / m) ∷ [] in
      ap (λ a. place_index outside (p / m) a (lookup n (shape s)) (given ++ none ∷ none_left) loop)
        axis
      ∙ ap
          (λ z.
            place_index outside (p / m) (some (length given)) z (given ++ none ∷ none_left) loop)
          size
      ∙ place_inside outside (p / m) (length given) d (given ++ none ∷ none_left) loop inside
      ∙ ap loop (set_after given (some (p / m)) none none_left)
      ∙ slicing_indices-pairs (before ++ n ∷ []) ns (befores ++ d ∷ []) dims next (p % m)
          (e ∙ sym (append_assoc before (n ∷ []) ns)) (f ∙ sym (append_assoc befores (d ∷ []) dims))
          (length_next before n ∙ ap suc b ∙ sym (length_next befores d))
          (length_next given (some (p / m)) ∙ ap suc g ∙ sym (length_next before n))
          (omega (arith, l)) rest within
      ∙ ap (λ t. ok (some t))
          (append_assoc given (some (p / m) ∷ []) (map some (unravel dims (p % m))))

-- A rank of the layout has a place there.
place_of-layout :
    (x : ℕ) (xs : List ℕ)
    → contains x xs ≡ true
    → (p : ℕ) × (place_of x xs ≡ some p) × (p < length xs) × (take 1 (drop p xs) ≡ x ∷ [])
place_of-layout x [] h = cc
place_of-layout x (y ∷ xs) h = elim (Bool-cases (x == y)) [
  | inl e ↦
      let same : x ≡ y = ground (arith, e) in
      (0, rw e refl, omega arith, ap (λ z. z ∷ []) (sym same))
  | inr e ↦
      let (p, at, below, holds) = place_of-layout x xs (rw e at h) in
      (suc p, rw (e, at) refl, omega (arith, below), holds)
]

-- With a number for every axis no axis is left.
remaining_none :
    (names dims : List ℕ) (p : ℕ)
    → length names ≡ length dims
    → remaining names (map some (unravel dims p)) ≡ []
remaining_none [] dims p l = refl
remaining_none (n ∷ names) [] p l = absurd (omega (arith, l))
remaining_none (n ∷ names) (d ∷ dims) p l =
    remaining_none names dims (p % product dims) (omega (arith, l))

-- In a sharding whose axes have distinct names and whose array has the shape's number of entries,
-- each rank of the layout has coordinates, and both methods that look ranks up by coordinates
-- return that rank alone for them.
pub get_worker_coords-get_ranks :
    (s : NamedSharding) (rank : ℕ)
    → IsSharding s
    → contains rank s.layout ≡ true
    → (coords : Dict ℕ) × (get_worker_coords s rank ≡ ok coords)
      × (get_ranks_by_coord s coords ≡ ok (rank ∷ []))
      × (get_ranks s coords ≡ ok (inl rank))
get_worker_coords-get_ranks s rank valid inside =
    let (p, at, below, holds) = place_of-layout rank s.layout inside in
    let room : p < product s.dims = omega (arith, below, valid.full) in
    let found : get_worker_coords s rank ≡ ok (pairs s.names (unravel s.dims p)) =
      ap (coords_at s) at ∙ ap ok (named-pairs s.names (unravel s.dims p) valid.distinct) in
    let indices = map some (unravel s.dims p) in
    let placed : (outside : Indices)
        → slicing_indices outside s (pairs s.names (unravel s.dims p)) (all_axes s)
          ≡ ok (some indices) =
      λ outside.
        slicing_indices-pairs outside s [] s.names [] s.dims [] p refl refl refl refl
          valid.named_axes valid.distinct room in
    let one : subset s.dims indices s.layout ≡ rank ∷ [] =
      subset-unravel s.dims p s.layout room valid.full ∙ holds in
    (
      pairs s.names (unravel s.dims p),
      found,
      ap (λ r. r >>= λ i. ok (ranks_at s i)) (placed (ok none))
          ∙ ap (λ l. ok (sorted_unique l)) one,
      ap (λ r. r >>= ranks_of s) (placed (raise Error.index_out_of_bounds))
          ∙ ap (sharding_of (subset s.dims indices s.layout) (remaining s.dims indices))
              (remaining_none s.names s.dims p valid.named_axes)
          ∙ ap (λ l. sharding_of l (remaining s.dims indices) []) one,
    )
