-- ===== src/Batches/Shards/Dynamic/Order.antt =====
-- The order by length has every row once.
use ne_mo_rl_enhanced_math_r.Common.{
  ℕ, zero, suc, ◌+◌, ◌-◌, ◌*◌, ◌<◌, ◌≡◌, refl, sym, ap, ◌∙◌, List, [], ◌∷◌, map, arith, Bool, leb,
  take, drop, get_or, sort_by, sort_by-perm, range_from, range, sum_of, sum_of-map, sum_of-flatten,
  sum_of_cong, All-range_from, perm-Same, Same,
}
use ne_mo_rl_enhanced_math_r.Batches.Shards.Split.{Sizes, arange}
use ne_mo_rl_enhanced_math_r.Batches.Shards.Aggregate.Cover.{pieces_sum}
use ne_mo_rl_enhanced_math_r.Batches.Shards.Dynamic.{stride, strided, chunk_order, sorted_indices}

sum_shift :
    (g : ℕ → ℕ) (j n : ℕ)
    → sum_of g (range_from (suc j) n) ≡ sum_of (λ i. g (suc i)) (range_from j n)
sum_shift g j zero = refl
sum_shift g j (suc n) = ap (λ k. g (suc j) + k) (sum_shift g (suc j) n)

sum_last :
    (g : ℕ → ℕ) (j n : ℕ) → sum_of g (range_from j (suc n)) ≡ g (j + n) + sum_of g (range_from j n)
sum_last g j zero = let here : j + 0 ≡ j = omega arith in rw here refl
sum_last g j (suc n) =
    let here : j + suc n ≡ suc j + n = omega arith in rw here (omega (arith, sum_last g (suc j) n))

module _ (f : ℕ → ℕ) (m : ℕ) where
  abbrev share : List ℕ → ℕ → ℕ
  share xs i = sum_of f (stride i (suc m) xs)

  shares : (xs : List ℕ) → sum_of (share xs) (range (suc m)) ≡ sum_of f xs
  shares [] = none_left (range (suc m))
    where
      none_left : (is : List ℕ) → sum_of (share []) is ≡ 0
      none_left [] = refl
      none_left (i ∷ is) = omega (arith, none_left is)
  shares (x ∷ xs) =
      let step : suc m - 1 ≡ m = omega arith in
      let first : share (x ∷ xs) 0 ≡ f x + share xs m = ap (λ k. f x + share xs k) step in
      let at_end : 0 + m ≡ m = omega arith in
      omega (
        arith,
        first,
        sum_shift (share (x ∷ xs)) 0 m,
        sum_last (share xs) 0 m,
        ap (share xs) at_end,
        shares xs,
      )

  strided_sum : (xs : List ℕ) → sum_of f (strided (suc m) xs) ≡ sum_of f xs
  strided_sum xs =
      sum_of-flatten f (map (λ i. stride i (suc m) xs) (range (suc m)))
      ∙ sum_of-map (sum_of f) (λ i. stride i (suc m) xs) (range (suc m))
      ∙ shares xs

-- The strides of a list have its elements.
pub strided-Same : (shards : ℕ) (xs : List ℕ) → 0 < shards → Same (strided shards xs) xs
strided-Same zero xs l f = absurd (omega (arith, l))
strided-Same (suc m) xs l f = strided_sum f m xs

pub map-range_from :
    (start j n : ℕ) → map (λ i. i + start) (range_from j n) ≡ range_from (j + start) n
map-range_from start j zero = refl
map-range_from start j (suc n) =
    ap (λ r. (j + start) ∷ r)
      (map-range_from start (suc j) n ∙ ap (λ k. range_from k n) (omega arith))

chunk_order-Same :
    (shards batch_size : ℕ) (lengths : List ℕ) (c : ℕ)
    → 0 < shards
    → Same (chunk_order shards batch_size lengths c) (arange (c * batch_size) (suc c * batch_size))
chunk_order-Same shards b lengths c l f =
    let seqlens = take b (drop (c * b) lengths) in
    let by : ℕ → ℕ → Bool = λ i j. leb (get_or seqlens i 0) (get_or seqlens j 0) in
    let sorted = sort_by by (range b) in
    let from : 0 + c * b ≡ c * b = omega arith in
    let count : b ≡ suc c * b - c * b = omega arith in
    strided-Same shards (map (λ i. i + c * b) sorted) l f
    ∙ sum_of-map f (λ i. i + c * b) sorted
    ∙ perm-Same (sort_by-perm by (range b)) (λ i. f (i + c * b))
    ∙ sym (sum_of-map f (λ i. i + c * b) (range b))
    ∙ ap (sum_of f) (map-range_from (c * b) 0 b)
    ∙ ap (λ k. sum_of f (range_from k b)) from
    ∙ ap (λ k. sum_of f (range_from (c * b) k)) count

-- `batch_sorted_indices` has each row of the batch once, if the chunks make up the batch.
pub sorted_indices-Same :
    (shards : ℕ) (s : Sizes) (lengths : List ℕ)
    → 0 < shards
    → s.num_chunks * s.batch_size ≡ s.total_batch_size
    → Same (sorted_indices shards s lengths) (range s.total_batch_size)
unfolding sorted_indices
sorted_indices-Same shards s lengths l e f =
    let start : 0 * s.batch_size ≡ 0 = omega arith in
    sum_of-flatten f (map (chunk_order shards s.batch_size lengths) (range s.num_chunks))
    ∙ sum_of-map (sum_of f) (chunk_order shards s.batch_size lengths) (range s.num_chunks)
    ∙ sum_of_cong _ _ (range s.num_chunks) (
        All-range_from 0 s.num_chunks (λ c _ _. chunk_order-Same shards s.batch_size lengths c l f))
    ∙ pieces_sum f (λ c. c * s.batch_size) s.num_chunks (λ c. omega arith)
    ∙ ap (λ a. sum_of f (arange a (s.num_chunks * s.batch_size))) start
    ∙ ap (λ b. sum_of f (arange 0 b)) e
    ∙ ap (λ k. sum_of f (range_from 0 k)) (omega arith)
