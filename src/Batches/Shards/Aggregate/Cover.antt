-- ===== src/Batches/Shards/Aggregate/Cover.antt =====
-- The sub-shards of all chunks and shards together have every row once.
use ne_mo_rl_enhanced_math_r.Common.{
  ℕ, zero, suc, ◌+◌, ◌-◌, ◌*◌, ◌≤◌, ◌<◌, ◌≡◌, refl, sym, ap, ◌∙◌, true, false, List, [], ◌∷◌, ◌++◌,
  map, arith, Bool, range_from, range, flatten, sum_of, sum_of-map, sum_of-flatten, sum_of_swap,
  sum_of_cong, All-range_from, Same, append-nil,
}
use ne_mo_rl_enhanced_math_r.Batches.Shards.Split.{Sizes, capped, arange, sub_shard}

pub range_from-append : (j n m : ℕ) → range_from j n ++ range_from (j + n) m ≡ range_from j (n + m)
range_from-append j zero m =
    let here : j + 0 ≡ j = omega arith in
    let count : 0 + m ≡ m = omega arith in rw (here, count) refl
range_from-append j (suc n) m =
    let next : suc (n + m) ≡ suc n + m = omega arith in
    ap (λ i. j ∷ (range_from (suc j) n ++ range_from i m)) (omega arith)
    ∙ ap (λ r. j ∷ r) (range_from-append (suc j) n m)
    ∙ ap (range_from j) next

arange-append : (a b c : ℕ) → a ≤ b → b ≤ c → arange a b ++ arange b c ≡ arange a c
arange-append a b c l m =
    ap (λ i. arange a b ++ range_from i (c - b)) (omega (arith, l, m))
    ∙ range_from-append a (b - a) (c - b)
    ∙ ap (range_from a) (omega (arith, l, m))

-- Pieces between growing bounds make up the whole.
pub pieces :
    (p : ℕ → ℕ) (j n : ℕ)
    → ((i : ℕ) → p i ≤ p (suc i))
    → (p j ≤ p (j + n))
      × (flatten (map (λ i. arange (p i) (p (suc i))) (range_from j n)) ≡ arange (p j) (p (j + n)))
unfolding flatten
pieces p j zero h =
    let here : j + 0 ≡ j = omega arith in
    let none_left : p j - p j ≡ 0 = omega arith in rw (here, none_left) (omega arith, refl)
pieces p j (suc n) h =
    let (l, e) = pieces p (suc j) n h in
    let here : j + suc n ≡ suc j + n = omega arith in
    rw here (
      omega (arith, l, h j),
      ap (λ r. arange (p j) (p (suc j)) ++ r) e
          ∙ arange-append (p j) (p (suc j)) (p (suc j + n)) (h j) l,
    )

pub pieces_sum :
    (f p : ℕ → ℕ) (n : ℕ)
    → ((i : ℕ) → p i ≤ p (suc i))
    → sum_of (λ i. sum_of f (arange (p i) (p (suc i)))) (range n) ≡ sum_of f (arange (p 0) (p n))
pieces_sum f p n h =
    let at_end : 0 + n ≡ n = omega arith in
    sym (sum_of-map (sum_of f) _ (range n))
    ∙ sym (sum_of-flatten f (map (λ i. arange (p i) (p (suc i))) (range n)))
    ∙ ap (sum_of f) ((pieces p 0 n h).1)
    ∙ ap (λ k. sum_of f (arange (p 0) (p k))) at_end

-- The rows of each shard.
abbrev pub plan_of : (shards : ℕ) → Sizes → Bool → List (List ℕ)
plan_of shards s allow_uneven =
    map (λ i. flatten (map (sub_shard s allow_uneven i) (range s.num_chunks))) (range shards)

module _ (shards : ℕ) (s : Sizes) (uneven : Bool) where
  -- Where the sub-shard `i` of chunk `c` starts, and where the chunk does.
  abbrev pub start_of : ℕ → ℕ → ℕ
  start_of c i = capped uneven s.total_batch_size (c * s.batch_size + i * s.shard_size)

  abbrev pub chunk_start : ℕ → ℕ
  chunk_start c = capped uneven s.total_batch_size (c * s.batch_size)

  capped_le :
      (a b : ℕ) → a ≤ b → capped uneven s.total_batch_size a ≤ capped uneven s.total_batch_size b
  capped_le a b l = by_cases uneven
    where
      by_cases : (u : Bool) → capped u s.total_batch_size a ≤ capped u s.total_batch_size b
      by_cases true = omega (arith, l)
      by_cases false = l

  mul_suc_le : (a i b : ℕ) → a + i * b ≤ a + suc i * b
  mul_suc_le a i b = grind arith

  mul_suc_self : (c b : ℕ) → c * b ≤ suc c * b
  mul_suc_self c b = grind arith

  chunk_sum :
      (f : ℕ → ℕ) (c : ℕ)
      → start_of c shards ≡ chunk_start (suc c)
      → sum_of (λ i. sum_of f (sub_shard s uneven i c)) (range shards)
        ≡ sum_of f (arange (chunk_start c) (chunk_start (suc c)))
  chunk_sum f c full =
      let at_zero : start_of c 0 ≡ chunk_start c =
        ap (capped uneven s.total_batch_size) (omega arith) in
      sum_of_cong _ _ (range shards) (
        All-range_from 0 shards
          (λ i l m. ap (λ k. sum_of f (arange (start_of c i) (start_of c k))) (omega arith)))
      ∙ pieces_sum f (start_of c) shards
          (λ i. capped_le _ _ (mul_suc_le (c * s.batch_size) i s.shard_size))
      ∙ ap (λ a. sum_of f (arange a (start_of c shards))) at_zero
      ∙ ap (λ b. sum_of f (arange (chunk_start c) b)) full

  pub plan_of-Same :
      ((c : ℕ) → c < s.num_chunks → start_of c shards ≡ chunk_start (suc c))
      → chunk_start 0 ≡ 0
      → chunk_start s.num_chunks ≡ s.total_batch_size
      → Same (flatten (plan_of shards s uneven)) (range s.total_batch_size)
  plan_of-Same full from_zero to_end f =
      sum_of-flatten f (plan_of shards s uneven)
      ∙ sum_of-map (sum_of f) _ (range shards)
      ∙ sum_of_cong _ _ (range shards) (
          All-range_from 0 shards (λ i l m.
            sum_of-flatten f (map (sub_shard s uneven i) (range s.num_chunks))
            ∙ sum_of-map (sum_of f) (sub_shard s uneven i) (range s.num_chunks)))
      ∙ sum_of_swap (λ i c. sum_of f (sub_shard s uneven i c)) (range shards) (range s.num_chunks)
      ∙ sum_of_cong _ _ (range s.num_chunks)
          (All-range_from 0 s.num_chunks (λ c l m. chunk_sum f c (full c (omega (arith, m)))))
      ∙ pieces_sum f chunk_start s.num_chunks (λ c. capped_le _ _ (mul_suc_self c s.batch_size))
      ∙ ap (λ a. sum_of f (arange a (chunk_start s.num_chunks))) from_zero
      ∙ ap (λ b. sum_of f (arange 0 b)) to_end
      ∙ ap (λ k. sum_of f (range_from 0 k)) (omega arith)

  -- With one chunk the shards have the rows in their order.
  pub plan_of-ordered :
      s.num_chunks ≡ 1
      → start_of 0 shards ≡ s.total_batch_size
      → flatten (plan_of shards s uneven) ≡ range s.total_batch_size
  unfolding flatten
  plan_of-ordered one full =
      let at_end : 0 + shards ≡ shards = omega arith in
      let from_zero : start_of 0 0 ≡ 0 = starts uneven in
      ap flatten (only (range shards))
      ∙ (pieces (start_of 0) 0 shards (λ i. capped_le _ _ (mul_suc_le _ i s.shard_size))).1
      ∙ ap (λ k. arange (start_of 0 0) (start_of 0 k)) at_end
      ∙ ap (λ a. arange a (start_of 0 shards)) from_zero
      ∙ ap (λ b. arange 0 b) full
      ∙ ap (range_from 0) (omega arith)
    where
      starts : (u : Bool) → capped u s.total_batch_size (0 * s.batch_size + 0 * s.shard_size) ≡ 0
      starts true = omega arith
      starts false = omega arith

      only :
          (is : List ℕ)
          → map (λ i. flatten (map (sub_shard s uneven i) (range s.num_chunks))) is
            ≡ map (λ i. arange (start_of 0 i) (start_of 0 (suc i))) is
      only [] = refl
      only (i ∷ is) =
          let next : i + 1 ≡ suc i = omega arith in
          rw (one, next, append-nil (arange (start_of 0 i) (start_of 0 (suc i))), only is) refl
