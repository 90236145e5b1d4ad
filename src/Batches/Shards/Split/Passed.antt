-- ===== src/Batches/Shards/Split/Passed.antt =====
-- What the sizes are where the assertions of `shard_by_batch_size` pass.
use native.Mathlib.Nat.{div-add-mod, mod-lt}
use ne_mo_rl_enhanced_math_r.Common.{
  ℕ, suc, ◌+◌, ◌-◌, ◌*◌, ◌/◌, ◌%◌, ◌≤◌, ◌<◌, ◌≡◌, refl, inl, inr, Bool, true, false, not, ◌&&◌,
  arith, ◌==◌, Bool-cases, ok, raise_if, ◌>>◌, flatten, range, Same, if◌then◌else◌,
}
use ne_mo_rl_enhanced_math_r.Batches.Rows.{not_divided_by_shards}
use ne_mo_rl_enhanced_math_r.Batches.Shards.Split.{Sizes, sizes}
use ne_mo_rl_enhanced_math_r.Batches.Shards.Aggregate.Cover.{
  plan_of, plan_of-Same, plan_of-ordered, start_of,
}

abbrev sizes_for : (shards batch_size total : ℕ) → Bool → Sizes
sizes_for shards batch_size total uneven = record {
  total_batch_size = total;
  batch_size = batch_size;
  num_chunks = total / batch_size;
  shard_size = if uneven then (batch_size + shards - 1) / shards else batch_size / shards;
}

-- What the assertions let pass.
pub record Passed (shards batch_size total : ℕ) (uneven : Bool) (s : Sizes) : Type 0 where
  pub shards_positive : 0 < shards
  pub batch_size_positive : 0 < batch_size
  pub in_chunks : total % batch_size ≡ 0
  pub in_shards : uneven ≡ false → batch_size % shards ≡ 0
  pub found : s ≡ sizes_for shards batch_size total uneven

pub sizes-Passed :
    (shards batch_size total : ℕ) (uneven : Bool) (s : Sizes)
    → sizes shards batch_size total uneven ≡ ok s
    → Passed shards batch_size total uneven s
unfolding sizes
sizes-Passed shards b total uneven s e = elim (Bool-cases (b == 0)) [
  | inl f ↦ let x = rw f at e in cc
  | inr f ↦ elim (Bool-cases (total % b == 0)) [
    | inr g ↦ let x = rw (f, g) at e in cc
    | inl g ↦ elim (Bool-cases (shards == 0)) [
      | inl h ↦ let x = rw (f, g, h) at e in cc
      | inr h ↦
          let (divides, found) = last uneven (rw (f, g, h) at e) in
          record {
            shards_positive = ground (arith, h);
            batch_size_positive = ground (arith, f);
            in_chunks = ground (arith, g);
            in_shards = divides;
            found = found;
          }
    ]
  ]
]
  where
    last :
        (u : Bool)
        → (raise_if (not u && not (b % shards == 0)) not_divided_by_shards
            >> ok (sizes_for shards b total u))
          ≡ ok s
        → (u ≡ false → b % shards ≡ 0) × (s ≡ sizes_for shards b total u)
    last true e = (λ u. cc, cc)
    last false e = elim (Bool-cases (b % shards == 0)) [
      | inr f ↦ let x = rw f at e in cc
      | inl f ↦
          let x : ok (sizes_for shards b total false) ≡ ok s = rw f at e in
          (λ u. ground (arith, f), cc)
    ]

mul_div : (n m : ℕ) → n % m ≡ 0 → (n / m) * m ≡ n
mul_div n m e = omega (arith, div-add-mod n m, e)

le-round_up : (n m : ℕ) → 0 < m → n ≤ m * ((n + m - 1) / m)
le-round_up n m l = omega (arith, div-add-mod (n + m - 1) m, mod-lt (n + m - 1) l)

div_self : (n : ℕ) → 0 < n → n / n ≡ 1
div_self n l = grind (arith, div-add-mod n n, mod-lt n l)

-- The rows of the shards are those of the batch. Uneven shards need one chunk.
pub Passed-plan_of :
    (shards batch_size total : ℕ) (uneven : Bool) (s : Sizes)
    → (uneven ≡ true → batch_size ≡ total)
    → Passed shards batch_size total uneven s
    → Same (flatten (plan_of shards s uneven)) (range total)
Passed-plan_of shards b total true s one p =
    let same : b ≡ total = one refl in
    let positive : 0 < total = rw (← same) (p.batch_size_positive) in
    let single : total / total ≡ 1 = div_self total positive in
    let up = le-round_up total shards (p.shards_positive) in
    rw (p.found, same)
      (plan_of-Same shards (sizes_for shards total total true) true
        (λ c l. let first : c ≡ 0 = omega (arith, l, single) in rw first (omega (arith, up)))
        (omega arith) (rw single (omega arith)))
Passed-plan_of shards b total false s one p =
    let whole : shards * (b / shards) ≡ b = omega (arith, div-add-mod b shards, p.in_shards refl) in
    rw (p.found) (
      plan_of-Same shards (sizes_for shards b total false) false (λ c l. rw whole (next c))
        (omega arith) (mul_div total b (p.in_chunks)))
  where
    next : (c : ℕ) → c * b + b ≡ suc c * b
    next c = omega arith

-- If the whole batch is one chunk, the shards have its rows in their order.
pub Passed-plan_of_ordered :
    (shards total : ℕ) (uneven : Bool) (s : Sizes)
    → Passed shards total total uneven s
    → flatten (plan_of shards s uneven) ≡ range total
Passed-plan_of_ordered shards total uneven s p = rw (p.found) (
    plan_of-ordered shards (sizes_for shards total total uneven) uneven
      (div_self total (p.batch_size_positive)) (full uneven (p.in_shards)))
  where
    full :
        (u : Bool)
        → (u ≡ false → total % shards ≡ 0)
        → start_of shards (sizes_for shards total total u) u 0 shards ≡ total
    full true h = let up = le-round_up total shards (p.shards_positive) in omega (arith, up)
    full false h = omega (arith, div-add-mod total shards, h refl)
