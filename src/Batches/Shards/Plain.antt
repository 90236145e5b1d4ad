-- ===== src/Batches/Shards/Plain.antt =====
-- The shards of a batch that is neither sorted nor packed.
use native.Mathlib.Nat.{div-add-mod}
use ne_mo_rl_enhanced_math_r.Common.{
  ℕ, zero, suc, ◌*◌, ◌/◌, ◌<◌, ◌≡◌, refl, ap, true, false, Bool, ◌&&◌, List, [], ◌∷◌, map, Option,
  none, some, arith, ok, Dict, range, Perm, flatten, HasDistinctKeys, Same-below, perm-range,
}
use ne_mo_rl_enhanced_math_r.Packing.Packer.{Shuffle}
use ne_mo_rl_enhanced_math_r.Batches.{batch_size}
use ne_mo_rl_enhanced_math_r.Batches.Parts.{AreParts, batch_size-all_of_size}
use ne_mo_rl_enhanced_math_r.Batches.Shards.{
  SlicedDataDict, plain, shard_plain, shard_by_batch_size,
}
use ne_mo_rl_enhanced_math_r.Batches.Shards.Split.{Sizes, sizes, is_given, given_or}
use ne_mo_rl_enhanced_math_r.Batches.Shards.Split.Passed.{Passed, sizes-Passed, Passed-plan_of}
use ne_mo_rl_enhanced_math_r.Batches.Shards.Aggregate.Cover.{plan_of}
use ne_mo_rl_enhanced_math_r.Batches.Shards.Aggregate.Gathered.{add_shards-AreParts}

-- Uneven shards are only made of the whole batch.
pub one_chunk :
    (n : ℕ) (batch_size : Option ℕ) (uneven : Bool)
    → (uneven && is_given batch_size) ≡ false
    → uneven ≡ true
    → given_or n batch_size ≡ n
one_chunk n none uneven h e = refl
one_chunk n (some b) true h e = cc
one_chunk n (some b) false h e = cc

pub num_chunks-positive :
    {n b : ℕ} {shards : ℕ} {uneven : Bool} {s : Sizes}
    → 0 < n
    → Passed shards b n uneven s
    → 0 < s.num_chunks
num_chunks-positive {n} {b} l p =
    let whole = div-add-mod n b in
    let some_chunk : 0 < n / b = positive (n / b) (omega (arith, whole, p.in_chunks)) in
    rw (p.found) some_chunk
  where
    positive : (k : ℕ) → b * k ≡ n → 0 < k
    positive zero e = absurd (omega (arith, e))
    positive (suc k) e = omega arith

module _ {A : Type 0} (item : A → ℕ) (width : ℕ → ℕ) where
  columns-plain :
      (parts : List (Dict (List A)))
      → map (λ (x : SlicedDataDict A). x.columns) (map (plain item width) parts) ≡ parts
  columns-plain [] = refl
  columns-plain (part ∷ parts) = ap (λ r. part ∷ r) (columns-plain parts)

  -- Where the sizes pass the assertions, a batch with a row is split, and the shards have the rows
  -- of `plan_of`, in which every row of the batch is in one shard, once. This holds for even shards
  -- with any chunk size and for uneven ones.
  pub shard_by_batch_size-whole :
      (shuffle : Shuffle) (shards n : ℕ) (chunk_size : Option ℕ) (uneven : Bool) (s : Sizes)
      (d : Dict (List A))
      → batch_size d ≡ ok n
      → 0 < n
      → HasDistinctKeys d
      → (uneven && is_given chunk_size) ≡ false
      → sizes shards (given_or n chunk_size) n uneven ≡ ok s
      → (parts : List (SlicedDataDict A)) × (shard_by_batch_size item width shuffle shards
            chunk_size uneven none none d
          ≡ ok (parts, none))
        × AreParts d (plan_of shards s uneven) (map (λ (x : SlicedDataDict A). x.columns) parts)
        × Perm (flatten (plan_of shards s uneven)) (range n)
  unfolding shard_by_batch_size shard_plain
  shard_by_batch_size-whole shuffle shards n chunk_size uneven s d e l k one passes =
      let p = sizes-Passed shards (given_or n chunk_size) n uneven s passes in
      let same =
        Passed-plan_of shards (given_or n chunk_size) n uneven s (one_chunk n chunk_size uneven one)
          p in
      let (parts, f, are) =
        add_shards-AreParts n d (batch_size-all_of_size n d e) k s uneven (range shards)
          (num_chunks-positive l p) (Same-below n _ same) in
      (
        map (plain item width) parts,
        rw (one, e, passes, f) refl,
        rw (columns-plain parts) are,
        perm-range n _ same,
      )
