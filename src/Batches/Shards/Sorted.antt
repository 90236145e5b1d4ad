-- ===== src/Batches/Shards/Sorted.antt =====
-- The shards of a batch that is sorted for dynamic batches.
pub mod Even
pub mod Correct
pub mod Reordered
use native.Mathlib.Nat.{div-add-mod}
use ne_mo_rl_enhanced_math_r.Common.{
  ℕ, zero, suc, ◌+◌, ◌-◌, ◌*◌, ◌/◌, ◌%◌, ◌≤◌, ◌<◌, ◌≡◌, refl, sym, ap, ◌∙◌, inl, inr, true, false,
  Bool, ◌&&◌, min, List, [], ◌∷◌, ◌++◌, map, Option, none, some, arith, Bool-cases, ok, ◌>>=◌, ◌>>◌,
  raise_if, Dict, lookup, range, range_from, All, All-get_or, All-range_from, Perm, flatten,
  HasDistinctKeys, Same-below, perm-range, length, length-append, length-map, length-take,
  length-drop, length-range_from, take, drop, get_or, Result,
}
use ne_mo_rl_enhanced_math_r.Batches.{batch_size, all_of_size}
use ne_mo_rl_enhanced_math_r.Batches.Rows.{ShardError, select_indices}
use ne_mo_rl_enhanced_math_r.Batches.Rows.Pick.{Below, pick, length-pick, select_indices-Below}
use ne_mo_rl_enhanced_math_r.Batches.Rows.Compose.{
  pick-pick, All-pick, select_indices-HasDistinctKeys, pick_all-Same,
}
use ne_mo_rl_enhanced_math_r.Batches.Parts.{IsPart, AreParts}
use ne_mo_rl_enhanced_math_r.Batches.Whole.{all_of_size-lookup}
use ne_mo_rl_enhanced_math_r.Batches.Shards.{SlicedDataDict, lengths_of, all_lengths_of}

module _ {A : Type 0} where
  -- Parts of a selection of a batch are parts of the batch.
  IsPart-select :
      (n : ℕ) (d sorted : Dict (List A)) (indices is : List ℕ) (part : Dict (List A))
      → all_of_size n d ≡ true
      → Below n indices
      → Below (length indices) is
      → IsPart d indices sorted
      → IsPart sorted is part
      → IsPart d (pick is indices) part
  IsPart-select n d sorted indices is part s b b' p q =
      let same_length : length (pick is indices) ≡ length is = length-pick is indices b' in
      record {
        rows = λ k col e.
            let inside : Below (length col) indices = rw (all_of_size-lookup n k d col s e) b in
            q.rows k (pick indices col) (p.rows k col e)
            ∙ ap some (pick-pick is indices col inside);
        keys = λ k. q.keys k ∙ p.keys k;
        size = rw same_length (q.size);
      }

  pub AreParts-select :
      (n : ℕ) (d sorted : Dict (List A)) (indices : List ℕ) (plan : List (List ℕ))
      (parts : List (Dict (List A)))
      → all_of_size n d ≡ true
      → Below n indices
      → All (Below (length indices)) plan
      → IsPart d indices sorted
      → AreParts sorted plan parts
      → AreParts d (map (λ is. pick is indices) plan) parts
  AreParts-select n d sorted indices [] [] s b b' p q = tt
  AreParts-select n d sorted indices [] (part ∷ parts) s b b' p q = elim q [ ]
  AreParts-select n d sorted indices (is ∷ plan) [] s b b' p q = elim q [ ]
  AreParts-select n d sorted indices (is ∷ plan) (part ∷ parts) s b b' p q = (
    IsPart-select n d sorted indices is part s b (b'.0) p (q.0),
    AreParts-select n d sorted indices plan parts s b (b'.1) p (q.1),
  )

  -- `batch[input_lengths_key]` of each of the shards.
  pub all_lengths_of-AreParts :
      (item : A → ℕ) (width : ℕ → ℕ) (key : ℕ) (col : List A) (d : Dict (List A))
      (plan : List (List ℕ)) (parts : List (Dict (List A)))
      → lookup key d ≡ some col
      → AreParts d plan parts
      → all_lengths_of item width key parts ≡ ok (map (λ is. map item (pick is col)) plan)
  all_lengths_of-AreParts item width key col d [] [] e h = refl
  all_lengths_of-AreParts item width key col d [] (part ∷ parts) e h = elim h [ ]
  all_lengths_of-AreParts item width key col d (is ∷ plan) [] e h = elim h [ ]
  all_lengths_of-AreParts item width key col d (is ∷ plan) (part ∷ parts) e h =
      rw
        (
          lengths_of,
          h.0.rows key col e,
          all_lengths_of-AreParts item width key col d plan parts e (h.1),
        )
        refl
