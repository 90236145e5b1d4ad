-- ===== src/Async/Buffer/Remove.antt =====
-- Popping the selected positions, the last first, leaves the other entries in order.
use native.Mathlib.Bridge.{le_prop}
use mathlib.Core.List.Perm
use ne_mo_rl_enhanced_math_r.Common.{
  ℕ, zero, suc, ◌≤◌, ◌<◌, ◌≡◌, refl, ap, ◌∙◌, Bool, List, [], ◌∷◌, ◌++◌, map, Option, arith, leb,
  Bool-cases, inl, inr, Result-cases, ok, ◌>>=◌, length, take, All, All-perm, sort_by, sort_by-perm,
  insert_by, append_assoc, length-append,
}
use ne_mo_rl_enhanced_math_r.Async.Buffer.{ReplayBuffer, indices_from, pop, pop_entry, pop_entries}
use ne_mo_rl_enhanced_math_r.Async.Buffer.Select.{Entry, holds, leave}

abbrev pub descending : ℕ → ℕ → Bool
descending i j = leb j i

insert_by-last :
    (p : ℕ) (ys : List ℕ) → All (λ y. p < y) ys → insert_by descending p ys ≡ ys ++ p ∷ []
insert_by-last p [] h = refl
insert_by-last p (y ∷ ys) h = ground (arith, insert_by-last p ys h.1)

sort_by-first :
    (p : ℕ) (ps : List ℕ)
    → All (λ y. p < y) ps
    → sort_by descending (p ∷ ps) ≡ sort_by descending ps ++ p ∷ []
sort_by-first p ps h =
    insert_by-last p (sort_by descending ps)
      (All-perm (λ y. p < y) (λ y. le_prop) (Perm.symm (sort_by-perm descending ps)) h)

take-indices_from-above {ℓ} :
    {A : Type ℓ} (bound k n : ℕ) (test : A → Bool) (xs : List A)
    → bound ≤ k
    → All (λ i. bound ≤ i) (take n (indices_from k test xs))
unfolding indices_from
take-indices_from-above bound k zero test xs h = tt
take-indices_from-above bound k (suc n) test [] h = tt
take-indices_from-above bound k (suc n) test (x ∷ xs) h = elim (Bool-cases (test x)) [
  | inl e ↦ rw e (h, take-indices_from-above bound (suc k) n test xs (omega arith))
  | inr e ↦ rw e (take-indices_from-above bound (suc k) (suc n) test xs (omega arith))
]

pop-map {ℓ κ} :
    {A : Type ℓ} {B : Type κ} (f : A → B) (before : List A) (x : A) (xs : List A)
    → pop (length before) (map f (before ++ x ∷ xs)) ≡ ok (map f (before ++ xs))
unfolding pop
pop-map f [] x xs = refl
pop-map f (y ∷ ys) x xs = rw (pop-map f ys x xs)

module _ {A : Type 0} (max_size : ℕ) (last : Option ℕ) where
  pop_entry-holds :
      (before : List (Entry A)) (x : Entry A) (xs : List (Entry A))
      → pop_entry (length before) (holds max_size last (before ++ x ∷ xs))
        ≡ ok (holds max_size last (before ++ xs))
  unfolding pop_entry
  pop_entry-holds before x xs = rw (
    pop-map (λ (e : Entry A). e.version) before x xs,
    pop-map (λ (e : Entry A). e.target) before x xs,
    pop-map (λ (e : Entry A). e.trajectory) before x xs,
  )

  pop_entries-append :
      (is js : List ℕ) (b : ReplayBuffer A)
      → pop_entries (is ++ js) b ≡ (pop_entries is b >>= pop_entries js)
  unfolding pop_entries
  pop_entries-append [] js b = refl
  pop_entries-append (i ∷ is) js b = elim (Result-cases (pop_entry i b)) [
    | inl (b', e) ↦ rw e (pop_entries-append is js b')
    | inr (x, e) ↦ rw e
  ]

  pub pop_entries-holds :
      (test : Entry A → Bool) (n : ℕ) (before xs : List (Entry A))
      → pop_entries
          (sort_by descending (take n (indices_from (length before) test xs)))
          (holds max_size last (before ++ xs))
        ≡ ok (holds max_size last (before ++ leave test n xs))
  unfolding pop_entries indices_from
  pop_entries-holds test zero before xs = refl
  pop_entries-holds test (suc n) before [] = refl
  pop_entries-holds test (suc n) before (x ∷ xs) =
      let k = length before in
      let longer : length (before ++ x ∷ []) ≡ suc k =
        omega (arith, length-append before (x ∷ [])) in
      elim (Bool-cases (test x)) [
        | inl e ↦
            let rest =
              rw (longer, append_assoc before (x ∷ []) xs) at
                (pop_entries-holds test n (before ++ x ∷ []) xs) in
            let later = rw (append_assoc before (x ∷ []) (leave test n xs)) at rest in
            rw
              (
                e,
                sort_by-first k (take n (indices_from (suc k) test xs))
                    (take-indices_from-above (suc k) (suc k) n test xs (omega arith)),
                pop_entries-append (sort_by descending (take n (indices_from (suc k) test xs)))
                    (k ∷ []),
                later,
              )
              (rw (pop_entry-holds before x (leave test n xs)))
        | inr e ↦
            let rest =
              rw (longer, append_assoc before (x ∷ []) xs) at
                (pop_entries-holds test (suc n) (before ++ x ∷ []) xs) in
            rw e (
              rest
              ∙ ap (λ l. ok (holds max_size last l))
                  (append_assoc before (x ∷ []) (leave test (suc n) xs)))
      ]
