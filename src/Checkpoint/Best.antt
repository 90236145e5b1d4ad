-- ===== src/Checkpoint/Best.antt =====
-- Which checkpoints `get_best_checkpoint_path` and `get_latest_checkpoint_path` name.
use ne_mo_rl_enhanced_math_r.Common.{
  ℕ, ◌≤◌, ◌≡◌, refl, ap, ◌∙◌, inl, inr, Bool, true, false, List, [], ◌∷◌, none, some, max, arith,
  ◌==◌, Bool-cases, ok, Dict, lookup, has, has→lookup, ==-self, sort_by, sort_by-perm,
  sort_by-IsSortedBy, IsSortedBy, AllAfter, All, Perm, sum_of-perm, ◌⊎◌,
}
use ne_mo_rl_enhanced_math_r.Common.Int.{ℤ}
use ne_mo_rl_enhanced_math_r.Checkpoint.Order.{IsAsGood}
use ne_mo_rl_enhanced_math_r.Checkpoint.{
  Item, Contents, Directory, Manager, load_checkpoint_history, highest, get_latest_checkpoint_path,
  metric_values, value_order, first_step, best_of, get_best_checkpoint_path,
}

value_order_total : (h : Bool) (x y : ℕ × ℤ) → value_order h x y ≡ false → value_order h y x ≡ true
unfolding value_order
value_order_total true x y e = ground (arith, e)
value_order_total false x y e = ground (arith, e)

value_order_trans :
    (h : Bool) (x y z : ℕ × ℤ)
    → value_order h x y ≡ true
    → value_order h y z ≡ true
    → value_order h x z ≡ true
unfolding value_order
value_order_trans true x y z e f = ground (arith, e, f)
value_order_trans false x y z e f = ground (arith, e, f)

-- The values of checkpoints that all have the metric.
abbrev pub Values : ℕ → List Item → List (ℕ × ℤ) → Type 0
Values metric [] [] = Unit {0}
Values metric [] (v ∷ vs) = ⊥
Values metric (x ∷ xs) [] = ⊥
Values metric (x ∷ xs) (v ∷ vs) =
    ((v.0 ≡ x.0) × (lookup metric (x.1) ≡ some (v.1))) × Values metric xs vs

metric_values-ok :
    (metric : ℕ) (xs : List Item)
    → All (λ x. has metric (x.1) ≡ true) xs
    → (values : List (ℕ × ℤ)) × (metric_values metric xs ≡ ok values) × Values metric xs values
unfolding metric_values
metric_values-ok metric [] a = ([], refl, tt)
metric_values-ok metric (x ∷ xs) (h, a) =
    let (v, f) = has→lookup metric (x.1) h in
    let (values, e, r) = metric_values-ok metric xs a in
    ((x.0, v) ∷ values, rw (f, e, metric_values), ((refl, f), r))

AllAfter-All :
    (h : Bool) (x : ℕ × ℤ) (ys : List (ℕ × ℤ))
    → AllAfter (value_order h) x ys
    → All (λ y. value_order h x y ≡ true) ys
AllAfter-All h x [] a = tt
AllAfter-All h x (y ∷ ys) a = (a.0, AllAfter-All h x ys a.1)

not_empty : (v : ℕ × ℤ) (vs : List (ℕ × ℤ)) → Perm [] (v ∷ vs) → ⊥
not_empty v vs p = omega (arith, sum_of-perm (λ (y : ℕ × ℤ). 1) p)

-- The first of the sorted values, and the others, none of which comes before it.
sorted_first :
    (h : Bool) (v : ℕ × ℤ) (vs : List (ℕ × ℤ))
    → (best : ℕ × ℤ) × (rest : List (ℕ × ℤ)) × (sort_by (value_order h) (v ∷ vs) ≡ best ∷ rest)
      × Perm (best ∷ rest) (v ∷ vs)
      × All (λ y. value_order h best y ≡ true) rest
sorted_first h v vs =
    first (sort_by (value_order h) (v ∷ vs)) (sort_by-perm (value_order h) (v ∷ vs))
      (sort_by-IsSortedBy (value_order h) (value_order_total h) (value_order_trans h) (v ∷ vs))
  where
    first :
        (xs : List (ℕ × ℤ))
        → Perm xs (v ∷ vs)
        → IsSortedBy (value_order h) xs
        → (best : ℕ × ℤ) × (rest : List (ℕ × ℤ)) × (xs ≡ best ∷ rest)
          × Perm (best ∷ rest) (v ∷ vs)
          × All (λ y. value_order h best y ≡ true) rest
    first [] p s = absurd (not_empty v vs p)
    first (x ∷ xs) p s = (x, xs, refl, p, AllAfter-All h x xs (s.0))

best_of-best :
    (metric : ℕ) (h : Bool) (dir : Directory) (x : Item) (xs : List Item)
    → All (λ y. has metric (y.1) ≡ true) (x ∷ xs)
    → (best : ℕ × ℤ) × (rest values : List (ℕ × ℤ)) × (best_of (some metric) h dir (x ∷ xs)
        ≡ ok (some (best.0)))
      × Values metric (x ∷ xs) values
      × Perm (best ∷ rest) values
      × All (λ y. value_order h best y ≡ true) rest
unfolding best_of
best_of-best metric h dir x xs all =
    let (values, e, r) = metric_values-ok metric (x ∷ xs) all in with_values values e r
  where
    with_values :
        (values : List (ℕ × ℤ))
        → metric_values metric (x ∷ xs) ≡ ok values
        → Values metric (x ∷ xs) values
        → (best : ℕ × ℤ) × (rest values : List (ℕ × ℤ)) × (best_of (some metric) h dir (x ∷ xs)
            ≡ ok (some (best.0)))
          × Values metric (x ∷ xs) values
          × Perm (best ∷ rest) values
          × All (λ y. value_order h best y ≡ true) rest
    with_values [] e r = absurd r
    with_values (v ∷ vs) e r =
        let (best, rest, sorted, p, a) = sorted_first h v vs in
        (best, rest, v ∷ vs, rw (all.0) (rw e (ap (λ l. ok (first_step l)) sorted)), r, p, a)

all_worse :
    (h : Bool) (x : ℕ × ℤ) (ys : List (ℕ × ℤ))
    → All (λ y. value_order h x y ≡ true) ys
    → All (λ y. IsAsGood h (x.1) (y.1)) ys
unfolding value_order
all_worse h x [] a = tt
all_worse true x (y ∷ ys) a = (ground (arith, a.0), all_worse true x ys (a.1))
all_worse false x (y ∷ ys) a = (ground (arith, a.0), all_worse false x ys (a.1))

-- If every checkpoint of a history that is not empty has the metric, the best is one of them, and its
-- value is at least as high as every other's where higher is better, and at least as low where not.
pub get_best_checkpoint_path-best :
    (m : Manager) (metric : ℕ) (dir : Directory) (x : Item) (xs : List Item)
    → m.metric_name ≡ some metric
    → load_checkpoint_history dir.steps ≡ x ∷ xs
    → All (λ y. has metric (y.1) ≡ true) (x ∷ xs)
    → (best : ℕ × ℤ) × (rest values : List (ℕ × ℤ)) × (get_best_checkpoint_path m dir
        ≡ ok (some (best.0)))
      × Values metric (x ∷ xs) values
      × Perm (best ∷ rest) values
      × All (λ y. IsAsGood m.higher_is_better (best.1) (y.1)) rest
unfolding get_best_checkpoint_path
get_best_checkpoint_path-best m metric dir x xs named history all =
    let (best, rest, values, e, r, p, a) = best_of-best metric m.higher_is_better dir x xs all in
    (
      best,
      rest,
      values,
      ap (λ name. best_of name m.higher_is_better dir (load_checkpoint_history dir.steps)) named
          ∙ ap (best_of (some metric) m.higher_is_better dir) history
          ∙ e,
      r,
      p,
      all_worse m.higher_is_better best rest a,
    )

-- The latest path is that of a step that is there, and no later one is; there is none only if no
-- step is.
pub get_latest_checkpoint_path-latest :
    (dir : Directory)
    → ((n : ℕ) × (get_latest_checkpoint_path dir ≡ some n)
        × (has n dir.steps ≡ true)
        × ((j : ℕ) → has j dir.steps ≡ true → j ≤ n))
      ⊎ ((get_latest_checkpoint_path dir ≡ none) × (dir.steps ≡ []))
unfolding get_latest_checkpoint_path
get_latest_checkpoint_path-latest dir = among dir.steps
  where
    among :
        (steps : Dict Contents)
        → ((n : ℕ) × (highest steps ≡ some n)
            × (has n steps ≡ true)
            × ((j : ℕ) → has j steps ≡ true → j ≤ n))
          ⊎ ((highest steps ≡ none) × (steps ≡ []))
    among [] = inr (refl, refl)
    among ((i, c) ∷ steps) = elim (among steps) [
      | inl (n, e, h, b) ↦ inl (
        max i n,
        rw e refl,
        elim (Bool-cases (max i n == i)) [
          | inl f ↦ rw f refl
          | inr f ↦
              let same : max i n ≡ n = ground (arith, f) in rw f (ap (λ k. has k steps) same ∙ h)
        ],
        λ j g. elim (Bool-cases (j == i)) [
          | inl f ↦ ground (arith, f)
          | inr f ↦ let k = b j (rw f at g) in omega (arith, k)
        ],
      )
      | inr (e, none_left) ↦ inl (
        i,
        rw e refl,
        rw (==-self i) refl,
        λ j g. elim (Bool-cases (j == i)) [
          | inl f ↦ ground (arith, f)
          | inr f ↦ let x = rw (f, none_left) at g in cc
        ],
      )
    ]
