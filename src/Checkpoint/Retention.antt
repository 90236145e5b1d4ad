-- ===== src/Checkpoint/Retention.antt =====
-- What the cleanup keeps: the best `keep_top_k` checkpoints, and the latest.
use ne_mo_rl_enhanced_math_r.Common.{
  ℕ, zero, suc, ◌≤◌, ◌≡◌, refl, sym, ap, ◌∙◌, inl, inr, Bool, true, false, ◌&&◌, not, List, [], ◌∷◌,
  ◌++◌, Option, none, some, min, arith, ◌==◌, if◌then◌else◌, Bool-cases, sort_by, sort_by-perm,
  IsSortedBy, AllAfter, sort_by-IsSortedBy, take, drop, take-append-drop, length, length-take, Dict,
  lookup, has, delete, ==-self, lookup-delete_self, lookup-delete_ne, All, Perm, sum_of,
  sum_of-perm, sum_of-append,
}
use ne_mo_rl_enhanced_math_r.Checkpoint.{
  Item, metric_of, Contents, Directory, Manager, load_checkpoint_history, may_precede, latest_step,
  remove_all, keep_only, remove_old_checkpoints,
}
use ne_mo_rl_enhanced_math_r.Checkpoint.Order.{
  IsPreferred, may_precede-IsPreferred, may_precede_total, may_precede_trans,
}

-- Whether the cleanup removes a step, given those outside the top.
abbrev pub doomed : Bool → ℕ → List Item → ℕ → Bool
doomed exclude_latest latest rest n = has n rest && not (exclude_latest && (n == latest))

remove_all-lookup :
    (exclude_latest : Bool) (latest : ℕ) (rest : List Item) (steps : Dict Contents) (n : ℕ)
    → lookup n (remove_all exclude_latest latest rest steps)
      ≡ (if doomed exclude_latest latest rest n then none else lookup n steps)
unfolding remove_all
remove_all-lookup ex latest [] steps n = refl
remove_all-lookup ex latest (x ∷ xs) steps n =
    let rest = remove_all-lookup ex latest xs in
    elim (Bool-cases (n == x.0)) [
      | inl e ↦
          let same : n ≡ x.0 = ground (arith, e) in
          rw same (elim (Bool-cases (ex && (x.0 == latest))) [
            | inl f ↦
                rw (f, ==-self (x.0))
                  (rest steps (x.0)
                    ∙ ap (λ b. if has (x.0) xs && not b then none else lookup (x.0) steps) f
                    ∙ never (has (x.0) xs) (lookup (x.0) steps))
            | inr f ↦
                rw (f, ==-self (x.0))
                  (rest (delete (x.0) steps) (x.0)
                    ∙ ap (λ o. if doomed ex latest xs (x.0) then none else o)
                        (lookup-delete_self (x.0) steps)
                    ∙ either (doomed ex latest xs (x.0)))
          ])
      | inr e ↦ rw e (elim (Bool-cases (ex && (x.0 == latest))) [
        | inl f ↦ rw f (rest steps n)
        | inr f ↦ rw f (
            rest (delete (x.0) steps) n
            ∙ ap (λ o. if doomed ex latest xs n then none else o)
                (lookup-delete_ne (x.0) n steps (λ same. differ e same)))
      ])
    ]
  where
    never : (b : Bool) (o : Option Contents) → (if b && not true then none else o) ≡ o
    never true o = refl
    never false o = refl

    either : (b : Bool) → ◌≡◌ {A = Option Contents} (if b then none else none) none
    either true = refl
    either false = refl

    differ : {i j : ℕ} → (i == j) ≡ false → i ≡ j → ⊥
    differ e same = ground (arith, e, same)

AllAfter-All :
    (m : Manager) (x : Item) (xs : List Item)
    → AllAfter (may_precede m) x xs
    → All (λ y. may_precede m x y ≡ true) xs
AllAfter-All m x [] h = tt
AllAfter-All m x (y ∷ ys) h = (h.0, AllAfter-All m x ys h.1)

drop-All : (P : Item → Type 0) (k : ℕ) (xs : List Item) → All P xs → All P (drop k xs)
drop-All P zero xs h = h
drop-All P (suc k) [] h = h
drop-All P (suc k) (x ∷ xs) h = drop-All P k xs h.1

-- Each of the first `k` may precede each of the others.
sorted-split :
    (m : Manager) (k : ℕ) (xs : List Item)
    → IsSortedBy (may_precede m) xs
    → All (λ x. All (λ y. may_precede m x y ≡ true) (drop k xs)) (take k xs)
sorted-split m zero xs s = tt
sorted-split m (suc k) [] s = tt
sorted-split m (suc k) (x ∷ xs) s =
    (drop-All _ k xs (AllAfter-All m x xs s.0), sorted-split m k xs s.1)

all-IsPreferred :
    (m : Manager) (xs ys : List Item)
    → All (λ x. All (λ y. may_precede m x y ≡ true) ys) xs
    → All
        (λ x.
          All
            (λ y.
              IsPreferred m.higher_is_better
                (metric_of m.metric_name x)
                (metric_of m.metric_name y)
                (x.0)
                (y.0))
            ys)
        xs
all-IsPreferred m [] ys h = tt
all-IsPreferred m (x ∷ xs) ys h = (each ys (h.0), all-IsPreferred m xs ys (h.1))
  where
    each :
        (ys : List Item)
        → All (λ y. may_precede m x y ≡ true) ys
        → All
            (λ y.
              IsPreferred m.higher_is_better
                (metric_of m.metric_name x)
                (metric_of m.metric_name y)
                (x.0)
                (y.0))
            ys
    each [] h = tt
    each (y ∷ ys) h = (may_precede-IsPreferred m x y (h.0), each ys (h.1))

length-perm : {xs ys : List Item} → Perm xs ys → length xs ≡ length ys
length-perm {xs} {ys} p = sym (ones xs) ∙ sum_of-perm (λ _. 1) p ∙ ones ys
  where
    ones : (zs : List Item) → sum_of (λ _. 1) zs ≡ length zs
    ones [] = refl
    ones (z ∷ zs) = omega (arith, ones zs)

abbrev pub occurs : ℕ → Item → ℕ
occurs n x = if n == x.0 then 1 else 0

-- No two checkpoints are of the same step.
abbrev pub Distinct : List Item → Type 0
Distinct xs = (n : ℕ) → sum_of (occurs n) xs ≤ 1

has→occurs : (n : ℕ) (xs : List Item) → has n xs ≡ true → 1 ≤ sum_of (occurs n) xs
has→occurs n [] h = cc
has→occurs n (x ∷ xs) h = elim (Bool-cases (n == x.0)) [
  | inl e ↦ rw e (omega arith)
  | inr e ↦ rw e (omega (arith, has→occurs n xs (rw e at h)))
]

has_once : (n : ℕ) (xs ys : List Item) → Distinct (xs ++ ys) → has n xs ≡ true → has n ys ≡ false
has_once n xs ys d h = elim (Bool-cases (has n ys)) [
  | inl e ↦
      absurd
        (omega (arith, d n, sum_of-append (occurs n) xs ys, has→occurs n xs h, has→occurs n ys e))
  | inr e ↦ e
]

remove_old-steps :
    (m : Manager) (ex : Bool) (dir : Directory) (k : ℕ)
    → m.keep_top_k ≡ some k
    → (remove_old_checkpoints m ex dir).steps ≡ (
        let history = load_checkpoint_history dir.steps in
        remove_all ex (latest_step history) (drop k (sort_by (may_precede m) history)) dir.steps)
unfolding remove_old_checkpoints keep_only
remove_old-steps m ex dir k e = ap (λ o. (keep_only o m ex dir).steps) e

-- With `keep_top_k`, the history splits in the best k, which are all kept, and the rest, which are
-- all removed, but for the latest if it is excluded. Each of the best has a metric at least as good as
-- each of the rest, the higher or the lower as the manager says, and a missing one is the worst; if
-- both are equal or missing, its step is at least as recent.
pub remove_old_keeps_best :
    (m : Manager) (exclude_latest : Bool) (dir : Directory) (k : ℕ)
    → m.keep_top_k ≡ some k
    → Distinct (load_checkpoint_history dir.steps)
    → let history = load_checkpoint_history dir.steps in
      let after = (remove_old_checkpoints m exclude_latest dir).steps in
      (top : List Item) × (rest : List Item) × Perm (top ++ rest) history
      × (length top ≡ min k (length history))
      × All
          (λ x.
            All
              (λ y.
                IsPreferred m.higher_is_better
                  (metric_of m.metric_name x)
                  (metric_of m.metric_name y)
                  (x.0)
                  (y.0))
              rest)
          top
      × ((n : ℕ) → has n top ≡ true → lookup n after ≡ lookup n dir.steps)
      × ((n : ℕ)
          → lookup n after ≡ (
              if doomed exclude_latest (latest_step history) rest n
              then none
              else lookup n dir.steps))
unfolding remove_old_checkpoints
remove_old_keeps_best m ex dir k e distinct =
    let history = load_checkpoint_history dir.steps in
    let sorted = sort_by (may_precede m) history in
    let top = take k sorted in
    let rest = drop k sorted in
    let latest = latest_step history in
    let perm : Perm (top ++ rest) history =
      rw (take-append-drop k sorted) (sort_by-perm (may_precede m) history) in
    let after : (n : ℕ)
        → lookup n (remove_old_checkpoints m ex dir).steps
          ≡ (if doomed ex latest rest n then none else lookup n dir.steps) =
      λ n.
        ap (lookup n) (remove_old-steps m ex dir k e)
        ∙ remove_all-lookup ex latest rest dir.steps n in
    let distinct' : Distinct (top ++ rest) =
      λ n. omega (arith, sum_of-perm (occurs n) perm, distinct n) in
    let kept : (n : ℕ) → has n top ≡ true → has n rest ≡ false =
      λ n h. has_once n top rest distinct' h in
    (
      top,
      rest,
      perm,
      length-take k sorted ∙ ap (min k) (length-perm (sort_by-perm (may_precede m) history)),
      all-IsPreferred m top rest (
          sorted-split m k sorted (
            sort_by-IsSortedBy (may_precede m) (may_precede_total m) (may_precede_trans m)
              history)),
      λ n h. rw (after n) (rw (kept n h) refl),
      after,
    )

-- With the latest excluded the latest is kept, whatever its metric.
pub remove_old_keeps_latest :
    (m : Manager) (dir : Directory)
    → let latest = latest_step (load_checkpoint_history dir.steps) in
      lookup latest (remove_old_checkpoints m true dir).steps ≡ lookup latest dir.steps
unfolding remove_old_checkpoints keep_only
remove_old_keeps_latest m dir =
    let history = load_checkpoint_history dir.steps in
    let latest = latest_step history in kept m.keep_top_k
  where
    spared :
        (b : Bool) (n : ℕ) (o : Option Contents)
        → (if b && not (true && (n == n)) then none else o) ≡ o
    spared true n o = rw (==-self n) refl
    spared false n o = refl

    kept :
        (o : Option ℕ)
        → let latest = latest_step (load_checkpoint_history dir.steps) in
          lookup latest (keep_only o m true dir).steps ≡ lookup latest dir.steps
    kept none = refl
    kept (some k) =
        let history = load_checkpoint_history dir.steps in
        let rest = drop k (sort_by (may_precede m) history) in
        remove_all-lookup true (latest_step history) rest dir.steps (latest_step history)
        ∙ spared (has (latest_step history) rest) (latest_step history) _
