-- ===== src/Checkpoint/Order.antt =====
-- The order of the checkpoints, by metric and then step, is a total one.
use ne_mo_rl_enhanced_math_r.Common.{
  ℕ, ◌&&◌, ◌||◌, not, leb, ◌≤◌, ◌≡◌, refl, inl, inr, Bool, true, false, Option, none, some, arith,
  Bool-cases,
}
use ne_mo_rl_enhanced_math_r.Common.Int.{ℤ, ◌≤ℤ◌, ltb_ℤ}
use ne_mo_rl_enhanced_math_r.Checkpoint.{Item, Manager, metric_of, better, may_precede}

-- At least as good a value.
abbrev pub IsAsGood : Bool → ℤ → ℤ → Type 0
IsAsGood true a b = b ≤ℤ a
IsAsGood false a b = a ≤ℤ b

-- A checkpoint of step `i` with the value `a` is to be kept rather than one of step `j` with `b`: any
-- value is better than none, and of equal values the more recent step counts.
abbrev pub IsPreferred : Bool → Option ℤ → Option ℤ → ℕ → ℕ → Type 0
IsPreferred higher (some a) (some b) i j = IsAsGood higher a b × (a ≡ b → j ≤ i)
IsPreferred higher (some a) none i j = Unit {0}
IsPreferred higher none (some b) i j = ⊥
IsPreferred higher none none i j = j ≤ i

better_asym : (h : Bool) (a b : Option ℤ) → better h a b ≡ true → better h b a ≡ false
unfolding better
better_asym h none b e = cc
better_asym h (some a) none e = refl
better_asym true (some a) (some b) e = ground (arith, e)
better_asym false (some a) (some b) e = ground (arith, e)

better_weak :
    (h : Bool) (a b c : Option ℤ)
    → better h a b ≡ false
    → better h b c ≡ false
    → better h a c ≡ false
unfolding better
better_weak h none b c e f = refl
better_weak h (some a) none c e f = cc
better_weak h (some a) (some b) none e f = cc
better_weak true (some a) (some b) (some c) e f = ground (arith, e, f)
better_weak false (some a) (some b) (some c) e f = ground (arith, e, f)

module _ (m : Manager) where
  pub may_precede_total : (x y : Item) → may_precede m x y ≡ false → may_precede m y x ≡ true
  unfolding may_precede
  may_precede_total x y e =
      let a = metric_of m.metric_name x in
      let b = metric_of m.metric_name y in
      elim (Bool-cases (better m.higher_is_better b a)) [
        | inl f ↦ rw f refl
        | inr f ↦ elim (Bool-cases (better m.higher_is_better a b)) [
          | inl g ↦ let x = rw g at e in cc
          | inr g ↦ rw (f, g) (ground (arith, rw (g, f) at e))
        ]
      ]

  -- Not worse, and if it is not better then of a step at least as recent.
  Precedes : Item → Item → Type 0
  Precedes x y =
      (better m.higher_is_better (metric_of m.metric_name y) (metric_of m.metric_name x) ≡ false)
      × (better m.higher_is_better (metric_of m.metric_name x) (metric_of m.metric_name y) ≡ false
          → y.0 ≤ x.0)

  may_precede→ : (x y : Item) → may_precede m x y ≡ true → Precedes x y
  unfolding may_precede Precedes
  may_precede→ x y e =
      let a = metric_of m.metric_name x in
      let b = metric_of m.metric_name y in
      elim (Bool-cases (better m.higher_is_better a b)) [
        | inl f ↦ (better_asym m.higher_is_better a b f, λ g. absurd (clash f g))
        | inr f ↦ elim (Bool-cases (better m.higher_is_better b a)) [
          | inl g ↦ let x = rw (f, g) at e in cc
          | inr g ↦ (g, λ _. ground (arith, rw (f, g) at e))
        ]
      ]
    where
      clash : {c : Bool} → c ≡ true → c ≡ false → ⊥
      clash p q = cc

  may_precede← : (x y : Item) → Precedes x y → may_precede m x y ≡ true
  unfolding may_precede Precedes
  may_precede← x y (g, h) =
      let a = metric_of m.metric_name x in
      let b = metric_of m.metric_name y in
      elim (Bool-cases (better m.higher_is_better a b)) [
        | inl f ↦ rw f refl
        | inr f ↦ rw (f, g) (ground (arith, h f))
      ]

  pub may_precede_trans :
      (x y z : Item)
      → may_precede m x y ≡ true
      → may_precede m y z ≡ true
      → may_precede m x z ≡ true
  unfolding Precedes
  may_precede_trans x y z e f =
      let hb = m.higher_is_better in
      let a = metric_of m.metric_name x in
      let b = metric_of m.metric_name y in
      let c = metric_of m.metric_name z in
      let (ba, xy) = may_precede→ x y e in
      let (cb, yz) = may_precede→ y z f in
      may_precede← x z (
        better_weak hb c b a cb ba,
        λ ac. omega (arith, xy (better_weak hb a c b ac cb), yz (better_weak hb b a c ba ac)),
      )

preferred :
    (h : Bool) (a b : Option ℤ) (i j : ℕ)
    → (better h a b || (not (better h b a) && leb j i)) ≡ true
    → IsPreferred h a b i j
unfolding better
preferred h none none i j e = ground (arith, e)
preferred h none (some b) i j e = cc
preferred h (some a) none i j e = tt
preferred true (some a) (some b) i j e = (ground (arith, e), λ same. recent a b same (rw same at e))
  where
    recent : (a b : ℤ) → a ≡ b → (ltb_ℤ b b || (not (ltb_ℤ b b) && leb j i)) ≡ true → j ≤ i
    recent a b same e = ground (arith, e)
preferred false (some a) (some b) i j e =
    (ground (arith, e), λ same. recent a b same (rw same at e))
  where
    recent : (a b : ℤ) → a ≡ b → (ltb_ℤ b b || (not (ltb_ℤ b b) && leb j i)) ≡ true → j ≤ i
    recent a b same e = ground (arith, e)

-- What comes first in the order of the sort is preferred.
pub may_precede-IsPreferred :
    (m : Manager) (x y : Item)
    → may_precede m x y ≡ true
    → IsPreferred m.higher_is_better
        (metric_of m.metric_name x)
        (metric_of m.metric_name y)
        (x.0)
        (y.0)
unfolding may_precede
may_precede-IsPreferred m x y e =
    preferred m.higher_is_better (metric_of m.metric_name x) (metric_of m.metric_name y) (x.0) (y.0)
      e
