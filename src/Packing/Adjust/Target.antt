-- ===== src/Packing/Adjust/Target.antt =====
-- The number of bins that `_adjust_bin_count` aims at.
use ne_mo_rl_enhanced_math_r.Common.{
  ℕ, suc, ◌+◌, ◌-◌, ◌*◌, ◌/◌, ◌%◌, ◌≤◌, ◌<◌, ◌≡◌, ◌≢◌, sym, ap, ◌∙◌, max, Option, none, some, arith,
  ◌==◌, Bool-cases, inl, inr,
}
use native.Mathlib.Nat.{mod-lt, div-add-mod, mod-add-mod, mod-eq-sub-mod, zero-mod}
use native.Mathlib.Decide.{dec_lt}
use ne_mo_rl_enhanced_math_r.Packing.Adjust.{round_up, target_bin_count}

abbrev pub Reaches : Option ℕ → ℕ → Type 0
Reaches none n = Unit {0}
Reaches (some least) n = least ≤ n

abbrev pub IsMultiple : Option ℕ → ℕ → Type 0
IsMultiple none n = Unit {0}
IsMultiple (some multiple) n = n % multiple ≡ 0

-- `n` respects the two settings of the packer.
pub record Meets (min_bin_count bin_count_multiple : Option ℕ) (n : ℕ) : Type 0 where
  pub enough : Reaches min_bin_count n
  pub multiple : IsMultiple bin_count_multiple n

abbrev pub IsPositive : Option ℕ → Type 0
IsPositive none = Unit {0}
IsPositive (some m) = 0 < m

mod_self : (m : ℕ) → m % m ≡ 0
mod_self m = mod-eq-sub-mod (omega arith) ∙ (ap (λ k. k % m) (omega arith) ∙ zero-mod m)

rounded : (m c : ℕ) → 0 < m → (c + (m - c % m)) % m ≡ 0
rounded m c h =
    sym (mod-add-mod c m (m - c % m))
    ∙ (ap (λ k. k % m) (omega (arith, mod-lt c {m = m})) ∙ mod_self m)

mul-le : (m a b : ℕ) → a ≤ b → m * a ≤ m * b
mul-le m a b h = grind arith

div_below : (m c n : ℕ) → n % m ≡ 0 → c % m ≢ 0 → c ≤ n → c / m < n / m
div_below m c n e g l = elim (dec_lt (c / m) (n / m)) [
  | yes p ↦ p
  | no p ↦
      absurd
        (omega (arith, mul-le m (n / m) (c / m) (omega arith), div-add-mod c m, div-add-mod n m))
]

round_up_least : (m c n : ℕ) → 0 < m → n % m ≡ 0 → c % m ≢ 0 → c ≤ n → c + (m - c % m) ≤ n
round_up_least m c n h e g l = omega (
  arith,
  mul-le m (suc (c / m)) (n / m) (div_below m c n e g l),
  div-add-mod c m,
  div-add-mod n m,
  mod-lt c h,
)

round_up-IsMultiple :
    (multiple : Option ℕ) (n : ℕ) → IsPositive multiple → IsMultiple multiple (round_up multiple n)
round_up-IsMultiple none n h = tt
round_up-IsMultiple (some m) n h = elim (Bool-cases (n % m == 0)) [
  | inl e ↦ rw e (ground (arith, e))
  | inr e ↦ rw e (rounded m n h)
]

le-round_up : (multiple : Option ℕ) (n : ℕ) → n ≤ round_up multiple n
le-round_up none n = omega arith
le-round_up (some m) n = ground arith

round_up-le :
    (multiple : Option ℕ) (c n : ℕ)
    → IsPositive multiple
    → c ≤ n
    → IsMultiple multiple n
    → round_up multiple c ≤ n
round_up-le none c n h l e = l
round_up-le (some m) c n h l e = elim (Bool-cases (c % m == 0)) [
  | inl f ↦ rw f l
  | inr f ↦ rw f (round_up_least m c n h e (ground (arith, f)) l)
]

-- The target respects both settings, is at least the number of bins, and is the least such number.
pub target_bin_count_least :
    (least multiple : Option ℕ) (count : ℕ)
    → IsPositive multiple
    → (count ≤ target_bin_count least multiple count)
      × Meets least multiple (target_bin_count least multiple count)
      × ((n : ℕ) → count ≤ n → Meets least multiple n → target_bin_count least multiple count ≤ n)
unfolding target_bin_count
target_bin_count_least none multiple count h = (
  le-round_up multiple count,
  record { enough = tt; multiple = round_up-IsMultiple multiple count h },
  λ n l e. round_up-le multiple count n h l e.multiple,
)
target_bin_count_least (some m) multiple count h = (
  omega (arith, le-round_up multiple (max count m)),
  record {
    enough = omega (arith, le-round_up multiple (max count m));
    multiple = round_up-IsMultiple multiple (max count m) h;
  },
  λ n l e. round_up-le multiple (max count m) n h (omega (arith, e.enough)) e.multiple,
)
