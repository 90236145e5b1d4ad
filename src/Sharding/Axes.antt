-- ===== src/Sharding/Axes.antt =====
-- nemo_rl/distributed/named_sharding.py: what the names of the axes stand for.
use ne_mo_rl_enhanced_math_r.Common.{
  ℕ, suc, ◌+◌, Bool, true, false, ◌||◌, List, [], ◌∷◌, ◌++◌, some, ◌==◌, ◌⊎◌, inl, inr, Dict,
  lookup, put, has, length, ◌≡◌, refl, sym, ap, ◌∙◌, arith, Bool-cases, lookup-put_self,
  lookup-put_ne, append_assoc, append-nil,
}
use ne_mo_rl_enhanced_math_r.Sharding.{contains, has_duplicates, axes_from, named}

-- Distinct names: the first is not among the rest, which are distinct.
pub distinct_parts :
    (n : ℕ) (ns : List ℕ)
    → has_duplicates (n ∷ ns) ≡ false
    → (contains n ns ≡ false) × (has_duplicates ns ≡ false)
distinct_parts n ns h = parts (contains n ns) (has_duplicates ns) h
  where
    parts : (a b : Bool) → (a || b) ≡ false → (a ≡ false) × (b ≡ false)
    parts true b h = cc
    parts false b h = (refl, h)

pub contains_parts :
    (n m : ℕ) (ns : List ℕ)
    → contains n (m ∷ ns) ≡ false
    → ((n == m) ≡ false) × (contains n ns ≡ false)
contains_parts n m ns h = elim (Bool-cases (n == m)) [
  | inl e ↦ let x = rw e at h in cc
  | inr e ↦ (e, rw e at h)
]

differ : (n m : ℕ) → (n == m) ≡ false → n ≡ m → ⊥
differ n m h e = ground (arith, h, e)

lookup-axes_rest :
    (n i : ℕ) (ns : List ℕ) (d : Dict ℕ)
    → contains n ns ≡ false
    → lookup n (axes_from i ns d) ≡ lookup n d
lookup-axes_rest n i [] d h = refl
lookup-axes_rest n i (m ∷ ns) d h =
    let (e, f) = contains_parts n m ns h in
    lookup-axes_rest n (suc i) ns (put m i d) f ∙ lookup-put_ne m n i d (differ n m e)

pub lookup-axes_from :
    (n i : ℕ) (before ns : List ℕ) (d : Dict ℕ)
    → contains n ns ≡ false
    → lookup n (axes_from i (before ++ n ∷ ns) d) ≡ some (length before + i)
lookup-axes_from n i [] ns d h =
    lookup-axes_rest n (suc i) ns (put n i d) h ∙ lookup-put_self n i d ∙ ap some (omega arith)
lookup-axes_from n i (m ∷ before) ns d h =
    lookup-axes_from n (suc i) before ns (put m i d) h ∙ ap some next
  where
    next : length before + suc i ≡ suc (length before) + i
    next = omega arith

lookup-named_rest :
    (n : ℕ) (ns sizes : List ℕ) (d : Dict ℕ)
    → contains n ns ≡ false
    → lookup n (named ns sizes d) ≡ lookup n d
lookup-named_rest n [] sizes d h = refl
lookup-named_rest n (m ∷ ns) [] d h = refl
lookup-named_rest n (m ∷ ns) (k ∷ sizes) d h =
    let (e, f) = contains_parts n m ns h in
    lookup-named_rest n ns sizes (put m k d) f ∙ lookup-put_ne m n k d (differ n m e)

pub lookup-named :
    (n k : ℕ) (before ns befores sizes : List ℕ) (d : Dict ℕ)
    → contains n ns ≡ false
    → length before ≡ length befores
    → lookup n (named (before ++ n ∷ ns) (befores ++ k ∷ sizes) d) ≡ some k
lookup-named n k [] ns [] sizes d h e =
    lookup-named_rest n ns sizes (put n k d) h ∙ lookup-put_self n k d
lookup-named n k [] ns (b ∷ befores) sizes d h e = absurd (omega (arith, e))
lookup-named n k (m ∷ before) ns [] sizes d h e = absurd (omega (arith, e))
lookup-named n k (m ∷ before) ns (b ∷ befores) sizes d h e =
    lookup-named n k before ns befores sizes (put m b d) h (omega (arith, e))

-- Pairs of names and numbers, in their order.
abbrev pub pairs : List ℕ → List ℕ → Dict ℕ
pairs [] numbers = []
pairs (n ∷ ns) [] = []
pairs (n ∷ ns) (k ∷ numbers) = (n, k) ∷ pairs ns numbers

-- No name is a key of the dictionary.
abbrev AreNew : List ℕ → Dict ℕ → Type 0
AreNew [] d = Unit {0}
AreNew (n ∷ ns) d = (has n d ≡ false) × AreNew ns d

put_new : (n k : ℕ) (d : Dict ℕ) → has n d ≡ false → put n k d ≡ d ++ (n, k) ∷ []
put_new n k [] h = refl
put_new n k ((j, b) ∷ d) h = elim (Bool-cases (n == j)) [
  | inl e ↦ let x = rw e at h in cc
  | inr e ↦ rw e (ap (λ t. (j, b) ∷ t) (put_new n k d (rw e at h)))
]

has-append :
    (j n k : ℕ) (d : Dict ℕ) → (n == j) ≡ false → has j d ≡ false → has j (d ++ (n, k) ∷ []) ≡ false
has-append j n k [] e h = rw (flip (Bool-cases (j == n))) refl
  where
    flip : ((j == n) ≡ true) ⊎ ((j == n) ≡ false) → (j == n) ≡ false
    flip (inl f) = absurd (differ n j e (ground (arith, f)))
    flip (inr f) = f
has-append j n k ((i, b) ∷ d) e h = elim (Bool-cases (j == i)) [
  | inl f ↦ let x = rw f at h in cc
  | inr f ↦ rw f (has-append j n k d e (rw f at h))
]

append-AreNew :
    (n k : ℕ) (ns : List ℕ) (d : Dict ℕ)
    → contains n ns ≡ false
    → AreNew ns d
    → AreNew ns (d ++ (n, k) ∷ [])
append-AreNew n k [] d h new = tt
append-AreNew n k (m ∷ ns) d h (first, new) =
    let (e, f) = contains_parts n m ns h in
    (has-append m n k d e first, append-AreNew n k ns d f new)

named_after :
    (ns numbers : List ℕ) (d : Dict ℕ)
    → has_duplicates ns ≡ false
    → AreNew ns d
    → named ns numbers d ≡ d ++ pairs ns numbers
named_after [] numbers d h new = sym (append-nil d)
named_after (n ∷ ns) [] d h new = sym (append-nil d)
named_after (n ∷ ns) (k ∷ numbers) d h (first, new) =
    let (apart, distinct) = distinct_parts n ns h in
    ap (named ns numbers) (put_new n k d first)
    ∙ named_after ns numbers (d ++ (n, k) ∷ []) distinct (append-AreNew n k ns d apart new)
    ∙ append_assoc d ((n, k) ∷ []) (pairs ns numbers)

pub named-pairs :
    (ns numbers : List ℕ) → has_duplicates ns ≡ false → named ns numbers [] ≡ pairs ns numbers
named-pairs ns numbers h = named_after ns numbers [] h (nothing ns)
  where
    nothing : (ns : List ℕ) → AreNew ns []
    nothing [] = tt
    nothing (n ∷ ns) = (refl, nothing ns)
