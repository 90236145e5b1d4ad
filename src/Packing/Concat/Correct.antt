-- ===== src/Packing/Concat/Correct.antt =====
-- What concatenative packing guarantees.
use mathlib.Core.List.Perm
use ne_mo_rl_enhanced_math_r.Common.{
  ℕ, suc, ◌+◌, ◌≤◌, ◌<◌, ◌≡◌, ◌≢◌, refl, ap, ◌∙◌, sym, ◌⊎◌, inl, inr, ◌||◌, List, [], ◌∷◌, ◌++◌,
  map, flatten, Option, arith, ltb, Bool-cases, ok, raise, length, get_or, take, enumerate,
  enumerate_from, map-enumerate_from, range, All, All-append, All-enumerate, PlacedIn,
  sum_of-append, append-nil, append_assoc,
}
use ne_mo_rl_enhanced_math_r.Packing.Base.{
  exceeds_capacity, validate_sequence_lengths, load, IsPacking,
}
use ne_mo_rl_enhanced_math_r.Packing.Bins.{flatten-append}
use ne_mo_rl_enhanced_math_r.Packing.Concat.{
  State, start, close_bin, exceeds_sequence_limit, add_sequence, add_all, concatenative,
}

-- The check passes exactly when no sequence is too long, and otherwise names the first that is.
pub validate_first :
    (capacity : ℕ) (lengths : List ℕ)
    → ((validate_sequence_lengths capacity lengths ≡ ok tt) × All (λ l. l ≤ capacity) lengths)
      ⊎ ((i : ℕ) × (validate_sequence_lengths capacity lengths
            ≡ raise (exceeds_capacity (get_or lengths i 0) capacity))
          × (capacity < get_or lengths i 0)
          × All (λ l. l ≤ capacity) (take i lengths))
unfolding validate_sequence_lengths
validate_first capacity [] = inl (refl, tt)
validate_first capacity (l ∷ ls) = elim (Bool-cases (ltb capacity l)) [
  | inl e ↦ inr (0, rw e, ground arith, tt)
  | inr e ↦ elim (validate_first capacity ls) [
    | inl (f, a) ↦ inl (rw (e, f), (ground arith, a))
    | inr (i, f, h, a) ↦ inr (suc i, rw (e, f), h, (ground arith, a))
  ]
]

pub validate_cases :
    (capacity : ℕ) (lengths : List ℕ)
    → ((validate_sequence_lengths capacity lengths ≡ ok tt) × All (λ l. l ≤ capacity) lengths)
      ⊎ ((i : ℕ) × (validate_sequence_lengths capacity lengths
            ≡ raise (exceeds_capacity (get_or lengths i 0) capacity))
          × (capacity < get_or lengths i 0))
validate_cases capacity lengths = elim (validate_first capacity lengths) [
  | inl h ↦ inl h
  | inr (i, e, h, _) ↦ inr (i, e, h)
]

-- The bins of a state, the open one included.
abbrev closed : State → List (List ℕ)
closed s = close_bin s.bins s.current_bin

flatten-close_bin :
    (bins : List (List ℕ)) (current : List ℕ)
    → flatten (close_bin bins current) ≡ flatten bins ++ current
unfolding flatten
flatten-close_bin bins [] = sym (append-nil (flatten bins))
flatten-close_bin bins (i ∷ current) =
    rw (flatten-append bins ((i ∷ current) ∷ []), append-nil (i ∷ current))

close_bin-All :
    (P : List ℕ → Type 0) (bins : List (List ℕ)) (current : List ℕ)
    → All P bins
    → P current
    → All P (close_bin bins current)
close_bin-All P bins [] h k = h
close_bin-All P bins (i ∷ current) h k = All-append P bins ((i ∷ current) ∷ []) h (k, tt)

close_bin-filled :
    (bins : List (List ℕ)) (current : List ℕ)
    → All (λ b. b ≢ []) bins
    → All (λ b. b ≢ []) (close_bin bins current)
close_bin-filled bins [] h = h
close_bin-filled bins (i ∷ current) h =
    All-append (λ b. b ≢ []) bins ((i ∷ current) ∷ []) h (λ e. cc, tt)

module _ (lengths : List ℕ) (limit : Option ℕ) (capacity : ℕ) where
  -- The first sequences are in the bins, in their order.
  record Inv (done : List ℕ) (s : State) : Type 0 where
    placed : flatten s.bins ++ s.current_bin ≡ done
    fits : All (λ bin. load lengths bin ≤ capacity) s.bins
    filled : All (λ bin. bin ≢ []) s.bins
    measured : load lengths s.current_bin ≡ s.current_length
    within : s.current_length ≤ capacity

  start-Inv : Inv [] start
  unfolding flatten
  start-Inv = record {
    placed = refl;
    fits = tt;
    filled = tt;
    measured = refl;
    within = omega arith;
  }

  add_sequence-Inv :
      (i : ℕ) (done : List ℕ) (s : State)
      → get_or lengths i 0 ≤ capacity
      → Inv done s
      → Inv (done ++ i ∷ []) (add_sequence limit capacity s (get_or lengths i 0, i))
  unfolding add_sequence
  add_sequence-Inv i done s h v =
      let l = get_or lengths i 0 in
      elim (Bool-cases
        (ltb capacity (s.current_length + l) || exceeds_sequence_limit limit s.current_bin)) [
          | inl e ↦ rw e (record {
            placed = ap (λ t. t ++ i ∷ []) (flatten-close_bin s.bins s.current_bin ∙ v.placed);
            fits =
                close_bin-All (λ bin. load lengths bin ≤ capacity) s.bins s.current_bin v.fits
                  (omega (arith, v.measured, v.within));
            filled = close_bin-filled s.bins s.current_bin v.filled;
            measured = omega arith;
            within = h;
          })
          | inr e ↦ rw e (record {
            placed =
                sym (append_assoc (flatten s.bins) s.current_bin (i ∷ []))
                ∙ ap (λ t. t ++ i ∷ []) v.placed;
            fits = v.fits;
            filled = v.filled;
            measured =
                omega (
                  arith,
                  sum_of-append (λ i. get_or lengths i 0) s.current_bin (i ∷ []),
                  v.measured,
                );
            within = ground (arith, e);
          })
        ]

  add_all-Inv :
      (items : List (ℕ × ℕ)) (done : List ℕ) (s : State)
      → All (PlacedIn lengths 0) items
      → All (λ p. p.0 ≤ capacity) items
      → Inv done s
      → Inv (done ++ map (λ p. p.1) items) (add_all limit capacity s items)
  unfolding add_all
  add_all-Inv [] done s a h v = rw (append-nil done) v
  add_all-Inv ((l, i) ∷ rest) done s a h v =
      rw (← append_assoc done (i ∷ []) (map (λ p. p.1) rest)) (
        add_all-Inv rest (done ++ i ∷ []) (add_sequence limit capacity s (l, i)) a.1 h.1
          (rw (a.0) at (add_sequence-Inv i done s (rw (a.0) (h.0)) v)))

pub All-enumerate-le :
    (capacity k : ℕ) (lengths : List ℕ)
    → All (λ l. l ≤ capacity) lengths
    → All (λ p. p.0 ≤ capacity) (enumerate_from k lengths)
All-enumerate-le capacity k [] h = tt
All-enumerate-le capacity k (l ∷ ls) h = (h.0, All-enumerate-le capacity (suc k) ls h.1)

-- Concatenative packing keeps the sequences in order, each once, and overfills no bin, whatever the
-- limit on the sequences of a bin; or it raises for a sequence that is longer than a bin.
pub concatenative-IsPacking :
    (limit : Option ℕ) (capacity : ℕ) (lengths : List ℕ)
    → ((bins : List (List ℕ)) × (concatenative limit capacity lengths ≡ ok bins)
        × (flatten bins ≡ range (length lengths))
        × IsPacking capacity lengths bins)
      ⊎ ((i : ℕ) × (concatenative limit capacity lengths
            ≡ raise (exceeds_capacity (get_or lengths i 0) capacity))
          × (capacity < get_or lengths i 0))
unfolding concatenative
concatenative-IsPacking limit capacity lengths = elim (validate_cases capacity lengths) [
  | inl (e, h) ↦
      let s = add_all limit capacity start (enumerate lengths) in
      let v =
        add_all-Inv lengths limit capacity (enumerate lengths) [] start (All-enumerate lengths 0)
          (All-enumerate-le capacity 0 lengths h) (start-Inv lengths limit capacity) in
      let order : flatten (closed s) ≡ range (length lengths) =
        flatten-close_bin s.bins s.current_bin ∙ (v.placed ∙ map-enumerate_from 0 lengths) in
      inl (
        closed s,
        rw e,
        order,
        record {
          complete = rw order Perm.rfl;
          fits =
              close_bin-All (λ bin. load lengths bin ≤ capacity) s.bins s.current_bin v.fits
                (omega (arith, v.measured, v.within));
          filled = close_bin-filled s.bins s.current_bin v.filled;
        },
      )
  | inr (i, e, h) ↦ inr (i, rw e, h)
]
