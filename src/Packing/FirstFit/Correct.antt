-- ===== src/Packing/FirstFit/Correct.antt =====
-- What first-fit packing guarantees, for every order of the sequences.
use mathlib.Core.List.Perm
use mathlib.Core.List.{perm_middle}
use native.Mathlib.Nat.{ℕ_set}
use ne_mo_rl_enhanced_math_r.Common.{
  ℕ, ◌*◌, ◌≤◌, ◌<◌, ◌≡◌, ◌≢◌, refl, ◌⊎◌, inl, inr, List, [], ◌∷◌, ◌++◌, map, Perm, flatten, arith,
  ltb, Bool-cases, Result, ok, raise, length, get_or, enumerate, map-enumerate_from, range, All,
  All-append, All-perm, All-enumerate, PlacedIn, append-nil, sort_by-perm,
}
use ne_mo_rl_enhanced_math_r.Packing.Base.{Error, exceeds_capacity, IsPacking, ge_pair}
use ne_mo_rl_enhanced_math_r.Packing.Bins.{
  append_to-perm, new_bin-perm, append_to-filled, Adjacent, Adjacent-le_twice,
}
use ne_mo_rl_enhanced_math_r.Packing.FirstFit.Remaining.{
  Tracks, Spread, find_bin_cases, Tracks-length, Tracks-append_to, Tracks-new_bin, Tracks-fits,
  Tracks-Adjacent, Spread-lower, Spread-new_bin,
}
use ne_mo_rl_enhanced_math_r.Packing.FirstFit.{
  State, no_bins, place, place_all, first_fit, prepare_decreasing,
}

module _ (lengths : List ℕ) (capacity : ℕ) where
  -- The indices `done` are in the bins, and the bins are as full as first fit makes them.
  record Inv (done : List ℕ) (s : State) : Type 0 where
    placed : Perm (flatten s.bins) done
    tracks : Tracks lengths capacity s.bins s.bin_remaining
    spread : Spread capacity s.bin_remaining
    filled : All (λ b. b ≢ []) s.bins

  no_bins-Inv : Inv [] no_bins
  unfolding flatten
  no_bins-Inv = record { placed = Perm.rfl; tracks = tt; spread = tt; filled = tt }

  place-Inv :
      (idx : ℕ) (done : List ℕ) (s : State)
      → get_or lengths idx 0 ≤ capacity
      → Inv done s
      → Inv (idx ∷ done) (place capacity s (get_or lengths idx 0, idx))
  unfolding place
  place-Inv idx done s h v = elim (find_bin_cases (get_or lengths idx 0) s.bin_remaining) [
    | inl (e, small) ↦
        rw (e, place)
          (record {
            placed = Perm.trans (new_bin-perm idx s.bins) (Perm.cons idx v.placed);
            tracks = Tracks-new_bin lengths capacity idx s.bins s.bin_remaining h v.tracks;
            spread =
                Spread-new_bin capacity (get_or lengths idx 0) s.bin_remaining h small v.spread;
            filled = All-append (λ b. b ≢ []) s.bins ((idx ∷ []) ∷ []) v.filled (λ e. cc, tt);
          })
    | inr (i, e, inside, room) ↦
        rw (e, place)
          (record {
            placed =
                Perm.trans
                  (append_to-perm i idx s.bins
                    (omega (arith, Tracks-length lengths capacity s.bins s.bin_remaining v.tracks)))
                  (Perm.cons idx v.placed);
            tracks = Tracks-append_to lengths capacity idx i s.bins s.bin_remaining room v.tracks;
            spread = Spread-lower capacity (get_or lengths idx 0) i s.bin_remaining v.spread;
            filled = append_to-filled i idx s.bins v.filled;
          })
  ]

  Inv-perm : {done more : List ℕ} {s : State} → Perm done more → Inv done s → Inv more s
  Inv-perm {s} p v = record {
    placed = Perm.trans v.placed p;
    tracks = v.tracks;
    spread = v.spread;
    filled = v.filled;
  }

  -- The loop ends with everything placed, or at the first sequence that is too long.
  abbrev Outcome : Result Error State → List ℕ → Type 0
  Outcome r done =
      ((s : State) × (r ≡ ok s) × Inv done s)
      ⊎ ((i : ℕ) × (r ≡ raise (exceeds_capacity (get_or lengths i 0) capacity))
          × (capacity < get_or lengths i 0))

  place_all-Outcome :
      (items : List (ℕ × ℕ)) (done : List ℕ) (s : State)
      → All (PlacedIn lengths 0) items
      → Inv done s
      → Outcome (place_all capacity s items) (map (λ p. p.1) items ++ done)
  unfolding place_all
  place_all-Outcome [] done s a v = inl (s, refl, v)
  place_all-Outcome ((l, idx) ∷ rest) done s a v = elim (Bool-cases (ltb capacity l)) [
    | inl e ↦ inr (idx, rw (e, a.0), ground (arith, a.0))
    | inr e ↦
        let v' : Inv (idx ∷ done) (place capacity s (l, idx)) =
          rw (a.0) at (place-Inv idx done s (ground (arith, a.0)) v) in
        elim (place_all-Outcome rest (idx ∷ done) (place capacity s (l, idx)) a.1 v') [
          | inl (t, f, w) ↦ inl (t, rw (e, f), Inv-perm (perm_middle (map (λ p. p.1) rest) done) w)
          | inr (i, f, g) ↦ inr (i, rw (e, f), g)
        ]
  ]

indices-perm :
    (lengths : List ℕ) (items : List (ℕ × ℕ))
    → Perm items (enumerate lengths)
    → Perm (map (λ p. p.1) items ++ []) (range (length lengths))
indices-perm lengths items p =
    rw (append-nil (map (λ p. p.1) items), ← map-enumerate_from 0 lengths)
      (Perm.map (λ (p : ℕ × ℕ). p.1) p)

-- With any order of the sequences, first fit packs every sequence once and overfills no bin, and
-- no two neighbouring bins could be one; or it raises for a sequence that is longer than a bin.
pub first_fit-IsPacking :
    (prepare : List ℕ → List (ℕ × ℕ)) (capacity : ℕ) (lengths : List ℕ)
    → Perm (prepare lengths) (enumerate lengths)
    → ((bins : List (List ℕ)) × (first_fit prepare capacity lengths ≡ ok bins)
        × IsPacking capacity lengths bins
        × Adjacent lengths capacity bins)
      ⊎ ((i : ℕ) × (first_fit prepare capacity lengths
            ≡ raise (exceeds_capacity (get_or lengths i 0) capacity))
          × (capacity < get_or lengths i 0))
unfolding first_fit
first_fit-IsPacking prepare capacity lengths p =
    elim (place_all-Outcome lengths capacity (prepare lengths) [] no_bins items
      (no_bins-Inv lengths capacity)) [
        | inl (s, e, v) ↦ inl (
          s.bins,
          rw e,
          record {
            complete = Perm.trans v.placed (indices-perm lengths (prepare lengths) p);
            fits = Tracks-fits lengths capacity s.bins s.bin_remaining v.tracks;
            filled = v.filled;
          },
          Tracks-Adjacent lengths capacity s.bins s.bin_remaining v.tracks v.spread,
        )
        | inr (i, e, h) ↦ inr (i, rw e, h)
      ]
  where
    items : All (PlacedIn lengths 0) (prepare lengths)
    items = All-perm (PlacedIn lengths 0) (λ x. ℕ_set _ _) (Perm.symm p) (All-enumerate lengths 0)

-- First-fit decreasing uses at most twice as many bins as any packing of the same sequences.
pub first_fit_decreasing-le_twice :
    (capacity : ℕ) (lengths : List ℕ) (bins others : List (List ℕ))
    → first_fit prepare_decreasing capacity lengths ≡ ok bins
    → IsPacking capacity lengths others
    → length bins ≤ 2 * length others
unfolding prepare_decreasing
first_fit_decreasing-le_twice capacity lengths bins others e q =
    elim (first_fit-IsPacking prepare_decreasing capacity lengths
      (sort_by-perm ge_pair (enumerate lengths))) [
        | inl (found, f, p, a) ↦
            let same : found ≡ bins = cc in
            rw (← same) (Adjacent-le_twice lengths capacity found others p a q)
        | inr (i, f, h) ↦ cc
      ]
