-- ===== src/Async/Pipeline/Careful/Reservations.antt =====
-- nemo_rl/algorithms/async_utils.py and nemo_rl/algorithms/grpo.py: careful runs, the steps of
-- the collection thread.
use ne_mo_rl_enhanced_math_r.Common.{
  ℕ, suc, ◌≤◌, ◌<◌, ◌≡◌, refl, sym, ap, ◌∙◌, inl, inr, true, false, List, ◌∷◌, Option, none, some,
  arith, ◌==◌, Bool-cases,
}
use ne_mo_rl_enhanced_math_r.Async.Collector.{
  Collector, contains, newer_than, get_next_target_for_generation, start_worker,
}
use ne_mo_rl_enhanced_math_r.Async.Collector.Targets.{
  get_next_target_cases, get_next_target_reserves,
}
use ne_mo_rl_enhanced_math_r.Async.Pipeline.{
  idle, answered, spawning, generating, System, reserve, reserved, spawn,
}
use ne_mo_rl_enhanced_math_r.Async.Pipeline.Effects.{start_worker-Kept}
use ne_mo_rl_enhanced_math_r.Async.Pipeline.Ages.{Aged}
use ne_mo_rl_enhanced_math_r.Async.Pipeline.Shares.{loop_share, total, Ordered-reserve}
use ne_mo_rl_enhanced_math_r.Async.Pipeline.Amounts.{whole_batch, spawn_share}
use ne_mo_rl_enhanced_math_r.Async.Pipeline.Careful.{Orderly, last_of, steady}

contains_rest : (u t : ℕ) (ts : List ℕ) → contains u (t ∷ ts) ≡ false → contains u ts ≡ false
contains_rest u t ts h = elim (Bool-cases (u == t)) [
  | inl e ↦ let x = rw e at h in cc
  | inr e ↦ rw e at h
]

module _ {A : Type 0} (first_step n max_age : ℕ) (s : System A) where
  abbrev last : Option ℕ
  last = last_of s

  pub reserve-Orderly :
      (version : ℕ) (before : Option ℕ)
      → s.loop ≡ answered version before
      → before ≡ last
      → Aged first_step max_age (reserve version before s)
      → first_step ≤ version
      → Orderly first_step n max_age s
      → Orderly first_step n max_age (reserve version before s)
  reserve-Orderly version before at fresh aged from h =
      outcome (get_next_target_for_generation s.collector version before) refl aged
    where
      outcome :
          (r : Option ℕ × Collector)
          → get_next_target_for_generation s.collector version before ≡ r
          → Aged first_step max_age (reserved version r s)
          → Orderly first_step n max_age (reserved version r s)
      outcome (none, d) e aged =
          let frees : (u : ℕ)
              → contains u d.generating_targets ≡ false
              → contains u (s.collector).generating_targets ≡ false =
            elim (get_next_target_cases s.collector version before) [
              | inl f ↦ λ u free.
                  let same : d ≡ s.collector = sym (ap (λ r. r.1) e) ∙ f in rw same at free
              | inr (t, _, f) ↦ λ u free.
                  let same : d.generating_targets ≡ t ∷ (s.collector).generating_targets =
                    ap (λ (c : Collector). c.generating_targets) (sym (ap (λ r. r.1) e) ∙ f) in
                  contains_rest u t (s.collector).generating_targets (rw same at free)
            ] in
          steady first_step n max_age s d idle s.workers aged h.workers (λ u new free. frees u free)
            (λ u. omega (arith, ap (loop_share n u) at)) h
      outcome (some t, d) e aged =
          let (free, new, low, _, f) = get_next_target_reserves s.collector d version t before e in
          let new' : newer_than last t ≡ true = rw fresh at new in
          record {
            aged = aged;
            buffered = h.buffered;
            workers = h.workers;
            ordered = rw f (
                Ordered-reserve first_step n last (s.collector).generating_targets s.trainer_version
                  (total n s) (total n (record s { collector = d; loop = spawning version t 0 })) t
                  new' free (omega (arith, low, from))
                  (λ u. omega (arith, ap (loop_share n u) at, whole_batch n version t u))
                  h.ordered);
          }

  pub spawn-Orderly :
      (version target next : ℕ) (c : Collector)
      → s.loop ≡ spawning version target next
      → next < n
      → start_worker s.collector ≡ some c
      → Aged first_step max_age (spawn version target next c s)
      → Orderly first_step n max_age s
      → Orderly first_step n max_age (spawn version target next c s)
  spawn-Orderly version target next c at below e aged h =
      let (_, same) = start_worker-Kept s.collector c e in
      steady first_step n max_age s c (spawning version target (suc next))
        (record { prompt_idx = next; version = version; target = target; phase = generating }
          ∷ s.workers)
        aged (tt, h.workers) (λ u new free. rw same at free)
        (λ u. omega (arith, ap (loop_share n u) at, spawn_share n target u next below)) h
