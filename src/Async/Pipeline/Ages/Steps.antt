-- ===== src/Async/Pipeline/Ages/Steps.antt =====
-- nemo_rl/algorithms/async_utils.py: the ages in every run.
use ne_mo_rl_enhanced_math_r.Common.{ℕ, ◌<◌, Bool, ◌∷◌, ◌++◌, arith, All, subst}
use ne_mo_rl_enhanced_math_r.Async.Collector.{after_push}
use ne_mo_rl_enhanced_math_r.Async.Pipeline.{
  released, System, Step, notes, asks, reserves, spawns, refreshes, rests, pushes, releases,
  finishes, fails, trains, delivers, controls, controlled, Reach, here, later,
}
use ne_mo_rl_enhanced_math_r.Async.Pipeline.Effects.{controlled-Kept, after_push-Frees}
use ne_mo_rl_enhanced_math_r.Async.Pipeline.Ages.{LoopAged, WorkerAged, Aged, moved}
use ne_mo_rl_enhanced_math_r.Async.Pipeline.Ages.Moves.{
  reserve-Aged, spawn-Aged, push-Aged, train-Aged, deliver-Aged, collector-Aged, finish-Aged,
}

module _ {A : Type 0} (first_step max_age : ℕ) where
  pub Step-Aged :
      (careful : Bool) (n : ℕ) {s t : System A}
      → 0 < n
      → Step careful n max_age s t
      → Aged first_step max_age s
      → Aged first_step max_age t
  Step-Aged careful n {s} positive (notes at) h = record {
    collector = h.collector;
    buffer = h.buffer;
    loop = (h.collector.1, omega arith);
    workers = h.workers;
  }
  Step-Aged careful n {s} positive (asks version at) h = record {
    collector = h.collector;
    buffer = h.buffer;
    loop = subst (LoopAged first_step max_age ((s.collector).current_weight_version)) at h.loop;
    workers = h.workers;
  }
  Step-Aged careful n {s} positive (reserves version last at fresh) h =
      reserve-Aged first_step max_age s version last at h
  Step-Aged careful n {s} positive (spawns version target next c at below e) h =
      spawn-Aged first_step max_age s version target next c at e h
  Step-Aged careful n {s} positive (refreshes version target next at) h =
      let (ahead, known) =
        subst (LoopAged first_step max_age ((s.collector).current_weight_version)) at h.loop in
      record {
        collector = h.collector;
        buffer = h.buffer;
        loop = (omega (arith, ahead, known), omega arith);
        workers = h.workers;
      }
  Step-Aged careful n {s} positive (rests version target next at over) h = record {
    collector = h.collector;
    buffer = h.buffer;
    loop = tt;
    workers = h.workers;
  }
  Step-Aged careful n {s} positive (pushes before w after group at phase) h =
      push-Aged first_step max_age s before after w group at h
  Step-Aged careful n {s} positive (releases before w after at phase) h =
      collector-Aged first_step max_age s (after_push s.collector w.prompt_idx w.target)
        (before ++ record w { phase = released } ∷ after)
        (after_push-Frees s.collector w.prompt_idx w.target).0
        (moved max_age before after w (record w { phase = released }) (λ a. a)
          (subst (All (WorkerAged max_age)) at h.workers))
        h
  Step-Aged careful n {s} positive (finishes before w after at phase) h =
      finish-Aged first_step max_age s before after w at h
  Step-Aged careful n {s} positive (fails before w after at c) h =
      finish-Aged first_step max_age s before after w at h
  Step-Aged careful n {s} positive (trains x b e) h =
      train-Aged first_step max_age s n x b positive e h
  Step-Aged careful n {s} positive (delivers version rises known) h =
      deliver-Aged first_step max_age s version rises h
  Step-Aged careful n {s} positive (controls k) h =
      collector-Aged first_step max_age s (controlled k s.collector) s.workers
        (controlled-Kept k s.collector).0 h.workers h

  pub Reach-Aged :
      (careful : Bool) (n : ℕ) {s t : System A}
      → 0 < n
      → Reach careful n max_age s t
      → Aged first_step max_age s
      → Aged first_step max_age t
  Reach-Aged careful n positive here h = h
  Reach-Aged careful n positive (later r st) h =
      Step-Aged careful n positive st (Reach-Aged careful n positive r h)
