-- ===== src/Async/Tests.antt =====
-- A short history of the replay buffer, and each theorem at a concrete input.
use ne_mo_rl_enhanced_math_r.Common.{
  ℕ, ◌+◌, ◌≤◌, ◌≡◌, ◌↔◌, refl, true, false, List, [], ◌∷◌, ◌++◌, map, none, some, arith, ok, length,
  All, Perm,
}
use ne_mo_rl_enhanced_math_r.Async.Buffer.{
  ReplayBuffer, Sample, indices_from, positions_of, gather, pop, init, pop_entry, pop_entries,
  consume, choose, sample,
}
use ne_mo_rl_enhanced_math_r.Async.Buffer.Select.{Entry, holds, first, leave}
use ne_mo_rl_enhanced_math_r.Async.Buffer.Correct.{intended, select_entries, concrete, sample-holds}
use ne_mo_rl_enhanced_math_r.Async.Buffer.History.{
  Call, pushes, samples, run, Holds, run-init-Holds,
}
use ne_mo_rl_enhanced_math_r.Async.Buffer.Returns.{sample_returns}
use ne_mo_rl_enhanced_math_r.Async.Collector
use ne_mo_rl_enhanced_math_r.Async.Collector.{
  Collector, max_inflight, calculate_target_weights, contains, newer_than, needs_generation,
  find_target, get_next_target_for_generation, should_pause_for_generation_limits, any_needs,
  set_limit_event, assign_version, set_weight_version, note_limit, clear_limit_event,
  pause_for_limits,
}
use ne_mo_rl_enhanced_math_r.Async.Collector.Sessions.{
  Event, reserves, updates, limit_set, limit_noted, limit_cleared, starts, pushed, finishes, events,
  Sound, events-init-Sound,
}
use ne_mo_rl_enhanced_math_r.Async.Collector.Targets.{IsTaken, should_pause_iff}

abbrev entries : List (Entry ℕ)
entries =
    record { trajectory = 10; version = 3; target = 4 }
    ∷ record { trajectory = 11; version = 4; target = 5 }
    ∷ record { trajectory = 12; version = 4; target = 4 }
    ∷ []

abbrev fours : Sample ℕ
fours = record { trajectories = 10 ∷ 12 ∷ []; age_sum = 1; age_count = 2 }

abbrev left_over : List (Entry ℕ)
left_over = record { trajectory = 11; version = 4; target = 5 } ∷ []

sample-fours : sample (holds 8 (some 5) entries) 2 4 1 ≡ ok (some fours, holds 8 (some 5) left_over)
unfolding sample choose consume gather pop pop_entry pop_entries positions_of indices_from
sample-fours = refl

sample-holds_example :
    sample (holds 8 (some 5) entries) 2 4 1 ≡ concrete 8 (some 5) 4 (select_entries 2 4 1 entries)
sample-holds_example = sample-holds 8 (some 5) 4 1 2 entries (omega arith)

sample_returns_example :
    let taken = first (intended 4 1) 2 entries in
    (fours.trajectories ≡ map (λ (e : Entry ℕ). e.trajectory) taken)
    × (length taken ≡ 2)
    × All (λ (e : Entry ℕ). (e.target ≡ 4) × (4 ≤ e.version + 1) × (e.version ≤ 4)) taken
    × (holds 8 (some 5) left_over ≡ holds 8 (some 5) (leave (intended 4 1) 2 entries))
    × Perm (taken ++ leave (intended 4 1) 2 entries) entries
sample_returns_example = sample_returns 8 (some 5) entries 2 4 1 (omega arith) sample-fours

abbrev empty_buffer : ReplayBuffer ℕ
empty_buffer = holds 8 none []

init_eight : init 8 ≡ ok empty_buffer
unfolding init
init_eight = refl

abbrev history : List (Call ℕ)
history = pushes 10 3 4 ∷ pushes 12 4 4 ∷ samples 2 4 1 ∷ []

run-init-Holds_example : Holds 8 (run empty_buffer history)
run-init-Holds_example =
    run-init-Holds 8 empty_buffer history (tt, (tt, (omega arith, tt))) init_eight

-- A collector that started at step 3 and has reserved target 4.
abbrev collector : Collector
collector = record (Collector.init 2 1 3) {
  generating_targets = 4 ∷ [];
  current_weight_version = 4;
}

abbrev reserved : Collector
reserved = record collector { generating_targets = 5 ∷ 4 ∷ [] }

next_target : get_next_target_for_generation collector 4 (some 4) ≡ (some 5, reserved)
unfolding Collector.init get_next_target_for_generation find_target needs_generation
    calculate_target_weights
next_target = refl

should_pause_iff_example :
    ((should_pause_for_generation_limits collector (some 4) ≡ true)
      ↔ All (IsTaken (some 4) (4 ∷ [])) (calculate_target_weights collector 4))
    × ((should_pause_for_generation_limits collector (some 4) ≡ true)
        ↔ ((get_next_target_for_generation collector 4 (some 4)).0 ≡ none))
unfolding Collector.init
should_pause_iff_example = should_pause_iff collector (some 4)

-- A pause that ends before the weights are updated: the collection thread goes on.
in_order : (set_weight_version (pause_for_limits collector) 5).generation_limit_cleared ≡ true
unfolding set_weight_version set_limit_event
in_order = refl

-- The weights are updated between the test and the steps of the pause. The event is cleared under
-- the new version, for which nothing has to wait, and stays so until the next update.
abbrev late : Collector
late = clear_limit_event (note_limit (set_weight_version reserved 5))

late-test : should_pause_for_generation_limits reserved (some 4) ≡ true
unfolding Collector.init should_pause_for_generation_limits any_needs calculate_target_weights
late-test = refl

late-waits :
    (late.generation_limit_cleared ≡ false)
    × (late.last_limit_warning_version ≡ some 5)
    × (should_pause_for_generation_limits late (some 4) ≡ false)
unfolding Collector.init clear_limit_event note_limit set_weight_version set_limit_event
    assign_version should_pause_for_generation_limits any_needs calculate_target_weights
late-waits = (refl, refl, refl)

-- One target is reserved, its two prompts are generated, and the weights are updated.
abbrev session : List Event
session =
    reserves 3 none
    ∷ starts
    ∷ starts
    ∷ starts
    ∷ limit_noted
    ∷ limit_cleared
    ∷ pushed 0 3
    ∷ finishes 3
    ∷ updates 4
    ∷ limit_set
    ∷ finishes 3
    ∷ []

events-init-Sound_example : Sound (max_inflight 2 1) (events session (Collector.init 2 1 3, 0))
events-init-Sound_example = events-init-Sound 2 1 3 session
