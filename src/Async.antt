-- ===== src/Async.antt =====
-- nemo_rl/algorithms/async_utils.py: asynchronous GRPO. Workers push trajectories into a replay
-- buffer, and the trainer samples those that were generated for its current step.
pub mod Buffer
pub mod Collector
pub mod Pipeline
mod Tests
