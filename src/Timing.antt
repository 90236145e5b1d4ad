-- ===== src/Timing.antt =====
-- nemo_rl/utils/timer.py. Times are natural numbers of clock ticks; a label is a number, 0 the empty
-- text.
pub mod Timer
pub mod Timeout
mod Tests
