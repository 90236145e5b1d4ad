-- ===== src/Packing.antt =====
-- nemo_rl/data/packing: sequences of different lengths are put into bins of one capacity.
pub mod Base
pub mod Bins
pub mod FirstFit
pub mod Concat
pub mod Adjust
pub mod Mffd
pub mod Metrics
pub mod Packer
mod Tests
