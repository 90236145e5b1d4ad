-- ===== src/Lib.antt =====
-- NeMo RL: the logic of the library that is not tensor arithmetic, in ten parts.
--
-- * Sequence packing, nemo_rl/data/packing/algorithms.py: `Packing`. `Packing.Base` has the
--   exceptions and helpers of `SequencePacker`; `Packing.Concat`, `Packing.FirstFit` and
--   `Packing.Mffd` are the `_pack_implementation` of `ConcatenativePacker`, of `FirstFitPacker` with
--   its two orders, and of `ModifiedFirstFitDecreasingPacker`; `Packing.Adjust` is
--   `_adjust_bin_count`; `Packing.Packer` is the constructor, `pack` and `get_packer`. A packer
--   calls its algorithm, adjusts the number of bins, and updates its metrics.
-- * Packing metrics, nemo_rl/data/packing/metrics.py: `Packing.Metrics`, called by the packer.
-- * The replay buffer of asynchronous GRPO, `ReplayBuffer` of nemo_rl/algorithms/async_utils.py:
--   `Async.Buffer`, with its three parallel lists. `Async.Buffer.Select` has the abstract view, one
--   list of entries, and `Async.Buffer.Correct` the specification of `sample` on it.
-- * The trajectory collector, `AsyncTrajectoryCollector` of the same file: `Async.Collector`. It
--   asks the buffer for the last target generated, which is an argument here, and reserves targets.
--   `Async.Pipeline` is the collector's thread, its workers, the buffer and the trainer, the loop of
--   `async_grpo_train` in nemo_rl/algorithms/grpo.py, as one step relation: `Ages` and `Young` are
--   about every run, `Shares`, `Careful` and `Correct` about those without failures, `Stalled` about
--   what a failure leaves.
-- * The sliding puzzle, nemo_rl/environments/games/sliding_puzzle.py: `Puzzle.Grid` is the board,
--   `Puzzle.Game` is `SlidingPuzzleGameLogic`, `Puzzle.Turn` the runner and the environment, which
--   call it for each turn.
-- * The checkpoint manager, nemo_rl/utils/checkpoint.py: `Checkpoint`, with the directory as three
--   dictionaries. A finalization renames and then cleans up.
-- * The timer, nemo_rl/utils/timer.py: `Timing.Timer` is `Timer`, `Timing.Timeout` is
--   `convert_to_seconds` and `TimeoutChecker`.
-- * Batches, nemo_rl/distributed/batched_data_dict.py, over a dictionary of columns: `Batches` is
--   `BatchedDataDict.chunk`, `Batches.Rows` is `select_indices` and `reorder_data`, and
--   `Batches.Shards` is `shard_by_batch_size`: `Split` has its assertions and sizes, `Aggregate` the
--   loop over shards and chunks, `Dynamic` the order and the microbatches of dynamic batches, and
--   `Packed` the packing, which calls `Packing.Packer`, and `from_batches`. `Batches.Parts` says what
--   it is for batches to be parts of one. `Batches.Iterate` is `slice`, `get_batch` and the iterators
--   over microbatches, which read the fields that `shard_by_batch_size` writes.
-- * Rollouts, nemo_rl/experience/rollouts.py: `Rollouts` is `run_sample_multi_turn_rollout` with
--   `async_generate_response_for_sample_turn`, and `Rollouts.Feedbacks` is `calculate_rewards`. The
--   backend of the policy, the environments and the tokenizer are their arguments.
-- * Named sharding, nemo_rl/distributed/named_sharding.py: `Sharding` is `NamedSharding`, an array as
--   the list of its entries with its shape, and `Sharding.Select` its methods that take coordinates.
--
-- State is a record, an operation a function from state to state, and an exception a value of
-- `Result` (`Common.Results`). What is done under a lock, or in one assignment, is one step, and a
-- method without a lock is several, so that interleavings are lists of steps or, for the system of
-- `Async.Pipeline`, runs of its step relation. `Common` has the lists, sums, sorts, dictionaries and integers that the parts share.
--
-- Bounds. Integers are unbounded, as in Python; lengths, versions, steps and moves are natural
-- numbers, and what can be negative (an elapsed time, waste, a metric's value, a row as written by
-- the player) is `Common.Int`'s ℤ. A float that is a quotient of integers is that quotient. No
-- function runs on fuel: every loop of the source is a recursion on the list that it goes through or
-- on the number of its rounds, so each model is total.
--
-- Parameters. A tensor's `.item()`, the width of a column, and the backend and environment of a
-- rollout are functions, and whether a column is a tensor is a test of its key. `random.shuffle` is a
-- function that returns a permutation of its argument, a random choice the index drawn, and the
-- clocks' readings and numpy's reductions are arguments. Texts are given parsed: a puzzle's action, a
-- time's four numbers, a checkpoint's step; names are numbers.
--
-- Not modelled: threads and Ray but for the order of their steps, the text that is printed or shown,
-- standard deviations, and everything that runs on tensors (policies, losses, the steps of the
-- training loops, generation backends).
pub mod Common
pub mod Packing
pub mod Async
pub mod Puzzle
pub mod Checkpoint
pub mod Timing
pub mod Batches
pub mod Rollouts
pub mod Sharding
