-- ===== src/Worker/Regular.antt =====
-- indexer/internal/worker/regular.go: the worker that follows the head of a chain. What the chain
-- client answers in one tick is the record Answers; the log, the sleeps and the tickers are left
-- out. Block numbers are uint64.
pub mod Hashes
pub mod Lag
pub mod Reorg
pub mod Recovery
pub mod Tick
pub mod Start
pub mod Attempts
pub mod Gaps
pub mod Queueing
pub mod Rollback
pub mod Restart
use linq_b2b.Prelude.{
  ℕ, zero, suc, ◌-◌, min, Bool, true, false, not, ◌&&◌, ◌||◌, List, [], ◌∷◌, ◌++◌, Option, none,
  some, String, str_eq, ltb, leb, ◌==◌, if◌then◌else◌, length, drop, add64, sub64,
}
use linq_b2b.Ranges.{CatchupRange, split_catchup_range}
use linq_b2b.Chain.{NetworkType, evm, btc, Block, Error, unknown, BlockResult}
use linq_b2b.Store.{
  BlockHashEntry, BlockStates, StoreError, get_latest_block, save_latest_block, save_catchup_ranges,
  save_block_hashes, get_block_hashes,
}
use linq_b2b.Worker.{Config, Base, handle_block_result}

pub record Regular : Type 0 where
  pub base : Base
  pub open base use *
  pub current_block : ℕ
  pub block_hashes : List BlockHashEntry
  pub hashes_modified : Bool

-- `block n k` is the k-th answer to GetBlock for block n, and `stopped n k` says whether the
-- context is done after it. `none` is an error, `some none` a nil block.
pub record Answers : Type 0 where
  pub latest : Option ℕ
  pub blocks : ℕ → ℕ → Option (List BlockResult)
  pub block : ℕ → ℕ → Option (Option Block)
  pub stopped : ℕ → ℕ → Bool

pub data TickError : Type 0 where
  get_latest get_blocks : TickError
  save_latest : StoreError → TickError
  recover_block : ℕ → TickError

abbrev pub max_block_hash_size : ℕ
max_block_hash_size = 50

abbrev pub max_range_size : ℕ
max_range_size = 20

abbrev pub default_reorg_rollback_window : ℕ
default_reorg_rollback_window = 50

abbrev pub default_max_lag : ℕ
default_max_lag = 100

abbrev pub regular_gap_retry_attempts : ℕ
regular_gap_retry_attempts = 2

abbrev pub with_store : BlockStates → Regular → Regular
with_store s w = record w { base = record w.base { store = s } }
