-- ===== src/Examples.antt =====
-- Concrete states, and the theorems of the other files applied to them.
mod Stores
mod Workers
mod Failovers
mod Catchups
mod Rescans
mod Queues
mod Payments
mod Bitcoins
mod Watching
use linq_b2b.Prelude.{◌∷◌, [], none, some, true, false, str_eq, String, Bool}
use linq_b2b.Ranges.{CatchupRange}
use linq_b2b.Store.{BlockStates}
use linq_b2b.Chain.{evm, Block, Transaction, unset, timeout, BlockResult}
use linq_b2b.Worker.{Config, Base}
use linq_b2b.Worker.Regular.{Regular, Answers}

abbrev pub seven_blocks : CatchupRange
seven_blocks = record { start = 10; end = 16; current = 11 }

abbrev pub fresh_blocks : CatchupRange
fresh_blocks = record { start = 20; end = 22; current = 19 }

abbrev pub small_store : BlockStates
small_store = record {
  latest_block = some 100;
  failed_blocks = some (3 ∷ 8 ∷ []);
  catchup = seven_blocks ∷ [];
  block_hashes = none;
  faults = [];
}

abbrev pub faulty_store : BlockStates
faulty_store = record small_store { faults = true ∷ [] }

abbrev pub alice : String → Bool
alice a = str_eq a "alice"

abbrev pub eth : Config
eth = record {
  name = "eth";
  internal_code = "ETH";
  network_type = evm;
  batch_size = 5;
  max_lag = 50;
  reorg_rollback_window = 10;
  start_block = 1;
  start_offset = 0;
  from_latest = false;
  two_way_indexing = true;
  index_utxo = false;
  chan_capacity = 2;
  has_observer = true;
  exist = some alice;
}

abbrev pub payment : Transaction
payment = record {
  tx_hash = "0x1";
  network_id = "eth";
  block_number = 101;
  block_hash = "b101";
  transfer_index = "0";
  from_address = "bob";
  from_addresses = [];
  to_address = "alice";
  asset_address = "";
  amount = "1";
  timestamp = 0;
  confirmations = 1;
  status = "confirmed";
  direction = unset;
}

abbrev pub block_101 : Block
block_101 = record {
  number = 101;
  hash = "b101";
  parent_hash = "b100";
  timestamp = 0;
  transactions = payment ∷ [];
  utxo_events = none;
}

abbrev pub good_result : BlockResult
good_result = record { number = 101; block = some block_101; error = none }

abbrev pub bad_result : BlockResult
bad_result = record { number = 102; block = none; error = some (record { error_type = timeout }) }

abbrev pub nil_result : BlockResult
nil_result = record { number = 103; block = none; error = none }

abbrev pub idle : Base
idle = record { store = small_store; failed_chan = []; emitted = []; observed = [] }

abbrev pub at_101 : Regular
at_101 = record { base = idle; current_block = 101; block_hashes = []; hashes_modified = false }

-- A worker whose cache holds another block 100 than the parent of block 101.
abbrev pub forked : Regular
forked = record at_101 { block_hashes = record { block_number = 100; hash = "other" } ∷ [] }

abbrev pub block_5 : Block
block_5 = record block_101 { number = 5; parent_hash = "b4" }

abbrev pub early : Regular
early = record at_101 {
  current_block = 5;
  block_hashes = record { block_number = 4; hash = "other" } ∷ [];
}

-- The client gives block 101, then fails for block 102.
abbrev pub client : Answers
client = record {
  latest = some 102;
  blocks = λ start end. some (good_result ∷ bad_result ∷ []);
  block = λ n k. none;
  stopped = λ n k. false;
}
