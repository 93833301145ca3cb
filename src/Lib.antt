-- ===== src/Lib.antt =====
-- The block indexer of LinqB2B (indexer/, in Go): how it follows a chain, and how its payments reach
-- the backend (backend/).
--
-- A regular worker follows the head of one chain. It asks a chain client for batches of blocks,
-- hands the transactions of watched addresses to an emitter, keeps its progress in a block store,
-- rolls back on a reorg, and leaves blocks that it passes over to catchup, as ranges in the store.
-- Blocks that fail go to a list in the store and to the channel of the rescanner.
--
-- Prelude         numbers and lists; uint64 arithmetic with its wrap-around
-- Ranges          CatchupRange of indexer/pkg/store/blockstore/store.go and splitCatchupRange of
--                 indexer/internal/worker/regular.go
-- Store           indexer/pkg/store/blockstore/store.go: the keys of one chain as a record, one
--                 function per method, the failures of the key-value store as a list of Booleans.
--                 Keys has the texts of the keys, from which the ranges of catchup are read back;
--                 FailedBlocks, Listing and Progress have the proofs
-- Chain           the data of indexer/internal/indexer/types.go and indexer/pkg/common/types/
-- Worker          indexer/internal/worker/base.go: handleBlockResult, emitBlock, emitUTXOs
-- Worker/Regular  indexer/internal/worker/regular.go: the record of a worker; Hashes (the cache of
--                 block hashes), Lag (skipAheadIfLagging), Reorg (detectAndHandleReorg), Recovery
--                 (recoverRegularBlock, recoverRegularGap), Tick (processRegularBlocks), Start
--                 (determineStartingBlock, NewRegularWorker, Stop); the proofs are in the other files
-- Worker/Catchup  indexer/internal/worker/catchup.go: processRange as a loop on fuel, and what the
--                 worker loads and saves; Visits has the proof
-- Worker/Rescanner  indexer/internal/worker/rescanner.go: the retries of failed blocks; Flushing and
--                 Retrying have the proofs
-- Worker/Manual   indexer/internal/worker/manual.go: the visits to ranges of the queue below; Visits
--                 has the proof
-- Worker/Mempool  indexer/internal/worker/mempool.go: the polls of the mempool of Bitcoin; Once and Losses
--                 have the proofs
-- Bitcoin         indexer/internal/indexer/bitcoin.go and indexer/internal/rpc/bitcoin/: the client of the
--                 workers for Bitcoin; Addresses (the normal form), Extraction (transfers and UTXO events
--                 of a transaction), Blocks (GetBlock, GetBlocks, the mempool); Inputs, Resolving, Incoming
--                 and Ranges have the proofs
-- MissingBlocks   indexer/pkg/store/missingblockstore/store.go: the queue of missing block ranges, with
--                 its two scripts; Text (the text of a range); Queues, Numbers, Merging and Claims have
--                 the proofs, Lists a concrete Redis
-- Texts           decimal prints, digit scans and splitting of Go's library, for the keys and texts of
--                 the stores
-- Addresses       indexer/pkg/addressbloomfilter/inmemory.go, indexer/pkg/store/pubkeystore/store.go and
--                 indexer/internal/worker/bloom_sync.go with default_db_loader.go: the watched addresses of
--                 a network type and their synchronization; Syncing, Complete, Ending and Missing have the
--                 proofs. Its set of addresses is what the workers ask
-- Failover        indexer/internal/rpc/failover.go, provider.go and indexer/pkg/retry/retry.go: the
--                 providers of one network. Errors (analyzeError), Selection (GetBestProvider and
--                 the recoveries), Execution (executeCore, the retries); the proofs are in the other
--                 files. It stands below the chain clients that the worker asks
-- Webhooks        indexer/internal/b2b/security.go and handler.go: the signature of webhooks, and the
--                 dispatcher that sends them to businesses (Dispatching); Delivery and Signatures have
--                 the proofs
-- Payments        the payment backend that receives these webhooks: backend/internal/webhook/handler.go
--                 (Receive), backend/internal/queue/model.go (Chains), the order worker and the Sui
--                 treasury worker of backend/internal/workers/ (Orders); Ledger, Receiving, Retries,
--                 Sweeps and Redeliveries have the proofs
-- Examples        concrete states and the theorems at them
--
-- State is passed explicitly: an operation takes a record and returns the new one, with its result
-- in front. What a chain client answers during a tick is the record Answers, during a catchup run the
-- record Client, during the attempts of a request the record World; what the set of watched addresses
-- answers is a function in the configuration. A method that holds a lock is one step.
--
-- The dispatcher and the receiver of a webhook share the signature of Webhooks. A message that a
-- worker gives back to the broker comes again under a new delivery tag. Postgres is tables as lists,
-- JSON and the HMAC digest are parameters.
--
-- Redis is an interface: a record of the commands that the queue sends, with their laws. A script is
-- one step. The numbers of a script are doubles, an interface too: they are exact up to 2^53, and written
-- in full below 10^14.
--
-- The splitting loop runs on fuel, one more than the blocks of the range, which is enough, since a
-- round takes at least one block. The catchup loop runs on fuel too: a round that gets no answer
-- makes no progress, so the fuel that is enough depends on the client; with one that answers it is
-- two more than the blocks of the range. The loop of the script
-- that adds a range has one more than the blocks of the merged range, which is enough below 10^14. A
-- synchronization of addresses takes one more round than there are new rows, when it ends.
--
-- Not modelled: logging, sleeping and tickers; the clients of the other chains, which
-- decode answers of nodes; the stores behind the interfaces; of the payment backend the
-- accounts, the creation of orders and the validation of amounts, which is floating-point; the web
-- front end.
pub mod Prelude
pub mod Texts
pub mod Ranges
pub mod Store
pub mod Chain
pub mod Worker
pub mod Failover
pub mod Addresses
pub mod Bitcoin
pub mod MissingBlocks
pub mod Webhooks
pub mod Payments
mod Examples
