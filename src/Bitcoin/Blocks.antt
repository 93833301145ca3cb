-- ===== src/Bitcoin/Blocks.antt =====
-- indexer/internal/indexer/bitcoin.go: a block of the node as the block of the workers, and the blocks of a
-- list of numbers. `resolve` is what a transaction without all its previous outputs is resolved to, by its
-- position: nothing when no provider is found or the node gives an error.
use linq_b2b.Prelude.{
  ℕ, suc, Bool, true, false, not, ◌&&◌, ◌||◌, List, [], ◌∷◌, ◌++◌, Option, none, some, String,
  str_eq, ltb, ◌==◌, if◌then◌else◌, add64, sub64, span,
}
use linq_b2b.Chain.{Transaction, UtxoEvent, Block, BlockResult, unknown}
use linq_b2b.Bitcoin.{Numbers, Input, BtcTransaction, BtcBlock, is_coinbase}
use linq_b2b.Bitcoin.Addresses.{Codecs}
use linq_b2b.Bitcoin.Extraction.{Place, extract_transfers_from_tx, extract_utxo_event}

-- The configuration: the network, and whether UTXO events are wanted.
pub record BitcoinConfig : Type 0 where
  pub network_id : String
  pub index_utxo : Bool
  pub concurrency : ℕ

module _ (v : Numbers) (k : Codecs) where
  -- An input with a transaction hash and no previous output.
  unfoldable pub needs_any : List (Input v) → Bool
  needs_any [] = false
  needs_any (i ∷ is') =
      (not (str_eq i.tx_id "") && elim i.prev_out [ none ↦ true | some o ↦ false ]) || needs_any is'

  -- The previous outputs that were resolved, position by position.
  unfoldable pub merge_inputs : List (Input v) → List (Input v) → List (Input v)
  merge_inputs [] resolved = []
  merge_inputs (i ∷ is') [] = i ∷ is'
  merge_inputs (i ∷ is') (r ∷ rs) =
      elim r.prev_out [ none ↦ i | some o ↦ record i { prev_out = some o } ] ∷ merge_inputs is' rs

  unfoldable pub resolve_tx : Option (BtcTransaction v) → BtcTransaction v → BtcTransaction v
  unfolding needs_any merge_inputs
  resolve_tx answer tx = if is_coinbase v tx || not (needs_any tx.vin) then tx else elim answer [
    | none ↦ tx
    | some resolved ↦ record tx { vin = merge_inputs tx.vin resolved.vin }
  ]

  unfoldable pub resolve_all :
      (ℕ → Option (BtcTransaction v)) → ℕ → List (BtcTransaction v) → List (BtcTransaction v)
  unfolding resolve_tx
  resolve_all resolve n [] = []
  resolve_all resolve n (tx ∷ txs) = resolve_tx (resolve n) tx ∷ resolve_all resolve (suc n) txs

  unfoldable pub transactions_of : List (v.Decimal × Transaction) → List Transaction
  transactions_of [] = []
  transactions_of (t ∷ ts) = t.1 ∷ transactions_of ts

  event_list : Option UtxoEvent → List UtxoEvent
  event_list none = []
  event_list (some e) = e ∷ []

  -- The transfers of a block, and its UTXO events.
  unfoldable pub block_transfers : Place → List (BtcTransaction v) → List Transaction
  unfolding transactions_of
  block_transfers p [] = []
  block_transfers p (tx ∷ txs) =
      let rest = block_transfers p txs in
      if is_coinbase v tx
      then rest
      else transactions_of (extract_transfers_from_tx v k p tx) ++ rest

  unfoldable pub block_utxo_events : Bool → Place → List (BtcTransaction v) → List UtxoEvent
  unfolding event_list
  block_utxo_events index_utxo p [] = []
  block_utxo_events index_utxo p (tx ∷ txs) =
      let rest = block_utxo_events index_utxo p txs in
      if is_coinbase v tx || not index_utxo
      then rest
      else event_list (extract_utxo_event v k p tx) ++ rest

  unfoldable pub latest_of : BtcBlock v → ℕ
  latest_of b = if ltb 0 b.confirmations then sub64 (add64 b.height b.confirmations) 1 else b.height

  unfoldable pub place_of : BitcoinConfig → BtcBlock v → Place
  unfolding latest_of
  place_of c b = record {
    network_id = c.network_id;
    block_hash = b.hash;
    block_number = b.height;
    timestamp = b.time;
    latest_block = latest_of b;
  }

  unfoldable pub convert_block :
      BitcoinConfig → (ℕ → Option (BtcTransaction v)) → BtcBlock v → Block
  unfolding resolve_all block_transfers block_utxo_events place_of
  convert_block c resolve b =
      let txs = resolve_all resolve 0 b.tx in
      record {
        number = b.height;
        hash = b.hash;
        parent_hash = b.previous_block_hash;
        timestamp = b.time;
        transactions = block_transfers (place_of c b) txs;
        utxo_events = some (block_utxo_events c.index_utxo (place_of c b) txs);
      }

  -- GetBlock: the node's block, `none` for an error.
  unfoldable pub get_block :
      BitcoinConfig
      → (ℕ → ℕ → Option (BtcTransaction v))
      → (ℕ → Option (BtcBlock v))
      → ℕ
      → BlockResult
  unfolding convert_block
  get_block c resolve node number = elim (node number) [
    | none ↦ record {
      number = number;
      block = none;
      error = some (record { error_type = unknown });
    }
    | some b ↦ record {
      number = number;
      block = some (convert_block c (resolve number) b);
      error = none;
    }
  ]

  unfoldable pub results_of : (ℕ → BlockResult) → List ℕ → List BlockResult
  results_of f [] = []
  results_of f (n ∷ ns) = f n ∷ results_of f ns

  -- The number of the first block with an error.
  unfoldable pub first_error : List BlockResult → Option ℕ
  first_error [] = none
  first_error (r ∷ rs) = elim r.error [ none ↦ first_error rs | some e ↦ some r.number ]

  -- The results, and the block that the returned error names, `none` for nil. Without a worker the
  -- results keep their zero values.
  unfoldable pub get_blocks_by_numbers :
      BitcoinConfig
      → (ℕ → ℕ → Option (BtcTransaction v))
      → (ℕ → Option (BtcBlock v))
      → List ℕ
      → List BlockResult × Option ℕ
  unfolding results_of first_error
  get_blocks_by_numbers c resolve node ns =
      let zero_result : BlockResult = record { number = 0; block = none; error = none } in
      let results =
        if c.concurrency == 0
        then results_of (λ n. zero_result) ns
        else results_of (get_block c resolve node) ns in
      (results, first_error results)

  unfoldable pub get_blocks :
      BitcoinConfig
      → (ℕ → ℕ → Option (BtcTransaction v))
      → (ℕ → Option (BtcBlock v))
      → ℕ
      → ℕ
      → List BlockResult × Option ℕ
  unfolding get_blocks_by_numbers
  get_blocks c resolve node from to = get_blocks_by_numbers c resolve node (span from (suc to))

  -- GetMempoolTransactions: each transaction of the mempool as the node gives it, `none` for an error;
  -- block 0 stands for no block.
  unfoldable pub get_mempool_transactions :
      BitcoinConfig → ℕ → ℕ → List (Option (BtcTransaction v)) → List Transaction × List UtxoEvent
  unfolding transactions_of event_list
  get_mempool_transactions c now latest [] = ([], [])
  get_mempool_transactions c now latest (none ∷ txs) = get_mempool_transactions c now latest txs
  get_mempool_transactions c now latest (some tx ∷ txs) =
      let rest = get_mempool_transactions c now latest txs in
      let p : Place = record {
        network_id = c.network_id;
        block_hash = "";
        block_number = 0;
        timestamp = now;
        latest_block = latest;
      } in
      (
        transactions_of (extract_transfers_from_tx v k p tx) ++ rest.0,
        if c.index_utxo then event_list (extract_utxo_event v k p tx) ++ rest.1 else rest.1,
      )
