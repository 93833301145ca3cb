-- ===== src/Worker.antt =====
-- indexer/internal/worker/base.go: the state and the operations that all workers share. The worker
-- of one chain is a record that holds the chain's part of the block store, the channel of failed
-- blocks, the events handed to the emitter and the calls of the observer, each oldest first.
-- `exist` stands for the store of watched addresses at the chain's network type.
pub mod Emissions
pub mod Results
pub mod Regular
pub mod Catchup
pub mod Rescanner
pub mod Manual
pub mod Mempool
use linq_b2b.Prelude.{
  ℕ, Bool, true, false, not, ◌&&◌, ◌||◌, List, [], ◌∷◌, ◌++◌, Option, none, some, String, str_eq,
  ltb, if◌then◌else◌, length,
}
use linq_b2b.Chain.{
  NetworkType, Transaction, direction_in, direction_out, all_sender_addresses, Utxo, SpentUtxo,
  UtxoEvent, Block, ErrorType, block_not_found, Error, BlockResult,
}
use linq_b2b.Store.{BlockStates, save_failed_block}

pub data BlockStatus : Type 0 where
  processed not_found failed : BlockStatus

pub record FailedBlockEvent : Type 0 where
  pub chain : String
  pub block : ℕ
  pub attempt : ℕ

pub data Emission : Type 0 where
  transaction : Transaction → Emission
  utxo : UtxoEvent → Emission

-- The parts of ChainConfig that the workers read, with the name, the internal code and the network
-- type of the chain, the capacity of `failedChan`, and whether an observer is set.
pub record Config : Type 0 where
  pub name : String
  pub internal_code : String
  pub network_type : NetworkType
  pub batch_size : ℕ
  pub max_lag : ℕ
  pub reorg_rollback_window : ℕ
  pub start_block : ℕ
  pub start_offset : ℕ
  pub from_latest : Bool
  pub two_way_indexing : Bool
  pub index_utxo : Bool
  pub chan_capacity : ℕ
  pub has_observer : Bool
  pub exist : Option (String → Bool)

pub record Base : Type 0 where
  pub store : BlockStates
  pub failed_chan : List FailedBlockEvent
  pub emitted : List Emission
  pub observed : List (ℕ × BlockStatus)

unfoldable pub notify_observer : Config → ℕ → BlockStatus → Base → Base
notify_observer c number status b =
    if c.has_observer then record b { observed = b.observed ++ (number, status) ∷ [] } else b

-- The `select` with a `default` branch: an event that does not fit is dropped.
unfoldable pub push_failed : Config → ℕ → Base → Base
push_failed c number b =
    if ltb (length b.failed_chan) c.chan_capacity
    then record b {
      failed_chan = b.failed_chan ++ record { chain = c.name; block = number; attempt = 1 } ∷ [];
    }
    else b

pub any_exist : (String → Bool) → List String → Bool
any_exist exist [] = false
any_exist exist (a ∷ rest) = exist a || any_exist exist rest

-- The events of one transaction: incoming, then outgoing.
pub tx_emissions : Config → (String → Bool) → Transaction → List Emission
unfolding any_exist all_sender_addresses
tx_emissions c exist t =
    let to_monitored = not (str_eq t.to_address "") && exist t.to_address in
    let from_monitored = c.two_way_indexing && any_exist exist (all_sender_addresses t) in
    let outgoing =
      if from_monitored then transaction (record t { direction = direction_out }) ∷ [] else [] in
    if to_monitored
    then transaction (record t { direction = direction_in }) ∷ outgoing
    else outgoing

filter_created : (String → Bool) → List Utxo → List Utxo
filter_created exist [] = []
filter_created exist (u ∷ us) =
    if exist u.address then u ∷ filter_created exist us else filter_created exist us

filter_spent : (String → Bool) → List SpentUtxo → List SpentUtxo
filter_spent exist [] = []
filter_spent exist (u ∷ us) =
    if exist u.address then u ∷ filter_spent exist us else filter_spent exist us

is_empty {ℓ} : {A : Type ℓ} → List A → Bool
is_empty [] = true
is_empty (x ∷ xs) = false

-- The event of one transaction's outputs, unless no watched address takes part.
pub utxo_emissions : (String → Bool) → UtxoEvent → List Emission
unfolding filter_created filter_spent is_empty
utxo_emissions exist e =
    let created = filter_created exist e.created in
    let spent = filter_spent exist e.spent in
    if is_empty created && is_empty spent
    then []
    else utxo (record e { created = created; spent = spent }) ∷ []

emit_transactions : Config → (String → Bool) → List Transaction → Base → Base
emit_transactions c exist [] b = b
emit_transactions c exist (t ∷ ts) b =
    emit_transactions c exist ts (record b { emitted = b.emitted ++ tx_emissions c exist t })

emit_utxo_events : (String → Bool) → List UtxoEvent → Base → Base
emit_utxo_events exist [] b = b
emit_utxo_events exist (e ∷ es) b =
    emit_utxo_events exist es (record b { emitted = b.emitted ++ utxo_emissions exist e })

emit_utxos : Config → (String → Bool) → Block → Base → Base
unfolding emit_utxo_events
emit_utxos c exist block b =
    if not c.index_utxo
    then b
    else elim block.utxo_events [ none ↦ b | some events ↦ emit_utxo_events exist events b ]

unfoldable pub emit_block : Config → Block → Base → Base
unfolding emit_transactions emit_utxos
emit_block c block b = elim c.exist [
  | none ↦ b
  | some exist ↦ emit_utxos c exist block (emit_transactions c exist block.transactions b)
]

status_of : ErrorType → BlockStatus
status_of block_not_found = not_found
status_of _ = failed

-- Whether the block was processed, and the worker after it.
handle_parts : Config → ℕ → Option Error → Option Block → Base → Bool × Base
unfolding notify_observer push_failed emit_block status_of
handle_parts c number (some e) block b = (
  false,
  notify_observer c number (status_of e.error_type) (
      push_failed c number
        (record b { store = (save_failed_block c.internal_code number b.store).1 })),
)
handle_parts c number none none b = (false, notify_observer c number failed b)
handle_parts c number none (some block) b =
    (true, notify_observer c number processed (emit_block c block b))

unfoldable pub handle_block_result : Config → BlockResult → Base → Bool × Base
unfolding handle_parts
handle_block_result c r b = handle_parts c r.number r.error r.block b
