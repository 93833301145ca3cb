-- ===== src/Worker/Mempool.antt =====
-- indexer/internal/worker/mempool.go: the worker that polls the mempool of Bitcoin. `seen` holds the keys
-- of what was emitted. When it is full an entry is evicted, which one is a parameter, as the order of Go's
-- maps is random. `fails` tells which calls of the emitter fail, by their number.
pub mod Once
pub mod Losses
use Prim.Native.String.{◌++◌ as str_append}
use linq_b2b.Prelude.{
  ℕ, suc, Bool, true, false, not, ◌&&◌, ◌||◌, List, [], ◌∷◌, ◌++◌, Option, none, some, String,
  str_eq, leb, if◌then◌else◌, length,
}
use linq_b2b.Chain.{
  Transaction, Direction, unset, direction_in, direction_out, all_sender_addresses, Utxo, SpentUtxo,
  UtxoEvent,
}
use linq_b2b.Worker.{Config, Emission, transaction, utxo, any_exist}

-- The configuration of the worker is that of the others. `calls` counts the calls of the emitter,
-- `emitted` holds those that did not fail.
pub record Mempool : Type 0 where
  pub seen : List String
  pub calls : ℕ
  pub emitted : List Emission

pub record Outlet : Type 0 where
  pub evict : List String → List String
  pub fails : ℕ → Bool

abbrev pub max_seen : ℕ
max_seen = 50000

unfoldable pub is_seen : String → List String → Bool
is_seen key [] = false
is_seen key (s ∷ rest) = str_eq s key || is_seen key rest

abbrev pub direction_name : Direction → String
direction_name unset = ""
direction_name direction_in = "in"
direction_name direction_out = "out"

abbrev pub key_of : Emission → String
key_of (transaction t) = str_append t.tx_hash (str_append ":" (direction_name t.direction))
key_of (utxo e) = str_append e.tx_hash ":utxo"

-- The key is marked, and the emitter is called; its error goes to the log only.
unfoldable pub mark_and_emit : Outlet → Emission → Mempool → Mempool
mark_and_emit o e m = record m {
  seen = key_of e ∷ m.seen;
  calls = suc m.calls;
  emitted = if o.fails m.calls then m.emitted else m.emitted ++ e ∷ [];
}

unfoldable pub emit_once : Outlet → Emission → Mempool → Mempool
unfolding is_seen mark_and_emit
emit_once o e m = if is_seen (key_of e) m.seen then m else mark_and_emit o e m

unfoldable pub make_room : Outlet → Mempool → Mempool
make_room o m = if leb max_seen (length m.seen) then record m { seen = o.evict m.seen } else m

-- One candidate of a transaction.
unfoldable pub emit_direction : Outlet → Bool → Direction → Transaction → Mempool → Mempool
unfolding emit_once
emit_direction o active d t m =
    if active then emit_once o (transaction (record t { direction = d })) m else m

unfoldable pub process_transaction :
    Config → (String → Bool) → Outlet → Transaction → Mempool → Mempool
unfolding emit_direction make_room
process_transaction c exist o t m =
    let to_monitored = not (str_eq t.to_address "") && exist t.to_address in
    let from_monitored = c.two_way_indexing && any_exist exist (all_sender_addresses t) in
    if not to_monitored && not from_monitored
    then m
    else emit_direction o from_monitored direction_out t
        (emit_direction o to_monitored direction_in t (make_room o m))

created_exists : (String → Bool) → List Utxo → Bool
created_exists exist [] = false
created_exists exist (u ∷ us) = exist u.address || created_exists exist us

spent_exists : (String → Bool) → List SpentUtxo → Bool
spent_exists exist [] = false
spent_exists exist (u ∷ us) = exist u.address || spent_exists exist us

unfoldable pub process_utxo : (String → Bool) → Outlet → UtxoEvent → Mempool → Mempool
unfolding created_exists spent_exists emit_once
process_utxo exist o e m =
    if created_exists exist e.created || spent_exists exist e.spent
    then emit_once o (utxo e) m
    else m

unfoldable pub process_transactions :
    Config → (String → Bool) → Outlet → List Transaction → Mempool → Mempool
unfolding process_transaction
process_transactions c exist o [] m = m
process_transactions c exist o (t ∷ ts) m =
    process_transactions c exist o ts (process_transaction c exist o t m)

unfoldable pub process_utxos : (String → Bool) → Outlet → List UtxoEvent → Mempool → Mempool
unfolding process_utxo
process_utxos exist o [] m = m
process_utxos exist o (e ∷ es) m = process_utxos exist o es (process_utxo exist o e m)

-- One poll: what GetMempoolTransactions gives, `none` for an error.
unfoldable pub process_mempool :
    Config
    → (String → Bool)
    → Outlet
    → Option (List Transaction × List UtxoEvent)
    → Mempool
    → Mempool
unfolding process_transactions process_utxos
process_mempool c exist o none m = m
process_mempool c exist o (some (ts, es)) m =
    let after = process_transactions c exist o ts m in
    if c.index_utxo then process_utxos exist o es after else after
