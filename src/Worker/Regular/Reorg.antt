-- ===== src/Worker/Regular/Reorg.antt =====
-- detectAndHandleReorg of indexer/internal/worker/regular.go.
use linq_b2b.Prelude.{
  ℕ, Bool, true, false, not, ◌&&◌, Option, none, some, str_eq, ltb, ◌==◌, if◌then◌else◌, sub64,
}
use linq_b2b.Chain.{evm, btc, Block}
use linq_b2b.Store.{StoreError, save_latest_block}
use linq_b2b.Worker.{Config}
use linq_b2b.Worker.Regular.{Regular, default_reorg_rollback_window, with_store}
use linq_b2b.Worker.Regular.Hashes.{get_block_hash, clear_block_hashes}

abbrev pub rollback_window_of : Config → ℕ
rollback_window_of c =
    if c.reorg_rollback_window == 0 then default_reorg_rollback_window else c.reorg_rollback_window

abbrev pub reorg_start_of : Config → ℕ → ℕ
reorg_start_of c prev =
    if ltb (rollback_window_of c) prev then sub64 prev (rollback_window_of c) else 1

-- The stored hash of the block before is there and is not the parent hash.
abbrev pub is_reorg : Block → Regular → Bool
is_reorg block w =
    let stored = get_block_hash (sub64 block.number 1) w.block_hashes in
    not (str_eq stored "") && not (str_eq stored block.parent_hash)

abbrev pub is_reorg_check_required : Config → Bool
is_reorg_check_required c = elim c.network_type [ evm ↦ true | btc ↦ true | _ ↦ false ]

-- Whether there was a reorg, the error of the save, and the worker after it.
pub record ReorgCheck : Type 0 where
  pub reorg : Bool
  pub error : Option StoreError
  pub worker : Regular

unfoldable pub detect_and_handle_reorg : Config → Block → Regular → ReorgCheck
detect_and_handle_reorg c block w =
    if not (is_reorg block w)
    then record { reorg = false; error = none; worker = w }
    else let start = reorg_start_of c (sub64 block.number 1) in
      let (err, s) = save_latest_block c.internal_code (sub64 start 1) w.store in
      let cleared = clear_block_hashes (with_store s w) in
      elim err [
        | some e ↦ record { reorg = true; error = some e; worker = cleared }
        | none ↦ record {
          reorg = true;
          error = none;
          worker = record cleared { current_block = start };
        }
      ]
