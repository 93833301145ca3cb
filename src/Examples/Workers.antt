-- ===== src/Examples/Workers.antt =====
-- The theorems on the workers at concrete workers.
use linq_b2b.Prelude.{
  ℕ, ◌≡◌, ◌≤◌, ◌<◌, refl, true, false, ◌&&◌, ◌||◌, [], ◌∷◌, some, arith, contains, ltb, leb, ◌==◌,
  sub64,
}
use linq_b2b.Examples.{
  eth, alice, block_101, bad_result, idle, at_101, block_5, early, client, small_store,
}
use linq_b2b.Ranges.Pending.{is_pending}
use linq_b2b.Store.{number_required}
use linq_b2b.Store.FailedBlocks.{failed, IsHealthy}
use linq_b2b.Worker.{emit_block, handle_block_result}
use linq_b2b.Worker.Emissions.{Adds, emit_block-Adds}
use linq_b2b.Worker.Results.{handle_block_result_error}
use linq_b2b.Worker.Regular.Reorg.{detect_and_handle_reorg}
use linq_b2b.Worker.Regular.Tick.{process_regular_blocks}
use linq_b2b.Worker.Regular.Lag.{skip_ahead_if_lagging}
use linq_b2b.Worker.Regular.Start.{new_regular_worker, stop}
use linq_b2b.Worker.Regular.Hashes.{get_block_hash}
use linq_b2b.Worker.Regular.Attempts.{trace}
use linq_b2b.Worker.Regular.Gaps.{NoGap, process_regular_blocks-NoGap}
use linq_b2b.Worker.Regular.Queueing.{skip_ahead_queues}
use linq_b2b.Worker.Regular.Rollback.{detect_and_handle_reorg_stuck}
use linq_b2b.Worker.Regular.Restart.{new_regular_worker_queues, stop_restart_skips}

emit_block-Adds_example : Adds eth alice [] (emit_block eth block_101 idle).emitted
emit_block-Adds_example = emit_block-Adds eth alice block_101 idle refl

handle_block_result_error_example :
    let (done, b) = handle_block_result eth bad_result idle in
    (done ≡ false)
    × (b.emitted ≡ [])
    × ((n : ℕ) → contains n (failed b.store) ≡ (contains n (3 ∷ 8 ∷ []) || 102 == n))
    × IsHealthy "ETH" b.store
    × (b.failed_chan ≡ record { chain = "eth"; block = 102; attempt = 1 } ∷ [])
handle_block_result_error_example =
    handle_block_result_error eth bad_result idle
      (record { named = refl; reliable = refl; ordered = (omega arith, tt) }) refl (omega arith)

process_regular_blocks-NoGap_example :
    NoGap eth refl at_101 (process_regular_blocks eth client at_101).1
process_regular_blocks-NoGap_example =
    process_regular_blocks-NoGap eth refl refl client at_101 (omega arith) (omega arith)
      (omega arith)

skip_ahead_queues_example :
    let (skipped, w) = skip_ahead_if_lagging eth 200 at_101 in
    (skipped ≡ true)
    × (w.current_block ≡ 200)
    × ((n : ℕ)
        → is_pending n w.store.catchup
          ≡ (is_pending n small_store.catchup || (leb 101 n && ltb n 200)))
    × (w.store.latest_block ≡ some 199)
    × (trace w ≡ trace at_101)
    × (w.block_hashes ≡ [])
skip_ahead_queues_example =
    skip_ahead_queues eth 200 at_101 refl refl (omega arith) (omega arith) (omega arith)

detect_and_handle_reorg_stuck_example :
    let check = detect_and_handle_reorg eth block_5 early in
    (check.error ≡ some number_required)
    × (check.worker.current_block ≡ 5)
    × (check.worker.block_hashes ≡ [])
    × (check.worker.store.latest_block ≡ some 100)
unfolding get_block_hash sub64
detect_and_handle_reorg_stuck_example =
    detect_and_handle_reorg_stuck eth block_5 early refl refl (omega arith) (omega arith)
      (omega arith)

new_regular_worker_queues_example :
    let w = new_regular_worker eth (some 150) small_store in
    (0 < 150 → w.current_block ≡ 150)
    × (150 ≤ 0 → w.current_block ≡ 150)
    × ((n : ℕ)
        → is_pending n w.store.catchup
          ≡ (is_pending n small_store.catchup || (ltb 100 n && leb n 150)))
unfolding sub64
new_regular_worker_queues_example =
    new_regular_worker_queues eth 150 100 small_store
      (record {
        named = refl;
        reliable = refl;
        stored = refl;
        positive = omega arith;
        resumes = refl;
      })
      (omega arith) (omega arith)

stop_restart_skips_example :
    let w = new_regular_worker eth (some 150) (stop eth at_101).store in
    (is_pending 101 w.store.catchup ≡ false) × (101 < w.current_block)
stop_restart_skips_example =
    stop_restart_skips eth 150 at_101 refl refl refl (omega arith) (omega arith) refl (omega arith)
      refl
