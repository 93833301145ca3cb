-- ===== src/Worker/Rescanner/Flushing.antt =====
-- What the rescanner of indexer/internal/worker/rescanner.go writes to the failed list.
use linq_b2b.Prelude.{ℕ, ◌≡◌, ap, ◌∙◌, not, ◌&&◌, ◌||◌, [], arith, ◌==◌, contains}
use linq_b2b.Store.FailedBlocks.{
  failed, IsHealthy, save_failed_blocks_adds, remove_failed_blocks_removes,
}
use linq_b2b.Worker.{Config}
use linq_b2b.Worker.Rescanner.{Rescanner, flush_saves, flush_removes, flush}

flush_saves_failed :
    (c : Config) (w : Rescanner)
    → IsHealthy c.internal_code w.store
    → let w' = flush_saves c w in
      ((n : ℕ)
        → contains n (failed w'.store)
          ≡ (contains n (failed w.store) || (not (n == 0) && contains n w.pending_saves)))
      × IsHealthy c.internal_code w'.store
      × (w'.pending_saves ≡ [])
      × (w'.pending_removes ≡ w.pending_removes)
      × (w'.tracked ≡ w.tracked)
unfolding flush_saves
flush_saves_failed c w v =
    let (adds, healthy, _) = save_failed_blocks_adds c.internal_code w.pending_saves w.store v in
    (
      (λ n. ground (arith, adds n)),
      ground (arith, healthy, v),
      ground arith,
      ground arith,
      ground arith,
    )

flush_removes_failed :
    (c : Config) (w : Rescanner)
    → IsHealthy c.internal_code w.store
    → let w' = flush_removes c w in
      ((n : ℕ)
        → contains n (failed w'.store)
          ≡ (contains n (failed w.store) && not (contains n w.pending_removes)))
      × IsHealthy c.internal_code w'.store
      × (w'.pending_saves ≡ w.pending_saves)
      × (w'.pending_removes ≡ [])
      × (w'.tracked ≡ w.tracked)
unfolding flush_removes
flush_removes_failed c w v =
    let (removes, healthy, _) =
      remove_failed_blocks_removes c.internal_code w.pending_removes w.store v in
    (
      (λ n. ground (arith, removes n)),
      ground (arith, healthy, v),
      ground arith,
      ground arith,
      ground arith,
    )

-- A flush over a healthy store: what is failed then is what was failed, or waited to be saved and
-- is not block 0, but not what waited to be removed, which wins; nothing waits any more, the store
-- is healthy, and the retries are not touched.
pub flush_failed :
    (c : Config) (w : Rescanner)
    → IsHealthy c.internal_code w.store
    → let w' = flush c w in
      ((n : ℕ)
        → contains n (failed w'.store) ≡ (
            (contains n (failed w.store) || (not (n == 0) && contains n w.pending_saves))
            && not (contains n w.pending_removes)))
      × IsHealthy c.internal_code w'.store
      × (w'.pending_saves ≡ [])
      × (w'.pending_removes ≡ [])
      × (w'.tracked ≡ w.tracked)
unfolding flush
flush_failed c w v =
    let (adds, healthy, empty, same, kept) = flush_saves_failed c w v in
    let (removes, healthy', empty', none_left, kept') =
      flush_removes_failed c (flush_saves c w) healthy in
    (
      (λ n.
          removes n
          ∙ ap (λ l. contains n (failed (flush_saves c w).store) && not (contains n l)) same
          ∙ ap (λ b. b && not (contains n w.pending_removes)) (adds n)),
      healthy',
      empty' ∙ empty,
      none_left,
      kept' ∙ kept,
    )
