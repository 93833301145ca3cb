-- ===== src/Worker/Regular/Queueing.antt =====
-- The blocks that the regular worker of indexer/internal/worker/regular.go leaves to catchup when
-- it jumps to the head of the chain.
use linq_b2b.Prelude.{
  ℕ, ◌+◌, ◌-◌, ◌≤◌, ◌<◌, ◌≡◌, refl, ap, ◌∙◌, true, false, ◌&&◌, ◌||◌, List, [], ◌∷◌, some, String,
  str_eq, arith, ltb, leb, All, sub64, u64_mod, sub64_exact,
}
use linq_b2b.Ranges.{CatchupRange, split_catchup_range}
use linq_b2b.Ranges.Partition.{IsChunk}
use linq_b2b.Ranges.Pending.{is_pending, IsFresh, split-IsFresh}
use linq_b2b.Store.{BlockStates, save_latest_block, save_catchup_ranges}
use linq_b2b.Store.Progress.{save_catchup_ranges_pending}
use linq_b2b.Worker.{Config}
use linq_b2b.Worker.Regular.{Regular, max_range_size}
use linq_b2b.Worker.Regular.Lag.{fresh_chunks, max_lag_of, skip_ahead, skip_ahead_if_lagging}
use linq_b2b.Worker.Regular.Attempts.{trace}

All-IsFresh :
    (rs : List CatchupRange) → All (λ q. IsChunk max_range_size q × IsFresh q) rs → All IsFresh rs
All-IsFresh [] h = tt
All-IsFresh (r ∷ rs) h = (h.0.1, All-IsFresh rs h.1)

fresh_chunks_eq :
    (start end : ℕ) {rs : List CatchupRange}
    → split_catchup_range
        (record { start = start; end = end; current = sub64 start 1 })
        max_range_size
      ≡ some rs
    → fresh_chunks start end ≡ rs
unfolding fresh_chunks
fresh_chunks_eq start end e = rw (e, fresh_chunks)

-- The chunks of a range of blocks are fresh, and leave exactly these blocks to be done.
pub fresh_chunks_pending :
    (start end : ℕ)
    → 0 < start
    → start ≤ end
    → end + max_range_size < u64_mod
    → All IsFresh (fresh_chunks start end)
      × ((n : ℕ) → is_pending n (fresh_chunks start end) ≡ (leb start n && leb n end))
fresh_chunks_pending start end pos ord room =
    let r : CatchupRange = record { start = start; end = end; current = sub64 start 1 } in
    let (rs, e, a, p) =
      split-IsFresh r max_range_size (ground (arith, sub64_exact start 1)) pos ord (omega arith)
        room in
    rw (fresh_chunks_eq start end e) (All-IsFresh rs a, p)

skips :
    (c : Config) (latest : ℕ) (w : Regular)
    → w.current_block + max_lag_of c < latest
    → latest + max_range_size < u64_mod
    → skip_ahead_if_lagging c latest w ≡ (true, skip_ahead c latest w)
unfolding skip_ahead_if_lagging
skips c latest w lag room = ground (arith, sub64_exact latest w.current_block)

save_latest_catchup :
    (chain : String) (n : ℕ) (s : BlockStates) → (save_latest_block chain n s).1.catchup ≡ s.catchup
unfolding save_latest_block
save_latest_catchup chain n s = ground arith

save_ranges_latest :
    (chain : String) (rs : List CatchupRange) (n : ℕ) (s : BlockStates)
    → str_eq chain "" ≡ false
    → s.faults ≡ []
    → 0 < n
    → (save_latest_block chain n (save_catchup_ranges chain rs s).1).1.latest_block ≡ some n
unfolding save_latest_block save_catchup_ranges
save_ranges_latest chain rs n s named ok pos = ground arith

-- A worker further behind the head than the allowed lag, from a positive cursor, with a chain name
-- and a store whose calls succeed, and away from 2^64: it jumps to the head; what is queued for
-- catchup then is what was queued, and every block from the cursor up to the head; the stored
-- latest block is the one before the head; nothing is processed, and the cached hashes are cleared.
pub skip_ahead_queues :
    (c : Config) (latest : ℕ) (w : Regular)
    → str_eq c.internal_code "" ≡ false
    → w.store.faults ≡ []
    → 0 < w.current_block
    → w.current_block + max_lag_of c < latest
    → latest + max_range_size < u64_mod
    → let (skipped, w') = skip_ahead_if_lagging c latest w in
      (skipped ≡ true)
      × (w'.current_block ≡ latest)
      × ((n : ℕ)
          → is_pending n w'.store.catchup
            ≡ (is_pending n w.store.catchup || (leb w.current_block n && ltb n latest)))
      × (w'.store.latest_block ≡ some (latest - 1))
      × (trace w' ≡ trace w)
      × (w'.block_hashes ≡ [])
unfolding skip_ahead
skip_ahead_queues c latest w named ok pos lag room =
    let end = sub64 latest 1 in
    let rs = fresh_chunks w.current_block end in
    let last : end ≡ latest - 1 = sub64_exact latest 1 (omega arith) (omega arith) in
    let (fresh, pends) = fresh_chunks_pending w.current_block end pos (omega arith) (omega arith) in
    rw (skips c latest w lag room) (
      refl,
      refl,
      (λ n.
          ap (is_pending n) (
            save_latest_catchup c.internal_code end
              (save_catchup_ranges c.internal_code rs w.store).1)
          ∙ save_catchup_ranges_pending c.internal_code rs w.store n named ok fresh
          ∙ ap (λ b. is_pending n w.store.catchup || b) (pends n ∙ ground (arith, last))),
      save_ranges_latest c.internal_code rs end w.store named ok (omega arith) ∙ ap some last,
      refl,
      refl,
    )
