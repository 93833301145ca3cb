-- ===== src/Worker/Rescanner/Retrying.antt =====
-- The retries of the rescanner of indexer/internal/worker/rescanner.go.
use linq_b2b.Prelude.{
  ℕ, ◌+◌, ◌%◌, ◌<◌, ◌≡◌, refl, sym, ap, ◌∙◌, false, List, [], ◌∷◌, ◌++◌, Option, none, some, arith,
  leb, ◌==◌, if◌then◌else◌, inl, inr, Option-cases, Bool-cases,
}
use linq_b2b.Chain.{Error, BlockResult}
use linq_b2b.Worker.{
  Config, Base, FailedBlockEvent, notify_observer, push_failed, handle_parts, handle_block_result,
}
use linq_b2b.Worker.Rescanner.{
  Rescanner, flush_saves, flush_removes, flush, add_save, add_remove, count_of, set_count,
  delete_count, add_failed_block, increment_retry, is_skipped, rescan_results, listen,
  rescanner_max_retries,
}

count_of-set_count :
    (n b k : ℕ) (t : List (ℕ × ℕ))
    → count_of n (set_count b k t) ≡ (if b == n then some k else count_of n t)
unfolding count_of set_count
count_of-set_count n b k [] = refl
count_of-set_count n b k ((m, j) ∷ t) = ground (arith, count_of-set_count n b k t)

count_of-delete_count :
    (n b : ℕ) (t : List (ℕ × ℕ))
    → count_of n (delete_count b t) ≡ (if b == n then none else count_of n t)
unfolding count_of delete_count
count_of-delete_count n b [] = ground arith
count_of-delete_count n b ((m, j) ∷ t) = ground (arith, count_of-delete_count n b t)

-- Writing to the store leaves the retries and the channel alone.
abbrev SameRetries : Rescanner → Rescanner → Type 0
SameRetries w w' = (w'.tracked ≡ w.tracked) × (w'.failed_chan ≡ w.failed_chan)

flush_saves_same : (c : Config) (w : Rescanner) → SameRetries w (flush_saves c w)
unfolding flush_saves
flush_saves_same c w = ground arith

flush_removes_same : (c : Config) (w : Rescanner) → SameRetries w (flush_removes c w)
unfolding flush_removes
flush_removes_same c w = ground arith

flush_same : (c : Config) (w : Rescanner) → SameRetries w (flush c w)
unfolding flush
flush_same c w =
    let s = flush_saves_same c w in
    let r = flush_removes_same c (flush_saves c w) in (r.0 ∙ s.0, r.1 ∙ s.1)

add_save_same : (c : Config) (bs : List ℕ) (w : Rescanner) → SameRetries w (add_save c bs w)
unfolding add_save
add_save_same c bs w =
    ground (arith, flush_same c (record w { pending_saves = w.pending_saves ++ bs }))

add_remove_same : (c : Config) (bs : List ℕ) (w : Rescanner) → SameRetries w (add_remove c bs w)
unfolding add_remove
add_remove_same c bs w =
    ground (arith, flush_same c (record w { pending_removes = w.pending_removes ++ bs }))

-- The count after one more failure, `none` where the block is given up or was not tracked.
unfoldable pub next_count : Option ℕ → Option ℕ
next_count none = none
next_count (some k) =
    if leb rescanner_max_retries ((k + 1) % 256) then none else some ((k + 1) % 256)

increment_retry_known :
    (c : Config) (b k : ℕ) (w : Rescanner)
    → count_of b w.tracked ≡ some k
    → increment_retry c b w ≡ (
        if leb rescanner_max_retries ((k + 1) % 256)
        then add_remove c (b ∷ []) (record w { tracked = delete_count b w.tracked })
        else add_save c (b ∷ []) (record w { tracked = set_count b ((k + 1) % 256) w.tracked }))
unfolding increment_retry
increment_retry_known c b k w e = rw (e, increment_retry) refl

increment_retry_unknown :
    (c : Config) (b : ℕ) (w : Rescanner) → count_of b w.tracked ≡ none → increment_retry c b w ≡ w
unfolding increment_retry
increment_retry_unknown c b w e = rw (e, increment_retry) refl

next_count-known :
    (t : List (ℕ × ℕ)) (b k : ℕ)
    → count_of b t ≡ some k
    → next_count (count_of b t)
      ≡ (if leb rescanner_max_retries ((k + 1) % 256) then none else some ((k + 1) % 256))
unfolding next_count
next_count-known t b k e = ap next_count e

untracked :
    (t : List (ℕ × ℕ)) (b n : ℕ)
    → count_of b t ≡ none
    → count_of n t ≡ (if b == n then next_count (count_of b t) else count_of n t)
unfolding next_count
untracked t b n e = elim (Bool-cases (b == n)) [
  | inl same ↦ rw (same, e) (ap (λ m. count_of m t) {x = n} {y = b} (ground (arith, same)) ∙ e)
  | inr other ↦ rw other refl
]

-- One more failure of a block: a tracked block's count grows by one, or the block is given up at
-- the third; a block that is not tracked stays so; the other blocks keep their counts, and the
-- channel of failed blocks its events.
pub increment_retry_counts :
    (c : Config) (b : ℕ) (w : Rescanner)
    → let w' = increment_retry c b w in
      ((n : ℕ)
        → count_of n w'.tracked
          ≡ (if b == n then next_count (count_of b w.tracked) else count_of n w.tracked))
      × (w'.failed_chan ≡ w.failed_chan)
increment_retry_counts c b w = elim (Option-cases (count_of b w.tracked)) [
  | inl e ↦
      let same = increment_retry_unknown c b w e in
      (
        (λ n. ap (λ v. count_of n v.tracked) same ∙ untracked w.tracked b n e),
        ap (λ v. v.failed_chan) same,
      )
  | inr (k, e) ↦
      let known = increment_retry_known c b k w e in
      let next = next_count-known w.tracked b k e in
      elim (Bool-cases (leb rescanner_max_retries ((k + 1) % 256))) [
        | inl last ↦
            let v : Rescanner = record w { tracked = delete_count b w.tracked } in
            let s = add_remove_same c (b ∷ []) v in
            let at : increment_retry c b w ≡ add_remove c (b ∷ []) v = known ∙ rw last refl in
            let after' : next_count (count_of b w.tracked) ≡ none = next ∙ rw last refl in
            (
              (λ n.
                  ap (λ x. count_of n x.tracked) at
                  ∙ ap (count_of n) s.0
                  ∙ count_of-delete_count n b w.tracked
                  ∙ ap (λ o. if b == n then o else count_of n w.tracked) (sym after')),
              ap (λ x. x.failed_chan) at ∙ s.1,
            )
        | inr more ↦
            let v : Rescanner = record w { tracked = set_count b ((k + 1) % 256) w.tracked } in
            let s = add_save_same c (b ∷ []) v in
            let at : increment_retry c b w ≡ add_save c (b ∷ []) v = known ∙ rw more refl in
            let after' : next_count (count_of b w.tracked) ≡ some ((k + 1) % 256) =
              next ∙ rw more refl in
            (
              (λ n.
                  ap (λ x. count_of n x.tracked) at
                  ∙ ap (count_of n) s.0
                  ∙ count_of-set_count n b ((k + 1) % 256) w.tracked
                  ∙ ap (λ o. if b == n then o else count_of n w.tracked) (sym after')),
              ap (λ x. x.failed_chan) at ∙ s.1,
            )
      ]
]

failed_event :
    (c : Config) (r : BlockResult) (b : Base) {e : Error}
    → r.error ≡ some e
    → b.failed_chan ≡ []
    → 0 < c.chan_capacity
    → ((handle_block_result c r b).0 ≡ false)
      × ((handle_block_result c r b).1.failed_chan
          ≡ record { chain = c.name; block = r.number; attempt = 1 } ∷ [])
unfolding handle_block_result handle_parts push_failed notify_observer
failed_event c r b {e} f empty room = ground (arith, f, empty, room)

rescan_one :
    (c : Config) (r : BlockResult) (w : Rescanner)
    → is_skipped c r.error ≡ false
    → (handle_block_result c r w.base).0 ≡ false
    → rescan_results c (r ∷ []) [] w
      ≡ ([], increment_retry c r.number (record w { base = (handle_block_result c r w.base).1 }))
unfolding rescan_results
rescan_one c r w s e = rw (s, e) refl

add_failed_block_new :
    (c : Config) (b : ℕ) (w : Rescanner)
    → count_of b w.tracked ≡ none
    → count_of b (add_failed_block c b w).tracked ≡ some 0
unfolding add_failed_block
add_failed_block_new c b w free =
    rw (free, add_failed_block)
      (ap (count_of b) (add_save_same c (b ∷ []) (record w { tracked = set_count b 0 w.tracked })).0
        ∙ count_of-set_count b b 0 w.tracked
        ∙ ground arith)

listen_one :
    (c : Config) (w : Rescanner) (e : FailedBlockEvent)
    → w.failed_chan ≡ e ∷ []
    → listen c w
      ≡ add_failed_block c e.block (record w { base = record w.base { failed_chan = [] } })
unfolding listen
listen_one c w e one = rw (one, listen) refl

listen_adds :
    (c : Config) (w : Rescanner) (e : FailedBlockEvent)
    → w.failed_chan ≡ e ∷ []
    → count_of e.block w.tracked ≡ none
    → count_of e.block (listen c w).tracked ≡ some 0
listen_adds c w e one free =
    ap (λ v. count_of e.block v.tracked) (listen_one c w e one)
    ∙ add_failed_block_new c e.block (record w { base = record w.base { failed_chan = [] } }) free

-- A tracked block that fails for the last time with an error that is not passed over, when the
-- channel is empty and has room: the block is given up, and yet the very failure sent an event for
-- it, and the listener takes it up again with no retries counted.
pub give_up_returns :
    (c : Config) (r : BlockResult) (w : Rescanner) {e : Error}
    → r.error ≡ some e
    → is_skipped c r.error ≡ false
    → count_of r.number w.tracked ≡ some 2
    → w.failed_chan ≡ []
    → 0 < c.chan_capacity
    → let w' = (rescan_results c (r ∷ []) [] w).1 in
      (count_of r.number w'.tracked ≡ none) × (count_of r.number (listen c w').tracked ≡ some 0)
unfolding next_count
give_up_returns c r w {e} f skips two empty room =
    let (fails, event) = failed_event c r w.base f empty room in
    let v : Rescanner = record w { base = (handle_block_result c r w.base).1 } in
    let (counts, same) = increment_retry_counts c r.number v in
    let gone : count_of r.number (increment_retry c r.number v).tracked ≡ none =
      counts r.number ∙ rw two (ground arith) in
    rw (rescan_one c r w skips fails)
      (gone, listen_adds c (increment_retry c r.number v) _ (same ∙ event) gone)
