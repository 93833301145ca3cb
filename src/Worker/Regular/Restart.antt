-- ===== src/Worker/Regular/Restart.antt =====
-- Stopping and starting the regular worker of indexer/internal/worker/regular.go.
use linq_b2b.Prelude.{
  ℕ, suc, ◌+◌, ◌-◌, ◌≤◌, ◌<◌, ◌≡◌, sym, ap, ◌∙◌, false, ◌&&◌, ◌||◌, List, [], Option, some, String,
  str_eq, arith, ltb, leb, lt→ltb, if◌then◌else◌, add64, u64_mod, add64_exact, sub64_exact,
}
use linq_b2b.Ranges.Pending.{is_pending}
use linq_b2b.Store.{
  BlockHashEntry, BlockStates, after_call, rest, save_latest_block, get_latest_block,
  save_catchup_ranges, save_block_hashes, get_block_hashes,
}
use linq_b2b.Store.Progress.{save_catchup_ranges_pending}
use linq_b2b.Worker.{Config}
use linq_b2b.Worker.Regular.{Regular, with_store, max_range_size}
use linq_b2b.Worker.Regular.Hashes.{load_block_hashes, flush_block_hashes}
use linq_b2b.Worker.Regular.Lag.{fresh_chunks}
use linq_b2b.Worker.Regular.Start.{
  back_off, starting_block, determine_starting_block, new_regular_worker, stop,
}
use linq_b2b.Worker.Regular.Queueing.{fresh_chunks_pending}

-- A store that a worker with stored progress `latest` starts from.
pub record StartsFrom (c : Config) (latest : ℕ) (s : BlockStates) : Type 0 where
  pub named : str_eq c.internal_code "" ≡ false
  pub reliable : s.faults ≡ []
  pub stored : s.latest_block ≡ some latest
  pub positive : 0 < latest
  pub resumes : c.from_latest ≡ false

after_call_eq : (s : BlockStates) → s.faults ≡ [] → after_call s ≡ s
after_call_eq s ok = ap (λ fs. record s { faults = fs }) (ap rest ok ∙ sym ok)

start_eq :
    (c : Config) (head latest : ℕ) (s : BlockStates)
    → StartsFrom c latest s
    → latest < head
    → determine_starting_block c (some head) s ≡ (
      back_off c head,
      (save_catchup_ranges c.internal_code (fresh_chunks (add64 latest 1) head) s).1,
    )
unfolding determine_starting_block starting_block get_latest_block
start_eq c head latest s v ahead =
    let same = after_call_eq s v.reliable in
    let pos = v.positive in rw (v.reliable, v.stored, v.resumes) (ground (arith, same))

new_worker_start :
    (c : Config) (chain : Option ℕ) (s : BlockStates)
    → ((new_regular_worker c chain s).current_block ≡ (determine_starting_block c chain s).0)
      × ((new_regular_worker c chain s).store.catchup
          ≡ (determine_starting_block c chain s).1.catchup)
unfolding new_regular_worker load_block_hashes get_block_hashes
new_worker_start c chain s = ground arith

-- A worker with a chain name and without the setting to start from the latest block, over a store
-- whose calls succeed and that holds a positive latest block, starts when the chain's head is beyond
-- that block and away from 2^64: it starts at the head less the configured offset, or at the head
-- when the offset is not below it; what is queued for catchup is what was queued, and every block
-- behind the stored one up to the head.
pub new_regular_worker_queues :
    (c : Config) (head latest : ℕ) (s : BlockStates)
    → StartsFrom c latest s
    → latest < head
    → head + max_range_size < u64_mod
    → let w = new_regular_worker c (some head) s in
      (c.start_offset < head → w.current_block ≡ head - c.start_offset)
      × (head ≤ c.start_offset → w.current_block ≡ head)
      × ((n : ℕ)
          → is_pending n w.store.catchup ≡ (is_pending n s.catchup || (ltb latest n && leb n head)))
new_regular_worker_queues c head latest s v ahead room =
    let rs = fresh_chunks (add64 latest 1) head in
    let next : add64 latest 1 ≡ suc latest = ground (arith, add64_exact latest 1) in
    let (fresh, pends) =
      fresh_chunks_pending (add64 latest 1) head (omega (arith, next)) (omega (arith, next)) room in
    let (starts, queue) = new_worker_start c (some head) s in
    let e = start_eq c head latest s v ahead in
    let at = starts ∙ ap (λ p. p.0) e in
    (
      (λ small. at ∙ ground (arith, small, sub64_exact head c.start_offset)),
      (λ large. at ∙ ground (arith, large)),
      λ n.
          ap (is_pending n) (queue ∙ ap (λ p. p.1.catchup) e)
          ∙ save_catchup_ranges_pending c.internal_code rs s n v.named v.reliable fresh
          ∙ ap (λ b. is_pending n s.catchup || b) (pends n ∙ ground (arith, next)),
    )

save_hashes_keeps :
    (chain : String) (hs : List BlockHashEntry) (s : BlockStates)
    → s.faults ≡ []
    → let t = (save_block_hashes chain hs s).1 in
      (t.latest_block ≡ s.latest_block) × (t.catchup ≡ s.catchup) × (t.faults ≡ [])
unfolding save_block_hashes
save_hashes_keeps chain hs s ok = ground (arith, ap rest ok)

flush_keeps :
    (c : Config) (w : Regular)
    → w.store.faults ≡ []
    → let t = (flush_block_hashes c w).store in
      (t.latest_block ≡ w.store.latest_block) × (t.catchup ≡ w.store.catchup) × (t.faults ≡ [])
unfolding flush_block_hashes
flush_keeps c w ok = ground (arith, save_hashes_keeps c.internal_code w.block_hashes w.store)

save_latest_keeps :
    (chain : String) (n : ℕ) (s : BlockStates)
    → str_eq chain "" ≡ false
    → s.faults ≡ []
    → 0 < n
    → let t = (save_latest_block chain n s).1 in
      (t.latest_block ≡ some n) × (t.catchup ≡ s.catchup) × (t.faults ≡ [])
unfolding save_latest_block
save_latest_keeps chain n s named ok pos = ground (arith, ap rest ok)

stop_eq :
    (c : Config) (w : Regular)
    → 0 < w.current_block
    → stop c w
      ≡ flush_block_hashes c
          (with_store (save_latest_block c.internal_code w.current_block w.store).1 w)
unfolding stop
stop_eq c w pos =
    let saved = with_store (save_latest_block c.internal_code w.current_block w.store).1 w in
    ap (λ b. flush_block_hashes c (if b then saved else w)) (lt→ltb 0 w.current_block pos)

stop_saves :
    (c : Config) (w : Regular)
    → str_eq c.internal_code "" ≡ false
    → w.store.faults ≡ []
    → 0 < w.current_block
    → let t = (stop c w).store in
      (t.latest_block ≡ some w.current_block) × (t.catchup ≡ w.store.catchup) × (t.faults ≡ [])
stop_saves c w named ok pos =
    let saved = with_store (save_latest_block c.internal_code w.current_block w.store).1 w in
    let (latest, queue, calls) =
      save_latest_keeps c.internal_code w.current_block w.store named ok pos in
    let (latest', queue', calls') = flush_keeps c saved calls in
    rw (stop_eq c w pos) (latest' ∙ latest, queue' ∙ queue, calls')

-- A worker with a chain name, with no start offset and without the setting to start from the latest
-- block, over a store whose calls succeed, is stopped and started again when the head is beyond its
-- positive cursor and away from 2^64, and the block at the cursor is not queued for catchup: then
-- that block is not queued after the start either, and the new worker starts behind it.
pub stop_restart_skips :
    (c : Config) (head : ℕ) (w : Regular)
    → str_eq c.internal_code "" ≡ false
    → w.store.faults ≡ []
    → c.from_latest ≡ false
    → 0 < w.current_block
    → w.current_block < head
    → c.start_offset ≡ 0
    → head + max_range_size < u64_mod
    → is_pending w.current_block w.store.catchup ≡ false
    → let w' = new_regular_worker c (some head) (stop c w).store in
      (is_pending w.current_block w'.store.catchup ≡ false) × (w.current_block < w'.current_block)
stop_restart_skips c head w named ok resumes pos ahead offset room free =
    let (latest, queue, calls) = stop_saves c w named ok pos in
    let v : StartsFrom c w.current_block (stop c w).store = record {
      named = named;
      reliable = calls;
      stored = latest;
      positive = pos;
      resumes = resumes;
    } in
    let (back, whole, pends) =
      new_regular_worker_queues c head w.current_block (stop c w).store v ahead room in
    (pends w.current_block ∙ rw (queue, free) (ground arith), ground (arith, back, offset))
