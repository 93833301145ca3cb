-- ===== src/Worker/Regular/Tick.antt =====
-- processRegularBlocks of indexer/internal/worker/regular.go and the two ways to handle a batch.
use linq_b2b.Prelude.{
  ℕ, suc, ◌-◌, min, Bool, true, false, not, List, [], ◌∷◌, Option, none, some, String, str_eq, ltb,
  leb, ◌==◌, if◌then◌else◌, add64, sub64,
}
use linq_b2b.Chain.{Block, Error, BlockResult}
use linq_b2b.Store.{save_latest_block}
use linq_b2b.Worker.{Config}
use linq_b2b.Worker.Regular.{
  Regular, Answers, TickError, get_latest, get_blocks, save_latest, with_store,
}
use linq_b2b.Worker.Regular.Hashes.{add_block_hash}
use linq_b2b.Worker.Regular.Lag.{skip_ahead_if_lagging}
use linq_b2b.Worker.Regular.Reorg.{is_reorg_check_required, detect_and_handle_reorg}
use linq_b2b.Worker.Regular.Recovery.{Outcome, handled, is_linked, recover_regular_gap}

unfoldable pub resolved : Option Error → Option Block → Option Block
resolved (some e) block = none
resolved none block = block

-- The blocks from `expected` to `end` one by one, after the batch gave out.
unfoldable pub recover_rest : Config → Answers → ℕ → ℕ → ℕ → String → Regular → Outcome
unfolding recover_regular_gap
recover_rest c a end expected last last_hash w =
    recover_regular_gap c a (suc end - expected) expected last last_hash w

-- One round of the loop over the results: it ends the batch, or goes on with `expected`,
-- `lastSuccess` and `lastSuccessHash`.
pub data Round : Type 0 where
  ends : Outcome → Round
  goes_on : ℕ → ℕ → String → Regular → Round

abbrev pub outcome_of : Bool → Option TickError → ℕ → String → Regular → Outcome
outcome_of stop e last last_hash w = record {
  stop = stop;
  error = e;
  last_success = last;
  last_success_hash = last_hash;
  worker = w;
}

-- A result with a block: reorg check, continuity check, handling.
unfoldable pub check_block :
    Config → Answers → ℕ → BlockResult → Block → ℕ → ℕ → String → Regular → Round
unfolding recover_rest
check_block c a end r block expected last last_hash w =
    let check = detect_and_handle_reorg c block w in
    elim check.error [
      | some e ↦ ends (outcome_of false (some (save_latest e)) last last_hash check.worker)
      | none ↦
          if check.reorg
          then ends (outcome_of true none last last_hash check.worker)
          else if not (is_linked last_hash block)
          then ends (recover_rest c a end expected last last_hash check.worker)
          else let (done, w') = handled c r check.worker in
            if done
            then goes_on (add64 r.number 1) r.number block.hash w'
            else goes_on expected last last_hash w'
    ]

unfoldable pub batch_round : Config → Answers → ℕ → BlockResult → ℕ → ℕ → String → Regular → Round
unfolding recover_rest resolved check_block
batch_round c a end r expected last last_hash w =
    if ltb end expected
    then ends (outcome_of false none last last_hash w)
    else if not (r.number == expected)
    then ends (recover_rest c a end expected last last_hash w)
    else elim (resolved r.error r.block) [
      | none ↦ ends (recover_rest c a end expected last last_hash w)
      | some block ↦ check_block c a end r block expected last last_hash w
    ]

unfoldable pub process_reorg_checked_batch :
    Config → Answers → ℕ → List BlockResult → ℕ → ℕ → String → Regular → Outcome
unfolding recover_rest batch_round
process_reorg_checked_batch c a end [] expected last last_hash w =
    if leb expected end
    then recover_rest c a end expected last last_hash w
    else outcome_of false none last last_hash w
process_reorg_checked_batch c a end (r ∷ rs) expected last last_hash w =
    elim (batch_round c a end r expected last last_hash w) [
      | ends o ↦ o
      | goes_on expected' last' last_hash' w' ↦
          process_reorg_checked_batch c a end rs expected' last' last_hash' w'
    ]

unfoldable pub hash_of : Option Block → String
hash_of none = ""
hash_of (some block) = block.hash

-- Chains without the check: every result is handled, in the order in which it comes.
unfoldable pub process_unchecked_batch : Config → List BlockResult → ℕ → String → Regular → Outcome
unfolding hash_of
process_unchecked_batch c [] last last_hash w = outcome_of false none last last_hash w
process_unchecked_batch c (r ∷ rs) last last_hash w =
    let (done, w') = handled c r w in
    process_unchecked_batch c rs (if done then r.number else last)
      (if done then hash_of r.block else last_hash) w'

-- The cursor moves behind the last block that was processed.
unfoldable pub advance : Config → Outcome → Regular
advance c o =
    let s = (save_latest_block c.internal_code o.last_success o.worker.store).1 in
    let w = record (with_store s o.worker) { current_block = add64 o.last_success 1 } in
    if str_eq o.last_success_hash "" then w else add_block_hash o.last_success o.last_success_hash w

unfoldable pub finish_tick : Config → Outcome → Option TickError × Regular
unfolding advance
finish_tick c o =
    if o.stop
    then (none, o.worker)
    else (o.error, if leb o.worker.current_block o.last_success then advance c o else o.worker)

unfoldable pub batch_end : Config → ℕ → ℕ → ℕ
batch_end c current latest = min (sub64 (add64 current c.batch_size) 1) latest

unfoldable pub process_batch : Config → Answers → ℕ → List BlockResult → Regular → Outcome
unfolding process_reorg_checked_batch process_unchecked_batch
process_batch c a end results w =
    if is_reorg_check_required c
    then process_reorg_checked_batch c a end results w.current_block (sub64 w.current_block 1) "" w
    else process_unchecked_batch c results (sub64 w.current_block 1) "" w

unfoldable pub follow_head : Config → Answers → ℕ → Regular → Option TickError × Regular
unfolding process_batch finish_tick batch_end
follow_head c a latest w =
    let end = batch_end c w.current_block latest in
    elim (a.blocks w.current_block end) [
      | none ↦ (some get_blocks, w)
      | some results ↦ finish_tick c (process_batch c a end results w)
    ]

unfoldable pub process_regular_blocks : Config → Answers → Regular → Option TickError × Regular
unfolding follow_head
process_regular_blocks c a w = elim a.latest [
  | none ↦ (some get_latest, w)
  | some latest ↦
      let (skipped, w') = skip_ahead_if_lagging c latest w in
      if skipped
      then (none, w')
      else if ltb latest w.current_block
      then (none, w)
      else follow_head c a latest w
]
