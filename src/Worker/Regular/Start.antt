-- ===== src/Worker/Regular/Start.antt =====
-- Where the regular worker of indexer/internal/worker/regular.go starts, and how it stops.
use linq_b2b.Prelude.{
  ℕ, Bool, true, false, ◌&&◌, ◌||◌, [], Option, none, some, ltb, ◌==◌, if◌then◌else◌, add64, sub64,
}
use linq_b2b.Store.{BlockStates, get_latest_block, save_latest_block, save_catchup_ranges}
use linq_b2b.Worker.{Config}
use linq_b2b.Worker.Regular.{Regular, with_store}
use linq_b2b.Worker.Regular.Hashes.{flush_block_hashes, load_block_hashes}
use linq_b2b.Worker.Regular.Lag.{fresh_chunks}

abbrev pub or_zero : Option ℕ → ℕ
or_zero none = 0
or_zero (some n) = n

abbrev pub is_error : Option ℕ → Bool
is_error none = true
is_error (some n) = false

abbrev pub back_off : Config → ℕ → ℕ
back_off c chain_latest =
    if ltb c.start_offset chain_latest then sub64 chain_latest c.start_offset else chain_latest

unfoldable pub starting_block : Config → Option ℕ → Option ℕ → BlockStates → ℕ × BlockStates
starting_block c chain kv s =
    let chain_latest = or_zero chain in
    let kv_latest = or_zero kv in
    if is_error chain && is_error kv
    then (c.start_block, s)
    else if is_error chain && ltb 0 kv_latest
    then (kv_latest, s)
    else if is_error kv || kv_latest == 0 || c.from_latest
    then (back_off c chain_latest, s)
    else (
      back_off c chain_latest,
      if ltb kv_latest chain_latest
          then (save_catchup_ranges c.internal_code (fresh_chunks (add64 kv_latest 1) chain_latest)
              s).1
          else s,
    )

unfoldable pub determine_starting_block : Config → Option ℕ → BlockStates → ℕ × BlockStates
unfolding starting_block
determine_starting_block c chain s =
    let (kv, s') = get_latest_block s in starting_block c chain kv s'

-- NewRegularWorker, over the state that the block store holds.
unfoldable pub new_regular_worker : Config → Option ℕ → BlockStates → Regular
unfolding determine_starting_block load_block_hashes
new_regular_worker c chain s =
    let (start, s') = determine_starting_block c chain s in
    load_block_hashes c (record {
      base = record { store = s'; failed_chan = []; emitted = []; observed = [] };
      current_block = start;
      block_hashes = [];
      hashes_modified = false;
    })

unfoldable pub stop : Config → Regular → Regular
unfolding flush_block_hashes
stop c w =
    let saved = with_store (save_latest_block c.internal_code w.current_block w.store).1 w in
    flush_block_hashes c (if ltb 0 w.current_block then saved else w)
