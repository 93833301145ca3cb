-- ===== src/Worker/Rescanner.antt =====
-- indexer/internal/worker/rescanner.go: the worker that tries failed blocks again. A method that
-- holds a lock is one step. `failed_blocks` is the Go map from blocks to retries (uint8), in the
-- order in which a `range` over it comes.
pub mod Flushing
pub mod Retrying
use linq_b2b.Prelude.{
  ℕ, zero, suc, ◌+◌, ◌%◌, Bool, true, false, not, ◌&&◌, ◌||◌, List, [], ◌∷◌, ◌++◌, Option, none,
  some, String, ltb, leb, ◌==◌, if◌then◌else◌, length, take,
}
use linq_b2b.Chain.{NetworkType, sol, ErrorType, block_not_found, Error, BlockResult}
use linq_b2b.Store.{BlockStates, get_failed_blocks, save_failed_blocks, remove_failed_blocks}
use linq_b2b.Worker.{Config, Base, FailedBlockEvent, handle_block_result}

pub record Rescanner : Type 0 where
  pub base : Base
  pub open base use *
  pub tracked : List (ℕ × ℕ)
  pub pending_saves : List ℕ
  pub pending_removes : List ℕ

abbrev pub rescanner_max_retries : ℕ
rescanner_max_retries = 3

abbrev pub batch_flush_size : ℕ
batch_flush_size = 10

abbrev pub rescan_batch_size : ℕ
rescan_batch_size = 20

abbrev pub with_store : BlockStates → Rescanner → Rescanner
with_store s w = record w { base = record w.base { store = s } }

abbrev is_nil : List ℕ → Bool
is_nil [] = true
is_nil (x ∷ xs) = false

unfoldable pub flush_saves : Config → Rescanner → Rescanner
flush_saves c w =
    if is_nil w.pending_saves
    then w
    else record (with_store (save_failed_blocks c.internal_code w.pending_saves w.store).1 w) {
      pending_saves = [];
    }

unfoldable pub flush_removes : Config → Rescanner → Rescanner
flush_removes c w =
    if is_nil w.pending_removes
    then w
    else record (with_store (remove_failed_blocks c.internal_code w.pending_removes w.store).1 w) {
      pending_removes = [];
    }

unfoldable pub flush : Config → Rescanner → Rescanner
unfolding flush_saves flush_removes
flush c w = flush_removes c (flush_saves c w)

unfoldable pub add_save : Config → List ℕ → Rescanner → Rescanner
unfolding flush
add_save c blocks w =
    let w' = record w { pending_saves = w.pending_saves ++ blocks } in
    if leb batch_flush_size (length w'.pending_saves) then flush c w' else w'

unfoldable pub add_remove : Config → List ℕ → Rescanner → Rescanner
unfolding flush
add_remove c blocks w =
    let w' = record w { pending_removes = w.pending_removes ++ blocks } in
    if leb batch_flush_size (length w'.pending_removes) then flush c w' else w'

unfoldable pub count_of : ℕ → List (ℕ × ℕ) → Option ℕ
count_of b [] = none
count_of b ((n, count) ∷ rest) = if n == b then some count else count_of b rest

unfoldable pub set_count : ℕ → ℕ → List (ℕ × ℕ) → List (ℕ × ℕ)
set_count b k [] = (b, k) ∷ []
set_count b k ((n, count) ∷ rest) =
    if n == b then (n, k) ∷ rest else (n, count) ∷ set_count b k rest

unfoldable pub delete_count : ℕ → List (ℕ × ℕ) → List (ℕ × ℕ)
delete_count b [] = []
delete_count b ((n, count) ∷ rest) =
    let others = delete_count b rest in if n == b then others else (n, count) ∷ others

unfoldable pub add_failed_block : Config → ℕ → Rescanner → Rescanner
unfolding count_of set_count add_save
add_failed_block c block w = elim (count_of block w.tracked) [
  | some k ↦ w
  | none ↦ add_save c (block ∷ []) (record w { tracked = set_count block 0 w.tracked })
]

unfoldable pub track_all : List ℕ → List (ℕ × ℕ) → List (ℕ × ℕ)
unfolding count_of set_count
track_all [] tracked = tracked
track_all (b ∷ bs) tracked = elim (count_of b tracked) [
  | some k ↦ track_all bs tracked
  | none ↦ track_all bs (set_count b 0 tracked)
]

-- An error leaves the worker as it was.
unfoldable pub sync_from_kv : Rescanner → Rescanner
unfolding track_all
sync_from_kv w =
    let (blocks, s) = get_failed_blocks w.store in
    elim blocks [
      | none ↦ with_store s w
      | some bs ↦ record (with_store s w) { tracked = track_all bs w.tracked }
    ]

unfoldable pub delete_all : List ℕ → List (ℕ × ℕ) → List (ℕ × ℕ)
unfolding delete_count
delete_all [] tracked = tracked
delete_all (b ∷ bs) tracked = delete_all bs (delete_count b tracked)

unfoldable pub remove_blocks : Config → List ℕ → Rescanner → Rescanner
unfolding delete_all add_remove
remove_blocks c blocks w =
    if is_nil blocks
    then w
    else add_remove c blocks (record w { tracked = delete_all blocks w.tracked })

unfoldable pub increment_retry : Config → ℕ → Rescanner → Rescanner
unfolding count_of set_count delete_count add_save add_remove
increment_retry c block w = elim (count_of block w.tracked) [
  | none ↦ w
  | some count ↦
      if leb rescanner_max_retries ((count + 1) % 256)
      then add_remove c (block ∷ []) (record w { tracked = delete_count block w.tracked })
      else add_save c (block ∷ [])
          (record w { tracked = set_count block ((count + 1) % 256) w.tracked })
]

abbrev is_not_found : ErrorType → Bool
is_not_found block_not_found = true
is_not_found _ = false

abbrev is_sol : NetworkType → Bool
is_sol sol = true
is_sol _ = false

unfoldable pub is_skipped : Config → Option Error → Bool
is_skipped c none = false
is_skipped c (some e) = is_not_found e.error_type && is_sol c.network_type

-- The results of a batch, with the blocks to remove so far.
unfoldable pub rescan_results : Config → List BlockResult → List ℕ → Rescanner → List ℕ × Rescanner
unfolding increment_retry is_skipped
rescan_results c [] removes w = (removes, w)
rescan_results c (r ∷ rs) removes w =
    if is_skipped c r.error
    then rescan_results c rs (removes ++ r.number ∷ []) w
    else let (done, b) = handle_block_result c r w.base in
      let w' = record w { base = b } in
      if done
      then rescan_results c rs (removes ++ r.number ∷ []) w'
      else rescan_results c rs removes (increment_retry c r.number w')

-- `answer` is what GetBlocksByNumbers gives for the blocks; whether it was an error comes first.
unfoldable pub process_batch :
    Config → (List ℕ → Option (List BlockResult)) → List ℕ → Rescanner → Bool × Rescanner
unfolding rescan_results remove_blocks
process_batch c answer blocks w = elim (answer (take rescan_batch_size blocks)) [
  | none ↦ (true, w)
  | some results ↦
      let (removes, w') = rescan_results c results [] w in (false, remove_blocks c removes w')
]

unfoldable pub keys : List (ℕ × ℕ) → List ℕ
keys [] = []
keys ((n, k) ∷ rest) = n ∷ keys rest

unfoldable pub process_rescan :
    Config → (List ℕ → Option (List BlockResult)) → Rescanner → Bool × Rescanner
unfolding sync_from_kv process_batch keys
process_rescan c answer w =
    let w' = sync_from_kv w in
    if is_nil (keys w'.tracked) then (false, w') else process_batch c answer (keys w'.tracked) w'

-- The listener: the oldest event of the channel.
unfoldable pub listen : Config → Rescanner → Rescanner
unfolding add_failed_block
listen c w = elim w.failed_chan [
  | [] ↦ w
  | e ∷ es ↦ add_failed_block c e.block (record w { base = record w.base { failed_chan = es } })
]
