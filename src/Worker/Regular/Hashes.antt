-- ===== src/Worker/Regular/Hashes.antt =====
-- The cache of block hashes of indexer/internal/worker/regular.go.
use linq_b2b.Prelude.{
  ℕ, ◌-◌, true, false, not, List, [], ◌∷◌, ◌++◌, Option, none, some, String, ltb, ◌==◌,
  if◌then◌else◌, length, drop,
}
use linq_b2b.Store.{BlockHashEntry, save_block_hashes, get_block_hashes}
use linq_b2b.Worker.{Config}
use linq_b2b.Worker.Regular.{Regular, max_block_hash_size, with_store}

-- The newest `max_block_hash_size` entries.
abbrev pub newest : List BlockHashEntry → List BlockHashEntry
newest hashes =
    if ltb max_block_hash_size (length hashes)
    then drop (length hashes - max_block_hash_size) hashes
    else hashes

unfoldable pub add_block_hash : ℕ → String → Regular → Regular
add_block_hash number hash w = record w {
  block_hashes = newest (w.block_hashes ++ record { block_number = number; hash = hash } ∷ []);
  hashes_modified = true;
}

unfoldable pub get_block_hash : ℕ → List BlockHashEntry → String
get_block_hash number [] = ""
get_block_hash number (e ∷ es) =
    if e.block_number == number then e.hash else get_block_hash number es

abbrev pub clear_block_hashes : Regular → Regular
clear_block_hashes w = record w { block_hashes = []; hashes_modified = true }

unfoldable pub flush_block_hashes : Config → Regular → Regular
flush_block_hashes c w =
    if not w.hashes_modified
    then w
    else let (err, s) = save_block_hashes c.internal_code w.block_hashes w.store in
      elim err [
        | some _ ↦ with_store s w
        | none ↦ record (with_store s w) { hashes_modified = false }
      ]

unfoldable pub loaded : Option (List BlockHashEntry) → List BlockHashEntry
loaded none = []
loaded (some hashes) = newest hashes

unfoldable pub load_block_hashes : Config → Regular → Regular
unfolding loaded
load_block_hashes c w =
    let (hashes, s) = get_block_hashes c.internal_code w.store in
    record (with_store s w) { block_hashes = loaded hashes }
