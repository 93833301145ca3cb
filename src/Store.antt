-- ===== src/Store.antt =====
-- indexer/pkg/store/blockstore/store.go: what the block store keeps under the keys of one chain.
-- `faults` says which of the coming calls of the key-value store fail (true), in order; when it is
-- used up, calls succeed. An `error` result is `Option StoreError`, `none` for nil.
pub mod FailedBlocks
pub mod Listing
pub mod Progress
pub mod Keys
use linq_b2b.Prelude.{
  ℕ, Bool, true, false, not, ◌&&◌, ◌||◌, List, [], ◌∷◌, Option, none, some, String, str_eq, ltb,
  leb, ◌==◌, if◌then◌else◌, contains,
}
use linq_b2b.Ranges.{CatchupRange}
use linq_b2b.Texts.{Bytes, codes, begins_with, format_uint, parse_uint}
use linq_b2b.Store.Keys.{compose_catchup_key, catchup_key, extract_range_from_key}

pub record BlockHashEntry : Type 0 where
  pub block_number : ℕ
  pub hash : String

-- An element of `catchup` stands for one pair of the key-value store, which `catchup_pair` writes out.
pub record BlockStates : Type 0 where
  pub latest_block : Option ℕ
  pub failed_blocks : Option (List ℕ)
  pub catchup : List CatchupRange
  pub block_hashes : Option (List BlockHashEntry)
  pub faults : List Bool

pub data StoreError : Type 0 where
  name_required number_required invalid_range kv_failed : StoreError

abbrev first : List Bool → Bool
first [] = false
first (b ∷ bs) = b

abbrev pub rest : List Bool → List Bool
rest [] = []
rest (b ∷ bs) = bs

-- Whether the next call of the key-value store fails, and the state after that call.
abbrev pub kv_fails : BlockStates → Bool
kv_fails s = first s.faults

abbrev pub after_call : BlockStates → BlockStates
after_call s = record s { faults = rest s.faults }

unfoldable pub get_latest_block : BlockStates → Option ℕ × BlockStates
get_latest_block s = (if kv_fails s then none else s.latest_block, after_call s)

unfoldable pub save_latest_block : String → ℕ → BlockStates → Option StoreError × BlockStates
save_latest_block chain number s =
    if str_eq chain ""
    then (some name_required, s)
    else if number == 0
    then (some number_required, s)
    else if kv_fails s
    then (some kv_failed, after_call s)
    else (none, record (after_call s) { latest_block = some number })

-- `slices.Sort`.
pub insert_sorted : ℕ → List ℕ → List ℕ
insert_sorted n [] = n ∷ []
insert_sorted n (x ∷ xs) = if leb n x then n ∷ x ∷ xs else x ∷ insert_sorted n xs

pub sort : List ℕ → List ℕ
sort [] = []
sort (x ∷ xs) = insert_sorted x (sort xs)

abbrev or_empty {ℓ} : {A : Type ℓ} → Option (List A) → List A
or_empty none = []
or_empty (some xs) = xs

-- `GetAny` with its error ignored: a failed read looks like a missing key.
abbrev read_failed : BlockStates → List ℕ
read_failed s = if kv_fails s then [] else or_empty s.failed_blocks

write_failed : List ℕ → BlockStates → Option StoreError × BlockStates
write_failed blocks s =
    if kv_fails s
    then (some kv_failed, after_call s)
    else (none, record (after_call s) { failed_blocks = some blocks })

-- `append`, at the end.
abbrev snoc : List ℕ → ℕ → List ℕ
snoc [] n = n ∷ []
snoc (x ∷ xs) n = x ∷ snoc xs n

unfoldable pub get_failed_blocks : BlockStates → Option (List ℕ) × BlockStates
get_failed_blocks s = (if kv_fails s then none else some (or_empty s.failed_blocks), after_call s)

unfoldable pub save_failed_block : String → ℕ → BlockStates → Option StoreError × BlockStates
unfolding write_failed sort insert_sorted
save_failed_block chain number s =
    if str_eq chain ""
    then (some name_required, s)
    else if number == 0
    then (some number_required, s)
    else if contains number (read_failed s)
    then (none, after_call s)
    else write_failed (sort (snoc (read_failed s) number)) (after_call s)

-- The merging loop: a zero and what is there already are passed over.
merge_blocks : List ℕ → List ℕ → List ℕ
merge_blocks blocks [] = blocks
merge_blocks blocks (b ∷ bs) =
    merge_blocks (if b == 0 || contains b blocks then blocks else snoc blocks b) bs

unfoldable pub save_failed_blocks : String → List ℕ → BlockStates → Option StoreError × BlockStates
unfolding write_failed sort insert_sorted merge_blocks
save_failed_blocks chain blocks s =
    if str_eq chain "" then (some name_required, s) else elim blocks [
      | [] ↦ (none, s)
      | b ∷ bs ↦ write_failed (sort (merge_blocks (read_failed s) (b ∷ bs))) (after_call s)
    ]

pub without : List ℕ → List ℕ → List ℕ
without dropped [] = []
without dropped (b ∷ bs) = if contains b dropped then without dropped bs else b ∷ without dropped bs

remove_stored : List ℕ → Option (List ℕ) → BlockStates → Option StoreError × BlockStates
remove_stored dropped none s = (none, s)
remove_stored dropped (some blocks) s = write_failed (without dropped blocks) s

unfoldable pub remove_failed_blocks :
    String → List ℕ → BlockStates → Option StoreError × BlockStates
unfolding write_failed without remove_stored
remove_failed_blocks chain blocks s =
    if str_eq chain "" then (some name_required, s) else elim blocks [
      | [] ↦ (none, s)
      | b ∷ bs ↦
          if kv_fails s
          then (some kv_failed, after_call s)
          else remove_stored (b ∷ bs) s.failed_blocks (after_call s)
    ]

-- Two ranges with the same key.
abbrev pub same_key : CatchupRange → CatchupRange → Bool
same_key r q = r.start == q.start && r.end == q.end

-- Set one key of the catchup prefix.
unfoldable pub put_range : CatchupRange → List CatchupRange → List CatchupRange
put_range r [] = r ∷ []
put_range r (q ∷ qs) = if same_key r q then r ∷ qs else q ∷ put_range r qs

unfoldable pub delete_range : ℕ → ℕ → List CatchupRange → List CatchupRange
delete_range start end [] = []
delete_range start end (q ∷ qs) =
    if q.start == start && q.end == end then qs else q ∷ delete_range start end qs

unfoldable pub save_catchup_progress :
    String → CatchupRange → BlockStates → Option StoreError × BlockStates
unfolding put_range
save_catchup_progress chain r s =
    if str_eq chain "" || r.start == 0 || ltb r.end r.start
    then (some invalid_range, s)
    else if kv_fails s
    then (some kv_failed, after_call s)
    else (none, record (after_call s) { catchup = put_range r s.catchup })

-- The pairs that are written: a range with no block is passed over.
unfoldable pub put_ranges : List CatchupRange → List CatchupRange → List CatchupRange
unfolding put_range
put_ranges [] stored = stored
put_ranges (r ∷ rs) stored =
    put_ranges rs (if r.start == 0 || ltb r.end r.start then stored else put_range r stored)

is_saved : List CatchupRange → Bool
is_saved [] = false
is_saved (r ∷ rs) = not (r.start == 0 || ltb r.end r.start) || is_saved rs

-- One `BatchSet` for all pairs, and no call when there is none.
unfoldable pub save_catchup_ranges :
    String → List CatchupRange → BlockStates → Option StoreError × BlockStates
unfolding put_ranges is_saved
save_catchup_ranges chain ranges s =
    if str_eq chain ""
    then (some name_required, s)
    else if not (is_saved ranges)
    then (none, s)
    else if kv_fails s
    then (some kv_failed, after_call s)
    else (none, record (after_call s) { catchup = put_ranges ranges s.catchup })

-- The key and the value of a range. Both are texts.
unfoldable pub catchup_pair : Bytes → CatchupRange → Bytes × Bytes
catchup_pair chain r = (catchup_key chain r.start r.end, format_uint r.current)

-- The pairs of the key-value store whose keys begin with the prefix. The store's own prefix is empty.
unfoldable pub list_pairs : Bytes → List (Bytes × Bytes) → List (Bytes × Bytes)
list_pairs prefix [] = []
list_pairs prefix (kv ∷ kvs) =
    if begins_with prefix kv.0 then kv ∷ list_pairs prefix kvs else list_pairs prefix kvs

-- A value that is no number gives 0; only prints of a uint64 are stored.
abbrev pub parsed_or_zero : Option ℕ → ℕ
parsed_or_zero none = 0
parsed_or_zero (some n) = n

-- The loop over the listed pairs: a key that is no range is passed over.
unfoldable pub read_pairs : List (Bytes × Bytes) → List CatchupRange
read_pairs [] = []
read_pairs (kv ∷ kvs) =
    let (start, end) = extract_range_from_key kv.0 in
    let current = parsed_or_zero (parse_uint kv.1) in
    if start == 0 || end == 0
    then read_pairs kvs
    else record { start = start; end = end; current = current } ∷ read_pairs kvs

unfoldable pub catchup_pairs : Bytes → List CatchupRange → List (Bytes × Bytes)
unfolding catchup_pair
catchup_pairs chain [] = []
catchup_pairs chain (r ∷ rs) = catchup_pair chain r ∷ catchup_pairs chain rs

unfoldable pub get_catchup_progress :
    String → BlockStates → Option (List CatchupRange) × BlockStates
unfolding list_pairs read_pairs catchup_pairs
get_catchup_progress chain s = if str_eq chain "" then (none, s) else (
  if kv_fails s
      then none
      else some (
          read_pairs (
            list_pairs (compose_catchup_key (codes chain))
              (catchup_pairs (codes chain) s.catchup))),
  after_call s,
)

unfoldable pub delete_catchup_range : String → ℕ → ℕ → BlockStates → Option StoreError × BlockStates
unfolding delete_range
delete_catchup_range chain start end s =
    if str_eq chain "" || start == 0 || ltb end start
    then (none, s)
    else if kv_fails s
    then (some kv_failed, after_call s)
    else (none, record (after_call s) { catchup = delete_range start end s.catchup })

unfoldable pub save_block_hashes :
    String → List BlockHashEntry → BlockStates → Option StoreError × BlockStates
save_block_hashes chain hashes s =
    if str_eq chain ""
    then (some name_required, s)
    else if kv_fails s
    then (some kv_failed, after_call s)
    else (none, record (after_call s) { block_hashes = some hashes })

-- A failed or missing read gives no hashes and no error.
unfoldable pub get_block_hashes : String → BlockStates → Option (List BlockHashEntry) × BlockStates
get_block_hashes chain s =
    if str_eq chain ""
    then (none, s)
    else (if kv_fails s then none else s.block_hashes, after_call s)
