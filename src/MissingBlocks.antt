-- ===== src/MissingBlocks.antt =====
-- indexer/pkg/store/missingblockstore/store.go: the queue of missing block ranges of one network.
-- Redis holds it: a sorted set of ranges, scored by their first block, a lock per range in work, and
-- the progress per range. Redis is a parameter, by the commands that the store sends; a member of
-- the set, `start-end` as a text, is a record here, and Text has the text. `up` tells whether a call
-- reaches Redis. A script runs as one step. A lock that expires is a lock that is deleted.
pub mod Text
pub mod Queues
pub mod Numbers
pub mod Merging
pub mod Claims
pub mod Lists
use linq_b2b.Prelude.{
  ℕ, zero, suc, ◌+◌, ◌-◌, ◌≤◌, ◌<◌, ◌≡◌, min, max, Bool, true, false, not, ◌&&◌, ◌||◌, List, [],
  ◌∷◌, Option, none, some, ltb, leb, ◌==◌, if◌then◌else◌, length, sub64, ◌^◌,
}

pub record BlockRange : Type 0 where
  pub start_block : ℕ
  pub end_block : ℕ

abbrev pub same : BlockRange → BlockRange → Bool
same r q = r.start_block == q.start_block && r.end_block == q.end_block

abbrev pub mem : BlockRange → List BlockRange → Bool
mem x [] = false
mem x (r ∷ rs) = same r x || mem x rs

-- ZADD, ZREM, DEL, ZRANGE 0 -1, ZRANGEBYSCORE and ZSCORE on the key of one network.
pub record SortedSet : Type 1 where
  pub Db : Type 0
  pub zadd : ℕ → BlockRange → Db → Db
  pub zrem : BlockRange → Db → Db
  pub del : Db → Db
  pub zrange : Db → List BlockRange
  pub by_score : ℕ → ℕ → Db → List BlockRange
  pub score : Db → BlockRange → ℕ
  pub mem-zadd :
      (k : ℕ) (r x : BlockRange) (s : Db)
      → mem x (zrange (zadd k r s)) ≡ (same r x || mem x (zrange s))
  pub mem-zrem :
      (r x : BlockRange) (s : Db) → mem x (zrange (zrem r s)) ≡ (not (same r x) && mem x (zrange s))
  pub zrange-del : (s : Db) → zrange (del s) ≡ []
  pub score-zadd :
      (k : ℕ) (r x : BlockRange) (s : Db)
      → score (zadd k r s) x ≡ (if same r x then k else score s x)
  pub score-zrem : (r x : BlockRange) (s : Db) → same r x ≡ false → score (zrem r s) x ≡ score s x
  pub mem-by_score :
      (lo hi : ℕ) (x : BlockRange) (s : Db)
      → mem x (by_score lo hi s) ≡ (mem x (zrange s) && (leb lo (score s x) && leb (score s x) hi))

-- SET, SET NX, GET and DEL on the keys of the ranges of one network.
pub record Keys : Type 1 where
  pub Db : Type 0
  pub get : Db → BlockRange → Option ℕ
  pub put : BlockRange → ℕ → Db → Db
  pub put_new : BlockRange → ℕ → Db → Bool × Db
  pub del : BlockRange → Db → Db
  pub get-put :
      (r x : BlockRange) (v : ℕ) (s : Db)
      → get (put r v s) x ≡ (if same r x then some v else get s x)
  pub get-del : (r x : BlockRange) (s : Db) → get (del r s) x ≡ (if same r x then none else get s x)
  pub put_new_free :
      (r : BlockRange) (v : ℕ) (s : Db) → get s r ≡ none → put_new r v s ≡ (true, put r v s)
  pub put_new_taken :
      (r : BlockRange) (v w : ℕ) (s : Db) → get s r ≡ some w → put_new r v s ≡ (false, s)

abbrev pub max_blocks_per_range : ℕ
max_blocks_per_range = 5

abbrev pub locked_mark : ℕ
locked_mark = 1

-- The numbers of the scripts, which are doubles. `round n` is the number that a sum or a text of the
-- value `n` gives; `written from to` is the member `from .. "-" .. to`, with 14 digits per number, by
-- the range that the script's pattern reads in it.
pub record LuaNumbers : Type 0 where
  pub round : ℕ → ℕ
  pub written : ℕ → ℕ → BlockRange
  pub round-exact : (n : ℕ) → n ≤ 2 ^ 53 → round n ≡ n
  pub written-exact :
      (from to : ℕ)
      → from < 10 ^ 14
      → to < 10 ^ 14
      → written from to ≡ record { start_block = from; end_block = to }

module _ (n : LuaNumbers) (z : SortedSet) where
  -- One round of the script's first loop: the range joins if it overlaps or touches the new one.
  unfoldable pub merge_one : ℕ → ℕ → BlockRange → ℕ × ℕ × z.Db → ℕ × ℕ × z.Db
  merge_one new_start new_end r (final_start, final_end, s) =
      let first = n.round r.start_block in
      let last = n.round r.end_block in
      if leb new_start (n.round (last + 1)) && leb first (n.round (new_end + 1))
      then (min first final_start, max last final_end, z.zrem r s)
      else (final_start, final_end, s)

  unfoldable pub merge_loop : ℕ → ℕ → List BlockRange → ℕ × ℕ × z.Db → ℕ × ℕ × z.Db
  merge_loop new_start new_end [] acc = acc
  merge_loop new_start new_end (r ∷ rs) acc =
      merge_loop new_start new_end rs (merge_one new_start new_end r acc)

  -- The script's second loop, `while from <= finalEnd`. `none` means that the fuel ran out; the loop
  -- goes on for ever when rounding keeps `from` where it is.
  unfoldable pub split_ranges : ℕ → ℕ → ℕ → z.Db → Option z.Db
  split_ranges zero from final_end s = none
  split_ranges (suc fuel) from final_end s =
      let to = min (n.round (n.round (from + max_blocks_per_range) - 1)) final_end in
      let rest =
        split_ranges fuel (n.round (to + 1)) final_end (z.zadd from (n.written from to) s) in
      if leb from final_end then rest else some s

  unfoldable pub add_ranges_script : ℕ → ℕ → z.Db → Option z.Db
  add_ranges_script start end s =
      let new_start = n.round start in
      let new_end = n.round end in
      let merged =
        merge_loop new_start new_end
          (z.by_score (n.round (new_start - 1)) (n.round (new_end + 1)) s)
          (new_start, new_end, s) in
      split_ranges (suc (suc merged.1 - merged.0)) merged.0 merged.1 merged.2

  -- Whether the call returned without an error, and the set after it. `none`: the script's loop ran
  -- out of fuel.
  unfoldable pub add_missing_block_range : Bool → ℕ → ℕ → z.Db → Option (Bool × z.Db)
  add_missing_block_range up start end s =
      if start == 0 || (end == 0 || ltb end start)
      then some (false, s)
      else if not up
      then some (false, s)
      else elim (add_ranges_script start end s) [ none ↦ none | some after ↦ some (true, after) ]

-- The claim script: the first range of the set whose lock is free.
unfoldable pub claim_range_script : (l : Keys) → List BlockRange → l.Db → Option BlockRange × l.Db
claim_range_script l [] locks = (none, locks)
claim_range_script l (r ∷ rs) locks =
    let lock = l.put_new r locked_mark locks in
    let rest = claim_range_script l rs lock.1 in if lock.0 then (some r, lock.1) else rest

module _ (z : SortedSet) (l p : Keys) where
  -- The queue of one network: its ranges, the locks and the progress.
  pub record Queue : Type 0 where
    pub ranges : z.Db
    pub locks : l.Db
    pub processed : p.Db

  -- The checks of the script's answer. `none` is an error; (0, 0) stands for no range.
  unfoldable pub answer_claim : Queue → Option BlockRange × l.Db → Option (ℕ × ℕ) × Queue
  answer_claim q (none, locks) = (some (0, 0), record q { locks = locks })
  answer_claim q (some r, locks) =
      if r.start_block == 0 || (r.end_block == 0 || ltb r.end_block r.start_block)
      then (none, record q { locks = l.del r locks })
      else (some (r.start_block, r.end_block), record q { locks = locks })

  unfoldable pub get_next_range : Bool → Queue → Option (ℕ × ℕ) × Queue
  get_next_range up q =
      if up then answer_claim q (claim_range_script l (z.zrange q.ranges) q.locks) else (none, q)

  unfoldable pub remove_range : Bool → BlockRange → Queue → Bool × Queue
  remove_range up r q =
      if up
      then (
        true,
        record {
          ranges = z.zrem r q.ranges;
          processed = p.del r q.processed;
          locks = l.del r q.locks;
        },
      )
      else (false, q)

  unfoldable pub set_range_processed : Bool → BlockRange → ℕ → Queue → Bool × Queue
  set_range_processed up r current q =
      if up then (true, record q { processed = p.put r current q.processed }) else (false, q)

  -- The progress is stored as a text; Text has the round trip.
  unfoldable pub get_range_processed : Bool → BlockRange → Queue → Option ℕ
  get_range_processed up r q =
      if up then elim (p.get q.processed r) [ none ↦ some 0 | some n ↦ some n ] else none

  unfoldable pub list_ranges : Bool → Queue → Option (List BlockRange)
  list_ranges up q = if up then some (z.zrange q.ranges) else none

  unfoldable pub count_ranges : Bool → Queue → Option ℕ
  count_ranges up q = if up then some (length (z.zrange q.ranges)) else none

  unfoldable pub flush_ranges : Bool → Queue → Bool × Queue
  flush_ranges up q = if up then (true, record q { ranges = z.del q.ranges }) else (false, q)
