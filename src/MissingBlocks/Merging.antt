-- ===== src/MissingBlocks/Merging.antt =====
-- What adding a range to the queue of missing blocks leaves in it.
use linq_b2b.Prelude.{
  ℕ, zero, suc, ◌+◌, ◌-◌, ◌≤◌, ◌<◌, ◌≡◌, refl, ◌∙◌, min, inl, inr, arith, Bool, true, false, not,
  ◌&&◌, ◌||◌, List, [], ◌∷◌, some, leb, ◌==◌, Bool-cases, All,
}
use linq_b2b.MissingBlocks.{
  BlockRange, mem, SortedSet, LuaNumbers, max_blocks_per_range, merge_one, merge_loop, split_ranges,
  add_ranges_script, add_missing_block_range,
}
use linq_b2b.MissingBlocks.Numbers.{merge_one_eq, split_ranges_eq, add_ranges_script_eq}
use linq_b2b.MissingBlocks.Queues.{
  inside, covers, IsShort, max_written, covers-mem, covers-zadd, covers-zrem, IsQueue, zrem-IsQueue,
  zadd-IsQueue, by_score-IsShort,
}

mem-same : (r : BlockRange) (rs : List BlockRange) → mem r (r ∷ rs) ≡ true
mem-same r rs = ground arith

All-members :
    {P : BlockRange → Type 0} (rs : List BlockRange)
    → ((x : BlockRange) → mem x rs ≡ true → P x)
    → All P rs
All-members [] h = tt
All-members (r ∷ rs) h = (h r (mem-same r rs), All-members rs λ x m. h x (ground arith))

module _ (n : LuaNumbers) (z : SortedSet) where
  open z use {Db, zadd, zrem, zrange, by_score, del}

  -- The blocks in the set or in the range that is being built.
  abbrev held : ℕ → ℕ × ℕ × Db → Bool
  held b acc = covers b (zrange acc.2) || (leb acc.0 b && leb b acc.1)

  -- What the merging loop keeps.
  record Merged (b : ℕ) (before after : ℕ × ℕ × Db) : Type 0 where
    low : after.0 ≤ before.0
    high : before.1 ≤ after.1
    positive : 0 < before.0 → 0 < after.0
    digits : before.1 < max_written → after.1 < max_written
    kept : held b after ≡ held b before
    queue : IsQueue z after.2

  abbrev Joins : ℕ → ℕ × ℕ × Db → BlockRange → Type 0
  Joins b acc r = IsShort r × ((not (inside b r) || held b acc) ≡ true)

  module _ (b new_start new_end : ℕ) (ordered : new_start ≤ new_end)
      (below : new_end < max_written) where
    merge_one_lem :
        (r : BlockRange) (acc : ℕ × ℕ × Db)
        → acc.0 ≤ new_start
        → new_end ≤ acc.1
        → IsQueue z acc.2
        → Joins b acc r
        → Merged b acc (merge_one n z new_start new_end r acc)
    merge_one_lem r (fs, fe, s) lo hi q ((nonzero, nonempty, short, digits), joins) =
        let e =
          merge_one_eq n z new_start new_end r fs fe s below (nonzero, nonempty, short, digits) in
        elim (Bool-cases (leb new_start (r.end_block + 1) && leb r.start_block (new_end + 1))) [
          | inl touches ↦
              rw (e, touches)
                (record {
                  low = omega arith;
                  high = omega arith;
                  positive = λ p. omega arith;
                  digits = λ p. omega arith;
                  kept = ground (arith, covers-zrem z b r s);
                  queue = zrem-IsQueue z r s q;
                })
          | inr apart ↦
              rw (e, apart)
                (record {
                  low = omega arith;
                  high = omega arith;
                  positive = λ p. p;
                  digits = λ p. p;
                  kept = refl;
                  queue = q;
                })
        ]

    All-Joins :
        (acc after : ℕ × ℕ × Db) (rs : List BlockRange)
        → held b after ≡ held b acc
        → All (Joins b acc) rs
        → All (Joins b after) rs
    All-Joins acc after [] e h = tt
    All-Joins acc after (r ∷ rs) e ((short, joins), h) =
        ((short, rw e joins), All-Joins acc after rs e h)

    merge_loop_lem :
        (rs : List BlockRange) (acc : ℕ × ℕ × Db)
        → acc.0 ≤ new_start
        → new_end ≤ acc.1
        → IsQueue z acc.2
        → All (Joins b acc) rs
        → Merged b acc (merge_loop n z new_start new_end rs acc)
    unfolding merge_loop
    merge_loop_lem [] acc lo hi q h = record {
      low = omega arith;
      high = omega arith;
      positive = λ p. p;
      digits = λ p. p;
      kept = refl;
      queue = q;
    }
    merge_loop_lem (r ∷ rs) acc lo hi q (j, js) =
        let after = merge_one n z new_start new_end r acc in
        let first : Merged b acc after = merge_one_lem r acc lo hi q j in
        let last : Merged b after (merge_loop n z new_start new_end rs after) =
          merge_loop_lem rs after (omega arith) (omega arith) first.queue
            (All-Joins acc after rs first.kept js) in
        record {
          low = omega arith;
          high = omega arith;
          positive = λ p. last.positive (first.positive p);
          digits = λ p. last.digits (first.digits p);
          kept = last.kept ∙ first.kept;
          queue = last.queue;
        }

  record Splits (from final_end : ℕ) (s after : Db) : Type 0 where
    covered :
        (b : ℕ) → covers b (zrange after) ≡ (covers b (zrange s) || (leb from b && leb b final_end))
    queue : IsQueue z after

  split_ranges_lem :
      (fuel from final_end : ℕ) (s : Db)
      → 0 < from
      → final_end < max_written
      → suc final_end - from < fuel
      → IsQueue z s
      → (after : Db) × (split_ranges n z fuel from final_end s ≡ some after)
        × Splits from final_end s after
  unfolding split_ranges
  split_ranges_lem zero from final_end s p below enough q = absurd (omega arith)
  split_ranges_lem (suc fuel) from final_end s p below enough q =
      elim (Bool-cases (leb from final_end)) [
        | inl more ↦
            let to = min (from + max_blocks_per_range - 1) final_end in
            let r : BlockRange = record { start_block = from; end_block = to } in
            let added = zadd from r s in
            let short : IsShort r = (omega arith, ground arith, omega arith, omega arith) in
            let (after, e, rest) =
              split_ranges_lem fuel (to + 1) final_end added (omega arith) below (ground arith)
                (zadd-IsQueue z r s short q) in
            (
              after,
              split_ranges_eq n z fuel from final_end s (ground arith) below ∙ e,
              record {
                covered = λ b. ground (arith, rest.covered b, covers-zadd z b from r s);
                queue = rest.queue;
              },
            )
        | inr over ↦ (s, rw over refl, record { covered = λ b. ground arith; queue = q })
      ]

  candidates_join :
      (b lo hi new_start new_end : ℕ) (s : Db)
      → IsQueue z s
      → All (Joins b (new_start, new_end, s)) (by_score lo hi s)
  candidates_join b lo hi new_start new_end s q = All-members (by_score lo hi s) λ x m.
      let (old, short) = by_score-IsShort z lo hi x s q m in
      (short, ground (arith, covers-mem b x (zrange s) old))

  -- What a call does to the set: it adds the blocks of the range if it `accepted` the range, no
  -- block leaves, and the ranges stay short.
  pub record Added (accepted : Bool) (start end : ℕ) (before after : Db) : Type 0 where
    pub covered :
        (b : ℕ)
        → covers b (zrange after)
          ≡ (covers b (zrange before) || (accepted && (leb start b && leb b end)))
    pub queue : IsQueue z after

  script_adds :
      (start end : ℕ) (s : Db)
      → 0 < start
      → start ≤ end
      → end < max_written
      → IsQueue z s
      → (after : Db) × (add_ranges_script n z start end s ≡ some after)
        × Added true start end s after
  script_adds start end s p h below q =
      let candidates = by_score (start - 1) (end + 1) s in
      let merged = merge_loop n z start end candidates (start, end, s) in
      let step : (b : ℕ) → Merged b (start, end, s) merged = λ b.
        merge_loop_lem b start end h below candidates (start, end, s) (omega arith) (omega arith) q
          (candidates_join b (start - 1) (end + 1) start end s q) in
      let positive : 0 < merged.0 = (step 0).positive p in
      let low : merged.0 ≤ start = (step 0).low in
      let digits : merged.1 < max_written = (step 0).digits below in
      let (after, e, split) =
        split_ranges_lem (suc (suc merged.1 - merged.0)) merged.0 merged.1 merged.2 positive digits
          (omega arith) (step 0).queue in
      (
        after,
        add_ranges_script_eq n z start end s h below ∙ e,
        record {
          covered = λ b. ground (arith, split.covered b, (step b).kept);
          queue = split.queue;
        },
      )

  abbrev pub accepts : Bool → ℕ → ℕ → Bool
  accepts up start end = up && (not (start == 0) && leb start end)

  add_refused :
      (up : Bool) (start end : ℕ) (s : Db)
      → accepts up start end ≡ false
      → add_missing_block_range n z up start end s ≡ some (false, s)
  unfolding add_missing_block_range
  add_refused up start end s h = ground (arith)

  add_accepted :
      (up : Bool) (start end : ℕ) (s : Db) {after : Db}
      → accepts up start end ≡ true
      → add_ranges_script n z start end s ≡ some after
      → add_missing_block_range n z up start end s ≡ some (true, after)
  unfolding add_missing_block_range
  add_accepted up start end s h e = rw e (ground (arith))

  -- On a set of short ranges of numbers below 10^14, scored by their first blocks, a call that
  -- reaches Redis with a range from a positive block to one below 10^14 ends; the blocks of the
  -- set after it are those before it and those of the range, and its ranges are again short, below
  -- 10^14 and scored so. A call with an invalid range up to a block below 10^14, or that does not
  -- reach Redis, leaves the set as it was.
  pub add_missing_block_range_adds :
      (up : Bool) (start end : ℕ) (s : Db)
      → end < max_written
      → IsQueue z s
      → (after : Db) × (add_missing_block_range n z up start end s
          ≡ some (accepts up start end, after))
        × Added (accepts up start end) start end s after
  add_missing_block_range_adds up start end s below q = elim (Bool-cases (accepts up start end)) [
    | inl good ↦
        let (after, e, added) = script_adds start end s (ground arith) (ground arith) below q in
        rw good (after, add_accepted up start end s good e, added)
    | inr bad ↦
        rw bad
          (s, add_refused up start end s bad, record { covered = λ b. ground arith; queue = q })
  ]
