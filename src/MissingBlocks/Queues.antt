-- ===== src/MissingBlocks/Queues.antt =====
-- What indexer/pkg/store/missingblockstore/store.go keeps of its sorted set.
use linq_b2b.Prelude.{
  ◌^◌, ℕ, ◌+◌, ◌≤◌, ◌<◌, ◌≡◌, ◌∙◌, inl, inr, arith, Bool, true, false, ◌&&◌, ◌||◌, List, [], ◌∷◌,
  leb, Bool-cases, Bool-eq,
}
use linq_b2b.MissingBlocks.{BlockRange, same, mem, SortedSet, max_blocks_per_range}

-- Whether block `b` is in the range, and in one of the ranges.
abbrev pub inside : ℕ → BlockRange → Bool
inside b r = leb r.start_block b && leb b r.end_block

unfoldable pub covers : ℕ → List BlockRange → Bool
covers b [] = false
covers b (r ∷ rs) = inside b r || covers b rs

-- Below it the scripts write numbers in full.
abbrev pub max_written : ℕ
max_written = 10 ^ 14

-- A range of the queue: not empty, at most `max_blocks_per_range` blocks, of numbers of 14 digits.
abbrev pub IsShort : BlockRange → Type 0
IsShort r =
    (0 < r.start_block)
    × (r.start_block ≤ r.end_block)
    × (r.end_block < r.start_block + max_blocks_per_range)
    × (r.end_block < max_written)

inside-same : (b : ℕ) (r x : BlockRange) → same r x ≡ true → inside b r ≡ inside b x
inside-same b r x e = ground arith

covered :
    (b : ℕ) (rs : List BlockRange)
    → covers b rs ≡ true
    → (x : BlockRange) × (mem x rs ≡ true) × (inside b x ≡ true)
unfolding covers
covered b [] h = absurd (ground arith)
covered b (r ∷ rs) h = elim (Bool-cases (inside b r)) [
  | inl here ↦ (r, ground arith, here)
  | inr there ↦ let (x, m, i) = covered b rs (ground arith) in (x, ground arith, i)
]

pub covers-mem :
    (b : ℕ) (x : BlockRange) (rs : List BlockRange)
    → mem x rs ≡ true
    → inside b x ≡ true
    → covers b rs ≡ true
unfolding covers
covers-mem b x [] m i = absurd (ground arith)
covers-mem b x (r ∷ rs) m i = elim (Bool-cases (same r x)) [
  | inl here ↦ ground (arith, inside-same b r x here)
  | inr there ↦ ground (arith, covers-mem b x rs)
]

covers_grow :
    (b : ℕ) (rs qs : List BlockRange)
    → ((x : BlockRange) → mem x rs ≡ true → inside b x ≡ true → covers b qs ≡ true)
    → covers b rs ≡ true
    → covers b qs ≡ true
covers_grow b rs qs keep h = let (x, m, i) = covered b rs h in keep x m i

module _ (z : SortedSet) where
  open z use {
    Db, zadd, zrem, zrange, score, by_score, mem-zadd, mem-zrem, score-zadd, score-zrem,
    mem-by_score,
  }

  pub covers-zadd :
      (b k : ℕ) (r : BlockRange) (s : Db)
      → covers b (zrange (zadd k r s)) ≡ (inside b r || covers b (zrange s))
  covers-zadd b k r s =
      Bool-eq _ _
        (λ h. elim (Bool-cases (inside b r)) [
          | inl here ↦ ground (arith)
          | inr out ↦
              let (x, m, i) = covered b (zrange (zadd k r s)) h in
              let old : mem x (zrange s) ≡ true =
                ground (arith, mem-zadd k r x s, inside-same b r x) in
              ground (arith, covers-mem b x (zrange s) old i)
        ])
        (λ h. elim (Bool-cases (inside b r)) [
          | inl here ↦ covers-mem b r _ (ground (arith, mem-zadd k r r s)) here
          | inr out ↦
              covers_grow b (zrange s) _
                (λ x m i. covers-mem b x _ (ground (arith, mem-zadd k r x s)) i) (ground arith)
        ])

  pub covers-zrem :
      (b : ℕ) (r : BlockRange) (s : Db)
      → (inside b r || covers b (zrange (zrem r s))) ≡ (inside b r || covers b (zrange s))
  covers-zrem b r s = elim (Bool-cases (inside b r)) [
    | inl here ↦ ground arith
    | inr out ↦
        let same_cover : covers b (zrange (zrem r s)) ≡ covers b (zrange s) =
          Bool-eq _ _
            (covers_grow b _ _
              (λ x m i. covers-mem b x (zrange s) (ground (arith, mem-zrem r x s)) i))
            (covers_grow b _ _
              (λ x m i. covers-mem b x _ (ground (arith, mem-zrem r x s, inside-same b r x)) i)) in
        ground (arith, same_cover)
  ]

  -- The state of the set between calls: short ranges, each scored by its first block.
  abbrev pub IsQueue : Db → Type 0
  IsQueue s = (x : BlockRange) → mem x (zrange s) ≡ true → (score s x ≡ x.start_block) × IsShort x

  pub zrem-IsQueue : (r : BlockRange) (s : Db) → IsQueue s → IsQueue (zrem r s)
  zrem-IsQueue r s q x m =
      let other : same r x ≡ false = ground (arith, mem-zrem r x s) in
      let (scored, short) = q x (ground (arith, mem-zrem r x s)) in
      (score-zrem r x s other ∙ scored, short)

  pub zadd-IsQueue :
      (r : BlockRange) (s : Db) → IsShort r → IsQueue s → IsQueue (zadd r.start_block r s)
  zadd-IsQueue r s short q x m = elim (Bool-cases (same r x)) [
    | inl here ↦ ground (arith, score-zadd r.start_block r x s)
    | inr other ↦
        let (scored, old) = q x (ground (arith, mem-zadd r.start_block r x s)) in
        ground (arith, score-zadd r.start_block r x s)
  ]

  pub by_score-IsShort :
      (lo hi : ℕ) (x : BlockRange) (s : Db)
      → IsQueue s
      → mem x (by_score lo hi s) ≡ true
      → (mem x (zrange s) ≡ true) × IsShort x
  by_score-IsShort lo hi x s q m =
      let old : mem x (zrange s) ≡ true = ground (arith, mem-by_score lo hi x s) in
      (old, (q x old).1)
