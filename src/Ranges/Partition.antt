-- ===== src/Ranges/Partition.antt =====
-- What splitCatchupRange of indexer/internal/worker/regular.go does with the blocks of a range.
use linq_b2b.Prelude.{
  ℕ, zero, suc, ◌+◌, ◌-◌, ◌≤◌, ◌<◌, ◌≡◌, ◌∙◌, List, [], ◌∷◌, ◌++◌, some, inl, inr, arith, leb, ◌==◌,
  ◌||◌, true, false, Bool-cases, All, append-nil, span, span-append, span-empty, u64_mod, add64,
  sub64, add64_exact, sub64_exact, leb→le, if◌then◌else◌,
}
use linq_b2b.Ranges.{CatchupRange, new_current, chunk_end, chunk, split_loop, split_catchup_range}

-- The blocks of a range, and those that are still to be done.
unfoldable pub blocks : CatchupRange → List ℕ
blocks r = span r.start (suc r.end)

unfoldable pub pending : CatchupRange → List ℕ
pending r = span (suc r.current) (suc r.end)

unfoldable pub all_blocks : (CatchupRange → List ℕ) → List CatchupRange → List ℕ
all_blocks f [] = []
all_blocks f (r ∷ rs) = f r ++ all_blocks f rs

-- What a chunk has to be: not empty, at most `max_size` long, its progress within its bounds.
pub record IsChunk (max_size : ℕ) (r : CatchupRange) : Type 0 where
  pub ordered : r.start ≤ r.end
  pub bounded : suc r.end - r.start ≤ max_size
  pub progress_low : r.start ≤ suc r.current
  pub progress_high : r.current ≤ r.end

-- A range as the workers build it.
pub record IsRange (r : CatchupRange) : Type 0 where
  pub positive : 0 < r.start
  pub ordered : r.start ≤ r.end
  pub progress_low : r.start ≤ suc r.current
  pub progress_high : r.current ≤ r.end

-- The first block from `c` on that is to be done.
abbrev first_pending : ℕ → ℕ → ℕ
first_pending current c = if leb c current then suc current else c

-- Cutting the progress to a chunk keeps what is pending, in order.
pending_step :
    (current c hi last : ℕ)
    → 0 < c
    → c ≤ hi
    → hi ≤ last
    → current ≤ last
    → last < u64_mod
    → span (suc (new_current current c hi)) (suc hi)
        ++ span (first_pending current (suc hi)) (suc last)
      ≡ span (first_pending current c) (suc last)
unfolding new_current
pending_step current c hi last p q h k b = ground (
  arith,
  sub64_exact c 1,
  span-append c (suc hi) (suc last),
  span-append (suc current) (suc hi) (suc last),
  span-empty (suc hi) (suc hi),
)

module _ (r : CatchupRange) (m c : ℕ) (room : r.end + m < u64_mod) (pos : 0 < m) (low : 0 < c)
    (high : c ≤ r.end) where
  chunk_end_bounds :
      (c ≤ chunk_end r m c)
      × (chunk_end r m c ≤ r.end)
      × (chunk_end r m c < c + m)
      × (add64 (chunk_end r m c) 1 ≡ suc (chunk_end r m c))
  unfolding chunk_end add64 sub64
  chunk_end_bounds = (omega arith, omega arith, omega arith, omega arith)

  chunk-IsChunk : IsChunk m (chunk r m c)
  unfolding chunk new_current
  chunk-IsChunk = ground (arith, chunk_end_bounds, sub64_exact c 1)

split_loop_step :
    (r : CatchupRange) (m fuel c : ℕ) {d : ℕ} {rs : List CatchupRange}
    → leb c r.end ≡ true
    → add64 (chunk_end r m c) 1 ≡ d
    → split_loop fuel r m d ≡ some rs
    → split_loop (suc fuel) r m c ≡ some (chunk r m c ∷ rs)
unfolding split_loop
split_loop_step r m fuel c more next e = rw (more, next, e)

split_loop_end :
    (r : CatchupRange) (m fuel c : ℕ) → leb c r.end ≡ false → split_loop (suc fuel) r m c ≡ some []
unfolding split_loop
split_loop_end r m fuel c over = rw over

single_blocks : (r : CatchupRange) → all_blocks blocks (r ∷ []) ≡ blocks r
unfolding all_blocks
single_blocks r = append-nil (blocks r)

single_pending : (r : CatchupRange) → all_blocks pending (r ∷ []) ≡ pending r
unfolding all_blocks
single_pending r = append-nil (pending r)

single-IsChunk : {r : CatchupRange} {m : ℕ} → IsRange r → suc r.end - r.start ≤ m → IsChunk m r
single-IsChunk v h = omega arith

module _ (r : CatchupRange) (m : ℕ) (room : r.end + m < u64_mod) (pos : 0 < m) (v : IsRange r)
    (P : CatchupRange → Type 0) (keep : (c : ℕ) → r.start ≤ c → c ≤ r.end → P (chunk r m c)) where
  -- The chunks of the loop: what they hold, from block `c` on.
  record Splits (c : ℕ) (rs : List CatchupRange) : Type 0 where
    blocks_kept : all_blocks blocks rs ≡ span c (suc r.end)
    pending_kept : all_blocks pending rs ≡ span (first_pending r.current c) (suc r.end)
    chunks : All P rs

  Splits-nil : (c : ℕ) → r.end < c → Splits c []
  unfolding all_blocks
  Splits-nil c h = record {
    blocks_kept = ground (arith, span-empty c (suc r.end));
    pending_kept = ground (arith, span-empty (first_pending r.current c) (suc r.end));
    chunks = tt;
  }

  Splits-cons :
      (c : ℕ) (rs : List CatchupRange)
      → r.start ≤ c
      → c ≤ r.end
      → Splits (suc (chunk_end r m c)) rs
      → Splits c (chunk r m c ∷ rs)
  unfolding all_blocks blocks pending chunk
  Splits-cons c rs low high s =
      let b = chunk_end_bounds r m c room pos (omega arith) high in
      record {
        blocks_kept =
            ground (arith, s.blocks_kept, span-append c (suc (chunk_end r m c)) (suc r.end));
        pending_kept =
            ground (arith, s.pending_kept, pending_step r.current c (chunk_end r m c) r.end);
        chunks = (keep c low high, s.chunks);
      }

  split_loop-Splits :
      (fuel c : ℕ)
      → r.start ≤ c
      → c ≤ suc r.end
      → suc r.end < c + fuel
      → (rs : List CatchupRange) × (split_loop fuel r m c ≡ some rs) × Splits c rs
  split_loop-Splits zero c low high enough = absurd (omega arith)
  split_loop-Splits (suc fuel) c low high enough = elim (Bool-cases (leb c r.end)) [
    | inr over ↦ ([], split_loop_end r m fuel c over, Splits-nil c (ground arith))
    | inl more ↦
        let b = chunk_end_bounds r m c room pos (omega arith) (leb→le c r.end more) in
        let (rs, e, s) =
          split_loop-Splits fuel (suc (chunk_end r m c)) (omega arith) (omega arith)
            (omega arith) in
        (
          chunk r m c ∷ rs,
          split_loop_step r m fuel c more b.3 e,
          Splits-cons c rs low (leb→le c r.end more) s,
        )
  ]

pending_start :
    (r : CatchupRange) → IsRange r → span (first_pending r.current r.start) (suc r.end) ≡ pending r
unfolding pending
pending_start r v = ground (arith)

-- The result of a split with a property of all its chunks.
abbrev pub Partitions : CatchupRange → ℕ → (CatchupRange → Type 0) → Type 0
Partitions r max_size P =
    (rs : List CatchupRange) × (split_catchup_range r max_size ≡ some rs)
    × (all_blocks blocks rs ≡ blocks r)
    × (all_blocks pending rs ≡ pending r)
    × All P rs

pub split_with :
    (r : CatchupRange) (m : ℕ) (P : CatchupRange → Type 0)
    → IsRange r
    → 0 < m
    → r.end + m < u64_mod
    → (IsChunk m r → P r)
    → ((c : ℕ) → r.start ≤ c → c ≤ r.end → IsChunk m (chunk r m c) → P (chunk r m c))
    → Partitions r m P
unfolding split_catchup_range blocks pending
split_with r m P v pos room whole part = elim (Bool-cases (leb r.end r.start)) [
  | inl small ↦ (
    r ∷ [],
    rw small,
    single_blocks r,
    single_pending r,
    (whole (single-IsChunk v (ground arith)), tt),
  )
  | inr large ↦ elim (Bool-cases (m == 0 || leb (add64 (sub64 r.end r.start) 1) m)) [
    | inl fits ↦ (
      r ∷ [],
      rw (large, fits),
      single_blocks r,
      single_pending r,
      (
        whole (
            single-IsChunk v
              (ground (arith, sub64_exact r.end r.start, add64_exact (r.end - r.start) 1))),
        tt,
      ),
    )
    | inr wide ↦
        let keep = λ (c : ℕ) (low : r.start ≤ c) (high : c ≤ r.end).
          part c low high (chunk-IsChunk r m c room pos (omega arith) high) in
        let (rs, e, s) =
          split_loop-Splits r m room pos v P keep (suc (suc (sub64 r.end r.start))) r.start
            (omega arith) (ground arith) (omega (arith, sub64_exact r.end r.start)) in
        (rs, rw (large, wide, e), s.blocks_kept, s.pending_kept ∙ pending_start r v, s.chunks)
  ]
]

-- For a range from a positive block to one not before it, with its progress between the block
-- before the first and the last, and a positive chunk size that stays below 2^64 when added to the
-- last block: the splitting loop ends, and the chunks hold the blocks of the range, each once and
-- in order, at most that many to a chunk; what is pending in the chunks is what was pending in the
-- range.
pub split_catchup_range_partition :
    (r : CatchupRange) (max_size : ℕ)
    → IsRange r
    → 0 < max_size
    → r.end + max_size < u64_mod
    → Partitions r max_size (IsChunk max_size)
split_catchup_range_partition r m v pos room =
    split_with r m (IsChunk m) v pos room (λ h. h) (λ c low high h. h)
