-- ===== src/Ranges/Pending.antt =====
-- Which blocks a list of ranges leaves to be done, and that a fresh range splits into fresh chunks.
use linq_b2b.Prelude.{
  ℕ, suc, ◌+◌, ◌≤◌, ◌<◌, ◌≡◌, refl, sym, ap, ◌∙◌, Bool, false, ◌&&◌, ◌||◌, List, [], ◌∷◌, some,
  arith, ltb, leb, contains, contains-append, contains-span, All, span, u64_mod, sub64_exact,
}
use linq_b2b.Ranges.{CatchupRange, new_current, chunk, split_catchup_range}
use linq_b2b.Ranges.Partition.{pending, all_blocks, IsChunk, split_with}

-- Block `n` belongs to the range and is not done.
abbrev pub pends : ℕ → CatchupRange → Bool
pends n r = leb r.start n && ltb r.current n && leb n r.end

abbrev pub is_pending : ℕ → List CatchupRange → Bool
is_pending n [] = false
is_pending n (r ∷ rs) = pends n r || is_pending n rs

-- Nothing of the range is done yet.
abbrev pub IsFresh : CatchupRange → Type 0
IsFresh r = suc r.current ≡ r.start

pub is_pending-pending :
    (m n : ℕ) (rs : List CatchupRange)
    → All (IsChunk m) rs
    → contains n (all_blocks pending rs) ≡ is_pending n rs
unfolding all_blocks pending
is_pending-pending m n [] h = refl
is_pending-pending m n (r ∷ rs) h = ground (
  arith,
  contains-append n (span (suc r.current) (suc r.end)) (all_blocks pending rs),
  contains-span n (suc r.current) (suc r.end),
  is_pending-pending m n rs h.1,
)

All-first :
    (m : ℕ) (rs : List CatchupRange) → All (λ q. IsChunk m q × IsFresh q) rs → All (IsChunk m) rs
All-first m [] a = tt
All-first m (r ∷ rs) a = (a.0.0, All-first m rs a.1)

chunk-IsFresh : (r : CatchupRange) (m c : ℕ) → r.current < c → c < u64_mod → IsFresh (chunk r m c)
unfolding chunk new_current
chunk-IsFresh r m c h k = ground (arith, sub64_exact c 1)

-- A fresh range splits into fresh chunks that leave exactly its blocks to be done.
pub split-IsFresh :
    (r : CatchupRange) (m : ℕ)
    → IsFresh r
    → 0 < r.start
    → r.start ≤ r.end
    → 0 < m
    → r.end + m < u64_mod
    → (rs : List CatchupRange) × (split_catchup_range r m ≡ some rs)
      × All (λ q. IsChunk m q × IsFresh q) rs
      × ((n : ℕ) → is_pending n rs ≡ (leb r.start n && leb n r.end))
unfolding pending
split-IsFresh r m f low high pos room =
    let (rs, e, _, p, a) =
      split_with r m (λ q. IsChunk m q × IsFresh q) (omega arith) pos room (λ h. (h, f))
        (λ c l h k. (k, chunk-IsFresh r m c (omega arith) (omega arith))) in
    (
      rs,
      e,
      a,
      (λ n.
          sym (is_pending-pending m n rs (All-first m rs a))
          ∙ ap (contains n) p
          ∙ contains-span n (suc r.current) (suc r.end)
          ∙ ground arith),
    )
