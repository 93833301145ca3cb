-- ===== src/MissingBlocks/Claims.antt =====
-- Who works on a range of missing blocks: the claims, and the end of the work.
use linq_b2b.Prelude.{
  ℕ, ◌≤◌, ◌<◌, ◌≡◌, refl, inl, inr, arith, true, false, not, ◌&&◌, ◌||◌, List, [], ◌∷◌, Option,
  none, some, subst, ltb, ◌==◌, if◌then◌else◌, Bool-cases, Option-cases, All,
}
use linq_b2b.MissingBlocks.{
  BlockRange, same, mem, SortedSet, Keys, locked_mark, claim_range_script, Queue, answer_claim,
  get_next_range, remove_range, get_range_processed,
}

module _ (l : Keys) where
  open l use {Db, get, put, put_new, del, get-put, get-del, put_new_free, put_new_taken}

  abbrev pub IsLocked : Db → BlockRange → Type 0
  IsLocked locks r = (v : ℕ) × (get locks r ≡ some v)

  -- What the claim script does: it locks a range of the list that was free, and that one only, or
  -- every range of the list is locked.
  abbrev pub Claims : List BlockRange → Db → Option BlockRange × Db → Type 0
  Claims rs before (none, after) = (after ≡ before) × All (IsLocked before) rs
  Claims rs before (some r, after) =
      (mem r rs ≡ true)
      × (get before r ≡ none)
      × ((x : BlockRange) → get after x ≡ (if same r x then some locked_mark else get before x))

  Claims-cons :
      (r : BlockRange) (rs : List BlockRange) (locks : Db) (c : Option BlockRange × Db)
      → IsLocked locks r
      → Claims rs locks c
      → Claims (r ∷ rs) locks c
  Claims-cons r rs locks (none, after) taken (e, rest) = (e, (taken, rest))
  Claims-cons r rs locks (some q, after) taken (m, free, marks) = (ground arith, free, marks)

  pub claim_range_script_lem :
      (rs : List BlockRange) (locks : Db) → Claims rs locks (claim_range_script l rs locks)
  unfolding claim_range_script
  claim_range_script_lem [] locks = (refl, tt)
  claim_range_script_lem (r ∷ rs) locks = elim (Option-cases (get locks r)) [
    | inl free ↦
        rw (put_new_free r locked_mark locks free)
          (ground arith, free, λ x. get-put r x locked_mark locks)
    | inr (v, taken) ↦ rw (put_new_taken r locked_mark v locks taken) (
        Claims-cons r rs locks (claim_range_script l rs locks) (v, taken)
          (claim_range_script_lem rs locks))
  ]

  -- A range that is claimed is not claimed again while its lock stands.
  pub claims_differ :
      (rs qs : List BlockRange) (locks : Db) {r q : BlockRange} {after last : Db}
      → claim_range_script l rs locks ≡ (some r, after)
      → claim_range_script l qs after ≡ (some q, last)
      → same r q ≡ false
  claims_differ rs qs locks {r} {q} {after} {last} e f =
      let first : Claims rs locks (some r, after) =
        subst (Claims rs locks) e (claim_range_script_lem rs locks) in
      let second : Claims qs after (some q, last) =
        subst (Claims qs after) f (claim_range_script_lem qs after) in
      elim (Bool-cases (same r q)) [
        | inl again ↦ absurd (ground (arith, first.2 q, second.1))
        | inr apart ↦ apart
      ]

module _ (z : SortedSet) (l p : Keys) where
  -- What GetNextRange answers: the bounds of a range that it locked, or (0, 0) when every range is
  -- locked, and never an error when Redis can be reached.
  abbrev pub Next : Queue z l p → Option (ℕ × ℕ) × Queue z l p → Type 0
  Next before (none, after) = false ≡ true
  Next before (some (start, end), after) =
      (after.ranges ≡ before.ranges)
      × (after.processed ≡ before.processed)
      × (if start == 0
          then (end ≡ 0) × Claims l (z.zrange before.ranges) before.locks (none, after.locks)
          else Claims l (z.zrange before.ranges) before.locks
              (some (record { start_block = start; end_block = end }), after.locks))

  -- The members are ranges from positive blocks that are not empty.
  abbrev pub HoldsRanges : z.Db → Type 0
  HoldsRanges s =
      (x : BlockRange)
      → mem x (z.zrange s) ≡ true
      → (0 < x.start_block) × (x.start_block ≤ x.end_block)

  Next-answer_claim :
      (q : Queue z l p) (c : Option BlockRange × l.Db)
      → HoldsRanges q.ranges
      → Claims l (z.zrange q.ranges) q.locks c
      → Next q (answer_claim z l p q c)
  unfolding answer_claim
  Next-answer_claim q (none, after) queue claims = (refl, refl, (refl, claims))
  Next-answer_claim q (some r, after) queue claims =
      let (positive, nonempty) = queue r claims.0 in
      let nonzero : (r.start_block == 0) ≡ false = ground arith in
      let valid : (r.end_block == 0 || ltb r.end_block r.start_block) ≡ false = ground arith in
      rw (nonzero, valid) (refl, refl, rw nonzero claims)

  -- Over a set of ranges from positive blocks that are not empty, a call for the next range that reaches Redis gives no error: it
  -- gives a range of the set that was not locked and locks that one only, or (0, 0) and changes no
  -- lock when every range is locked; the ranges and the progress stay.
  pub get_next_range_claims :
      (q : Queue z l p) → HoldsRanges q.ranges → Next q (get_next_range z l p true q)
  unfolding get_next_range
  get_next_range_claims q queue =
      Next-answer_claim q _ queue (claim_range_script_lem l (z.zrange q.ranges) q.locks)

  -- The queue after the end of the work on `r`.
  pub record Removed (r : BlockRange) (before after : Queue z l p) : Type 0 where
    pub ranges :
        (x : BlockRange)
        → mem x (z.zrange after.ranges) ≡ (not (same r x) && mem x (z.zrange before.ranges))
    pub locks :
        (x : BlockRange) → l.get after.locks x ≡ (if same r x then none else l.get before.locks x)
    pub progress :
        (x : BlockRange)
        → get_range_processed z l p true x after
          ≡ (if same r x then some 0 else get_range_processed z l p true x before)

  pub remove_range_removes :
      (r : BlockRange) (q : Queue z l p) → Removed r q (remove_range z l p true r q).1
  unfolding remove_range get_range_processed
  remove_range_removes r q = record {
    ranges = λ x. z.mem-zrem r x q.ranges;
    locks = λ x. l.get-del r x q.locks;
    progress = λ x. rw (p.get-del r x q.processed) (ground arith);
  }
