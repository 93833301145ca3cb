-- ===== src/Store/Progress.antt =====
-- The catchup ranges of indexer/pkg/store/blockstore/store.go.
use linq_b2b.Prelude.{
  ℕ, ◌≤◌, ◌<◌, ◌≡◌, refl, sym, ap, ◌∙◌, subst, true, false, ◌&&◌, ◌||◌, List, [], ◌∷◌, Option, none,
  some, String, str_eq, arith, ltb, ◌==◌, if◌then◌else◌, All, Bool-cases, inl, inr, ◌⊎◌,
}
use linq_b2b.Ranges.{CatchupRange}
use linq_b2b.Ranges.Pending.{pends, is_pending, IsFresh}
use linq_b2b.Store.Listing.{
  IsStorable, get_catchup_progress_lem, put_range-IsStorable, delete_range-IsStorable,
}
use linq_b2b.Store.{
  BlockStates, put_range, put_ranges, delete_range, is_saved, save_catchup_progress,
  save_catchup_ranges, get_catchup_progress, delete_catchup_range, rest,
}

-- The progress that is stored for a key.
unfoldable pub progress_of : ℕ → ℕ → List CatchupRange → Option ℕ
progress_of start end [] = none
progress_of start end (q ∷ qs) =
    if q.start == start && q.end == end then some q.current else progress_of start end qs

pub progress_of-put_range :
    (start end : ℕ) (r : CatchupRange) (qs : List CatchupRange)
    → progress_of start end (put_range r qs)
      ≡ (if r.start == start && r.end == end then some r.current else progress_of start end qs)
unfolding progress_of put_range
progress_of-put_range start end r [] = refl
progress_of-put_range start end r (q ∷ qs) = ground (arith, progress_of-put_range start end r qs)

-- Every key once.
abbrev pub KeysDistinct : List CatchupRange → Type 0
KeysDistinct [] = Unit
KeysDistinct (q ∷ qs) = (progress_of q.start q.end qs ≡ none) × KeysDistinct qs

put_range-KeysDistinct :
    (r : CatchupRange) (qs : List CatchupRange) → KeysDistinct qs → KeysDistinct (put_range r qs)
unfolding put_range progress_of
put_range-KeysDistinct r [] d = (refl, tt)
put_range-KeysDistinct r (q ∷ qs) d =
    ground (arith, put_range-KeysDistinct r qs d.1, progress_of-put_range q.start q.end r qs)

progress_of-delete_range :
    (start end s e : ℕ) (qs : List CatchupRange)
    → KeysDistinct qs
    → progress_of start end (delete_range s e qs)
      ≡ (if s == start && e == end then none else progress_of start end qs)
unfolding progress_of delete_range
progress_of-delete_range start end s e [] d = ground arith
progress_of-delete_range start end s e (q ∷ qs) d =
    ground (arith, progress_of-delete_range start end s e qs d.1)

-- A fresh range that is stored is pending, and what was pending stays so.
is_pending-put_range :
    (n : ℕ) (r : CatchupRange) (qs : List CatchupRange)
    → IsFresh r
    → (is_pending n qs ≡ true) ⊎ (pends n r ≡ true)
    → is_pending n (put_range r qs) ≡ true
unfolding put_range
is_pending-put_range n r [] f h = ground arith
is_pending-put_range n r (q ∷ qs) f h = ground (arith, is_pending-put_range n r qs f)

is_pending-put_ranges :
    (n : ℕ) (rs qs : List CatchupRange)
    → All IsFresh rs
    → (is_pending n rs ≡ true) ⊎ (is_pending n qs ≡ true)
    → is_pending n (put_ranges rs qs) ≡ true
unfolding put_ranges
is_pending-put_ranges n [] qs f h = ground arith
is_pending-put_ranges n (r ∷ rs) qs f h = elim (Bool-cases (r.start == 0 || ltb r.end r.start)) [
  | inl empty ↦ rw empty (is_pending-put_ranges n rs qs f.1 (ground arith))
  | inr saved ↦ rw saved (
      is_pending-put_ranges n rs (put_range r qs) f.1
        (ground (arith, is_pending-put_range n r qs f.0)))
]

is_saved-is_pending :
    (n : ℕ) (rs : List CatchupRange)
    → is_saved rs ≡ false
    → All IsFresh rs
    → is_pending n rs ≡ false
unfolding is_saved
is_saved-is_pending n [] h f = refl
is_saved-is_pending n (r ∷ rs) h f = ground (arith, is_saved-is_pending n rs)

-- GetCatchupProgress succeeds, and gives that progress for every range.
abbrev pub Reads : String → BlockStates → (ℕ → ℕ → Option ℕ) → Type 0
Reads chain s progress =
    (ranges : List CatchupRange) × ((get_catchup_progress chain s).0 ≡ some ranges)
    × ((start end : ℕ) → progress_of start end ranges ≡ progress start end)

reads :
    (chain : String) (s : BlockStates) (progress : ℕ → ℕ → Option ℕ)
    → str_eq chain "" ≡ false
    → s.faults ≡ []
    → All IsStorable s.catchup
    → ((start end : ℕ) → progress_of start end s.catchup ≡ progress start end)
    → Reads chain s progress
reads chain s progress named ok h e =
    (s.catchup, ap (λ p. p.0) (get_catchup_progress_lem chain s named ok h), e)

save_eq :
    (chain : String) (r : CatchupRange) (s : BlockStates)
    → str_eq chain "" ≡ false
    → s.faults ≡ []
    → 0 < r.start
    → r.start ≤ r.end
    → let t = (save_catchup_progress chain r s).1 in
      (t.catchup ≡ put_range r s.catchup) × (t.faults ≡ [])
unfolding save_catchup_progress
save_eq chain r s named ok pos ord = ground (arith, ap rest ok)

delete_eq :
    (chain : String) (r : CatchupRange) (s : BlockStates)
    → str_eq chain "" ≡ false
    → s.faults ≡ []
    → 0 < r.start
    → r.start ≤ r.end
    → let t = (delete_catchup_range chain r.start r.end s).1 in
      (t.catchup ≡ delete_range r.start r.end s.catchup) × (t.faults ≡ [])
unfolding delete_catchup_range
delete_eq chain r s named ok pos ord = ground (arith, ap rest ok)

-- Under a chain name, in a store whose calls succeed and that holds ranges in uint64 under distinct
-- keys: after saving the progress of such a range, GetCatchupProgress reads from the texts of the keys
-- and values that progress for the range, and for every other range what was stored; after deleting
-- the range it reads none for it, and for every other range what was stored.
pub save_delete_progress :
    (chain : String) (r : CatchupRange) (s : BlockStates)
    → str_eq chain "" ≡ false
    → s.faults ≡ []
    → KeysDistinct s.catchup
    → All IsStorable s.catchup
    → IsStorable r
    → let saved = (save_catchup_progress chain r s).1 in
      let deleted = (delete_catchup_range chain r.start r.end s).1 in
      Reads chain saved (λ start end.
        if r.start == start && r.end == end
        then some r.current
        else progress_of start end s.catchup)
      × Reads chain deleted (λ start end.
        if r.start == start && r.end == end then none else progress_of start end s.catchup)
save_delete_progress chain r s named ok d h (pos, ord, fits, done) =
    let (saved, saved_calls) = save_eq chain r s named ok pos ord in
    let (deleted, deleted_calls) = delete_eq chain r s named ok pos ord in
    (
      reads chain _ _ named saved_calls
          (subst (All IsStorable) (sym saved)
            (put_range-IsStorable r s.catchup (pos, ord, fits, done) h))
          (λ start end.
            ap (progress_of start end) saved ∙ progress_of-put_range start end r s.catchup),
      reads chain _ _ named deleted_calls
          (subst (All IsStorable) (sym deleted) (delete_range-IsStorable r.start r.end s.catchup h))
          (λ start end.
            ap (progress_of start end) deleted
            ∙ progress_of-delete_range start end r.start r.end s.catchup d),
    )

not_pending-put_range :
    (n : ℕ) (r : CatchupRange) (qs : List CatchupRange)
    → pends n r ≡ false
    → is_pending n qs ≡ false
    → is_pending n (put_range r qs) ≡ false
unfolding put_range
not_pending-put_range n r [] h k = ground arith
not_pending-put_range n r (q ∷ qs) h k = ground (arith, not_pending-put_range n r qs h)

not_pending-put_ranges :
    (n : ℕ) (rs qs : List CatchupRange)
    → is_pending n rs ≡ false
    → is_pending n qs ≡ false
    → is_pending n (put_ranges rs qs) ≡ false
unfolding put_ranges
not_pending-put_ranges n [] qs h k = k
not_pending-put_ranges n (r ∷ rs) qs h k = elim (Bool-cases (r.start == 0 || ltb r.end r.start)) [
  | inl empty ↦ rw empty (not_pending-put_ranges n rs qs (ground arith) k)
  | inr saved ↦ rw saved (
      not_pending-put_ranges n rs (put_range r qs) (ground arith)
        (not_pending-put_range n r qs (ground arith) k))
]

-- Saving fresh ranges under a chain name, when the store's calls succeed: what is pending then is
-- what was pending before, and the blocks of the ranges.
pub save_catchup_ranges_pending :
    (chain : String) (rs : List CatchupRange) (s : BlockStates) (n : ℕ)
    → str_eq chain "" ≡ false
    → s.faults ≡ []
    → All IsFresh rs
    → is_pending n (save_catchup_ranges chain rs s).1.catchup
      ≡ (is_pending n s.catchup || is_pending n rs)
unfolding save_catchup_ranges
save_catchup_ranges_pending chain rs s n named f fresh = elim (Bool-cases (is_saved rs)) [
  | inr empty ↦ ground (arith, is_saved-is_pending n rs empty fresh)
  | inl saved ↦ elim (Bool-cases (is_pending n s.catchup || is_pending n rs)) [
    | inl yes_pending ↦ ground (arith, is_pending-put_ranges n rs s.catchup fresh)
    | inr not_pending ↦ ground (arith, not_pending-put_ranges n rs s.catchup)
  ]
]
