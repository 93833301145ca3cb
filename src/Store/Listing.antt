-- ===== src/Store/Listing.antt =====
-- GetCatchupProgress of indexer/pkg/store/blockstore/store.go: what it reads from the texts of the pairs.
use linq_b2b.Prelude.{
  ℕ, ◌≤◌, ◌<◌, ◌≡◌, refl, ap, false, ◌&&◌, List, [], ◌∷◌, some, String, str_eq, arith, ◌==◌, All,
  Bool-cases, inl, inr,
}
use linq_b2b.Ranges.{CatchupRange}
use linq_b2b.Texts.{Bytes, codes, max_u64}
use linq_b2b.Texts.Decimals.{parse_uint-format_uint}
use linq_b2b.Store.Keys.{
  compose_catchup_key, catchup_key-begins, extract_range_from_key-catchup_key,
}
use linq_b2b.Store.{
  BlockStates, put_range, delete_range, get_catchup_progress, list_pairs, read_pairs, catchup_pair,
  catchup_pairs, same_key, rest,
}

-- A range that the store takes, in uint64.
abbrev pub IsStorable : CatchupRange → Type 0
IsStorable r = (0 < r.start) × (r.start ≤ r.end) × (r.end ≤ max_u64) × (r.current ≤ max_u64)

list_pairs-catchup_pairs :
    (chain : Bytes) (rs : List CatchupRange)
    → list_pairs (compose_catchup_key chain) (catchup_pairs chain rs) ≡ catchup_pairs chain rs
unfolding list_pairs catchup_pairs catchup_pair
list_pairs-catchup_pairs chain [] = refl
list_pairs-catchup_pairs chain (r ∷ rs) =
    rw (catchup_key-begins chain r.start r.end)
      (ap (λ kvs. catchup_pair chain r ∷ kvs) (list_pairs-catchup_pairs chain rs))

-- The texts of the pairs are read back.
read_pairs-catchup_pairs :
    (chain : Bytes) (rs : List CatchupRange)
    → All IsStorable rs
    → read_pairs (catchup_pairs chain rs) ≡ rs
unfolding read_pairs catchup_pairs catchup_pair
read_pairs-catchup_pairs chain [] h = refl
read_pairs-catchup_pairs chain (r ∷ rs) ((pos, ord, fits, done), h) =
    let start : (r.start == 0) ≡ false = ground arith in
    let end : (r.end == 0) ≡ false = ground arith in
    rw
      (
        extract_range_from_key-catchup_key chain r.start r.end ord fits,
        parse_uint-format_uint r.current done,
        start,
        end,
      )
      (ap (λ qs. r ∷ qs) (read_pairs-catchup_pairs chain rs h))

-- What GetCatchupProgress gives over a store whose calls succeed.
pub get_catchup_progress_lem :
    (chain : String) (s : BlockStates)
    → str_eq chain "" ≡ false
    → s.faults ≡ []
    → All IsStorable s.catchup
    → get_catchup_progress chain s ≡ (some s.catchup, s)
unfolding get_catchup_progress
get_catchup_progress_lem chain s named ok h =
    let listed = list_pairs-catchup_pairs (codes chain) s.catchup in
    let read = read_pairs-catchup_pairs (codes chain) s.catchup h in
    rw (named, listed, read) (ground (arith, ap rest ok))

pub put_range-IsStorable :
    (r : CatchupRange) (qs : List CatchupRange)
    → IsStorable r
    → All IsStorable qs
    → All IsStorable (put_range r qs)
unfolding put_range
put_range-IsStorable r [] new h = (new, tt)
put_range-IsStorable r (q ∷ qs) new (old, h) = elim (Bool-cases (same_key r q)) [
  | inl same ↦ rw same (new, h)
  | inr other ↦ rw other (old, put_range-IsStorable r qs new h)
]

pub delete_range-IsStorable :
    (start end : ℕ) (qs : List CatchupRange)
    → All IsStorable qs
    → All IsStorable (delete_range start end qs)
unfolding delete_range
delete_range-IsStorable start end [] h = tt
delete_range-IsStorable start end (q ∷ qs) (old, h) =
    elim (Bool-cases (q.start == start && q.end == end)) [
      | inl same ↦ rw same h
      | inr other ↦ rw other (old, delete_range-IsStorable start end qs h)
    ]
