-- ===== src/MissingBlocks/Text.antt =====
-- formatRange and parseRange of indexer/pkg/store/missingblockstore/store.go: a range as the text
-- that stands in the sorted set and in the keys.
use linq_b2b.Prelude.{
  ℕ, ◌≤◌, ◌<◌, ◌≡◌, refl, ap, sym, ◌∙◌, ◌||◌, ◌==◌, ltb, if◌then◌else◌, [], ◌∷◌, ◌++◌, Option, none,
  some, arith, append-nil, false,
}
use linq_b2b.Texts.{Bytes, max_u64, format_uint, scan_number, skip_space}
use linq_b2b.Texts.Decimals.{starts, scan_number-format_uint, skip_space-format_uint}
use linq_b2b.MissingBlocks.{BlockRange}

unfoldable pub format_range : BlockRange → Bytes
format_range r = format_uint r.start_block ++ b'-' ∷ format_uint r.end_block

-- What Sscanf reads of "-%d" behind the first number.
scan_end : ℕ → Bytes → Option BlockRange
scan_end start [] = none
scan_end start (c ∷ s) =
    if c == b'-'
    then elim (scan_number (skip_space s)) [
      | none ↦ none
      | some (end, rest) ↦
          if start == 0 || (end == 0 || ltb end start)
          then none
          else some (record { start_block = start; end_block = end })
    ]
    else none

-- Sscanf with "%d-%d", and the checks of the bounds.
unfoldable pub parse_range : Bytes → Option BlockRange
unfolding scan_end
parse_range s = elim (scan_number (skip_space s)) [
  | none ↦ none
  | some (start, rest) ↦ scan_end start rest
]

-- The text of a range names it.
pub parse_range-format_range :
    (r : BlockRange)
    → 0 < r.start_block
    → r.start_block ≤ r.end_block
    → r.end_block ≤ max_u64
    → parse_range (format_range r) ≡ some r
unfolding parse_range format_range starts
parse_range-format_range r p h fits =
    let tail = b'-' ∷ format_uint r.end_block in
    let first : scan_number (skip_space (format_uint r.start_block ++ tail))
        ≡ some (r.start_block, tail) =
      ap scan_number (skip_space-format_uint r.start_block tail)
      ∙ scan_number-format_uint r.start_block tail (omega arith) refl in
    let e : format_uint r.end_block ≡ format_uint r.end_block ++ [] = sym (append-nil _) in
    let second : scan_number (skip_space (format_uint r.end_block)) ≡ some (r.end_block, []) =
      ap (λ t. scan_number (skip_space t)) e
      ∙ ap scan_number (skip_space-format_uint r.end_block [])
      ∙ scan_number-format_uint r.end_block [] fits refl in
    let valid : (r.start_block == 0 || (r.end_block == 0 || ltb r.end_block r.start_block))
        ≡ false =
      ground arith in
    rw (parse_range, first, scan_end, second, valid) refl
