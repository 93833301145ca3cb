-- ===== src/Store/Keys.antt =====
-- The keys of indexer/pkg/store/blockstore/store.go: what stands under which key, and the range that
-- is read back from the key of its progress.
use linq_b2b.Prelude.{
  ℕ, ◌≤◌, ◌≡◌, refl, ap, sym, subst, ◌∙◌, leb, ltb, if◌then◌else◌, List, [], ◌∷◌, ◌++◌, none, some,
  false, true, arith, length, length-append, append_assoc, contains, contains-append,
}
use linq_b2b.Texts.{Bytes, codes, max_u64, format_uint, parse_uint, split, begins_with}
use linq_b2b.Texts.Decimals.{parse_uint-format_uint, lacks-format_uint}
use linq_b2b.Texts.Splits.{length-split, split-append, split-whole}

infixr 40 ◌/◌
-- The next level of a key.
◌/◌ : Bytes → Bytes → Bytes
a / b = a ++ b'/' ∷ b

unfoldable pub latest_block_key : Bytes → Bytes
unfolding ◌/◌
latest_block_key chain = codes "block_states" / chain / codes "latest_block"

unfoldable pub failed_blocks_key : Bytes → Bytes
unfolding ◌/◌
failed_blocks_key chain = codes "block_states" / chain / codes "failed_blocks"

unfoldable pub block_hashes_key : Bytes → Bytes
unfolding ◌/◌
block_hashes_key chain = codes "block_states" / chain / codes "block_hash"

unfoldable pub compose_catchup_key : Bytes → Bytes
unfolding ◌/◌
compose_catchup_key chain = codes "block_states" / chain / codes "catchup_progress" / []

unfoldable pub catchup_key : Bytes → ℕ → ℕ → Bytes
unfolding ◌/◌
catchup_key chain start end =
    codes "block_states"
    / chain
    / codes "catchup_progress"
    / (format_uint start ++ b'-' ∷ format_uint end)

begins_with-append : (p s : Bytes) → begins_with p (p ++ s) ≡ true
unfolding begins_with
begins_with-append [] s = refl
begins_with-append (c ∷ p) s = ground (arith, begins_with-append p s)

-- The keys of the ranges of a chain stand under its prefix.
pub catchup_key-begins :
    (chain : Bytes) (start end : ℕ)
    → begins_with (compose_catchup_key chain) (catchup_key chain start end) ≡ true
unfolding compose_catchup_key catchup_key ◌/◌
catchup_key-begins chain start end =
    let text = format_uint start ++ b'-' ∷ format_uint end in
    let e : compose_catchup_key chain ++ text ≡ catchup_key chain start end =
      ap (λ k. codes "block_states" / k)
        (append_assoc chain (b'/' ∷ (codes "catchup_progress" / [])) text) in
    subst (λ k. begins_with (compose_catchup_key chain) k ≡ true) e
      (begins_with-append (compose_catchup_key chain) text)

last_part : Bytes → List Bytes → Bytes
last_part p [] = p
last_part p (q ∷ qs) = last_part q qs

range_of_parts : List Bytes → ℕ × ℕ
range_of_parts (s ∷ e ∷ []) = elim (parse_uint s) [
  | none ↦ (0, 0)
  | some start ↦ elim (parse_uint e) [
    | none ↦ (0, 0)
    | some end ↦ if leb start end then (start, end) else (0, 0)
  ]
]
range_of_parts [] = (0, 0)
range_of_parts (s ∷ []) = (0, 0)
range_of_parts (s ∷ e ∷ f ∷ rest) = (0, 0)

unfoldable pub extract_range_from_key : Bytes → ℕ × ℕ
unfolding range_of_parts last_part
extract_range_from_key key =
    let parts = split b'/' key in
    if ltb (length parts) 4 then (0, 0) else range_of_parts (split b'-' (last_part [] parts))

last_part-append : (p q : Bytes) (ps : List Bytes) → last_part p (ps ++ q ∷ []) ≡ q
unfolding last_part
last_part-append p q [] = refl
last_part-append p q (r ∷ ps) = last_part-append r q ps

range_text : ℕ → ℕ → Bytes
range_text start end = format_uint start ++ b'-' ∷ format_uint end

lacks-range_text : (start end : ℕ) → contains b'/' (range_text start end) ≡ false
unfolding range_text
lacks-range_text start end = ground (
  arith,
  contains-append b'/' (format_uint start) (b'-' ∷ format_uint end),
  lacks-format_uint b'/' start refl,
  lacks-format_uint b'/' end refl,
)

split-range_text :
    (start end : ℕ) → split b'-' (range_text start end) ≡ format_uint start ∷ format_uint end ∷ []
unfolding range_text
split-range_text start end =
    split-append b'-' (format_uint start) (format_uint end)
    ∙ ap (λ x. x ++ split b'-' (format_uint end))
        (split-whole b'-' (format_uint start) (lacks-format_uint b'-' start refl))
    ∙ ap (λ x. format_uint start ∷ x)
        (split-whole b'-' (format_uint end) (lacks-format_uint b'-' end refl))

range_of_range_text :
    (start end : ℕ)
    → start ≤ end
    → end ≤ max_u64
    → range_of_parts (split b'-' (range_text start end)) ≡ (start, end)
unfolding range_of_parts
range_of_range_text start end h fits =
    let valid : leb start end ≡ true = ground arith in
    ap range_of_parts (split-range_text start end)
    ∙ rw
        (
          range_of_parts,
          parse_uint-format_uint start (omega arith),
          parse_uint-format_uint end fits,
          valid,
        )
        refl

-- The parts in front of the last slash of a catchup key.
front : Bytes → List Bytes
front chain =
    split b'/' (codes "block_states") ++ (split b'/' chain ++ split b'/' (codes "catchup_progress"))

length-front : (chain : Bytes) → 3 ≤ length (front chain)
unfolding front
length-front chain = omega (
  arith,
  length-append (split b'/' (codes "block_states"))
      (split b'/' chain ++ split b'/' (codes "catchup_progress")),
  length-append (split b'/' chain) (split b'/' (codes "catchup_progress")),
  length-split b'/' (codes "block_states"),
  length-split b'/' chain,
  length-split b'/' (codes "catchup_progress"),
)

split-catchup_key :
    (chain : Bytes) (start end : ℕ)
    → split b'/' (catchup_key chain start end) ≡ front chain ++ range_text start end ∷ []
unfolding catchup_key range_text ◌/◌ front
split-catchup_key chain start end =
    let tail = format_uint start ++ b'-' ∷ format_uint end in
    let names = split b'/' (codes "catchup_progress") in
    let below : split b'/' (chain / (codes "catchup_progress" / tail))
        ≡ (split b'/' chain ++ names) ++ tail ∷ [] =
      split-append b'/' chain (codes "catchup_progress" / tail)
      ∙ ap (λ x. split b'/' chain ++ x)
          (split-append b'/' (codes "catchup_progress") tail
            ∙ ap (λ x. names ++ x) (split-whole b'/' tail (lacks-range_text start end)))
      ∙ sym (append_assoc (split b'/' chain) names (tail ∷ [])) in
    split-append b'/' (codes "block_states") (chain / (codes "catchup_progress" / tail))
    ∙ ap (λ x. split b'/' (codes "block_states") ++ x) below
    ∙ sym (append_assoc (split b'/' (codes "block_states")) (split b'/' chain ++ names) (tail ∷ []))

-- The bounds of an ordered range of uint64 are read back from the key of its progress, whatever
-- the name of the chain.
pub extract_range_from_key-catchup_key :
    (chain : Bytes) (start end : ℕ)
    → start ≤ end
    → end ≤ max_u64
    → extract_range_from_key (catchup_key chain start end) ≡ (start, end)
unfolding extract_range_from_key
extract_range_from_key-catchup_key chain start end h fits =
    let long : ltb (length (front chain ++ range_text start end ∷ [])) 4 ≡ false =
      ground (arith, length-append (front chain) (range_text start end ∷ []), length-front chain) in
    ap read (split-catchup_key chain start end)
    ∙ rw (long, last_part-append [] (range_text start end) (front chain))
        (range_of_range_text start end h fits)
  where
    read : List Bytes → ℕ × ℕ
    read parts =
        if ltb (length parts) 4 then (0, 0) else range_of_parts (split b'-' (last_part [] parts))
