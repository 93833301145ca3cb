-- ===== src/Texts/Decimals.antt =====
-- A decimal print is read back: `%d`, and the digit scans of fmt and strconv.
use linq_b2b.Prelude.{
  append-nil, subst, ℕ, zero, suc, ◌+◌, ◌/◌, ◌%◌, ◌≤◌, ◌≡◌, refl, sym, ap, ◌∙◌, Bool, true, false,
  [], ◌∷◌, ◌++◌, some, arith, contains,
}
use linq_b2b.Texts.{
  Bytes, max_u64, emit, format_uint, is_digit, take_digits, scan_number, parse_uint, skip_space,
}

emit-append : (fuel n : ℕ) (out rest : Bytes) → emit fuel n (out ++ rest) ≡ emit fuel n out ++ rest
unfolding emit
emit-append zero n out rest = refl
emit-append (suc fuel) n out rest =
    ground (arith, emit-append fuel (n / 10) ((b'0' + n % 10) ∷ out) rest)

take_digits-emit :
    (fuel n : ℕ) (out : Bytes)
    → n ≤ fuel
    → n ≤ max_u64
    → take_digits (emit fuel n out) 0 ≡ take_digits out n
unfolding emit take_digits
take_digits-emit zero n out h fits = ground arith
take_digits-emit (suc fuel) n out h fits =
    ground (arith, take_digits-emit fuel (n / 10) ((b'0' + n % 10) ∷ out))

-- The text starts with a digit.
unfoldable pub starts : Bytes → Bool
starts [] = false
starts (c ∷ s) = is_digit c

starts-emit : (fuel n : ℕ) (out : Bytes) → n ≤ fuel → starts (emit fuel n out) ≡ true
unfolding emit starts
starts-emit zero n out h = ground arith
starts-emit (suc fuel) n out h = ground (arith, starts-emit fuel (n / 10) ((b'0' + n % 10) ∷ out))

format_uint-append : (n : ℕ) (rest : Bytes) → format_uint n ++ rest ≡ emit n n rest
unfolding format_uint
format_uint-append n rest = sym (emit-append n n [] rest)

scan_number-starts : (s : Bytes) → starts s ≡ true → scan_number s ≡ take_digits s 0
unfolding scan_number starts
scan_number-starts [] h = absurd (ground arith)
scan_number-starts (c ∷ s) h = rw h refl

-- Reading stops behind the number.
pub scan_number-format_uint :
    (n : ℕ) (rest : Bytes)
    → n ≤ max_u64
    → starts rest ≡ false
    → scan_number (format_uint n ++ rest) ≡ some (n, rest)
unfolding take_digits starts
scan_number-format_uint n rest fits stops =
    ap scan_number (format_uint-append n rest)
    ∙ scan_number-starts (emit n n rest) (starts-emit n n rest (omega arith))
    ∙ take_digits-emit n n rest (omega arith) fits
    ∙ stop rest stops
  where
    stop : (rest : Bytes) → starts rest ≡ false → take_digits rest n ≡ some (n, rest)
    stop [] h = refl
    stop (c ∷ s) h = rw h refl

pub parse_uint-format_uint : (n : ℕ) → n ≤ max_u64 → parse_uint (format_uint n) ≡ some n
unfolding parse_uint starts
parse_uint-format_uint n fits =
    let whole : scan_number (format_uint n) ≡ some (n, []) =
      ap scan_number (sym (append-nil (format_uint n))) ∙ scan_number-format_uint n [] fits refl in
    rw (parse_uint, whole) refl

-- No space stands before the digits.
pub skip_space-format_uint :
    (n : ℕ) (rest : Bytes) → skip_space (format_uint n ++ rest) ≡ format_uint n ++ rest
unfolding skip_space starts
skip_space-format_uint n rest = go (format_uint n ++ rest) (
    subst (λ s. starts s ≡ true) (sym (format_uint-append n rest))
      (starts-emit n n rest (omega arith)))
  where
    go : (s : Bytes) → starts s ≡ true → skip_space s ≡ s
    go [] h = refl
    go (c ∷ s) h = ground arith

lacks-emit :
    (sep fuel n : ℕ) (out : Bytes)
    → is_digit sep ≡ false
    → n ≤ fuel
    → contains sep out ≡ false
    → contains sep (emit fuel n out) ≡ false
unfolding emit
lacks-emit sep zero n out h k lacks = ground arith
lacks-emit sep (suc fuel) n out h k lacks =
    ground (arith, lacks-emit sep fuel (n / 10) ((b'0' + n % 10) ∷ out))

-- A print holds digits only.
pub lacks-format_uint : (sep n : ℕ) → is_digit sep ≡ false → contains sep (format_uint n) ≡ false
unfolding format_uint
lacks-format_uint sep n h = lacks-emit sep n n [] h (omega arith) refl

pub starts-format_uint : (n : ℕ) → starts (format_uint n) ≡ true
unfolding format_uint
starts-format_uint n = starts-emit n n [] (omega arith)
