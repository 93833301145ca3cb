-- ===== src/Texts.antt =====
-- Texts as lists of bytes, and the parts of Go's fmt, strconv and strings that the stores use for
-- the keys and the members of Redis and of the key-value store.
pub mod Decimals
pub mod Splits
use Prim.Native.Char.{code}
use linq_b2b.Prelude.{
  String, ℕ, zero, suc, ◌+◌, ◌-◌, ◌*◌, ◌/◌, ◌%◌, ◌^◌, Bool, true, false, ◌&&◌, ◌||◌, List, [], ◌∷◌,
  Option, none, some, ltb, leb, ◌==◌, if◌then◌else◌,
}

abbrev pub Bytes : Type 0
Bytes = List ℕ

abbrev pub codes : String → Bytes
codes String.[] = []
codes (String.◌∷◌ c s) = code c ∷ codes s

abbrev pub max_u64 : ℕ
max_u64 = 2 ^ 64 - 1

-- The digits of `n` in front of `out`. The fuel `n` is enough, since a round divides `n` by ten.
unfoldable pub emit : ℕ → ℕ → Bytes → Bytes
emit zero n out = (b'0' + n) ∷ out
emit (suc fuel) n out =
    let rest = emit fuel (n / 10) ((b'0' + n % 10) ∷ out) in
    if ltb n 10 then (b'0' + n) ∷ out else rest

-- `%d` of a uint64.
unfoldable pub format_uint : ℕ → Bytes
format_uint n = emit n n []

abbrev pub is_digit : ℕ → Bool
is_digit c = leb b'0' c && leb c b'9'

-- The number that the digits in front spell behind `n`, and the bytes after them; nothing when the
-- number does not fit in a uint64.
unfoldable pub take_digits : Bytes → ℕ → Option (ℕ × Bytes)
take_digits [] n = some (n, [])
take_digits (c ∷ s) n =
    let m = n * 10 + (c - b'0') in
    let rest = take_digits s m in
    if is_digit c then (if ltb max_u64 m then none else rest) else some (n, c ∷ s)

-- One or more digits.
unfoldable pub scan_number : Bytes → Option (ℕ × Bytes)
scan_number [] = none
scan_number (c ∷ s) = if is_digit c then take_digits (c ∷ s) 0 else none

-- strconv.ParseUint(s, 10, 64)
unfoldable pub parse_uint : Bytes → Option ℕ
parse_uint s = elim (scan_number s) [
  | some (n, []) ↦ some n
  | some (n, c ∷ rest) ↦ none
  | none ↦ none
]

unfoldable pub skip_space : Bytes → Bytes
skip_space [] = []
skip_space (c ∷ s) = let rest = skip_space s in if c == b' ' || c == 9 then rest else c ∷ s

-- strings.Split at one byte: the parts between the separators, at least one.
unfoldable pub cons_first : ℕ → List Bytes → List Bytes
cons_first c [] = (c ∷ []) ∷ []
cons_first c (p ∷ ps) = (c ∷ p) ∷ ps

unfoldable pub split : ℕ → Bytes → List Bytes
split sep [] = [] ∷ []
split sep (c ∷ s) = if c == sep then [] ∷ split sep s else cons_first c (split sep s)

abbrev pub bytes_eq : Bytes → Bytes → Bool
bytes_eq [] [] = true
bytes_eq [] (d ∷ t) = false
bytes_eq (c ∷ s) [] = false
bytes_eq (c ∷ s) (d ∷ t) = c == d && bytes_eq s t

-- Whether the second text begins with the first.
unfoldable pub begins_with : Bytes → Bytes → Bool
begins_with [] s = true
begins_with (c ∷ p) [] = false
begins_with (c ∷ p) (d ∷ s) = c == d && begins_with p s

-- strconv.ParseInt(s, 10, 64), an int64 in two's complement.
unfoldable pub parse_magnitude : Bool → Option ℕ → Option ℕ
parse_magnitude negative none = none
parse_magnitude true (some n) = if ltb (2 ^ 63) n then none else some ((2 ^ 64 - n) % 2 ^ 64)
parse_magnitude false (some n) = if ltb n (2 ^ 63) then some n else none

unfoldable pub parse_int : Bytes → Option ℕ
parse_int [] = none
parse_int (c ∷ s) =
    if c == b'-'
    then parse_magnitude true (parse_uint s)
    else parse_magnitude false (parse_uint (if c == b'+' then s else c ∷ s))

-- strings.TrimSpace, for ASCII.
abbrev pub is_space : ℕ → Bool
is_space c = c == b' ' || (leb 9 c && leb c 13)

unfoldable pub trim_left : Bytes → Bytes
trim_left [] = []
trim_left (c ∷ s) = if is_space c then trim_left s else c ∷ s

unfoldable pub trim_right : Bytes → Bytes
trim_right [] = []
trim_right (c ∷ s) = elim (trim_right s) [
  | [] ↦ if is_space c then [] else c ∷ []
  | d ∷ t ↦ c ∷ d ∷ t
]

unfoldable pub trim_space : Bytes → Bytes
unfolding trim_left trim_right
trim_space s = trim_right (trim_left s)

-- strings.ToLower, for ASCII.
unfoldable pub to_lower : Bytes → Bytes
to_lower [] = []
to_lower (c ∷ cs) = (if leb b'A' c && leb c b'Z' then c + 32 else c) ∷ to_lower cs
