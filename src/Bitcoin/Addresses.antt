-- ===== src/Bitcoin/Addresses.antt =====
-- indexer/internal/rpc/bitcoin/utils.go and tx.go: the addresses of outputs and inputs, and their normal
-- form. The decoders of bech32 and base58, and SHA-256, are parameters. TrimSpace and ToLower are as on
-- ASCII.
use Prim.Native.Char.{Char, code}
use linq_b2b.Prelude.{
  Bool, false, ◌&&◌, ◌||◌, [], ◌∷◌, Option, none, some, String, str_eq, ◌==◌, if◌then◌else◌, length,
  take, drop,
}
use linq_b2b.Texts.{Bytes, codes, bytes_eq, is_space}
use linq_b2b.Failover.Errors.{has_prefix}

pub record Codecs : Type 0 where
  pub bech32_decodes : String → Bool
  pub base58_decode : String → Bytes
  pub sha256 : Bytes → Bytes

-- The letter of the second text that stands where `c` stands in the first.
unfoldable pub lower_char : String → String → Char → Char
lower_char (String.◌∷◌ u us) (String.◌∷◌ l ls) c =
    let rest = lower_char us ls c in if code u == code c then l else rest
lower_char (String.◌∷◌ u us) String.[] c = c
lower_char String.[] ls c = c

abbrev upper_letters : String
upper_letters = "ABCDEFGHIJKLMNOPQRSTUVWXYZ"

abbrev lower_letters : String
lower_letters = "abcdefghijklmnopqrstuvwxyz"

unfoldable pub lower_text : String → String
unfolding lower_char
lower_text String.[] = ""
lower_text (String.◌∷◌ c s) = String.◌∷◌ (lower_char upper_letters lower_letters c) (lower_text s)

unfoldable pub trim_left_text : String → String
trim_left_text String.[] = ""
trim_left_text (String.◌∷◌ c s) =
    let rest = trim_left_text s in if is_space (code c) then rest else String.◌∷◌ c s

unfoldable pub trim_right_text : String → String
trim_right_text String.[] = ""
trim_right_text (String.◌∷◌ c s) =
    let rest = trim_right_text s in
    if str_eq rest "" && is_space (code c) then "" else String.◌∷◌ c rest

unfoldable pub trim_text : String → String
unfolding trim_left_text trim_right_text
trim_text s = trim_right_text (trim_left_text s)

unfoldable pub starts_with : String → String → Bool
unfolding has_prefix
starts_with s p = has_prefix (codes s) (codes p)

-- The version bytes of addresses: p2pkh and p2sh, of the main and the test network.
unfoldable pub is_version : Bytes → Bool
is_version [] = false
is_version (v ∷ rest) = v == 0 || (v == 5 || (v == 111 || v == 196))

-- The checks of a legacy address.
unfoldable pub is_legacy : Codecs → Bytes → Bool
unfolding is_version
is_legacy k decoded =
    length decoded == 25
    && (bytes_eq (take 4 (k.sha256 (k.sha256 (take 21 decoded)))) (drop 21 decoded)
        && is_version decoded)

-- `none` is an error.
unfoldable pub normalize_btc_address : Codecs → String → Option String
unfolding lower_text trim_text starts_with is_legacy
normalize_btc_address k text =
    let addr = trim_text text in
    let laddr = lower_text addr in
    if str_eq addr ""
    then none
    else if starts_with laddr "bc1p" || starts_with laddr "tb1p"
    then some laddr
    else if starts_with laddr "bc1" || starts_with laddr "tb1"
    then if k.bech32_decodes laddr then some laddr else none
    else if is_legacy k (k.base58_decode addr)
    then some addr
    else none

-- `if normalized, err := NormalizeBTCAddress(addr); err == nil { addr = normalized }`
unfoldable pub normal_or_same : Codecs → String → String
unfolding normalize_btc_address
normal_or_same k addr = elim (normalize_btc_address k addr) [ none ↦ addr | some n ↦ n ]
