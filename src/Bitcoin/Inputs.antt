-- ===== src/Bitcoin/Inputs.antt =====
-- getAllInputAddresses of indexer/internal/indexer/bitcoin.go.
use linq_b2b.Prelude.{
  ◌≡◌, refl, sym, ap, arith, Bool, true, not, ◌&&◌, List, [], ◌∷◌, String, str_eq, eq_iff,
  if◌then◌else◌,
}
use linq_b2b.Bitcoin.{Numbers, Input, BtcTransaction, get_input_address}
use linq_b2b.Bitcoin.Addresses.{Codecs, normal_or_same}
use linq_b2b.Bitcoin.Extraction.{listed, input_addresses, get_all_input_addresses}

-- No address twice.
unfoldable pub distinct : List String → Bool
distinct [] = true
distinct (a ∷ as') = not (listed a as') && distinct as'

listed-same :
    (a b : String) (seen : List String) → str_eq b a ≡ true → listed a seen ≡ listed b seen
listed-same a b seen e = ap (λ x. listed x seen) (sym ((eq_iff b a).0 e))

module _ (v : Numbers) (k : Codecs) where
  -- The normal forms of the addresses of the inputs that have one, with repetitions.
  unfoldable pub named_inputs : List (Input v) → List String
  named_inputs [] = []
  named_inputs (i ∷ is') =
      let raw = get_input_address v i in
      if str_eq raw "" then named_inputs is' else normal_or_same k raw ∷ named_inputs is'

  listed-input_addresses :
      (a : String) (ins : List (Input v)) (seen : List String)
      → listed a (input_addresses v k ins seen)
        ≡ (listed a (named_inputs ins) && not (listed a seen))
  unfolding input_addresses named_inputs listed
  listed-input_addresses a [] seen = ground arith
  listed-input_addresses a (i ∷ is') seen =
      let addr = normal_or_same k (get_input_address v i) in
      ground (
        arith,
        listed-input_addresses a is' seen,
        listed-input_addresses a is' (addr ∷ seen),
        listed-same a addr seen,
      )

  distinct-input_addresses :
      (ins : List (Input v)) (seen : List String) → distinct (input_addresses v k ins seen) ≡ true
  unfolding input_addresses distinct listed
  distinct-input_addresses [] seen = refl
  distinct-input_addresses (i ∷ is') seen =
      let addr = normal_or_same k (get_input_address v i) in
      ground (
        arith,
        distinct-input_addresses is' seen,
        distinct-input_addresses is' (addr ∷ seen),
        listed-input_addresses addr is' (addr ∷ seen),
        (eq_iff addr addr).1 refl,
      )

  -- The input addresses of a Bitcoin transaction are distinct, and they are exactly the normal
  -- forms of the addresses of its inputs that have one.
  pub get_all_input_addresses_lem :
      (tx : BtcTransaction v)
      → let addrs = get_all_input_addresses v k tx in
        (distinct addrs ≡ true) × ((a : String) → listed a addrs ≡ listed a (named_inputs tx.vin))
  unfolding get_all_input_addresses listed
  get_all_input_addresses_lem tx =
      (distinct-input_addresses tx.vin [], λ a. ground (arith, listed-input_addresses a tx.vin []))
