-- ===== src/Examples/Bitcoins.antt =====
-- The theorems on the Bitcoin client and on the mempool worker at a concrete block.
use mathlib.Core.List.{Memᴰ}
use linq_b2b.Prelude.{
  ℕ, ◌+◌, ◌*◌, ◌≡◌, refl, arith, true, false, [], ◌∷◌, Option, none, some, String,
}
use linq_b2b.Chain.{Transaction, direction_in}
use linq_b2b.Examples.{eth, alice, idle, payment}
use linq_b2b.Failover.Errors.{has_prefix}
use linq_b2b.Worker.{Config, transaction, emit_block}
use linq_b2b.Worker.Catchup.Visits.Batches.{IsAnswering}
use linq_b2b.Worker.Mempool.{Mempool, Outlet, process_transactions}
use linq_b2b.Worker.Mempool.Losses.{second_payment_lost}
use linq_b2b.Bitcoin.{
  Numbers, Output, Input, BtcTransaction, BtcBlock, coinbase_inputs, is_coinbase,
  get_output_addresses,
}
use linq_b2b.Bitcoin.Addresses.{
  Codecs, normal_or_same, normalize_btc_address, trim_text, lower_text, trim_left_text,
  trim_right_text, lower_char, starts_with, is_legacy, is_version,
}
use linq_b2b.Bitcoin.Extraction.{listed, get_all_input_addresses}
use linq_b2b.Bitcoin.Blocks.{BitcoinConfig, convert_block}
use linq_b2b.Bitcoin.Inputs.{distinct, named_inputs, get_all_input_addresses_lem}
use linq_b2b.Bitcoin.Incoming.{IsPayment, emit_block-convert_block}
use linq_b2b.Bitcoin.Ranges.{bitcoin_client, bitcoin_client-IsAnswering}

-- Values in satoshis; decimals are numbers that stop at 0.
abbrev whole : Numbers
whole = record {
  Float = ℕ;
  Decimal = ℕ;
  zero = 0;
  from_float = λ x. x;
  from_int = λ n. n;
  from_string = λ s. 7;
  add = λ a b. a + b;
  sub = λ a b. a;
  mul = λ a b. a * b;
  is_negative = λ a. false;
  to_string = λ a. "0";
  int_part_text = λ a. "7";
  fixed_8 = λ a. "7";
}

-- Codecs that decode nothing: each address is kept as it is.
abbrev no_codecs : Codecs
no_codecs = record { bech32_decodes = λ s. false; base58_decode = λ s. []; sha256 = λ s. [] }

abbrev to_alice : Output whole
to_alice = record {
  value = 7;
  script_pub_key = record { hex = "00"; address = "alice"; addresses = [] };
}

abbrev from_bob : Input whole
from_bob = record {
  tx_id = "t0";
  vout = 0;
  prev_out = some (record {
    value = 8;
    script_pub_key = record { hex = "00"; address = "bob"; addresses = [] };
  });
}

abbrev spending : BtcTransaction whole
spending = record { tx_id = "t1"; vin = from_bob ∷ from_bob ∷ []; vout = to_alice ∷ [] }

abbrev mined : BtcBlock whole
mined = record {
  hash = "h";
  height = 5;
  previous_block_hash = "g";
  time = 0;
  tx = spending ∷ [];
  confirmations = 1;
}

abbrev network : BitcoinConfig
network = record { network_id = "bitcoin_testnet"; index_utxo = true; concurrency = 2 }

abbrev unresolved : ℕ → Option (BtcTransaction whole)
unresolved n = none

get_all_input_addresses_lem_example :
    let addrs = get_all_input_addresses whole no_codecs spending in
    (distinct addrs ≡ true)
    × ((a : String) → listed a addrs ≡ listed a (named_inputs whole no_codecs spending.vin))
get_all_input_addresses_lem_example = get_all_input_addresses_lem whole no_codecs spending

plain : is_coinbase whole spending ≡ false
unfolding is_coinbase coinbase_inputs
plain = refl

to_alice_address : Memᴰ "alice" (get_output_addresses whole to_alice)
unfolding get_output_addresses
to_alice_address = Memᴰ.head refl

same_alice : normal_or_same no_codecs "alice" ≡ "alice"
unfolding normal_or_same normalize_btc_address trim_text lower_text trim_left_text trim_right_text
    lower_char starts_with has_prefix is_legacy is_version
same_alice = refl

emit_block-convert_block_example :
    (t : Transaction) × Memᴰ
      (transaction (record t { direction = direction_in }))
      (emit_block eth (convert_block whole no_codecs network unresolved mined) idle).emitted
    × IsPayment whole no_codecs "t1" to_alice "alice" t
emit_block-convert_block_example =
    emit_block-convert_block whole no_codecs network unresolved mined eth alice idle spending
      to_alice "alice" refl (Memᴰ.head refl) plain (Memᴰ.head refl) to_alice_address
      (rw same_alice refl) (rw same_alice refl)

bitcoin_client-IsAnswering_example :
    IsAnswering
      (bitcoin_client whole no_codecs network (λ n. unresolved) (some 5) (λ call n. some mined))
bitcoin_client-IsAnswering_example =
    bitcoin_client-IsAnswering whole no_codecs network (λ n. unresolved) (some 5)
      (λ call n. some mined) (omega arith) λ call n. (mined, refl)

abbrev outlet : Outlet
outlet = record { evict = λ keys. keys; fails = λ n. false }

abbrev fresh : Mempool
fresh = record { seen = []; calls = 0; emitted = [] }

abbrev one_way : Config
one_way = record eth { two_way_indexing = false }

abbrev second : Transaction
second = record payment { transfer_index = "1"; amount = "2" }

second_payment_lost_example :
    process_transactions one_way alice outlet (payment ∷ second ∷ []) fresh
    ≡ process_transactions one_way alice outlet (payment ∷ []) fresh
second_payment_lost_example =
    second_payment_lost one_way alice outlet refl payment second fresh refl refl refl (omega arith)
