-- ===== src/Examples/Payments.antt =====
-- The theorems on the payment backend at concrete tables, and on the dispatcher at a concrete business.
use linq_b2b.Prelude.{
  ℕ, ◌+◌, ◌≤◌, ◌≡◌, refl, Bool, true, false, [], ◌∷◌, ◌++◌, Option, none, some, String, arith, ◌==◌,
  if◌then◌else◌, All, length, sub64,
}
use linq_b2b.Chain.{Transaction}
use linq_b2b.Examples.{payment}
use linq_b2b.Texts.{
  Bytes, codes, bytes_eq, parse_int, parse_magnitude, parse_uint, scan_number, take_digits,
  trim_space, trim_left, trim_right, to_lower,
}
use linq_b2b.Webhooks.{verify_webhook, sign_payload, rejects_timestamp, is_stale}
use linq_b2b.Webhooks.Dispatching.{
  Business, Directory, Attempts, find_by_address, dispatch_with_retry, process_message,
  acknowledges,
}
use linq_b2b.Webhooks.Delivery.{settled, process_message_acks}
use linq_b2b.Webhooks.Signatures.{is_nil, IsTaken, dispatch_with_retry-IsTaken}
use linq_b2b.Payments.{Outside, Transfer, Payload, Deposit, OrderMessage, State}
use linq_b2b.Payments.Chains.{sui, is_any, parse_chain}
use linq_b2b.Payments.Receive.{
  HttpRequest, Faults, find_secret, check_body, check_signature, authentic, authenticate,
  check_payload, accept, deposit_exists, find_merchant, find_pending, raw_to_usdc, decimal_text,
  pad, new_deposit, receive,
}
use linq_b2b.Payments.Ledger.{IsSound, no_repeat, ordered_once}
use linq_b2b.Payments.Receiving.{Write, settle_all, settle_all-IsSound}
use linq_b2b.Payments.Retries.{is_authentic, authenticate_verifies, receive_loses_order}
use linq_b2b.Payments.Orders.{requeued, Sweep, linked_wallet, find_deposit, execute_sweep, Treasury}
use linq_b2b.Payments.Sweeps.{SweepResult, execute_sweep-SweepResult}
use linq_b2b.Payments.Redeliveries.{redeliver, redeliver_never_ends}

abbrev digest : Bytes → Bytes → Bytes
digest secret body = secret ++ body

abbrev shop : Business
shop = record {
  business_id = "shop";
  active = true;
  webhook_url = "https://shop";
  webhook_secret = codes "key";
}

abbrev directory : Directory
directory = record {
  wallets = record { address = "alice"; network_type = "eth"; business_id = "shop" } ∷ [];
  businesses = shop ∷ [];
  wallet_query_fails = false;
  business_query_fails = false;
}

-- The first attempt gets no answer, the second one is a success.
abbrev attempts : Attempts
attempts = record { clock = λ k. 1000 + k; answer = λ k. if k == 0 then none else some 200 }

abbrev marshal : Business → Transaction → Option Bytes
marshal b tx = some (codes "paid")

abbrev any_url : String → Bool
any_url url = true

process_message_acks_example :
    let sent = process_message digest any_url marshal attempts directory (some payment) in
    (acknowledges sent
      ≡ settled any_url marshal attempts payment
          (find_by_address directory payment.to_address payment.network_id))
    × (length sent.0 ≤ 5)
process_message_acks_example =
    process_message_acks digest any_url marshal attempts directory payment

dispatch_with_retry-IsTaken_example :
    All
      (IsTaken digest 1100 (codes "key"))
      (dispatch_with_retry digest any_url attempts shop (some (codes "paid"))).0
dispatch_with_retry-IsTaken_example =
    dispatch_with_retry-IsTaken digest any_url 1100 attempts shop (some (codes "paid"))
      (omega arith)

abbrev transfer : Transfer
transfer = record {
  tx_hash = "0x1";
  network_id = "sui:testnet";
  from_address = "bob";
  to_address = "alice";
  amount = "2500000";
  timestamp = 900;
}

abbrev paid : Payload
paid = record {
  event_id = "evt_1";
  event_type = "payment.confirmed";
  business_id = "shop";
  transaction = transfer;
}

abbrev outside : Outside
outside = record {
  Amount = ℕ;
  zero_amount = 0;
  parse_float = λ s. length s;
  digest = digest;
  decode = λ s. if bytes_eq s (codes "paid") then some paid else none;
}

abbrev tables : State outside
tables = record {
  businesses =
      record { business_id = "shop"; webhook_secret = some (codes "key"); deleted = false } ∷ [];
  merchants = record { id = "m1"; business_id = "shop"; deleted = false } ∷ [];
  pending_orders =
      record {
        id = "p1";
        merchant_address = "alice";
        status = "pending";
        expires_at = 5000;
        encrypted_private_key = [];
      }
      ∷ [];
  wallets = record { address = "alice"; active = true } ∷ [];
  deposits = [];
  next_id = 1;
  cache = [];
  orders = [];
}

abbrev working : Faults
working = record {
  read_fails = false;
  secret_fails = false;
  exists_fails = false;
  insert_fails = false;
  deactivate_fails = false;
  has_cache = true;
  cache_fails = false;
  publish_fails = false;
}

abbrev unpublished : Faults
unpublished = record working { publish_fails = true }

abbrev request : HttpRequest
request = record {
  is_post = true;
  body = codes "paid";
  signature = codes "sha256=keypaid";
  timestamp = codes "1000";
}

known_secret : find_secret "shop" tables.businesses ≡ some (codes "key")
unfolding find_secret
known_secret = refl

authenticate_verifies_example :
    is_authentic (authenticate outside working 1100 request tables)
    ≡ is_nil (
        verify_webhook digest 1100
          (codes "key")
          (codes "paid")
          (codes "sha256=keypaid")
          (codes "1000"))
authenticate_verifies_example =
    authenticate_verifies outside working 1100 request tables refl refl refl refl known_secret refl

believed : authenticate outside working 1100 request tables ≡ authentic paid
unfolding authenticate check_body check_signature find_secret rejects_timestamp is_stale parse_int
    parse_magnitude parse_uint scan_number take_digits sub64 sign_payload
believed = refl

accepted :
    check_payload outside unpublished tables (authenticate outside unpublished 1100 request tables)
    ≡ accept paid sui
unfolding check_payload deposit_exists parse_chain trim_space trim_left trim_right to_lower is_any
    authenticate check_body check_signature find_secret rejects_timestamp is_stale parse_int
    parse_magnitude parse_uint scan_number take_digits sub64 sign_payload
accepted = refl

abbrev first_deposit : Deposit outside
first_deposit = record {
  id = 1;
  merchant_id = "m1";
  business_id = "shop";
  tx_hash = "0x1";
  network_id = "sui:testnet";
  amount_raw = "2500000";
  amount_usdc = 8;
  sui_address = "alice";
  status = "pending_order_validation";
  pending_order_id = some "p1";
}

first_row : new_deposit outside 1100 paid tables ≡ some first_deposit
unfolding new_deposit find_merchant deposit_exists find_pending raw_to_usdc trim_space trim_left
    trim_right decimal_text pad
first_row = refl

receive_loses_order_example :
    let first = receive outside unpublished 1100 request tables in
    (first.0 ≡ 500)
    × (first.1.orders ≡ [])
    × (receive outside working 1100 request first.1 ≡ (200, first.1))
receive_loses_order_example =
    receive_loses_order outside unpublished working 1100 1100 request request tables accepted refl
      refl first_row believed refl refl

tables-IsSound : IsSound outside tables
unfolding no_repeat ordered_once
tables-IsSound = record { distinct = refl; single = refl; linked = tt; fresh = tt }

abbrev write : Write outside
write = record { faults = working; now = 1100; payload = paid; chain = sui }

settle_all-IsSound_example : IsSound outside (settle_all outside (write ∷ write ∷ []) tables)
settle_all-IsSound_example = settle_all-IsSound outside (write ∷ write ∷ []) tables tables-IsSound

abbrev seed : Bytes
seed =
    0 ∷ 1 ∷ 2 ∷ 3 ∷ 4 ∷ 5 ∷ 6 ∷ 7 ∷ 8 ∷ 9 ∷ 10 ∷ 11 ∷ 12 ∷ 13 ∷ 14 ∷ 15 ∷ 16 ∷ 17 ∷ 18 ∷ 19 ∷ 20
    ∷ 21 ∷ 22 ∷ 23 ∷ 24 ∷ 25 ∷ 26 ∷ 27 ∷ 28 ∷ 29 ∷ 30 ∷ 31 ∷ []

abbrev sweep : Sweep
sweep = record {
  lookup_fails = false;
  decrypt = λ key. some seed;
  coins = λ wallet. some ("coin" ∷ []);
  transfer_fails = false;
  update_fails = false;
}

abbrev swept_tables : State outside
swept_tables = record tables {
  deposits = first_deposit ∷ record first_deposit { id = 2; tx_hash = "0x2" } ∷ [];
  next_id = 3;
}

-- This sweep ends without an error, and the second deposit keeps its status.
sweep_succeeds :
    let r = execute_sweep outside sweep 1 swept_tables in
    (r.error ≡ none)
    × (r.state.deposits
        ≡ record first_deposit { status = "swept" }
          ∷ record first_deposit { id = 2; tx_hash = "0x2" }
          ∷ [])
unfolding execute_sweep
sweep_succeeds = (refl, refl)

execute_sweep-SweepResult_example :
    SweepResult outside 1 swept_tables (execute_sweep outside sweep 1 swept_tables)
execute_sweep-SweepResult_example = execute_sweep-SweepResult outside sweep 1 swept_tables

abbrev treasury : Treasury outside
treasury = record { attempts = λ n. 0; tables = tables; emptied = []; dead = [] }

abbrev orphan : OrderMessage outside
orphan = record {
  order_id = 7;
  merchant_id = "m1";
  chain = sui;
  amount_usdc = 8;
  tx_hash = "0x7";
  timestamp = 900;
  pending_order_id = "evt_7";
}

unlinked : linked_wallet outside 7 tables ≡ none
unfolding linked_wallet find_deposit
unlinked = refl

redeliver_never_ends_example :
    let run = redeliver outside false (sweep ∷ sweep ∷ sweep ∷ sweep ∷ []) 1 orphan treasury in
    All (λ r. r ≡ requeued) run.0 × (run.1.dead ≡ []) × (run.1.tables ≡ tables)
redeliver_never_ends_example =
    redeliver_never_ends outside false (sweep ∷ sweep ∷ sweep ∷ sweep ∷ []) 1 orphan treasury
      unlinked λ n h. refl
