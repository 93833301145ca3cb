-- ===== src/Payments/Receive.antt =====
-- backend/internal/webhook/handler.go: the handler of the webhook, in the two parts between which
-- other requests may run: the checks, which only read, and the writes. The body of a request is its
-- first megabyte, a response is its status.
use linq_b2b.Prelude.{
  ℕ, zero, suc, ◌-◌, Bool, true, false, not, ◌&&◌, ◌||◌, List, [], ◌∷◌, ◌++◌, Option, none, some,
  String, str_eq, ltb, leb, if◌then◌else◌, length, take, drop,
}
use linq_b2b.Texts.{Bytes, codes, bytes_eq, trim_space}
use linq_b2b.Webhooks.{rejects_timestamp, sign_payload}
use linq_b2b.Payments.{
  Outside, Payload, BusinessRow, Merchant, PendingOrder, Wallet, Deposit, OrderMessage, State,
}
use linq_b2b.Payments.Chains.{ChainType, parse_chain}

pub record HttpRequest : Type 0 where
  pub is_post : Bool
  pub body : Bytes
  pub signature : Bytes
  pub timestamp : Bytes

-- Which calls fail, and whether there is a cache.
pub record Faults : Type 0 where
  pub read_fails : Bool
  pub secret_fails : Bool
  pub exists_fails : Bool
  pub insert_fails : Bool
  pub deactivate_fails : Bool
  pub has_cache : Bool
  pub cache_fails : Bool
  pub publish_fails : Bool

abbrev pub is_empty : Bytes → Bool
is_empty [] = true
is_empty (c ∷ s) = false

-- getWebhookSecret: `none` is an error, which a NULL secret gives too; no row gives the empty secret.
unfoldable pub find_secret : String → List BusinessRow → Option Bytes
find_secret id [] = some []
find_secret id (b ∷ bs) =
    if str_eq b.business_id id && not b.deleted then b.webhook_secret else find_secret id bs

-- `for len(raw) <= 6 { raw = "0" + raw }`; seven rounds are enough.
unfoldable pub pad : ℕ → Bytes → Bytes
pad zero raw = raw
pad (suc fuel) raw = let rest = pad fuel (b'0' ∷ raw) in if leb (length raw) 6 then rest else raw

unfoldable pub decimal_text : Bytes → Bytes
unfolding pad
decimal_text raw =
    let padded = pad 7 raw in
    take (length padded - 6) padded ++ b'.' ∷ drop (length padded - 6) padded

unfoldable pub find_merchant : String → List Merchant → Option Merchant
find_merchant id [] = none
find_merchant id (m ∷ ms) =
    if str_eq m.business_id id && not m.deleted then some m else find_merchant id ms

unfoldable pub find_pending : String → ℕ → List PendingOrder → Option PendingOrder
find_pending address now [] = none
find_pending address now (p ∷ ps) =
    if str_eq p.merchant_address address && (str_eq p.status "pending" && ltb now p.expires_at)
    then some p
    else find_pending address now ps

pub pending_id : Option PendingOrder → Option String
pending_id none = none
pending_id (some p) = some p.id

unfoldable pub deactivate : String → List Wallet → List Wallet
deactivate address [] = []
deactivate address (w ∷ ws) =
    (if str_eq w.address address then record w { active = false } else w) ∷ deactivate address ws

-- What authentication gives: a status to answer with, or the payload.
pub data Authentication : Type 0 where
  refused : ℕ → Authentication
  authentic : Payload → Authentication

module _ (o : Outside) where
  unfoldable pub raw_to_usdc : Bytes → o.Amount
  unfolding decimal_text
  raw_to_usdc text =
      let raw = trim_space text in
      if is_empty raw || bytes_eq raw (codes "0")
      then o.zero_amount
      else o.parse_float (decimal_text raw)

  unfoldable pub check_signature : HttpRequest → Payload → Option Bytes → Authentication
  check_signature r p none = refused 500
  check_signature r p (some secret) =
      if is_empty secret
      then refused 401
      else if not (bytes_eq (sign_payload o.digest secret r.body) r.signature)
      then refused 401
      else authentic p

  unfoldable pub check_body : Faults → HttpRequest → State o → Option Payload → Authentication
  unfolding check_signature find_secret
  check_body f r s none = refused 400
  check_body f r s (some p) =
      check_signature r p (if f.secret_fails then none else find_secret p.business_id s.businesses)

  -- The first half of Receive, up to the verified signature.
  unfoldable pub authenticate : Faults → ℕ → HttpRequest → State o → Authentication
  unfolding check_body
  authenticate f now r s =
      if not r.is_post
      then refused 405
      else if f.read_fails
      then refused 400
      else if is_empty r.signature || is_empty r.timestamp
      then refused 401
      else if rejects_timestamp now r.timestamp
      then refused 401
      else check_body f r s (o.decode r.body)

  unfoldable pub deposit_exists : String → List (Deposit o) → Bool
  deposit_exists tx_hash [] = false
  deposit_exists tx_hash (d ∷ ds) = str_eq d.tx_hash tx_hash || deposit_exists tx_hash ds

  -- What the checks come to: a status to answer with, or what is to be written.
  pub data Verdict : Type 0 where
    answer : ℕ → Verdict
    accept : Payload → ChainType → Verdict

  unfoldable pub check_payload : Faults → State o → Authentication → Verdict
  unfolding deposit_exists
  check_payload f s (refused status) = answer status
  check_payload f s (authentic p) =
      if f.exists_fails
      then answer 500
      else if deposit_exists p.transaction.tx_hash s.deposits
      then answer 200
      else elim (parse_chain (codes p.transaction.network_id)) [
        | none ↦ answer 400
        | some chain ↦ accept p chain
      ]

  -- The row that the INSERT adds. There is none when the business has no merchant, or when another
  -- deposit has the transaction hash.
  unfoldable pub new_deposit : ℕ → Payload → State o → Option (Deposit o)
  unfolding find_merchant find_pending pending_id raw_to_usdc
  new_deposit now p s = elim (find_merchant p.business_id s.merchants) [
    | none ↦ none
    | some m ↦
        if deposit_exists p.transaction.tx_hash s.deposits
        then none
        else some (record {
          id = s.next_id;
          merchant_id = m.id;
          business_id = p.business_id;
          tx_hash = p.transaction.tx_hash;
          network_id = p.transaction.network_id;
          amount_raw = p.transaction.amount;
          amount_usdc = raw_to_usdc (codes p.transaction.amount);
          sui_address = p.transaction.to_address;
          status = "pending_order_validation";
          pending_order_id =
              pending_id (find_pending p.transaction.to_address now s.pending_orders);
        })
  ]

  -- The row is added, and the wallet is no longer watched.
  unfoldable pub insert_deposit : Faults → Deposit o → State o → State o
  unfolding deactivate
  insert_deposit f d s = record s {
    deposits = s.deposits ++ d ∷ [];
    next_id = suc s.next_id;
    wallets = if f.deactivate_fails then s.wallets else deactivate d.sui_address s.wallets;
  }

  unfoldable pub order_of : Payload → ChainType → Deposit o → OrderMessage o
  order_of p chain d = record {
    order_id = d.id;
    merchant_id = d.merchant_id;
    chain = chain;
    amount_usdc = d.amount_usdc;
    tx_hash = d.tx_hash;
    timestamp = p.transaction.timestamp;
    pending_order_id = p.event_id;
  }

  -- The cache and the order queue, and the status of the response.
  unfoldable pub announce : Faults → OrderMessage o → State o → ℕ × State o
  announce f msg s =
      let cached =
        if f.has_cache && not f.cache_fails
        then record s { cache = (msg.order_id, msg) ∷ s.cache }
        else s in
      if f.publish_fails
      then (500, cached)
      else (200, record cached { orders = cached.orders ++ msg ∷ [] })

  -- The second half of Receive. No row is answered as a merchant that is not found.
  unfoldable pub settle : Faults → ℕ → Payload → ChainType → State o → ℕ × State o
  unfolding new_deposit insert_deposit order_of announce
  settle f now p chain s = if f.insert_fails then (500, s) else elim (new_deposit now p s) [
    | none ↦ (404, s)
    | some d ↦ announce f (order_of p chain d) (insert_deposit f d s)
  ]

  unfoldable pub receive : Faults → ℕ → HttpRequest → State o → ℕ × State o
  unfolding authenticate check_payload settle
  receive f now r s = elim (check_payload f s (authenticate f now r s)) [
    | answer status ↦ (status, s)
    | accept p chain ↦ settle f now p chain s
  ]
