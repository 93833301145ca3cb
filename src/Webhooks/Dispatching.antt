-- ===== src/Webhooks/Dispatching.antt =====
-- The dispatcher of indexer/internal/b2b/handler.go. An event is taken from the stream, the business of
-- the paid address is looked up, and the webhook is sent until an attempt succeeds; a message is
-- acknowledged or given back. The tables are the lists of rows that are not deleted, and FindOne takes the
-- first match.
use linq_b2b.Prelude.{
  ℕ, zero, suc, Bool, true, false, not, ◌&&◌, List, [], ◌∷◌, Option, none, some, String, str_eq,
  ltb, leb, if◌then◌else◌,
}
use linq_b2b.Chain.{Transaction}
use linq_b2b.Texts.{Bytes}
use linq_b2b.Webhooks.{Headers, attach_signature}

pub record WalletAddress : Type 0 where
  pub address : String
  pub network_type : String
  pub business_id : String

pub record Business : Type 0 where
  pub business_id : String
  pub active : Bool
  pub webhook_url : String
  pub webhook_secret : Bytes

pub data LookupError : Type 0 where
  not_found database_failed : LookupError

pub data Lookup : Type 0 where
  found : Business → Lookup
  lookup_failed : LookupError → Lookup

-- The tables, and whether each of the two queries fails.
pub record Directory : Type 0 where
  pub wallets : List WalletAddress
  pub businesses : List Business
  pub wallet_query_fails : Bool
  pub business_query_fails : Bool

unfoldable pub find_wallet : String → String → List WalletAddress → Option WalletAddress
find_wallet address network_type [] = none
find_wallet address network_type (w ∷ ws) =
    if str_eq w.address address && str_eq w.network_type network_type
    then some w
    else find_wallet address network_type ws

unfoldable pub find_business : String → List Business → Option Business
find_business id [] = none
find_business id (b ∷ bs) = if str_eq b.business_id id then some b else find_business id bs

unfoldable pub business_of : Directory → Option WalletAddress → Lookup
unfolding find_business
business_of d none = lookup_failed not_found
business_of d (some w) =
    if d.business_query_fails
    then lookup_failed database_failed
    else elim (find_business w.business_id d.businesses) [
      | none ↦ lookup_failed not_found
      | some b ↦ found b
    ]

unfoldable pub find_by_address : Directory → String → String → Lookup
unfolding find_wallet business_of
find_by_address d address network_type =
    if d.wallet_query_fails
    then lookup_failed database_failed
    else business_of d (find_wallet address network_type d.wallets)

-- The world that an attempt meets: the clock, and the status of the response, `none` for an error of
-- the HTTP client.
pub record Attempts : Type 0 where
  pub clock : ℕ → ℕ
  pub answer : ℕ → Option ℕ

pub record Request : Type 0 where
  pub url : String
  pub body : Bytes
  pub headers : Headers
  pub sent_at : ℕ

pub data DispatchError : Type 0 where
  bad_message lookup_error marshal_failed bad_url retries_exhausted : DispatchError

unfoldable pub is_success : Option ℕ → Bool
is_success none = false
is_success (some status) = leb 200 status && ltb status 300

abbrev pub backoff_steps : ℕ
backoff_steps = 4

-- The loop's answer to the stream: true for Ack, false for Nak.
unfoldable pub acknowledges : List Request × Option DispatchError → Bool
acknowledges (sent, none) = true
acknowledges (sent, some e) = false

module _ (digest : Bytes → Bytes → Bytes) where
  -- `left` attempts from number `attempt` on: the requests that are sent, and whether one succeeded.
  unfoldable pub send_attempts : Attempts → Business → Bytes → ℕ → ℕ → List Request × Bool
  unfolding is_success
  send_attempts a biz body zero attempt = ([], false)
  send_attempts a biz body (suc left) attempt =
      let now = a.clock attempt in
      let request : Request = record {
        url = biz.webhook_url;
        body = body;
        headers = attach_signature digest now biz.webhook_secret body;
        sent_at = now;
      } in
      let rest = send_attempts a biz body left (suc attempt) in
      if is_success (a.answer attempt) then (request ∷ [], true) else (request ∷ rest.0, rest.1)

  -- `marshal` is json.Marshal of the payload, `valid_url` the parsing of the URL. `none` is a nil
  -- error.
  unfoldable pub dispatch_with_retry :
      (String → Bool) → Attempts → Business → Option Bytes → List Request × Option DispatchError
  unfolding send_attempts
  dispatch_with_retry valid_url a biz none = ([], some marshal_failed)
  dispatch_with_retry valid_url a biz (some body) =
      if not (valid_url biz.webhook_url)
      then ([], some bad_url)
      else let sent = send_attempts a biz body (suc backoff_steps) 0 in
        (sent.0, if sent.1 then none else some retries_exhausted)

  -- The message is the decoded event, `none` when it is no JSON of a transaction.
  unfoldable pub process_message :
      (String → Bool)
      → (Business → Transaction → Option Bytes)
      → Attempts
      → Directory
      → Option Transaction
      → List Request × Option DispatchError
  unfolding dispatch_with_retry find_by_address
  process_message valid_url marshal a d none = ([], some bad_message)
  process_message valid_url marshal a d (some tx) =
      elim (find_by_address d tx.to_address tx.network_id) [
        | lookup_failed not_found ↦ ([], none)
        | lookup_failed database_failed ↦ ([], some lookup_error)
        | found biz ↦
            if not biz.active
            then ([], none)
            else dispatch_with_retry valid_url a biz (marshal biz tx)
      ]
