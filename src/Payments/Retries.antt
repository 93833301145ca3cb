-- ===== src/Payments/Retries.antt =====
-- backend/internal/webhook/handler.go: whom it believes, and what a repeated request meets.
use linq_b2b.Prelude.{
  ℕ, ◌≡◌, refl, sym, ap, ◌∙◌, arith, Bool, true, false, not, ◌||◌, [], ◌∷◌, ◌++◌, Option, none,
  some, eq_iff, if◌then◌else◌,
}
use linq_b2b.Texts.{Bytes, codes, bytes_eq, parse_int}
use linq_b2b.Webhooks.{rejects_timestamp, sign_payload, verify_webhook}
use linq_b2b.Webhooks.Signatures.{is_nil}
use linq_b2b.Payments.{Outside, Payload, Deposit, OrderMessage, State}
use linq_b2b.Payments.Chains.{ChainType}
use linq_b2b.Payments.Receive.{
  HttpRequest, Faults, is_empty, find_secret, Authentication, refused, authentic, check_signature,
  check_body, authenticate, deposit_exists, accept, check_payload, new_deposit, insert_deposit,
  order_of, announce, settle, receive,
}
use linq_b2b.Payments.Ledger.{deposit_exists-append}
use linq_b2b.Payments.Receiving.{new_deposit-fresh, settle_row}

abbrev pub is_authentic : Authentication → Bool
is_authentic (refused status) = false
is_authentic (authentic p) = true

bytes_eq-empty : (c : ℕ) (s t : Bytes) → is_empty t ≡ true → bytes_eq (c ∷ s) t ≡ false
bytes_eq-empty c s [] h = refl
bytes_eq-empty c s (d ∷ t) h = absurd (ground arith)

rejects_empty : (now : ℕ) (t : Bytes) → is_empty t ≡ true → rejects_timestamp now t ≡ true
unfolding rejects_timestamp parse_int
rejects_empty now [] h = refl
rejects_empty now (c ∷ t) h = absurd (ground arith)

module _ (o : Outside) where
  check_body_found :
      (f : Faults) (r : HttpRequest) (s : State o) (p : Payload) {secret : Bytes}
      → f.secret_fails ≡ false
      → find_secret p.business_id s.businesses ≡ some secret
      → check_body o f r s (some p) ≡ check_signature o r p (some secret)
  unfolding check_body
  check_body_found f r s p h e = rw (check_body, h, e) refl

  -- For a POST with a readable body of JSON, of a business whose secret is found and not empty,
  -- the webhook handler believes a request exactly when VerifyWebhook accepts its signature and
  -- timestamp.
  pub authenticate_verifies :
      (f : Faults) (now : ℕ) (r : HttpRequest) (s : State o) {p : Payload} {secret : Bytes}
      → r.is_post ≡ true
      → f.read_fails ≡ false
      → f.secret_fails ≡ false
      → o.decode r.body ≡ some p
      → find_secret p.business_id s.businesses ≡ some secret
      → is_empty secret ≡ false
      → is_authentic (authenticate o f now r s)
        ≡ is_nil (verify_webhook o.digest now secret r.body r.signature r.timestamp)
  unfolding authenticate check_signature verify_webhook sign_payload
  authenticate_verifies f now r s {p} {secret} post readable found decoded row filled = ground (
    arith,
    check_body_found f r s p found row,
    ap (check_body o f r s) decoded,
    rejects_empty now r.timestamp,
    bytes_eq-empty b's' (codes "ha256=" ++ o.digest secret r.body) r.signature,
  )

  check_body_businesses :
      (f : Faults) (r : HttpRequest) (s s' : State o) (q : Option Payload)
      → s.businesses ≡ s'.businesses
      → check_body o f r s q ≡ check_body o f r s' q
  unfolding check_body
  check_body_businesses f r s s' none e = refl
  check_body_businesses f r s s' (some p) e =
      ap (λ b. check_signature o r p (if f.secret_fails then none else find_secret p.business_id b))
        e

  -- Authentication reads the businesses only.
  authenticate_businesses :
      (f : Faults) (now : ℕ) (r : HttpRequest) (s s' : State o)
      → s.businesses ≡ s'.businesses
      → authenticate o f now r s ≡ authenticate o f now r s'
  unfolding authenticate
  authenticate_businesses f now r s s' e =
      ap
        (λ a.
          if not r.is_post
          then refused 405
          else if f.read_fails
          then refused 400
          else if is_empty r.signature || is_empty r.timestamp
          then refused 401
          else if rejects_timestamp now r.timestamp
          then refused 401
          else a)
        (check_body_businesses f r s s' (o.decode r.body) e)

  -- What a failed publication leaves.
  announce_fails :
      (f g : Faults) (s : State o) (d : Deposit o) (m : OrderMessage o)
      → f.publish_fails ≡ true
      → let after = announce o f m (insert_deposit o g d s) in
        (after.0 ≡ 500)
        × (after.1.orders ≡ s.orders)
        × (after.1.businesses ≡ s.businesses)
        × (after.1.deposits ≡ s.deposits ++ d ∷ [])
  unfolding announce insert_deposit
  announce_fails f g s d m h = ground (arith, h)

  receive_accepted :
      (f : Faults) (now : ℕ) (r : HttpRequest) (s : State o) {p : Payload} {chain : ChainType}
      → check_payload o f s (authenticate o f now r s) ≡ accept p chain
      → receive o f now r s ≡ settle o f now p chain s
  unfolding receive
  receive_accepted f now r s e = rw (receive, e) refl

  receive_repeated :
      (f : Faults) (now : ℕ) (r : HttpRequest) (s : State o) {p : Payload}
      → authenticate o f now r s ≡ authentic p
      → f.exists_fails ≡ false
      → deposit_exists o p.transaction.tx_hash s.deposits ≡ true
      → receive o f now r s ≡ (200, s)
  unfolding receive check_payload
  receive_repeated f now r s e h known = rw (receive, e, check_payload, h, known) refl

  -- When the order of an accepted request cannot be published, the answer is 500, the deposit is
  -- stored and no order is queued; a later authentic request of the same transaction, whose check
  -- of the deposits works, is answered with 200 and changes nothing, so the order is never queued.
  pub receive_loses_order :
      (f g : Faults) (now later : ℕ) (r again : HttpRequest) (s : State o) {p q : Payload}
      {chain : ChainType} {d : Deposit o}
      → check_payload o f s (authenticate o f now r s) ≡ accept p chain
      → f.insert_fails ≡ false
      → f.publish_fails ≡ true
      → new_deposit o now p s ≡ some d
      → authenticate o g later again s ≡ authentic q
      → q.transaction.tx_hash ≡ p.transaction.tx_hash
      → g.exists_fails ≡ false
      → let first = receive o f now r s in
        (first.0 ≡ 500)
        × (first.1.orders ≡ s.orders)
        × (receive o g later again first.1 ≡ (200, first.1))
  receive_loses_order f g now later r again s {p} {q} {chain} {d} good works fails row believed same
        up =
      let e : receive o f now r s ≡ announce o f (order_of o p chain d) (insert_deposit o f d s) =
        receive_accepted f now r s good ∙ settle_row o f now p chain s works row in
      let after = (receive o f now r s).1 in
      let (code, orders, businesses, deposits) =
        announce_fails f f s d (order_of o p chain d) fails in
      let same_businesses : s.businesses ≡ after.businesses =
        sym (ap (λ x. x.1.businesses) e ∙ businesses) in
      let (new, next, hash) = new_deposit-fresh o now p s row in
      let known : deposit_exists o q.transaction.tx_hash after.deposits ≡ true =
        ap (λ x. deposit_exists o q.transaction.tx_hash x.1.deposits) e
        ∙ ap (deposit_exists o q.transaction.tx_hash) deposits
        ∙ deposit_exists-append o q.transaction.tx_hash s.deposits d
        ∙ ground (arith, (eq_iff d.tx_hash q.transaction.tx_hash).1 (hash ∙ sym same)) in
      (
        ap (λ x. x.0) e ∙ code,
        ap (λ x. x.1.orders) e ∙ orders,
        receive_repeated g later again after
            (sym (authenticate_businesses g later again s after same_businesses) ∙ believed) up
            known,
      )
