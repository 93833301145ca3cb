-- ===== src/Webhooks/Delivery.antt =====
-- When the dispatcher of indexer/internal/b2b/handler.go acknowledges an event.
use linq_b2b.Prelude.{
  ℕ, zero, suc, ◌≤◌, ◌≡◌, refl, arith, inl, inr, Bool, true, false, not, ◌&&◌, ◌||◌, Option, none,
  some, String, Bool-cases, length,
}
use linq_b2b.Chain.{Transaction}
use linq_b2b.Texts.{Bytes}
use linq_b2b.Webhooks.Dispatching.{
  Business, Directory, Lookup, found, lookup_failed, not_found, database_failed, find_by_address,
  Attempts, is_success, send_attempts, dispatch_with_retry, process_message, acknowledges,
}

-- One of the `left` attempts from number `attempt` on is answered with a status of 200 to 299.
unfoldable pub any_success : Attempts → ℕ → ℕ → Bool
any_success a zero attempt = false
any_success a (suc left) attempt = is_success (a.answer attempt) || any_success a left (suc attempt)

-- What is wanted of an event whose business is known.
unfoldable pub deliverable : (String → Bool) → Attempts → Business → Option Bytes → Bool
deliverable valid_url a biz none = false
deliverable valid_url a biz (some body) = valid_url biz.webhook_url && any_success a 5 0

-- Which lookups end the work on an event.
unfoldable pub settled :
    (String → Bool)
    → (Business → Transaction → Option Bytes)
    → Attempts
    → Transaction
    → Lookup
    → Bool
settled valid_url marshal a tx (lookup_failed not_found) = true
settled valid_url marshal a tx (lookup_failed database_failed) = false
settled valid_url marshal a tx (found biz) =
    not biz.active || deliverable valid_url a biz (marshal biz tx)

module _ (digest : Bytes → Bytes → Bytes) where
  send_attempts_lem :
      (a : Attempts) (biz : Business) (body : Bytes) (left attempt : ℕ)
      → let sent = send_attempts digest a biz body left attempt in
        (sent.1 ≡ any_success a left attempt) × (length sent.0 ≤ left)
  unfolding send_attempts any_success
  send_attempts_lem a biz body zero attempt = (refl, omega arith)
  send_attempts_lem a biz body (suc left) attempt =
      let (e, h) = send_attempts_lem a biz body left (suc attempt) in
      elim (Bool-cases (is_success (a.answer attempt))) [
        | inl good ↦ rw good (refl, omega arith)
        | inr bad ↦ rw bad (e, omega arith)
      ]

  dispatch_with_retry_lem :
      (valid_url : String → Bool) (a : Attempts) (biz : Business) (body : Option Bytes)
      → let sent = dispatch_with_retry digest valid_url a biz body in
        (acknowledges sent ≡ deliverable valid_url a biz body) × (length sent.0 ≤ 5)
  unfolding dispatch_with_retry deliverable acknowledges
  dispatch_with_retry_lem valid_url a biz none = (refl, omega arith)
  dispatch_with_retry_lem valid_url a biz (some body) =
      ground (arith, send_attempts_lem a biz body 5 0)

  -- A decoded event is acknowledged exactly when its address or business is not found, or its
  -- business is not active, or its payload can be marshalled, its URL is valid and one of five
  -- attempts is answered with a status of 200 to 299; a failed lookup or no such attempt gives it
  -- back. At most five requests are sent.
  pub process_message_acks :
      (valid_url : String → Bool) (marshal : Business → Transaction → Option Bytes) (a : Attempts)
      (d : Directory) (tx : Transaction)
      → let sent = process_message digest valid_url marshal a d (some tx) in
        (acknowledges sent
          ≡ settled valid_url marshal a tx (find_by_address d tx.to_address tx.network_id))
        × (length sent.0 ≤ 5)
  unfolding process_message settled acknowledges
  process_message_acks valid_url marshal a d tx =
      go (find_by_address d tx.to_address tx.network_id) refl
    where
      Answered : Lookup → Type 0
      Answered l =
          let sent = process_message digest valid_url marshal a d (some tx) in
          (acknowledges sent ≡ settled valid_url marshal a tx l) × (length sent.0 ≤ 5)

      go : (l : Lookup) → find_by_address d tx.to_address tx.network_id ≡ l → Answered l
      go (lookup_failed not_found) e = rw (process_message, e) (refl, omega arith)
      go (lookup_failed database_failed) e = rw (process_message, e) (refl, omega arith)
      go (found biz) e =
          rw (process_message, e)
            (ground (arith, dispatch_with_retry_lem valid_url a biz (marshal biz tx)))
