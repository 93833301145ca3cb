-- ===== src/Webhooks/Signatures.antt =====
-- The webhooks of indexer/internal/b2b/handler.go and the check of indexer/internal/b2b/security.go.
use linq_b2b.Prelude.{
  ℕ, zero, suc, ◌+◌, ◌^◌, ◌≤◌, ◌<◌, ◌≡◌, refl, ap, arith, inl, inr, Bool, true, false, not, ◌&&◌,
  ◌||◌, [], ◌∷◌, Option, none, some, String, Bool-cases, leb, ltb, ◌==◌, All, sub64_exact,
}
use linq_b2b.Texts.{Bytes, bytes_eq, format_uint, parse_uint, parse_magnitude, parse_int}
use linq_b2b.Texts.Decimals.{starts, parse_uint-format_uint, starts-format_uint}
use linq_b2b.Webhooks.{
  VerifyError, is_stale, rejects_timestamp, sign_payload, attach_signature, verify_webhook,
}
use linq_b2b.Webhooks.Dispatching.{
  Business, Attempts, Request, is_success, send_attempts, dispatch_with_retry,
}

pub bytes_eq_refl : (s : Bytes) → bytes_eq s s ≡ true
bytes_eq_refl [] = refl
bytes_eq_refl (c ∷ s) = ground (arith, bytes_eq_refl s)

parse_int-digits :
    (s : Bytes) {n : ℕ}
    → starts s ≡ true
    → parse_uint s ≡ some n
    → n < 2 ^ 63
    → parse_int s ≡ some n
unfolding parse_int parse_magnitude starts
parse_int-digits [] h e fits = absurd (ground arith)
parse_int-digits (c ∷ s) {n} h e fits =
    let minus : (c == b'-') ≡ false = ground arith in
    let plus : (c == b'+') ≡ false = ground arith in
    let small : ltb n (2 ^ 63) ≡ true = ground arith in rw (minus, plus, e, small) refl

parse_int-format_uint : (n : ℕ) → n < 2 ^ 63 → parse_int (format_uint n) ≡ some n
parse_int-format_uint n h =
    parse_int-digits (format_uint n) (starts-format_uint n) (parse_uint-format_uint n (omega arith))
      h

accepts_timestamp :
    (now sent : ℕ)
    → sent ≤ now
    → now ≤ sent + 300
    → now < 2 ^ 63
    → rejects_timestamp now (format_uint sent) ≡ false
unfolding rejects_timestamp is_stale
accepts_timestamp now sent h k fits =
    rw
      (
        rejects_timestamp,
        parse_int-format_uint sent (omega arith),
        is_stale,
        sub64_exact now sent h (omega arith),
      )
      (ground arith)

abbrev pub is_nil : Option VerifyError → Bool
is_nil none = true
is_nil (some e) = false

module _ (digest : Bytes → Bytes → Bytes) where
  verify_webhook-attach_signature :
      (now sent : ℕ) (secret body : Bytes)
      → sent ≤ now
      → now ≤ sent + 300
      → now < 2 ^ 63
      → let headers = attach_signature digest sent secret body in
        verify_webhook digest now secret body headers.signature headers.timestamp ≡ none
  unfolding verify_webhook attach_signature
  verify_webhook-attach_signature now sent secret body h k fits =
      rw (accepts_timestamp now sent h k fits, bytes_eq_refl (sign_payload digest secret body)) refl

  -- Whether the receiver takes the request at the time `now`.
  abbrev pub takes : ℕ → Bytes → Request → Bool
  takes now secret r =
      is_nil (verify_webhook digest now secret r.body r.headers.signature r.headers.timestamp)

  -- The request is taken for 300 seconds after it was sent.
  abbrev pub IsTaken : ℕ → Bytes → Request → Type 0
  IsTaken now secret r =
      (not (leb r.sent_at now && leb now (r.sent_at + 300)) || takes now secret r) ≡ true

  send_attempts-IsTaken :
      (now : ℕ) (a : Attempts) (biz : Business) (body : Bytes) (left attempt : ℕ)
      → now < 2 ^ 63
      → All (IsTaken now biz.webhook_secret) (send_attempts digest a biz body left attempt).0
  unfolding send_attempts
  send_attempts-IsTaken now a biz body zero attempt fits = tt
  send_attempts-IsTaken now a biz body (suc left) attempt fits =
      let sent = a.clock attempt in
      let rest = send_attempts-IsTaken now a biz body left (suc attempt) fits in
      let request : Request = record {
        url = biz.webhook_url;
        body = body;
        headers = attach_signature digest sent biz.webhook_secret body;
        sent_at = sent;
      } in
      let taken : IsTaken now biz.webhook_secret request =
        elim (Bool-cases (leb sent now && leb now (sent + 300))) [
          | inl fresh ↦ ground (
            arith,
            ap is_nil (
                verify_webhook-attach_signature now sent biz.webhook_secret body (ground arith)
                  (ground arith) fits),
          )
          | inr stale ↦ ground arith
        ] in
      elim (Bool-cases (is_success (a.answer attempt))) [
        | inl good ↦ rw good (taken, tt)
        | inr bad ↦ rw bad (taken, rest)
      ]

  -- Every request that the dispatcher sends is accepted by VerifyWebhook with the secret of the
  -- business, from when it is sent until 300 seconds later, as long as the time fits in an int64.
  pub dispatch_with_retry-IsTaken :
      (valid_url : String → Bool) (now : ℕ) (a : Attempts) (biz : Business) (body : Option Bytes)
      → now < 2 ^ 63
      → All (IsTaken now biz.webhook_secret) (dispatch_with_retry digest valid_url a biz body).0
  unfolding dispatch_with_retry
  dispatch_with_retry-IsTaken valid_url now a biz none fits = tt
  dispatch_with_retry-IsTaken valid_url now a biz (some body) fits =
      elim (Bool-cases (valid_url biz.webhook_url)) [
        | inl good ↦ rw good (send_attempts-IsTaken now a biz body 5 0 fits)
        | inr bad ↦ rw bad tt
      ]
