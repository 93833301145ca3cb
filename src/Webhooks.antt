-- ===== src/Webhooks.antt =====
-- The delivery of payments to businesses: indexer/internal/b2b/security.go, types.go and handler.go.
-- `digest` is the HMAC-SHA256 in hex of a secret and a body. Times are Unix seconds as int64, in two's
-- complement. A header that is not sent is the empty text.
pub mod Dispatching
pub mod Delivery
pub mod Signatures
use linq_b2b.Prelude.{
  ℕ, zero, suc, ◌+◌, ◌-◌, ◌*◌, ◌^◌, Bool, true, false, not, ◌&&◌, ◌||◌, List, [], ◌∷◌, ◌++◌, Option,
  none, some, ltb, leb, ◌==◌, if◌then◌else◌, sub64,
}
use linq_b2b.Texts.{Bytes, codes, bytes_eq, format_uint, parse_int}

pub record Headers : Type 0 where
  pub signature : Bytes
  pub timestamp : Bytes

pub data VerifyError : Type 0 where
  stale_timestamp signature_mismatch : VerifyError

-- `now - ts > 300` in int64.
unfoldable pub is_stale : ℕ → ℕ → Bool
is_stale now ts = let age = sub64 now ts in ltb age (2 ^ 63) && ltb 300 age

-- Whether the header is no integer or a stale one.
unfoldable pub rejects_timestamp : ℕ → Bytes → Bool
unfolding is_stale
rejects_timestamp now header = elim (parse_int header) [ none ↦ true | some ts ↦ is_stale now ts ]

module _ (digest : Bytes → Bytes → Bytes) where
  unfoldable pub sign_payload : Bytes → Bytes → Bytes
  sign_payload secret body = codes "sha256=" ++ digest secret body

  -- The clock is not before 1970, so FormatInt prints digits only.
  unfoldable pub attach_signature : ℕ → Bytes → Bytes → Headers
  unfolding sign_payload
  attach_signature now secret body = record {
    signature = sign_payload secret body;
    timestamp = format_uint now;
  }

  -- `none` is a nil error.
  unfoldable pub verify_webhook : ℕ → Bytes → Bytes → Bytes → Bytes → Option VerifyError
  unfolding sign_payload
  verify_webhook now secret body signature timestamp =
      if rejects_timestamp now timestamp
      then some stale_timestamp
      else if not (bytes_eq (sign_payload secret body) signature)
      then some signature_mismatch
      else none
