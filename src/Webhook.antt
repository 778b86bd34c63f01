-- ===== src/Webhook.antt =====
-- VerifyWebhook of src/services/btcpay.go and PaymentWebhook of src/handlers_invoice.go. HMAC and
-- the decoding of the event's JSON are parameters; encoding/hex is written out.
pub mod Hex
pub mod Verified
mod Examples
use bincrypt.Prelude.{
  ℕ, Bool, true, false, List, [], ◌∷◌, ◌++◌, Option, none, some, Bytes, bytes_eq, codes,
  if◌then◌else◌, is_empty, take, drop, length,
}
use bincrypt.Storage.{Result, ok, err}
use bincrypt.Text.{has_prefix}
use Hex.{decode_hex}

-- The fields of InvoiceWebhookEvent that the handler reads.
pub record InvoiceWebhookEvent : Type 0 where
  pub event_type : Bytes
  pub invoice_id : Bytes
  pub store_id : Bytes

-- hmac.New(sha256.New, secret) over a body, and json.Unmarshal of an event.
pub record WebhookPlatform : Type 0 where
  pub hmac_sha256 : Bytes → Bytes → Bytes
  pub decode_event : Bytes → Option InvoiceWebhookEvent

pub data WebhookError : Type 0 where
  missing_signature unexpected_format invalid_encoding signature_mismatch : WebhookError
  undecodable_payload : WebhookError

abbrev pub signature_prefix : Bytes
signature_prefix = codes "sha256="

module _ (p : WebhookPlatform) (secret : Bytes) where
  decoded_event : Option InvoiceWebhookEvent → Result WebhookError InvoiceWebhookEvent
  decoded_event none = err undecodable_payload
  decoded_event (some event) = ok event

  check_signature : Bytes → Option Bytes → Result WebhookError InvoiceWebhookEvent
  unfolding decoded_event
  check_signature body none = err invalid_encoding
  check_signature body (some signature) =
      if bytes_eq (p.hmac_sha256 secret body) signature
      then decoded_event (p.decode_event body)
      else err signature_mismatch

  -- strings.TrimPrefix drops the prefix that is there.
  unfoldable pub verify_webhook : Bytes → Bytes → Result WebhookError InvoiceWebhookEvent
  unfolding check_signature
  verify_webhook body header =
      if is_empty header
      then err missing_signature
      else if has_prefix header signature_prefix
      then check_signature body (decode_hex (drop 7 header))
      else err unexpected_format

abbrev pub max_webhook_body_bytes : ℕ
max_webhook_body_bytes = 1048576

pub data WebhookReply : Type 0 where
  received unavailable unreadable invalid : WebhookReply

abbrev pub webhook_status : WebhookReply → ℕ
webhook_status received = 200
webhook_status unavailable = 503
webhook_status unreadable = 500
webhook_status invalid = 400

-- LogWebhookReceived: the event's type and whether the signature was good.
pub record WebhookAudit : Type 0 where
  pub event_type : Bytes
  pub is_valid : Bool

-- The second spelling of the header is tried if the first is missing.
abbrev pub signature_of : Bytes → Bytes → Bytes
signature_of first second = if is_empty first then second else first

verified :
    Result WebhookError InvoiceWebhookEvent → List WebhookAudit → WebhookReply × List WebhookAudit
verified (ok event) audit =
    (received, audit ++ record { event_type = event.event_type; is_valid = true } ∷ [])
verified (err e) audit =
    (invalid, audit ++ record { event_type = codes "btcpay"; is_valid = false } ∷ [])

read_body :
    WebhookPlatform
    → Bytes
    → Bytes
    → Option Bytes
    → List WebhookAudit
    → WebhookReply × List WebhookAudit
unfolding verified
read_body p secret signature none audit = (unreadable, audit)
read_body p secret signature (some body) audit =
    verified (verify_webhook p secret (take max_webhook_body_bytes body) signature) audit

-- PaymentWebhook: the client's secret, `none` without an invoice service; the two headers; the body,
-- `none` if it cannot be read; and the audit events.
unfoldable pub payment_webhook :
    WebhookPlatform
    → Option Bytes
    → Bytes
    → Bytes
    → Option Bytes
    → List WebhookAudit
    → WebhookReply × List WebhookAudit
unfolding read_body
payment_webhook p none first second body audit = (unavailable, audit)
payment_webhook p (some secret) first second body audit =
    read_body p secret (signature_of first second) body audit
