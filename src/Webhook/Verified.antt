-- ===== src/Webhook/Verified.antt =====
-- Which webhooks are accepted.
use bincrypt.Prelude.{
  ◌<◌, ◌≡◌, refl, ◌↔◌, ◌⊎◌, true, List, ◌++◌, some, Bytes, All, bytes_eq, bytes_eq_iff,
  bytes_eq_refl, arith, take, drop, Option-cases, inl, inr,
}
use bincrypt.Storage.{Result, ok, err}
use bincrypt.Text.{has_prefix}
use bincrypt.Webhook.Hex.{decode_hex, encode_hex, decode_hex-encode_hex}
use bincrypt.Webhook.{
  InvoiceWebhookEvent, WebhookPlatform, signature_prefix, verify_webhook, max_webhook_body_bytes,
  received, WebhookAudit, signature_of, payment_webhook,
}

module _ (p : WebhookPlatform) (secret body header : Bytes) where
  -- The header is the prefix with the HMAC of the body in hexadecimal, and the body is an event.
  abbrev pub IsSigned : InvoiceWebhookEvent → Type 0
  IsSigned event =
      (has_prefix header signature_prefix ≡ true)
      × (decode_hex (drop 7 header) ≡ some (p.hmac_sha256 secret body))
      × (p.decode_event body ≡ some event)

  verified-IsSigned :
      (event : InvoiceWebhookEvent)
      → verify_webhook p secret body header ≡ ok event
      → IsSigned event
  unfolding verify_webhook
  verified-IsSigned event h = elim (Option-cases (decode_hex (drop 7 header))) [
    | inl bad ↦ absurd (ground arith)
    | inr (signature, good) ↦
        let same : bytes_eq (p.hmac_sha256 secret body) signature ≡ true = ground arith in
        let equal = (bytes_eq_iff (p.hmac_sha256 secret body) signature).0 same in
        (ground arith, rw equal good, ground arith)
  ]

  signed-verified :
      (event : InvoiceWebhookEvent)
      → IsSigned event
      → verify_webhook p secret body header ≡ ok event
  unfolding verify_webhook has_prefix
  signed-verified event s = ground (arith, bytes_eq_refl (p.hmac_sha256 secret body), s.0, s.1, s.2)

-- VerifyWebhook accepts a body with an event exactly if the header is "sha256=" with the HMAC of the
-- body in hexadecimal, and the body decodes to that event.
pub verify_webhook_iff :
    (p : WebhookPlatform) (secret body header : Bytes) (event : InvoiceWebhookEvent)
    → (verify_webhook p secret body header ≡ ok event) ↔ IsSigned p secret body header event
verify_webhook_iff p secret body header event =
    (verified-IsSigned p secret body header event, signed-verified p secret body header event)

Result-cases : {E A : Type 0} (r : Result E A) → ((a : A) × (r ≡ ok a)) ⊎ ((e : E) × (r ≡ err e))
Result-cases (ok a) = inl (a, refl)
Result-cases (err e) = inr (e, refl)

prefixed :
    (s : Bytes)
    → (has_prefix (signature_prefix ++ s) signature_prefix ≡ true)
      × (drop 7 (signature_prefix ++ s) ≡ s)
unfolding has_prefix
prefixed s = (refl, refl)

-- A body that decodes to an event is accepted under the header that a sender makes with the secret,
-- "sha256=" and the HMAC in hexadecimal, if the HMAC is a list of bytes.
pub verify_webhook-encode_hex :
    (p : WebhookPlatform) (secret body : Bytes) (event : InvoiceWebhookEvent)
    → All (λ b. b < 256) (p.hmac_sha256 secret body)
    → p.decode_event body ≡ some event
    → verify_webhook p secret body (signature_prefix ++ encode_hex (p.hmac_sha256 secret body))
      ≡ ok event
verify_webhook-encode_hex p secret body event bytes decodes =
    let (starts, rest) = prefixed (encode_hex (p.hmac_sha256 secret body)) in
    signed-verified p secret body (signature_prefix ++ encode_hex (p.hmac_sha256 secret body)) event
      (starts, rw rest (decode_hex-encode_hex (p.hmac_sha256 secret body) bytes), decodes)

-- With an invoice service and a body that can be read, PaymentWebhook answers 200 exactly if the
-- first 1048576 bytes of the body are an event that is signed by the signature header.
pub payment_webhook-received_iff :
    (p : WebhookPlatform) (secret first second body : Bytes) (audit : List WebhookAudit)
    → ((payment_webhook p (some secret) first second (some body) audit).0 ≡ received) ↔ (
        (event : InvoiceWebhookEvent) × IsSigned p secret
          (take max_webhook_body_bytes body)
          (signature_of first second)
          event)
unfolding payment_webhook
payment_webhook-received_iff p secret first second body audit =
    let read = take max_webhook_body_bytes body in
    let header = signature_of first second in
    (
      λ h. elim (Result-cases (verify_webhook p secret read header)) [
        | inl (event, good) ↦ (event, verified-IsSigned p secret read header event good)
        | inr (e, bad) ↦ absurd (ground arith)
      ],
      λ s. let k = signed-verified p secret read header s.0 s.1 in ground arith,
    )
