-- ===== src/Webhook/Examples.antt =====
-- A signed webhook, with a toy HMAC that puts the secret in front of the body.
use bincrypt.Prelude.{◌<◌, ◌≡◌, ◌↔◌, [], ◌++◌, some, All, codes, arith, take}
use bincrypt.Webhook.{
  InvoiceWebhookEvent, WebhookPlatform, max_webhook_body_bytes, received, signature_of,
  payment_webhook,
}
use bincrypt.Webhook.Verified.{IsSigned, payment_webhook-received_iff}

abbrev event : InvoiceWebhookEvent
event = record { event_type = codes "InvoiceSettled"; invoice_id = codes "i"; store_id = codes "s" }

abbrev platform : WebhookPlatform
platform = record { hmac_sha256 = λ secret body. secret ++ body; decode_event = λ body. some event }

small : All (λ b. b < 256) (codes "kb")
small = (omega arith, (omega arith, tt))

payment_webhook-received_iff_example :
    ((payment_webhook platform (some (codes "k")) [] (codes "sha256=6b62") (some (codes "b")) []).0
      ≡ received)
    ↔ ((e : InvoiceWebhookEvent) × IsSigned platform
          (codes "k")
          (take max_webhook_body_bytes (codes "b"))
          (signature_of [] (codes "sha256=6b62"))
          e)
payment_webhook-received_iff_example =
    payment_webhook-received_iff platform (codes "k") [] (codes "sha256=6b62") (codes "b") []
