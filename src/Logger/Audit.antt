-- ===== src/Logger/Audit.antt =====
-- The events of src/logger/audit.go.
use bincrypt.Prelude.{
  ℕ, ◌||◌, Bool, false, List, [], ◌∷◌, ◌++◌, Option, none, some, Bytes, codes, ltb, leb, length,
  take, if◌then◌else◌,
}
use mathlib.Core.List.{map}
use bincrypt.Text.{to_lower, contains}
use bincrypt.Webhook.Hex.{encode_hex}
use bincrypt.Logger.{
  Value, text, number, flag, time, settings, Field, merge, set_some, Context, audit_level,
  StructuredLogger, Entry, with_context, entry_of,
}

abbrev pub field : Bytes → Value → Field
field name value = record { name = name; value = value }

unfoldable pub context_fields : Option Context → List Field → List Field
unfolding set_some
context_fields none fields = fields
context_fields (some c) fields =
    set_some (codes "user_agent") c.user_agent
      (set_some (codes "client_ip") c.client_ip (set_some (codes "request_id") c.request_id fields))

-- The fields that LogEvent passes on; `written` is the clock in RFC 3339.
unfoldable pub audit_fields : Bytes → Option Context → Bytes → List Field → List Field
unfolding merge context_fields
audit_fields written ctx event fields = context_fields ctx (
    merge (field (codes "event_type") (text event) ∷ field (codes "timestamp") (text written) ∷ [])
      fields)

-- LogEvent: the entry that is logged, if the logger's level admits it.
unfoldable pub log_event :
    Bytes → ℕ → Bytes → Option Context → Bytes → List Field → StructuredLogger → Option Entry
unfolding audit_fields
log_event written now caller ctx event fields l =
    entry_of now caller audit_level event (audit_fields written ctx event fields)
      (with_context ctx l)

-- truncateSignature
unfoldable pub truncate_signature : Bytes → Bytes
truncate_signature signature =
    if ltb 8 (length signature) then take 8 signature ++ codes "..." else signature

abbrev pub sensitive_keys : List Bytes
sensitive_keys =
    codes "key"
    ∷ codes "secret"
    ∷ codes "password"
    ∷ codes "token"
    ∷ codes "apikey"
    ∷ codes "api_key"
    ∷ codes "private"
    ∷ codes "credential"
    ∷ codes "auth"
    ∷ codes "btcpay_apikey"
    ∷ codes "webhook_secret"
    ∷ []

unfoldable pub contains_some : Bytes → List Bytes → Bool
contains_some s [] = false
contains_some s (word ∷ words) = contains s word || contains_some s words

unfoldable pub is_sensitive_config_key : Bytes → Bool
unfolding contains_some
is_sensitive_config_key key = contains_some (to_lower key) sensitive_keys

abbrev pub redacted : Bytes
redacted = codes "<redacted>"

unfoldable pub sanitize_setting : Bytes × Bytes → Bytes × Bytes
sanitize_setting (key, value) =
    if is_sensitive_config_key key then (key, redacted) else (key, value)

-- The events, with the arguments of the methods that log them.
pub data Event : Type 0 where
  paste_created : Bytes → ℕ → ℕ → Bool → Bytes → Event
  paste_deduplicated : Bytes → Bytes → Bytes → Bytes → ℕ → Event
  hash_banned : Bytes → Bytes → Bytes → ℕ → Event
  banned_content : Bytes → Bytes → ℕ → Event
  paste_viewed : Bytes → Bytes → Bool → Event
  paste_burned : Bytes → Bytes → Event
  rate_limit_hit : Bytes → Bytes → ℕ → Bytes → Event
  invalid_request : Bytes → Bytes → Bytes → Bytes → Event
  csp_violation : List (Bytes × Bytes) → Bytes → Event
  invoice_created : Bytes → Bytes → Bytes → Bytes → Event
  payment_received : Bytes → Bytes → Bytes → Bytes → Event
  webhook_received : Bytes → Bool → Bytes → Bytes → Event
  system_start : Bytes → List (Bytes × Bytes) → Event

unfoldable pub event_type : Event → Bytes
event_type (paste_created id size expiry burn ip) = codes "PASTE_CREATED"
event_type (paste_deduplicated id original hash ip saved) = codes "PASTE_DEDUPLICATED"
event_type (hash_banned hash reason admin at) = codes "HASH_BANNED"
event_type (banned_content hash ip at) = codes "BANNED_CONTENT_ATTEMPT"
event_type (paste_viewed id ip burn) = codes "PASTE_VIEWED"
event_type (paste_burned id ip) = codes "PASTE_BURNED"
event_type (rate_limit_hit ip endpoint limit window) = codes "RATE_LIMIT_HIT"
event_type (invalid_request ip endpoint reason agent) = codes "INVALID_REQUEST"
event_type (csp_violation report ip) = codes "CSP_VIOLATION"
event_type (invoice_created invoice amount currency ip) = codes "INVOICE_CREATED"
event_type (payment_received invoice id amount currency) = codes "PAYMENT_RECEIVED"
event_type (webhook_received kind valid ip signature) =
    if valid then codes "WEBHOOK_RECEIVED" else codes "WEBHOOK_INVALID"
event_type (system_start version config) = codes "SYSTEM_START"

-- contentHash[:16], which panics on a shorter hash.
abbrev pub prefix_field : Bytes → List Field → Option (List Field)
prefix_field hash fields =
    if leb 16 (length hash)
    then some (field (codes "content_hash_prefix") (text (take 16 hash)) ∷ fields)
    else none

-- `sha256` is SHA-256.
module _ (sha256 : Bytes → Bytes) where
  unfoldable pub hash_paste_id : Bytes → Bytes
  hash_paste_id id = encode_hex (take 8 (sha256 id))

  abbrev pub id_field : Bytes → Field
  id_field id = field (codes "paste_id_hash") (text (hash_paste_id id))

  abbrev pub ip_field : Bytes → Field
  ip_field ip = field (codes "client_ip") (text ip)

  -- The fields of each method; an amount is given in the digits in which JSON writes it.
  unfoldable pub event_fields : Event → Option (List Field)
  unfolding truncate_signature sanitize_setting
  event_fields (paste_created id size expiry burn ip) = some (
      id_field id
      ∷ field (codes "size_bytes") (number size)
      ∷ field (codes "expiry_seconds") (number expiry)
      ∷ field (codes "burn_after_read") (flag burn)
      ∷ ip_field ip
      ∷ [])
  event_fields (paste_deduplicated id original hash ip saved) = prefix_field hash (
      id_field id
      ∷ field (codes "references_id_hash") (text (hash_paste_id original))
      ∷ ip_field ip
      ∷ field (codes "saved_bytes") (number saved)
      ∷ field (codes "dedup_efficiency") (text (codes "100%"))
      ∷ [])
  event_fields (hash_banned hash reason admin at) = prefix_field hash (
      field (codes "reason") (text reason)
      ∷ field (codes "admin_id") (text admin)
      ∷ field (codes "timestamp") (time at)
      ∷ [])
  event_fields (banned_content hash ip at) = prefix_field hash (
      ip_field ip
      ∷ field (codes "action") (text (codes "rejected"))
      ∷ field (codes "timestamp") (time at)
      ∷ [])
  event_fields (paste_viewed id ip burn) =
      some (id_field id ∷ ip_field ip ∷ field (codes "burn_after_read") (flag burn) ∷ [])
  event_fields (paste_burned id ip) =
      some
        (id_field id ∷ ip_field ip ∷ field (codes "action") (text (codes "burned_after_read")) ∷ [])
  event_fields (rate_limit_hit ip endpoint limit window) = some (
      ip_field ip
      ∷ field (codes "endpoint") (text endpoint)
      ∷ field (codes "limit") (number limit)
      ∷ field (codes "window") (text window)
      ∷ field (codes "action") (text (codes "blocked"))
      ∷ [])
  event_fields (invalid_request ip endpoint reason agent) = some (
      ip_field ip
      ∷ field (codes "endpoint") (text endpoint)
      ∷ field (codes "reason") (text reason)
      ∷ field (codes "user_agent") (text agent)
      ∷ field (codes "action") (text (codes "rejected"))
      ∷ [])
  event_fields (csp_violation report ip) = some (
      ip_field ip
      ∷ field (codes "violation") (settings report)
      ∷ field (codes "action") (text (codes "reported"))
      ∷ [])
  event_fields (invoice_created invoice amount currency ip) = some (
      field (codes "invoice_id") (text invoice)
      ∷ field (codes "amount") (text amount)
      ∷ field (codes "currency") (text currency)
      ∷ ip_field ip
      ∷ [])
  event_fields (payment_received invoice id amount currency) = some (
      field (codes "invoice_id") (text invoice)
      ∷ id_field id
      ∷ field (codes "amount") (text amount)
      ∷ field (codes "currency") (text currency)
      ∷ field (codes "status") (text (codes "completed"))
      ∷ [])
  event_fields (webhook_received kind valid ip signature) = some (
      field (codes "webhook_type") (text kind)
      ∷ field (codes "signature_valid") (flag valid)
      ∷ ip_field ip
      ∷ field (codes "signature_prefix") (text (truncate_signature signature))
      ∷ field (codes "action") (text (if valid then codes "processed" else codes "rejected"))
      ∷ [])
  event_fields (system_start version config) = some (
      field (codes "version") (text version)
      ∷ field (codes "config") (settings (map sanitize_setting config))
      ∷ [])
