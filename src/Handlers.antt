-- ===== src/Handlers.antt =====
-- The paste handlers of src/handlers_paste.go. A handler takes the state of the server that it
-- changes and returns the response with the new state. Log lines are left out; audit events and
-- counters are kept.
pub mod Create
pub mod Read
pub mod Stored
pub mod Served
pub mod Delivered
mod Examples
use bincrypt.Prelude.{ℕ, ◌+◌, Bool, List, [], ◌∷◌, ◌++◌, Option, Bytes}
use bincrypt.Storage.{Paste}
use bincrypt.DeletionQueue.{DeletionQueue}
use bincrypt.Validation.{Message, ValidationError}

-- The counters of MetricsCollector (src/logger/monitor.go) that the handlers use.
pub record Metrics : Type 0 where
  pub pastes_created : ℕ
  pub pastes_viewed : ℕ
  pub pastes_burned : ℕ

-- The events of src/logger/audit.go that the handlers log, without the client's address and agent.
pub data AuditReason : Type 0 where
  invalid_json validation_failed invalid_base64 encrypted_too_large plaintext_too_large :
      AuditReason
  banned_content invalid_paste_id : AuditReason

pub data AuditEvent : Type 0 where
  invalid_request : AuditReason → AuditEvent
  paste_created : Bytes → ℕ → ℕ → Bool → AuditEvent
  paste_deduplicated : Bytes → Bytes → Bytes → ℕ → AuditEvent
  paste_viewed : Bytes → Bool → AuditEvent
  paste_burned : Bytes → AuditEvent

-- What the handlers change: the store, the counters, the deletion queue and the audit log.
pub record World (S : Type 0) : Type 0 where
  pub store : S
  pub metrics : Metrics
  pub queue : DeletionQueue
  pub audit : List AuditEvent

-- The messages of WriteSimpleError.
pub data Failure : Type 0 where
  invalid_json_request invalid_base64_encoding encrypted_paste_too_large : Failure
  plaintext_paste_too_large invalid_metadata failed_to_prepare failed_to_generate_id : Failure
  content_not_permitted failed_to_save internal_validation_error : Failure
  invalid_id : Message → Failure
  paste_not_found failed_to_retrieve data_corrupted paste_metadata_invalid paste_expired : Failure
  paste_burned : Failure

pub data Body : Type 0 where
  failure : Failure → Body
  validation_errors : List ValidationError → Body
  created : Bytes → ℕ → Body
  paste : Bytes → Bytes → Bool → ℕ → Body

-- Status code and body; `created` and `paste` are sent with the implicit status 200.
pub record Response : Type 0 where
  pub status : ℕ
  pub body : Body

-- WriteSimpleError
abbrev pub simple_error : {S : Type 0} → Failure → ℕ → World S → Response × World S
simple_error f status w = (record { status = status; body = failure f }, w)

abbrev pub log_audit : {S : Type 0} → AuditEvent → World S → World S
log_audit e w = record w { audit = w.audit ++ e ∷ [] }

abbrev pub with_store : {S : Type 0} → S → World S → World S
with_store s w = record w { store = s }

abbrev pub increment_paste_created : {S : Type 0} → World S → World S
increment_paste_created w = record w {
  metrics = record (w.metrics) { pastes_created = w.metrics.pastes_created + 1 };
}

abbrev pub increment_paste_viewed : {S : Type 0} → World S → World S
increment_paste_viewed w = record w {
  metrics = record (w.metrics) { pastes_viewed = w.metrics.pastes_viewed + 1 };
}

abbrev pub increment_paste_burned : {S : Type 0} → World S → World S
increment_paste_burned w = record w {
  metrics = record (w.metrics) { pastes_burned = w.metrics.pastes_burned + 1 };
}
