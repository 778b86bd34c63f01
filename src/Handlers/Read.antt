-- ===== src/Handlers/Read.antt =====
-- GetPasteAPI of src/handlers_paste.go.
use bincrypt.Prelude.{ℕ, Option, none, some, Bytes, ltb, if◌then◌else◌}
use bincrypt.Storage.{Result, ok, err, StoreError, Paste, StorageBackend, Platform}
use bincrypt.DeletionQueue.{queue_deletion}
use bincrypt.Validation.{
  Message, validate_base64, validate_paste, validate_paste_id, sanitize_string,
}
use bincrypt.Handlers.{
  AuditEvent, AuditReason, World, Failure, Response, Body, simple_error, log_audit, with_store,
  increment_paste_viewed, increment_paste_burned,
}

-- The clock is read twice: by the query of the store and by the handler.
pub record Clocks : Type 0 where
  pub stored : ℕ
  pub handled : ℕ

module _ {S : Type 0} (p : Platform) (b : StorageBackend S) where
  -- The paste is counted, logged and sent.
  serve_paste : Bytes → Bytes → Paste → World S → Response × World S
  serve_paste id ciphertext paste w = (
    record {
      status = 200;
      body = Body.paste paste.id ciphertext paste.burn_after_read paste.expires_at;
    },
    log_audit (AuditEvent.paste_viewed id paste.burn_after_read) (increment_paste_viewed w),
  )

  -- The burned paste is queued for deletion; an error of the queue is only logged.
  schedule_deletion : Bytes → World S → World S
  schedule_deletion id w =
      let w' = log_audit (AuditEvent.paste_burned id) (increment_paste_burned w) in
      record w' { queue = (queue_deletion id w'.queue).1 }

  check_burned : Bytes → Bytes → Paste → World S → Response × World S
  unfolding serve_paste schedule_deletion
  check_burned id ciphertext paste w =
      if paste.is_burned
      then (if paste.burn_after_read
          then serve_paste id ciphertext paste (schedule_deletion id w)
          else simple_error Failure.paste_burned 410 w)
      else serve_paste id ciphertext paste w

  check_expired : ℕ → Bytes → Bytes → Paste → World S → Response × World S
  unfolding check_burned
  check_expired now id ciphertext paste w =
      if ltb paste.expires_at now
      then simple_error Failure.paste_expired 410 (with_store (b.delete_paste id w.store).1 w)
      else check_burned id ciphertext paste w

  check_metadata : ℕ → Bytes → Bytes → Paste → Option Message → World S → Response × World S
  unfolding check_expired
  check_metadata now id ciphertext paste none w = check_expired now id ciphertext paste w
  check_metadata now id ciphertext paste (some _) w =
      simple_error Failure.paste_metadata_invalid 500 w

  check_content : ℕ → Bytes → Bytes → Paste → Option Message → World S → Response × World S
  unfolding check_metadata
  check_content now id ciphertext paste none w =
      check_metadata now id ciphertext paste (validate_paste p paste) w
  check_content now id ciphertext paste (some _) w = simple_error Failure.data_corrupted 500 w

  answer : ℕ → Bytes → Result StoreError (Bytes × Paste) → World S → Response × World S
  unfolding check_content
  answer now id (err StoreError.not_found) w = simple_error Failure.paste_not_found 404 w
  answer now id (err e) w = simple_error Failure.failed_to_retrieve 500 w
  answer now id (ok (ciphertext, paste)) w =
      check_content now id ciphertext paste (validate_base64 ciphertext) w

  read_valid : Clocks → Bytes → Option Message → World S → Response × World S
  unfolding answer
  read_valid c id none w =
      let (out, store) = b.get_paste c.stored id w.store in
      answer c.handled id out (with_store store w)
  read_valid c id (some m) w =
      simple_error (Failure.invalid_id m) 400
        (log_audit (AuditEvent.invalid_request AuditReason.invalid_paste_id) w)

  -- `id` is the variable of the route, mux.Vars(r)["id"].
  unfoldable pub get_paste_api : Clocks → Bytes → World S → Response × World S
  unfolding read_valid
  get_paste_api c id w = let id' = sanitize_string id in read_valid c id' (validate_paste_id id') w
