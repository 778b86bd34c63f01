-- ===== src/Handlers/Create.antt =====
-- CreatePaste of src/handlers_paste.go.
use bincrypt.Prelude.{
  ℕ, Bool, true, false, [], ◌∷◌, Option, none, some, Bytes, ℤ, pos, is_above, pos_part, ltb,
  if◌then◌else◌, is_empty, length,
}
use bincrypt.Base64.{encode, decode}
use bincrypt.Base64.Alphabet.{std_encoding}
use bincrypt.Base64.Identifier.{generate_id}
use bincrypt.Storage.{
  Result, ok, err, StoreError, SavePasteResult, SaveArgs, StorageBackend, Platform,
}
use bincrypt.Validation.{
  CreatePasteRequest, Message, validate_create_paste_request, validate_paste,
  max_ciphertext_size_encrypted, max_ciphertext_size_unencrypted, max_free_tier_expiry_seconds,
}
use bincrypt.Handlers.{
  AuditEvent, AuditReason, World, Failure, Response, simple_error, log_audit, with_store,
  increment_paste_created, created, validation_errors,
}

-- What CreatePaste takes from encoding/json: whether the metadata can be marshalled, and the JSON of
-- a plaintext paste with its content and metadata.
pub record Json : Type 0 where
  pub marshal_metadata : Bytes → Option Bytes
  pub marshal_plaintext : Bytes → Option Bytes → Option Bytes

-- What the server draws on while it serves the request: the clock's reading in SavePaste and what
-- rand.Read gives.
pub record Inputs : Type 0 where
  pub now : ℕ
  pub entropy : Option Bytes

-- The content to store, with its size and whether it is a plaintext paste; or how the handler
-- answers.
pub data Prepared : Type 0 where
  content : Bytes → Bool → ℕ → Prepared
  rejected : AuditReason → Failure → Prepared
  failed : Failure → ℕ → Prepared

prepare_decoded : Bytes → Option Bytes → Prepared
prepare_decoded text none = rejected AuditReason.invalid_base64 Failure.invalid_base64_encoding
prepare_decoded text (some decoded) =
    if ltb max_ciphertext_size_encrypted (length decoded)
    then rejected AuditReason.encrypted_too_large Failure.encrypted_paste_too_large
    else content text false (length decoded)

prepare_json : ℕ → Option Bytes → Prepared
prepare_json size none = failed Failure.failed_to_prepare 500
prepare_json size (some json) = content (encode std_encoding json) true size

bad_metadata : Json → Option Bytes → Bool
bad_metadata j none = false
bad_metadata j (some m) = elim (j.marshal_metadata m) [ none ↦ true | some _ ↦ false ]

unfoldable pub prepare : Json → CreatePasteRequest → Prepared
unfolding prepare_decoded prepare_json bad_metadata
prepare j r =
    if is_empty r.ciphertext
    then (if ltb max_ciphertext_size_unencrypted (length r.plaintext)
        then rejected AuditReason.plaintext_too_large Failure.plaintext_paste_too_large
        else if bad_metadata j r.metadata
        then failed Failure.invalid_metadata 400
        else prepare_json (length r.plaintext) (j.marshal_plaintext r.plaintext r.metadata))
    else prepare_decoded r.ciphertext (decode std_encoding r.ciphertext)

-- The free tier's limit.
unfoldable pub adjust_expiry : ℤ → ℤ
adjust_expiry e =
    if is_above e max_free_tier_expiry_seconds then pos max_free_tier_expiry_seconds else e

module _ {S : Type 0} (p : Platform) (b : StorageBackend S) where
  -- The event for a saved paste, and the answer.
  saved_event : CreatePasteRequest → Bytes → ℕ → SavePasteResult → AuditEvent
  saved_event r id size saved =
      if saved.was_deduplicated
      then AuditEvent.paste_deduplicated id saved.references_id saved.content_hash size
      else AuditEvent.paste_created id size (pos_part (adjust_expiry r.expiry_seconds))
          r.burn_after_read

  answer_saved : SavePasteResult → Option Message → World S → Response × World S
  answer_saved saved none w =
      (record { status = 200; body = created saved.paste.id saved.paste.expires_at }, w)
  answer_saved saved (some _) w = simple_error Failure.internal_validation_error 500 w

  finish_save :
      CreatePasteRequest
      → Bytes
      → ℕ
      → Result StoreError SavePasteResult
      → World S
      → Response × World S
  unfolding saved_event answer_saved
  finish_save r id size (ok saved) w =
      answer_saved saved (validate_paste p saved.paste) (log_audit (saved_event r id size saved) w)
  finish_save r id size (err StoreError.banned_content) w =
      simple_error Failure.content_not_permitted 403
        (log_audit (AuditEvent.invalid_request AuditReason.banned_content) w)
  finish_save r id size (err e) w = simple_error Failure.failed_to_save 500 w

  abbrev pub save_args : CreatePasteRequest → Bytes → Bytes → Bool → ℕ → SaveArgs
  save_args r id text is_plaintext now = record {
    id = id;
    ciphertext = text;
    expiry_seconds = pos_part (adjust_expiry r.expiry_seconds);
    burn_after_read = r.burn_after_read;
    is_plaintext = is_plaintext;
    now = now;
  }

  save_as : CreatePasteRequest → ℕ → Bytes → Bool → ℕ → Option Bytes → World S → Response × World S
  unfolding finish_save
  save_as r now text is_plaintext size none w = simple_error Failure.failed_to_generate_id 500 w
  save_as r now text is_plaintext size (some id) w =
      let (out, store) = b.save_paste (save_args r id text is_plaintext now) w.store in
      finish_save r id size out (with_store store w)

  store_prepared : CreatePasteRequest → Inputs → Prepared → World S → Response × World S
  unfolding save_as
  store_prepared r i (content text is_plaintext size) w =
      save_as r i.now text is_plaintext size (generate_id i.entropy) w
  store_prepared r i (rejected reason f) w =
      simple_error f 400 (log_audit (AuditEvent.invalid_request reason) w)
  store_prepared r i (failed f status) w = simple_error f status w

  -- `none` is a body that does not decode.
  create_decoded : Json → Inputs → Option CreatePasteRequest → World S → Response × World S
  unfolding store_prepared
  create_decoded j i none w =
      simple_error Failure.invalid_json_request 400
        (log_audit (AuditEvent.invalid_request AuditReason.invalid_json) w)
  create_decoded j i (some r) w = elim (validate_create_paste_request r) [
    | [] ↦ store_prepared r i (prepare j r) w
    | e ∷ es ↦ (
      record { status = 400; body = validation_errors (e ∷ es) },
      log_audit (AuditEvent.invalid_request AuditReason.validation_failed) w,
    )
  ]

  unfoldable pub create_paste :
      Json → Inputs → Option CreatePasteRequest → World S → Response × World S
  unfolding create_decoded
  create_paste j i request w = create_decoded j i request (increment_paste_created w)
