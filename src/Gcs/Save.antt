-- ===== src/Gcs/Save.antt =====
-- SavePaste of src/services/storage_gcs.go.
use bincrypt.Prelude.{true, false, [], Option, none, some, Bytes, if◌then◌else◌, is_empty, length}
use bincrypt.Storage.{
  Result, ok, err, StoreError, banned_content, decode_failed, plaintext_ban_check_failed,
  ban_check_failed, existing_check_failed, reference_failed, save_failed, SavePasteResult, SaveArgs,
  Platform,
}
use bincrypt.Sqlite.Save.{plaintext_hash, expires_at, to_seconds, save_result}
use bincrypt.Gcs.{
  Metadata, no_metadata, Bucket, Op, attrs, write, Reply, found, missing, succeeded, Fault, request,
  paste_object_name, hash_index_object_name, banned_hash_object_name,
  banned_plaintext_hash_object_name,
}

-- isHashBanned and isPlaintextHashBanned, and what follows them: `none` lets the paste in.
unfoldable pub ban_error : StoreError → Reply → Option StoreError
ban_error e missing = none
ban_error e (found o) = some banned_content
ban_error e _ = some e

module _ (p : Platform) (fails : Op → Fault) (a : SaveArgs) where
  abbrev pub content_hash : Bytes
  content_hash = p.sha256_hex a.ciphertext

  -- The metadata of a paste; `references` is empty for an original.
  abbrev pub paste_metadata : Bytes → Metadata
  paste_metadata references = record {
    expires_at = some (to_seconds (expires_at p a));
    created_at = some (to_seconds a.now);
    size_bytes = some (length a.ciphertext);
    burn_after_read = a.burn_after_read;
    references = references;
    paste_id = [];
  }

  unfoldable pub created_reference :
      Bytes → Reply × Bucket → Result StoreError SavePasteResult × Bucket
  created_reference target (succeeded, b) = (ok (save_result p a true target), b)
  created_reference target (_, b) = (err reference_failed, b)

  unfoldable pub create_reference_paste :
      Bytes → Bucket → Result StoreError SavePasteResult × Bucket
  unfolding created_reference
  create_reference_paste target b = created_reference target (
      request (fails (write (paste_object_name a.id) false (paste_metadata target) []))
        (write (paste_object_name a.id) false (paste_metadata target) []) b)

  abbrev pub index_op : Op
  index_op =
      write (hash_index_object_name content_hash) false (record no_metadata { paste_id = a.id }) []

  -- An error of createHashIndex is only logged.
  unfoldable pub written : Reply × Bucket → Result StoreError SavePasteResult × Bucket
  written (succeeded, b) = (ok (save_result p a false []), (request (fails index_op) index_op b).1)
  written (_, b) = (err save_failed, b)

  unfoldable pub save_original : Bucket → Result StoreError SavePasteResult × Bucket
  unfolding written
  save_original b = written (
      request (fails (write (paste_object_name a.id) false (paste_metadata []) a.ciphertext))
        (write (paste_object_name a.id) false (paste_metadata []) a.ciphertext) b)

  -- findByContentHash and what follows it.
  unfoldable pub after_find : Reply × Bucket → Result StoreError SavePasteResult × Bucket
  unfolding create_reference_paste save_original
  after_find (missing, b) = save_original b
  after_find (found o, b) =
      if is_empty o.metadata.paste_id
      then save_original b
      else create_reference_paste o.metadata.paste_id b
  after_find (_, b) = (err existing_check_failed, b)

  unfoldable pub save_allowed : Bucket → Result StoreError SavePasteResult × Bucket
  unfolding after_find
  save_allowed b = after_find (
      request (fails (attrs (hash_index_object_name content_hash)))
        (attrs (hash_index_object_name content_hash)) b)

  unfoldable pub or_save : Option StoreError × Bucket → Result StoreError SavePasteResult × Bucket
  unfolding save_allowed
  or_save (some e, b) = (err e, b)
  or_save (none, b) = save_allowed b

  unfoldable pub check_ban : Bytes → StoreError → Bucket → Option StoreError × Bucket
  unfolding ban_error
  check_ban name e b =
      let (r, b') = request (fails (attrs name)) (attrs name) b in (ban_error e r, b')

  unfoldable pub check_hash : Option StoreError × Bucket → Option StoreError × Bucket
  unfolding check_ban
  check_hash (some e, b) = (some e, b)
  check_hash (none, b) = check_ban (banned_hash_object_name content_hash) ban_check_failed b

  unfoldable pub check_bans : Bytes → Bucket → Option StoreError × Bucket
  unfolding check_hash check_ban
  check_bans plain_hash b =
      if is_empty plain_hash
      then check_hash (none, b)
      else check_hash
          (check_ban (banned_plaintext_hash_object_name plain_hash) plaintext_ban_check_failed b)

  -- `none` is a text that does not decode.
  unfoldable pub save_hashed : Option Bytes → Bucket → Result StoreError SavePasteResult × Bucket
  unfolding check_bans or_save
  save_hashed none b = (err decode_failed, b)
  save_hashed (some plain_hash) b = or_save (check_bans plain_hash b)

  unfoldable pub save_paste : Bucket → Result StoreError SavePasteResult × Bucket
  unfolding plaintext_hash save_hashed
  save_paste b = save_hashed (plaintext_hash p a.is_plaintext a.ciphertext) b
