-- ===== src/Gcs/Admin.antt =====
-- MarkBurned, DeletePaste, BanContentHash and BanPlaintextHash of src/services/storage_gcs.go.
use bincrypt.Prelude.{false, [], Option, none, some, Bytes}
use bincrypt.Storage.{StoreError, burn_failed, delete_failed, ban_failed}
use bincrypt.Gcs.{
  no_metadata, Bucket, Op, attrs, delete, write, Reply, found, succeeded, missing, Fault, request,
  paste_object_name, burn_object_name, banned_hash_object_name, banned_plaintext_hash_object_name,
}

module _ (fails : Op → Fault) where
  written : StoreError → Reply × Bucket → Option StoreError × Bucket
  written e (succeeded, b) = (none, b)
  written e (_, b) = (some e, b)

  write_empty : StoreError → Bytes → Bucket → Option StoreError × Bucket
  unfolding written
  write_empty e name b =
      written e
        (request (fails (write name false no_metadata [])) (write name false no_metadata []) b)

  marked : Bytes → Reply × Bucket → Option StoreError × Bucket
  unfolding write_empty
  marked id (found marker, b) = (none, b)
  marked id (_, b) = write_empty burn_failed (burn_object_name id) b

  unfoldable pub mark_burned : Bytes → Bucket → Option StoreError × Bucket
  unfolding marked
  mark_burned id b =
      marked id (request (fails (attrs (burn_object_name id))) (attrs (burn_object_name id)) b)

  -- An error of the second Delete is dropped.
  unfoldable pub delete_marker : Bytes → Bucket → Option StoreError × Bucket
  delete_marker id b =
      (none, (request (fails (delete (burn_object_name id))) (delete (burn_object_name id)) b).1)

  unfoldable pub deleted : Bytes → Reply × Bucket → Option StoreError × Bucket
  unfolding delete_marker
  deleted id (succeeded, b) = delete_marker id b
  deleted id (missing, b) = delete_marker id b
  deleted id (_, b) = (some delete_failed, b)

  unfoldable pub delete_paste : Bytes → Bucket → Option StoreError × Bucket
  unfolding deleted
  delete_paste id b =
      deleted id (request (fails (delete (paste_object_name id))) (delete (paste_object_name id)) b)

  unfoldable pub ban_content_hash : Bytes → Bytes → Bucket → Option StoreError × Bucket
  unfolding write_empty
  ban_content_hash hash reason b = write_empty ban_failed (banned_hash_object_name hash) b

  unfoldable pub ban_plaintext_hash : Bytes → Bytes → Bucket → Option StoreError × Bucket
  unfolding write_empty
  ban_plaintext_hash hash reason b =
      write_empty ban_failed (banned_plaintext_hash_object_name hash) b
