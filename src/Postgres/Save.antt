-- ===== src/Postgres/Save.antt =====
-- SavePaste of src/services/storage_postgres.go.
use bincrypt.Prelude.{true, false, [], Option, none, some, Bytes, if◌then◌else◌, is_empty, length}
use bincrypt.Storage.{
  Result, err, StoreError, decode_failed, existing_check_failed, reference_failed, save_failed,
  index_failed, SavePasteResult, SaveArgs, Platform,
}
use bincrypt.Sqlite.{PasteRow, Db, find_hash}
use bincrypt.Sqlite.Transaction.{
  Faults, existing_query, insert_reference, insert_original, insert_index, TxEnd, commit, rollback,
  run_tx,
}
use bincrypt.Sqlite.Save.{
  plaintext_hash, check_banned, expires_at, null_string, bool_to_int, new_hash, save_result,
  existing_of,
}
use bincrypt.Postgres.{to_micros, insert_paste, insert_hash}

module _ (p : Platform) where
  abbrev pub new_row : SaveArgs → Bytes → Option Bytes → Option Bytes → PasteRow
  new_row a plain_hash content references = record {
    id = a.id;
    content = content;
    references_id = references;
    content_hash = p.sha256_hex a.ciphertext;
    plaintext_hash = null_string plain_hash;
    expires_at = to_micros (expires_at p a);
    burn_after_read = bool_to_int a.burn_after_read;
    size_bytes = length a.ciphertext;
    is_plaintext = bool_to_int a.is_plaintext;
    created_at = to_micros a.now;
  }

  unfoldable pub save_reference :
      Faults → SaveArgs → Bytes → Bytes → Db → TxEnd SavePasteResult × Db
  save_reference fails a plain_hash existing db =
      if fails insert_reference
      then (rollback (err reference_failed), db)
      else elim (insert_paste (new_row a plain_hash none (some existing)) db) [
        | none ↦ (rollback (err reference_failed), db)
        | some db' ↦ (commit (save_result p a true existing), db')
      ]

  unfoldable pub save_index : Faults → SaveArgs → Db → TxEnd SavePasteResult × Db
  save_index fails a db =
      if fails insert_index
      then (rollback (err index_failed), db)
      else elim (insert_hash (new_hash p a) db) [
        | none ↦ (rollback (err index_failed), db)
        | some db' ↦ (commit (save_result p a false []), db')
      ]

  unfoldable pub save_original : Faults → SaveArgs → Bytes → Db → TxEnd SavePasteResult × Db
  unfolding save_index
  save_original fails a plain_hash db =
      if fails insert_original
      then (rollback (err save_failed), db)
      else elim (insert_paste (new_row a plain_hash (some a.ciphertext) none) db) [
        | none ↦ (rollback (err save_failed), db)
        | some db' ↦ save_index fails a db'
      ]

  -- The body of the transaction.
  unfoldable pub save_body : Faults → SaveArgs → Bytes → Db → TxEnd SavePasteResult × Db
  unfolding save_reference save_original
  save_body fails a plain_hash db =
      let existing = existing_of (find_hash (p.sha256_hex a.ciphertext) db) in
      if fails existing_query
      then (rollback (err existing_check_failed), db)
      else if is_empty existing
      then save_original fails a plain_hash db
      else save_reference fails a plain_hash existing db

  unfoldable pub save_checked :
      Faults → SaveArgs → Bytes → Db → Option StoreError → Result StoreError SavePasteResult × Db
  unfolding save_body run_tx
  save_checked fails a plain_hash db (some e) = (err e, db)
  save_checked fails a plain_hash db none = run_tx fails (save_body fails a plain_hash) db

  -- The bans are read before the transaction begins, over the pool: other requests may run between,
  -- so that they read `before`, and the transaction runs on `db`.
  unfoldable pub save_paste : Faults → SaveArgs → Db → Db → Result StoreError SavePasteResult × Db
  unfolding plaintext_hash check_banned save_checked
  save_paste fails a before db = elim (plaintext_hash p a.is_plaintext a.ciphertext) [
    | none ↦ (err decode_failed, db)
    | some plain_hash ↦
        save_checked fails a plain_hash db
          (check_banned p fails before plain_hash (p.sha256_hex a.ciphertext))
  ]
