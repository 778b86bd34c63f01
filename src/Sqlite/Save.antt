-- ===== src/Sqlite/Save.antt =====
-- SavePaste of src/services/storage_sqlite.go.
use bincrypt.Prelude.{
  ℕ, ◌+◌, ◌*◌, ◌/◌, Bool, true, false, [], ◌∷◌, Option, none, some, Bytes, if◌then◌else◌, is_empty,
  length,
}
use bincrypt.Base64.{decode}
use bincrypt.Base64.Alphabet.{std_encoding}
use bincrypt.Storage.{
  Result, err, StoreError, banned_content, decode_failed, plaintext_ban_check_failed,
  ban_check_failed, existing_check_failed, reference_failed, save_failed, index_failed, Paste,
  SavePasteResult, SaveArgs, Platform, second,
}
use bincrypt.Sqlite.{
  PasteRow, HashRow, ciphertext, plaintext, Db, find_hash, is_banned, insert_paste, insert_hash,
}
use bincrypt.Sqlite.Transaction.{
  Faults, ban_plaintext_query, ban_query, existing_query, insert_reference, insert_original,
  insert_index, TxEnd, commit, rollback, run_tx,
}

abbrev pub bool_to_int : Bool → ℕ
bool_to_int true = 1
bool_to_int false = 0

-- sqliteNullString
abbrev pub null_string : Bytes → Option Bytes
null_string [] = none
null_string (c ∷ s) = some (c ∷ s)

-- `none` is the variable left at "".
abbrev pub or_empty : Option Bytes → Bytes
or_empty none = []
or_empty (some s) = s

abbrev pub existing_of : Option HashRow → Bytes
existing_of none = []
existing_of (some row) = row.paste_id

-- time.RFC3339 keeps whole seconds.
abbrev pub to_seconds : ℕ → ℕ
to_seconds t = t / second

module _ (p : Platform) where
  unfoldable pub plaintext_hash_of : Option Bytes → Bytes
  plaintext_hash_of none = []
  plaintext_hash_of (some content) = p.sha256_hex content

  -- The hash of the "content" of a plaintext paste: "" for a ciphertext, and for a text that is no
  -- such JSON; `none` if the text is no base64.
  unfoldable pub plaintext_hash : Bool → Bytes → Option Bytes
  unfolding plaintext_hash_of
  plaintext_hash false text = some []
  plaintext_hash true text = elim (decode std_encoding text) [
    | none ↦ none
    | some decoded ↦ some (plaintext_hash_of (p.json_content decoded))
  ]

  -- isPlaintextHashBanned and isHashBanned, and the returns after them: `none` lets the paste in.
  unfoldable pub check_hash : Faults → Db → Bytes → Option StoreError
  check_hash fails db content_hash =
      if fails ban_query
      then some ban_check_failed
      else if is_banned ciphertext content_hash db.banned_hashes
      then some banned_content
      else none

  unfoldable pub check_banned : Faults → Db → Bytes → Bytes → Option StoreError
  unfolding check_hash
  check_banned fails db plain_hash content_hash =
      if is_empty plain_hash
      then check_hash fails db content_hash
      else if fails ban_plaintext_query
      then some plaintext_ban_check_failed
      else if is_banned plaintext plain_hash db.banned_hashes
      then some banned_content
      else check_hash fails db content_hash

  abbrev pub expires_at : SaveArgs → ℕ
  expires_at a = a.now + a.expiry_seconds * second

  abbrev pub new_paste : SaveArgs → Paste
  new_paste a = record {
    id = a.id;
    expires_at = expires_at a;
    burn_after_read = a.burn_after_read;
    size_bytes = length a.ciphertext;
    created_at = a.now;
    is_burned = false;
  }

  -- The row of a new paste: with its content, or with a reference to the paste that holds it.
  abbrev pub new_row : SaveArgs → Bytes → Option Bytes → Option Bytes → PasteRow
  new_row a plain_hash content references = record {
    id = a.id;
    content = content;
    references_id = references;
    content_hash = p.sha256_hex a.ciphertext;
    plaintext_hash = null_string plain_hash;
    expires_at = to_seconds (expires_at a);
    burn_after_read = bool_to_int a.burn_after_read;
    size_bytes = length a.ciphertext;
    is_plaintext = bool_to_int a.is_plaintext;
    created_at = to_seconds a.now;
  }

  abbrev pub new_hash : SaveArgs → HashRow
  new_hash a = record { content_hash = p.sha256_hex a.ciphertext; paste_id = a.id }

  abbrev pub save_result : SaveArgs → Bool → Bytes → SavePasteResult
  save_result a deduplicated references = record {
    paste = new_paste a;
    was_deduplicated = deduplicated;
    references_id = references;
    content_hash = p.sha256_hex a.ciphertext;
  }

  -- The content is there already under the name `existing`.
  unfoldable pub save_reference :
      Faults → SaveArgs → Bytes → Bytes → Db → TxEnd SavePasteResult × Db
  save_reference fails a plain_hash existing db =
      if fails insert_reference
      then (rollback (err reference_failed), db)
      else elim (insert_paste (new_row a plain_hash none (some existing)) db) [
        | none ↦ (rollback (err reference_failed), db)
        | some db' ↦ (commit (save_result a true existing), db')
      ]

  unfoldable pub save_index : Faults → SaveArgs → Db → TxEnd SavePasteResult × Db
  save_index fails a db =
      if fails insert_index
      then (rollback (err index_failed), db)
      else elim (insert_hash (new_hash a) db) [
        | none ↦ (rollback (err index_failed), db)
        | some db' ↦ (commit (save_result a false []), db')
      ]

  unfoldable pub save_original : Faults → SaveArgs → Bytes → Db → TxEnd SavePasteResult × Db
  unfolding save_index
  save_original fails a plain_hash db =
      if fails insert_original
      then (rollback (err save_failed), db)
      else elim (insert_paste (new_row a plain_hash (some a.ciphertext) none) db) [
        | none ↦ (rollback (err save_failed), db)
        | some db' ↦ save_index fails a db'
      ]

  -- The body of the transaction.
  unfoldable pub save_body : Faults → SaveArgs → Bytes → Db → TxEnd SavePasteResult × Db
  unfolding save_reference save_original
  save_body fails a plain_hash db =
      let existing = existing_of (find_hash (p.sha256_hex a.ciphertext) db) in
      if fails existing_query
      then (rollback (err existing_check_failed), db)
      else if is_empty existing
      then save_original fails a plain_hash db
      else save_reference fails a plain_hash existing db

  unfoldable pub save_checked :
      Faults → SaveArgs → Bytes → Db → Option StoreError → Result StoreError SavePasteResult × Db
  unfolding save_body run_tx
  save_checked fails a plain_hash db (some e) = (err e, db)
  save_checked fails a plain_hash db none = run_tx fails (save_body fails a plain_hash) db

  unfoldable pub save_paste : Faults → SaveArgs → Db → Result StoreError SavePasteResult × Db
  unfolding plaintext_hash check_banned save_checked
  save_paste fails a db = elim (plaintext_hash a.is_plaintext a.ciphertext) [
    | none ↦ (err decode_failed, db)
    | some plain_hash ↦
        save_checked fails a plain_hash db
          (check_banned fails db plain_hash (p.sha256_hex a.ciphertext))
  ]
