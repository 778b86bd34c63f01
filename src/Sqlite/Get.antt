-- ===== src/Sqlite/Get.antt =====
-- GetPaste of src/services/storage_sqlite.go.
use bincrypt.Prelude.{
  ℕ, suc, zero, ◌*◌, ◌/◌, Bool, true, false, [], ◌∷◌, Option, none, some, Bytes, if◌then◌else◌, ltb,
}
use bincrypt.Storage.{
  Result, ok, err, StoreError, not_found, burn_check_failed, get_failed, burn_failed,
  content_failed, Paste, burned_paste, second,
}
use bincrypt.Sqlite.{PasteRow, Db, find_paste, is_burned, insert_burned}
use bincrypt.Sqlite.Transaction.{
  Faults, burned_query, paste_query, insert_burn, burn_affected, content_query, TxEnd, commit,
  rollback, run_tx,
}

abbrev pub int_to_bool : ℕ → Bool
int_to_bool zero = false
int_to_bool (suc _) = true

abbrev pub paste_of : PasteRow → Bool → Paste
paste_of row burned = record {
  id = row.id;
  expires_at = row.expires_at * second;
  burn_after_read = int_to_bool row.burn_after_read;
  size_bytes = row.size_bytes;
  created_at = row.created_at * second;
  is_burned = burned;
}

-- `referencesID.Valid && referencesID.String != ""`
abbrev pub content_id : Bytes → Option Bytes → Bytes
content_id id none = id
content_id id (some []) = id
content_id id (some (c ∷ s)) = c ∷ s

abbrev pub content_of : Option PasteRow → Option Bytes
content_of none = none
content_of (some row) = row.content

-- No row and a NULL content are both ErrNotFound.
unfoldable pub read_content : Faults → PasteRow → Bool → Db → TxEnd (Bytes × Paste) × Db
read_content fails row burned db =
    if fails content_query
    then (rollback (err content_failed), db)
    else elim (content_of (find_paste (content_id row.id row.references_id) db)) [
      | none ↦ (rollback (err not_found), db)
      | some content ↦ (commit (content, paste_of row burned), db)
    ]

-- The claim of a burn-after-read paste, by the number of rows that the insertion affects.
unfoldable pub claim : Faults → PasteRow → Db → Option (ℕ × Db) → TxEnd (Bytes × Paste) × Db
unfolding read_content
claim fails row db none = (rollback (err burn_failed), db)
claim fails row db (some (zero, db')) =
    if fails burn_affected
    then (rollback (err burn_failed), db)
    else (rollback (ok ([], burned_paste row.id)), db)
claim fails row db (some (suc n, db')) =
    if fails burn_affected
    then (rollback (err burn_failed), db)
    else read_content fails row true db'

-- The row counts while datetime(expires_at) > datetime('now').
unfoldable pub read_row : Faults → ℕ → Option PasteRow → Db → TxEnd (Bytes × Paste) × Db
unfolding claim read_content
read_row fails now none db = (rollback (err not_found), db)
read_row fails now (some row) db =
    if ltb (now / second) row.expires_at
    then (if int_to_bool row.burn_after_read
        then (if fails insert_burn
            then (rollback (err burn_failed), db)
            else claim fails row db (insert_burned row.id db))
        else read_content fails row false db)
    else (rollback (err not_found), db)

-- The body of the transaction; `now` is the clock of the SQL query.
unfoldable pub get_body : Faults → ℕ → Bytes → Db → TxEnd (Bytes × Paste) × Db
unfolding read_row
get_body fails now id db =
    if fails burned_query
    then (rollback (err burn_check_failed), db)
    else if is_burned id db
    then (rollback (ok ([], burned_paste id)), db)
    else if fails paste_query
    then (rollback (err get_failed), db)
    else read_row fails now (find_paste id db) db

unfoldable pub get_paste : Faults → ℕ → Bytes → Db → Result StoreError (Bytes × Paste) × Db
unfolding get_body run_tx
get_paste fails now id db = run_tx fails (get_body fails now id) db
