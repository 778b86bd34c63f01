-- ===== src/Postgres/Admin.antt =====
-- MarkBurned, DeletePaste, BanContentHash and BanPlaintextHash of
-- src/services/storage_postgres.go.
use bincrypt.Prelude.{Option, none, some, Bytes, if◌then◌else◌, remove_by}
use bincrypt.Storage.{StoreError, burn_failed, delete_failed, ban_failed}
use bincrypt.Sqlite.{HashType, ciphertext, plaintext, Db, self, delete_paste_row}
use bincrypt.Postgres.{insert_burned, upsert_banned}
use bincrypt.Sqlite.Transaction.{Faults, insert_burn, delete_row, delete_burn, insert_ban}

unfoldable pub mark_burned : Faults → Bytes → Db → Option StoreError × Db
mark_burned fails id db =
    if fails insert_burn
    then (some burn_failed, db)
    else elim (insert_burned id db) [ none ↦ (some burn_failed, db) | some (_, db') ↦ (none, db') ]

-- DELETE FROM burned_pastes WHERE paste_id = $1
abbrev delete_burn_row : Bytes → Db → Db
delete_burn_row id db = record db { burned_pastes = remove_by self id db.burned_pastes }

-- Two statements, with no transaction around them; an error of the second is dropped.
unfoldable pub delete_paste : Faults → Bytes → Db → Option StoreError × Db
delete_paste fails id db =
    if fails delete_row
    then (some delete_failed, db)
    else if fails delete_burn
    then (none, delete_paste_row id db)
    else (none, delete_burn_row id (delete_paste_row id db))

ban_hash : Faults → HashType → Bytes → Bytes → Db → Option StoreError × Db
ban_hash fails type hash reason db =
    if fails insert_ban
    then (some ban_failed, db)
    else elim (upsert_banned (record { hash = hash; hash_type = type; reason = reason }) db) [
      | none ↦ (some ban_failed, db)
      | some db' ↦ (none, db')
    ]

unfoldable pub ban_content_hash : Faults → Bytes → Bytes → Db → Option StoreError × Db
unfolding ban_hash
ban_content_hash fails hash reason db = ban_hash fails ciphertext hash reason db

unfoldable pub ban_plaintext_hash : Faults → Bytes → Bytes → Db → Option StoreError × Db
unfolding ban_hash
ban_plaintext_hash fails hash reason db = ban_hash fails plaintext hash reason db
