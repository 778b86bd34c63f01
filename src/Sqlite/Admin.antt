-- ===== src/Sqlite/Admin.antt =====
-- MarkBurned, DeletePaste, BanContentHash and BanPlaintextHash of
-- src/services/storage_sqlite.go: one statement each.
use bincrypt.Prelude.{Option, none, some, Bytes, if◌then◌else◌}
use bincrypt.Storage.{StoreError, burn_failed, delete_failed, ban_failed}
use bincrypt.Sqlite.{
  HashType, ciphertext, plaintext, Db, insert_burned, delete_paste_row, upsert_banned,
}
use bincrypt.Sqlite.Transaction.{Faults, insert_burn, delete_row, insert_ban}

-- `none` is the nil error.
unfoldable pub mark_burned : Faults → Bytes → Db → Option StoreError × Db
mark_burned fails id db =
    if fails insert_burn
    then (some burn_failed, db)
    else elim (insert_burned id db) [ none ↦ (some burn_failed, db) | some (_, db') ↦ (none, db') ]

unfoldable pub delete_paste : Faults → Bytes → Db → Option StoreError × Db
delete_paste fails id db =
    if fails delete_row then (some delete_failed, db) else (none, delete_paste_row id db)

ban_hash : Faults → HashType → Bytes → Bytes → Db → Option StoreError × Db
ban_hash fails type hash reason db = if fails insert_ban then (some ban_failed, db) else (
  none,
  record db {
    banned_hashes =
        upsert_banned (record { hash = hash; hash_type = type; reason = reason }) db.banned_hashes;
  },
)

unfoldable pub ban_content_hash : Faults → Bytes → Bytes → Db → Option StoreError × Db
unfolding ban_hash
ban_content_hash fails hash reason db = ban_hash fails ciphertext hash reason db

unfoldable pub ban_plaintext_hash : Faults → Bytes → Bytes → Db → Option StoreError × Db
unfolding ban_hash
ban_plaintext_hash fails hash reason db = ban_hash fails plaintext hash reason db
