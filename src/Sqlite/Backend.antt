-- ===== src/Sqlite/Backend.antt =====
-- The SQLite backend as a StorageBackend, under the faults that one request meets.
use bincrypt.Storage.{Platform, StorageBackend}
use bincrypt.Sqlite.{Db}
use bincrypt.Sqlite.Transaction.{Faults}
use bincrypt.Sqlite.Save.{save_paste}
use bincrypt.Sqlite.Get.{get_paste}
use bincrypt.Sqlite.Admin.{mark_burned, delete_paste, ban_content_hash, ban_plaintext_hash}

abbrev pub sqlite_backend : Platform → Faults → StorageBackend Db
sqlite_backend p fails = record {
  save_paste = save_paste p fails;
  get_paste = get_paste fails;
  mark_burned = mark_burned fails;
  delete_paste = delete_paste fails;
  ban_content_hash = ban_content_hash fails;
  ban_plaintext_hash = ban_plaintext_hash fails;
}
