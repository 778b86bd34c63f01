-- ===== src/Postgres/Backend.antt =====
-- The PostgreSQL backend as a StorageBackend, under the faults that one request meets, and with no
-- other request between its statements.
use bincrypt.Storage.{Platform, StorageBackend}
use bincrypt.Sqlite.{Db}
use bincrypt.Sqlite.Transaction.{Faults}
use bincrypt.Postgres.Save.{save_paste}
use bincrypt.Postgres.Get.{get_paste}
use bincrypt.Postgres.Admin.{mark_burned, delete_paste, ban_content_hash, ban_plaintext_hash}

abbrev pub postgres_backend : Platform → Faults → StorageBackend Db
postgres_backend p fails = record {
  save_paste = λ a db. save_paste p fails a db db;
  get_paste = get_paste fails;
  mark_burned = mark_burned fails;
  delete_paste = delete_paste fails;
  ban_content_hash = ban_content_hash fails;
  ban_plaintext_hash = ban_plaintext_hash fails;
}
