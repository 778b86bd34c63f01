-- ===== src/Postgres/Refinement.antt =====
-- The PostgreSQL backend of src/services/storage_postgres.go is the SQLite backend of
-- src/services/storage_sqlite.go with a clock that counts microseconds for seconds.
use bincrypt.Prelude.{
  ℕ, ◌≤◌, ◌≡◌, refl, List, [], ◌∷◌, some, Bytes, arith, remove_by, length, find_by_key,
  Option-cases, inl, inr,
}
use bincrypt.Storage.{SaveArgs, Platform}
use bincrypt.Sqlite.{
  Db, self, PasteRow, ciphertext, plaintext, find_paste, row_id, insert_burned, delete_paste_row,
}
use bincrypt.Sqlite.Transaction.{Faults}
use bincrypt.Sqlite.Get as Sqlite_get
use bincrypt.Sqlite.Admin as Sqlite_admin
use bincrypt.Sqlite.Backend.{sqlite_backend}
use bincrypt.Postgres.Backend.{postgres_backend}
use bincrypt.Postgres as Postgres
use bincrypt.Postgres.{microsecond, to_micros, id_width, hash_width, fits, fits_if_any, row_fits}
use bincrypt.Postgres.Get.{get_paste}
use bincrypt.Postgres.Admin.{mark_burned, delete_paste, ban_content_hash, ban_plaintext_hash}
use bincrypt.Postgres.Scaled.{
  tagged, scaled, scaled_args, unscale_read, unscale_saved, cut_saved, insert_burned-fits,
  upsert_banned-fits,
}
use bincrypt.Postgres.Saved.{save_paste-scaled}

find_paste-id : (id : Bytes) (db : Db) (row : PasteRow) → find_paste id db ≡ some row → row.id ≡ id
find_paste-id id db row e = find_by_key row_id id db.pastes row e

get_paste-scaled :
    (fails : Faults) (now : ℕ) (id : Bytes) (db : Db)
    → length id ≤ id_width
    → get_paste fails now id db ≡ (
      unscale_read (Sqlite_get.get_paste (tagged fails) (scaled now) id db).0,
      (Sqlite_get.get_paste (tagged fails) (scaled now) id db).1,
    )
unfolding get_paste Sqlite_get.get_paste insert_burned
get_paste-scaled fails now id db h = elim (Option-cases (find_paste id db)) [
  | inl missing ↦ rw missing (ground arith)
  | inr (row, found) ↦
      let same = find_paste-id id db row found in
      let claimed : Postgres.insert_burned row.id db ≡ insert_burned row.id db =
        insert_burned-fits row.id db (rw same h) in
      rw (found, claimed) (ground arith)
]

remove_by-twice :
    (id : Bytes) (ids : List Bytes)
    → remove_by self id (remove_by self id ids) ≡ remove_by self id ids
unfolding remove_by
remove_by-twice id [] = refl
remove_by-twice id (x ∷ ids) = ground (arith, remove_by-twice id ids)

-- ON DELETE CASCADE leaves nothing for the second statement.
delete_paste-same :
    (fails : Faults) (id : Bytes) (db : Db)
    → delete_paste fails id db ≡ Sqlite_admin.delete_paste (tagged fails) id db
unfolding delete_paste Sqlite_admin.delete_paste delete_paste_row
delete_paste-same fails id db = ground (arith, remove_by-twice id db.burned_pastes)

mark_burned-same :
    (fails : Faults) (id : Bytes) (db : Db)
    → length id ≤ id_width
    → mark_burned fails id db ≡ Sqlite_admin.mark_burned (tagged fails) id db
unfolding mark_burned Sqlite_admin.mark_burned
mark_burned-same fails id db h = ground (arith, insert_burned-fits id db h)

ban_hash-same :
    (fails : Faults) (hash reason : Bytes) (db : Db)
    → length hash ≤ hash_width
    → (ban_content_hash fails hash reason db
        ≡ Sqlite_admin.ban_content_hash (tagged fails) hash reason db)
      × (ban_plaintext_hash fails hash reason db
          ≡ Sqlite_admin.ban_plaintext_hash (tagged fails) hash reason db)
unfolding ban_content_hash ban_plaintext_hash Sqlite_admin.ban_content_hash
    Sqlite_admin.ban_plaintext_hash
ban_hash-same fails hash reason db h = (
  ground (
    arith,
    upsert_banned-fits (record { hash = hash; hash_type = ciphertext; reason = reason }) db h,
  ),
  ground (
    arith,
    upsert_banned-fits (record { hash = hash; hash_type = plaintext; reason = reason }) db h,
  ),
)

-- What every operation of the PostgreSQL backend is, in terms of the SQLite backend.
abbrev pub IsRescaled : Platform → Faults → SaveArgs → ℕ → Bytes → Bytes → Bytes → Db → Type 0
IsRescaled p fails a now id hash reason db =
    let post = postgres_backend p fails in
    let lite = sqlite_backend p (tagged fails) in
    (cut_saved (post.save_paste a db).0 ≡ unscale_saved (lite.save_paste (scaled_args a) db).0)
    × ((post.save_paste a db).1 ≡ (lite.save_paste (scaled_args a) db).1)
    × (post.get_paste now id db ≡ (
      unscale_read (lite.get_paste (scaled now) id db).0,
      (lite.get_paste (scaled now) id db).1,
    ))
    × (post.mark_burned id db ≡ lite.mark_burned id db)
    × (post.delete_paste id db ≡ lite.delete_paste id db)
    × (post.ban_content_hash hash reason db ≡ lite.ban_content_hash hash reason db)
    × (post.ban_plaintext_hash hash reason db ≡ lite.ban_plaintext_hash hash reason db)

-- With no other request between its statements, every operation of the PostgreSQL backend, on every
-- database and whatever calls fail, is that of the SQLite backend with a clock whose seconds are
-- microseconds: it leaves the same tables, and it gives the same answer with its times scaled back,
-- which for SavePaste are compared in whole microseconds; if the identifiers have at most 43
-- bytes and the hashes that are banned or computed at most 64, the widths of PostgreSQL's columns.
pub postgres_backend-IsRescaled :
    (p : Platform) (fails : Faults) (a : SaveArgs) (now : ℕ) (id hash reason : Bytes) (db : Db)
    → ((s : Bytes) → length (p.sha256_hex s) ≤ hash_width)
    → length a.id ≤ id_width
    → length id ≤ id_width
    → length hash ≤ hash_width
    → IsRescaled p fails a now id hash reason db
postgres_backend-IsRescaled p fails a now id hash reason db short saved named banned =
    let (answer, tables) = save_paste-scaled p fails a db short saved in
    let (content, plain) = ban_hash-same fails hash reason db banned in
    (
      answer,
      tables,
      get_paste-scaled fails now id db named,
      mark_burned-same fails id db named,
      delete_paste-same fails id db,
      content,
      plain,
    )
