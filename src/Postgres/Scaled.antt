-- ===== src/Postgres/Scaled.antt =====
-- The clock of src/services/storage_postgres.go, which counts microseconds, beside that of
-- src/services/storage_sqlite.go, and the statements on texts that fit their columns.
use bincrypt.Prelude.{ℕ, ◌*◌, ◌≤◌, ◌≡◌, refl, true, false, some, Bytes, arith, length}
use bincrypt.Storage.{SaveArgs, Result, ok, err, StoreError, SavePasteResult, Paste, second}
use bincrypt.Sqlite.{
  Db, PasteRow, HashRow, BannedRow, insert_paste, insert_hash, insert_burned, upsert_banned,
}
use bincrypt.Sqlite.Transaction.{Faults, burn_affected}
use bincrypt.Sqlite.Save.{to_seconds}
use bincrypt.Postgres as Postgres
use bincrypt.Postgres.{microsecond, to_micros, id_width, hash_width, fits, fits_if_any, row_fits}

-- The command tag's number of rows is always there.
abbrev pub tagged : Faults → Faults
tagged fails burn_affected = false
tagged fails c = fails c

-- The instant whose second is the microsecond of `now`.
abbrev pub scaled : ℕ → ℕ
scaled now = to_micros now * second

abbrev pub scaled_args : SaveArgs → SaveArgs
scaled_args a = record a { now = scaled a.now; expiry_seconds = a.expiry_seconds * 1000000 }

-- The answer with the times of the other clock.
abbrev pub unscaled : ℕ → ℕ
unscaled t = to_seconds t * microsecond

abbrev pub unscale_read : Result StoreError (Bytes × Paste) → Result StoreError (Bytes × Paste)
unscale_read (ok (content, paste)) = ok (
  content,
  record paste { expires_at = unscaled paste.expires_at; created_at = unscaled paste.created_at },
)
unscale_read (err e) = err e

-- The same for the answer of SavePaste, and the answer with its times cut to microseconds.
abbrev pub unscale_saved : Result StoreError SavePasteResult → Result StoreError SavePasteResult
unscale_saved (ok r) = ok (record r {
  paste = record (r.paste) {
    expires_at = unscaled r.paste.expires_at;
    created_at = unscaled r.paste.created_at;
  };
})
unscale_saved (err e) = err e

abbrev pub in_micros : ℕ → ℕ
in_micros t = to_micros t * microsecond

abbrev pub cut_saved : Result StoreError SavePasteResult → Result StoreError SavePasteResult
cut_saved (ok r) = ok (record r {
  paste = record (r.paste) {
    expires_at = in_micros r.paste.expires_at;
    created_at = in_micros r.paste.created_at;
  };
})
cut_saved (err e) = err e

-- The statements of both databases are the same on texts that fit.
pub insert_burned-fits :
    (id : Bytes) (db : Db)
    → length id ≤ id_width
    → Postgres.insert_burned id db ≡ insert_burned id db
unfolding Postgres.insert_burned
insert_burned-fits id db h = ground arith

pub upsert_banned-fits :
    (row : BannedRow) (db : Db)
    → length row.hash ≤ hash_width
    → Postgres.upsert_banned row db
      ≡ some (record db { banned_hashes = upsert_banned row db.banned_hashes })
unfolding Postgres.upsert_banned
upsert_banned-fits row db h = ground arith

pub insert_paste-fits :
    (row : PasteRow) (db : Db)
    → row_fits row ≡ true
    → Postgres.insert_paste row db ≡ insert_paste row db
unfolding Postgres.insert_paste
insert_paste-fits row db h = rw h refl

pub insert_hash-fits :
    (row : HashRow) (db : Db)
    → length row.content_hash ≤ hash_width
    → length row.paste_id ≤ id_width
    → Postgres.insert_hash row db ≡ insert_hash row db
unfolding Postgres.insert_hash
insert_hash-fits row db h k = ground arith
