-- ===== src/Postgres.antt =====
-- The PostgreSQL backend, src/services/storage_postgres.go. The tables and their keys are those of
-- Sqlite (migrations/001_initial_schema.sql), but an instant in a column of pastes is a number of
-- whole microseconds, and a BOOLEAN column is kept as 0 or 1. A statement fails that writes a text
-- longer than its VARCHAR column; texts are taken to be ASCII and not to end in spaces, which
-- PostgreSQL would count and cut differently. Transactions are serializable: each is one step, or its
-- Commit fails.
pub mod Save
pub mod Get
pub mod Admin
pub mod Backend
pub mod Scaled
pub mod Saved
pub mod Refinement
mod Examples
use bincrypt.Prelude.{
  ℕ, ◌/◌, Bool, true, ◌&&◌, Option, none, some, Bytes, if◌then◌else◌, leb, length,
}
use bincrypt.Sqlite.{PasteRow, HashRow, BannedRow, Db}
use bincrypt.Sqlite as Tables

abbrev pub microsecond : ℕ
microsecond = 1000

-- pgx sends a timestamp in whole microseconds.
abbrev pub to_micros : ℕ → ℕ
to_micros t = t / microsecond

-- The widths of the columns for identifiers and for hashes.
abbrev pub id_width : ℕ
id_width = 43

abbrev pub hash_width : ℕ
hash_width = 64

abbrev pub fits : ℕ → Bytes → Bool
fits width s = leb (length s) width

abbrev pub fits_if_any : ℕ → Option Bytes → Bool
fits_if_any width none = true
fits_if_any width (some s) = fits width s

-- A reference is to the identifier of a row, and fits because that did.
abbrev pub row_fits : PasteRow → Bool
row_fits row =
    fits id_width row.id
    && fits hash_width row.content_hash
    && fits_if_any hash_width row.plaintext_hash

-- INSERT INTO pastes
unfoldable pub insert_paste : PasteRow → Db → Option Db
insert_paste row db = if row_fits row then Tables.insert_paste row db else none

-- INSERT INTO hash_index ... ON CONFLICT DO NOTHING
unfoldable pub insert_hash : HashRow → Db → Option Db
insert_hash row db =
    if fits hash_width row.content_hash && fits id_width row.paste_id
    then Tables.insert_hash row db
    else none

-- INSERT INTO burned_pastes ... ON CONFLICT DO NOTHING
unfoldable pub insert_burned : Bytes → Db → Option (ℕ × Db)
insert_burned id db = if fits id_width id then Tables.insert_burned id db else none

-- INSERT INTO banned_hashes ... ON CONFLICT (hash) DO UPDATE
unfoldable pub upsert_banned : BannedRow → Db → Option Db
upsert_banned row db =
    if fits hash_width row.hash
    then some (record db { banned_hashes = Tables.upsert_banned row db.banned_hashes })
    else none
