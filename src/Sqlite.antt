-- ===== src/Sqlite.antt =====
-- The tables of initSchema in src/services/storage_sqlite.go and the SQL statements on them, with
-- their primary and foreign keys (PRAGMA foreign_keys=ON). An instant in a column of pastes is the
-- text that RFC3339 prints, so it is a number of whole seconds. The columns that the program never
-- reads (created_at of hash_index, burned_at, banned_at) are left out.
pub mod Transaction
pub mod Save
pub mod Get
pub mod Admin
pub mod Backend
pub mod Outcomes
pub mod Invariant
pub mod Deletion
pub mod Preservation
pub mod Roundtrip
pub mod Burn
pub mod Bans
pub mod Orphans
mod Examples
use mathlib.Core.List.{map}
use bincrypt.Prelude.{
  ℕ, Bool, true, false, ◌&&◌, ◌||◌, List, [], ◌∷◌, Option, none, some, Bytes, bytes_eq, codes, ◌==◌,
  if◌then◌else◌, find_by, remove_by,
}

pub record PasteRow : Type 0 where
  pub id : Bytes
  pub content : Option Bytes
  pub references_id : Option Bytes
  pub content_hash : Bytes
  pub plaintext_hash : Option Bytes
  pub expires_at : ℕ
  pub burn_after_read : ℕ
  pub size_bytes : ℕ
  pub is_plaintext : ℕ
  pub created_at : ℕ

pub record HashRow : Type 0 where
  pub content_hash : Bytes
  pub paste_id : Bytes

-- CHECK (hash_type IN ('ciphertext', 'plaintext'))
pub data HashType : Type 0 where
  ciphertext plaintext : HashType

pub record BannedRow : Type 0 where
  pub hash : Bytes
  pub hash_type : HashType
  pub reason : Bytes

pub record Db : Type 0 where
  pub pastes : List PasteRow
  pub hash_index : List HashRow
  pub burned_pastes : List Bytes
  pub banned_hashes : List BannedRow

abbrev pub empty : Db
empty = record { pastes = []; hash_index = []; burned_pastes = []; banned_hashes = [] }

abbrev pub row_id : PasteRow → Bytes
row_id row = row.id

abbrev pub row_hash : HashRow → Bytes
row_hash row = row.content_hash

abbrev pub row_paste : HashRow → Bytes
row_paste row = row.paste_id

abbrev pub row_banned : BannedRow → Bytes
row_banned row = row.hash

abbrev pub self : Bytes → Bytes
self id = id

-- SELECT … FROM pastes WHERE id = ?
abbrev pub find_paste : Bytes → Db → Option PasteRow
find_paste id db = find_by row_id id db.pastes

-- SELECT paste_id FROM hash_index WHERE content_hash = ?
abbrev pub find_hash : Bytes → Db → Option HashRow
find_hash hash db = find_by row_hash hash db.hash_index

abbrev pub is_some : {A : Type 0} → Option A → Bool
is_some none = false
is_some (some _) = true

-- SELECT EXISTS(SELECT 1 FROM burned_pastes WHERE paste_id = ?)
abbrev pub is_burned : Bytes → Db → Bool
is_burned id db = is_some (find_by self id db.burned_pastes)

abbrev pub same_type : HashType → HashType → Bool
same_type ciphertext ciphertext = true
same_type plaintext plaintext = true
same_type _ _ = false

-- SELECT EXISTS(SELECT 1 FROM banned_hashes WHERE hash = ? AND hash_type = …)
unfoldable pub is_banned : HashType → Bytes → List BannedRow → Bool
is_banned type hash [] = false
is_banned type hash (row ∷ rows) =
    (bytes_eq row.hash hash && same_type row.hash_type type) || is_banned type hash rows

-- A NULL reference is allowed by the foreign key; any other must name a row.
abbrev references_ok : Option Bytes → Db → Bool
references_ok none db = true
references_ok (some id) db = is_some (find_paste id db)

-- INSERT INTO pastes, `none` if a key constraint fails.
unfoldable pub insert_paste : PasteRow → Db → Option Db
insert_paste row db = elim (find_paste row.id db) [
  | some _ ↦ none
  | none ↦
      if references_ok row.references_id db
      then some (record db { pastes = row ∷ db.pastes })
      else none
]

-- INSERT OR IGNORE INTO hash_index: a second row for the hash is ignored, a missing paste is not.
unfoldable pub insert_hash : HashRow → Db → Option Db
insert_hash row db = elim (find_hash row.content_hash db) [
  | some _ ↦ some db
  | none ↦ elim (find_paste row.paste_id db) [
    | some _ ↦ some (record db { hash_index = row ∷ db.hash_index })
    | none ↦ none
  ]
]

-- INSERT OR IGNORE INTO burned_pastes, with the number of rows affected.
unfoldable pub insert_burned : Bytes → Db → Option (ℕ × Db)
insert_burned id db = elim (find_by self id db.burned_pastes) [
  | some _ ↦ some (0, db)
  | none ↦ elim (find_paste id db) [
    | some _ ↦ some (1, record db { burned_pastes = id ∷ db.burned_pastes })
    | none ↦ none
  ]
]

-- ON DELETE SET NULL for a reference to the deleted paste.
null_reference : Bytes → Option Bytes → Option Bytes
null_reference id none = none
null_reference id (some target) = if bytes_eq target id then none else some target

unfoldable pub clear_reference : Bytes → PasteRow → PasteRow
unfolding null_reference
clear_reference id row = record row { references_id = null_reference id row.references_id }

-- DELETE FROM pastes WHERE id = ?, with ON DELETE CASCADE for the other two tables.
unfoldable pub delete_paste_row : Bytes → Db → Db
delete_paste_row id db = record db {
  pastes = map (clear_reference id) (remove_by row_id id db.pastes);
  hash_index = remove_by row_paste id db.hash_index;
  burned_pastes = remove_by self id db.burned_pastes;
}

-- INSERT INTO banned_hashes … ON CONFLICT (hash) DO UPDATE SET reason: the type of a row that is
-- there already stays.
unfoldable pub upsert_banned : BannedRow → List BannedRow → List BannedRow
upsert_banned row [] = row ∷ []
upsert_banned row (old ∷ rows) =
    if bytes_eq old.hash row.hash
    then record old { reason = row.reason } ∷ rows
    else old ∷ upsert_banned row rows
