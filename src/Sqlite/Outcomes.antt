-- ===== src/Sqlite/Outcomes.antt =====
-- How each operation of the SQLite backend ends: what its result says of the database.
use bincrypt.Prelude.{
  ℕ, ◌≡◌, Bool, true, false, [], ◌∷◌, none, some, Bytes, arith, is_empty, ◌⊎◌, Option-cases, inl,
  inr, ◌/◌, ◌<◌, find_by_key,
}
use bincrypt.Storage.{
  burned_paste, SaveArgs, ok, err, StoreError, SavePasteResult, Platform, Paste, second,
}
use bincrypt.Sqlite.{
  row_id, PasteRow, Db, find_paste, find_hash, is_burned, insert_paste, insert_hash, insert_burned,
  ciphertext, plaintext, is_banned, is_some,
}
use bincrypt.Sqlite.Transaction.{Faults}
use bincrypt.Sqlite.Save.{
  save_paste, new_row, new_hash, save_result, existing_of, plaintext_hash, or_empty,
}
use bincrypt.Sqlite.Get.{get_paste, content_id, content_of, paste_of, int_to_bool}

abbrev pub add_row : PasteRow → Db → Db
add_row row db = record db { pastes = row ∷ db.pastes }

module _ (p : Platform) (fails : Faults) (a : SaveArgs) (db db' : Db) where
  -- A save that returns an error leaves the database as it was.
  pub save_paste-err : (e : StoreError) → save_paste p fails a db ≡ (err e, db') → db' ≡ db
  unfolding save_paste
  save_paste-err e h = ground arith

module _ (p : Platform) (a : SaveArgs) where
  -- What the two hash columns hold.
  abbrev pub plain_hash : Bytes
  plain_hash = or_empty (plaintext_hash p a.is_plaintext a.ciphertext)

  abbrev pub hash_of : Bytes
  hash_of = p.sha256_hex a.ciphertext

  abbrev pub existing_id : Db → Bytes
  existing_id db = existing_of (find_hash hash_of db)

  abbrev pub original_row : PasteRow
  original_row = new_row p a plain_hash (some a.ciphertext) none

  abbrev pub reference_row : Bytes → PasteRow
  reference_row target = new_row p a plain_hash none (some target)

module _ (p : Platform) (fails : Faults) (a : SaveArgs) (db db' : Db) (r : SavePasteResult)
    (saved : save_paste p fails a db ≡ (ok r, db')) where
  -- A save succeeds only under a fresh identifier and with neither hash banned.
  pub save_paste-fresh : find_paste a.id db ≡ none
  unfolding save_paste insert_paste
  save_paste-fresh = ground arith

  pub save_paste-allowed :
      (is_banned ciphertext (hash_of p a) db.banned_hashes ≡ false)
      × ((is_empty (plain_hash p a) ≡ true)
          ⊎ (is_banned plaintext (plain_hash p a) db.banned_hashes ≡ false))
  unfolding save_paste
  save_paste-allowed = ground arith

  -- The content was indexed: one row, which refers to the indexed paste.
  pub save_paste-referenced :
      r.was_deduplicated ≡ true
      → (r ≡ save_result p a true (existing_id p a db))
        × (is_empty (existing_id p a db) ≡ false)
        × (db' ≡ add_row (reference_row p a (existing_id p a db)) db)
  unfolding save_paste insert_paste
  save_paste-referenced h = (ground arith, ground arith, ground arith)

  pub save_paste-target :
      r.was_deduplicated ≡ true → is_some (find_paste (existing_id p a db) db) ≡ true
  unfolding save_paste insert_paste
  save_paste-target h = ground arith

  -- The content is new: one row that holds it, and its hash in the index.
  pub save_paste-stored :
      r.was_deduplicated ≡ false
      → (r ≡ save_result p a false [])
        × (is_empty (existing_id p a db) ≡ true)
        × (insert_hash (new_hash p a) (add_row (original_row p a) db) ≡ some db')
  unfolding save_paste insert_paste
  save_paste-stored h = (ground arith, ground arith, ground arith)

module _ (fails : Faults) (now : ℕ) (id : Bytes) (db db' : Db) where
  -- A read that returns an error leaves the database as it was.
  pub get_paste-err : (e : StoreError) → get_paste fails now id db ≡ (err e, db') → db' ≡ db
  unfolding get_paste insert_burned
  get_paste-err e h = ground arith

  -- A paste that was burned before is returned with no content, and nothing changes.
  pub get_paste-burned :
      (content : Bytes) (paste : Paste)
      → get_paste fails now id db ≡ (ok (content, paste), db')
      → is_burned id db ≡ true
      → (content ≡ []) × (paste ≡ burned_paste id) × (db' ≡ db)
  unfolding get_paste insert_burned
  get_paste-burned content paste h burned = (ground arith, ground arith, ground arith)

abbrev pub mark : Bool → Bytes → Db → Db
mark true id db = record db { burned_pastes = id ∷ db.burned_pastes }
mark false id db = db

-- What a read found that returned a paste not burned before.
pub record Served (now : ℕ) (id : Bytes) (db db' : Db) (content : Bytes) (paste : Paste)
    : Type 0 where
  pub row : PasteRow
  pub found : find_paste id db ≡ some row
  pub in_time : now / second < row.expires_at
  pub resolved : content_of (find_paste (content_id id row.references_id) db) ≡ some content
  pub returned : paste ≡ paste_of row (int_to_bool row.burn_after_read)
  pub marked : db' ≡ mark (int_to_bool row.burn_after_read) id db

module _ (fails : Faults) (now : ℕ) (id : Bytes) (db db' : Db) (content : Bytes) (paste : Paste)
    (h : get_paste fails now id db ≡ (ok (content, paste), db'))
    (fresh : is_burned id db ≡ false) where
  Served-row :
      (row : PasteRow)
      → find_paste id db ≡ some row
      → row.id ≡ id
      → Served now id db db' content paste
  unfolding get_paste insert_burned
  Served-row row found same = record {
    row = row;
    found = found;
    in_time = ground arith;
    resolved = ground arith;
    returned = ground arith;
    marked = ground arith;
  }

  served_none : find_paste id db ≡ none → ⊥
  unfolding get_paste
  served_none missing = ground arith

  -- A read that returns a paste not burned before found its row, in time, and its content; it marks
  -- a burn-after-read paste and changes nothing else.
  pub get_paste-Served : Served now id db db' content paste
  get_paste-Served = elim (Option-cases (find_paste id db)) [
    | inl missing ↦ absurd (served_none missing)
    | inr (row, found) ↦ Served-row row found (find_by_key row_id id db.pastes row found)
  ]

-- A read never changes a table but that of burned pastes.
pub get_paste-tables :
    (fails : Faults) (now : ℕ) (id : Bytes) (db : Db)
    → ((get_paste fails now id db).1.pastes ≡ db.pastes)
      × ((get_paste fails now id db).1.hash_index ≡ db.hash_index)
      × ((get_paste fails now id db).1.banned_hashes ≡ db.banned_hashes)
unfolding get_paste insert_burned
get_paste-tables fails now id db = (ground arith, ground arith, ground arith)
