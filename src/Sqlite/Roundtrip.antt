-- ===== src/Sqlite/Roundtrip.antt =====
-- A saved paste is read back: with its own content, or with that of the paste it was deduplicated
-- onto.
use bincrypt.Prelude.{
  ℕ, ◌/◌, ◌*◌, ◌<◌, ◌≡◌, refl, Bool, true, false, List, [], ◌∷◌, none, some, Bytes, arith, is_empty,
  Bool-cases, inl, inr, All, find_by, bytes_eq_iff, bytes_eq_refl, length,
}
use bincrypt.Storage.{SaveArgs, Platform, ok, SavePasteResult, Paste, second}
use bincrypt.Sqlite.{
  PasteRow, HashRow, Db, find_paste, row_id, self, is_burned, insert_burned, insert_hash,
}
use bincrypt.Sqlite.Transaction.{Faults}
use bincrypt.Sqlite.Save.{save_paste, new_hash, expires_at, to_seconds, bool_to_int}
use bincrypt.Sqlite.Get.{get_paste, int_to_bool, content_id, content_of, paste_of}
use bincrypt.Sqlite.Outcomes.{
  add_row, existing_id, original_row, reference_row, hash_of, mark, save_paste-fresh,
  save_paste-referenced, save_paste-stored,
}
use bincrypt.Sqlite.Invariant.{Holds, IsPresent, IsWellFormed, Holds-cons}
use bincrypt.Sqlite.Preservation.{existing-Holds}

abbrev pub no_faults : Faults
no_faults _ = false

-- A paste that is not there was not burned.
fresh-not_burned :
    (p : Platform) (pastes : List PasteRow) (ids : List Bytes) (id : Bytes)
    → All (IsPresent p pastes) ids
    → find_by row_id id pastes ≡ none
    → find_by self id ids ≡ none
unfolding find_by
fresh-not_burned p pastes [] id h fresh = refl
fresh-not_burned p pastes (x ∷ ids) id (there, h) fresh =
    ground (arith, bytes_eq_iff x id, fresh-not_burned p pastes ids id h fresh)

-- A read of a row that is in time, not burned, and resolves to a content.
get_paste_lem :
    (now : ℕ) (id : Bytes) (db : Db) (row : PasteRow) (content : Bytes)
    → find_paste id db ≡ some row
    → row.id ≡ id
    → is_burned id db ≡ false
    → now / second < row.expires_at
    → content_of (find_paste (content_id id row.references_id) db) ≡ some content
    → get_paste no_faults now id db ≡ (
      ok (content, paste_of row (int_to_bool row.burn_after_read)),
      mark (int_to_bool row.burn_after_read) id db,
    )
unfolding get_paste insert_burned
get_paste_lem now id db row content found same fresh in_time resolved = ground arith

content_id-some :
    (id target : Bytes) → is_empty target ≡ false → content_id id (some target) ≡ target
content_id-some id [] h = cc
content_id-some id (c ∷ s) h = refl

-- A content that a row of the database has.
abbrev pub IsKept : Db → Bytes → Type 0
IsKept db content =
    (k : Bytes) × (row : PasteRow) × (find_paste k db ≡ some row) × (row.content ≡ some content)

-- What a reader of the saved paste gets: the stored expiry, and a stored content with the hash of
-- what was saved.
pub record ReadBack (p : Platform) (a : SaveArgs) (now : ℕ) (db : Db) : Type 0 where
  pub content : Bytes
  pub paste : Paste
  pub after : Db
  pub read : get_paste no_faults now a.id db ≡ (ok (content, paste), after)
  pub kept : IsKept db content
  pub same_hash : p.sha256_hex content ≡ p.sha256_hex a.ciphertext
  pub same_id : paste.id ≡ a.id
  pub same_size : paste.size_bytes ≡ length a.ciphertext
  pub expiry : paste.expires_at ≡ to_seconds (expires_at p a) * second
  pub burns : (paste.burn_after_read ≡ a.burn_after_read) × (paste.is_burned ≡ a.burn_after_read)

int_to_bool-bool_to_int : (b : Bool) → int_to_bool (bool_to_int b) ≡ b
int_to_bool-bool_to_int true = refl
int_to_bool-bool_to_int false = refl

module _ (p : Platform) (a : SaveArgs) (now : ℕ)
    (in_time : now / second < to_seconds (expires_at p a)) where
  read_original :
      (db : Db)
      → find_paste a.id db ≡ some (original_row p a)
      → is_burned a.id db ≡ false
      → ReadBack p a now db
  read_original db found fresh = record {
    content = a.ciphertext;
    paste = _;
    after = _;
    read =
        get_paste_lem now a.id db (original_row p a) a.ciphertext found refl fresh in_time
          (rw found refl);
    kept = (a.id, original_row p a, found, refl);
    same_hash = refl;
    same_id = refl;
    same_size = refl;
    expiry = refl;
    burns = (int_to_bool-bool_to_int a.burn_after_read, int_to_bool-bool_to_int a.burn_after_read);
  }

  read_reference :
      (db : Db) (target : Bytes)
      → is_empty target ≡ false
      → find_paste a.id db ≡ some (reference_row p a target)
      → is_burned a.id db ≡ false
      → Holds p db.pastes target (hash_of p a)
      → ReadBack p a now db
  read_reference db target named found fresh h = record {
    content = h.content;
    paste = _;
    after = _;
    read =
        get_paste_lem now a.id db (reference_row p a target) h.content found refl fresh in_time
          (rw (content_id-some a.id target named, h.found) h.present);
    kept = (target, h.row, h.found, h.present);
    same_hash = h.hashed;
    same_id = refl;
    same_size = refl;
    expiry = refl;
    burns = (int_to_bool-bool_to_int a.burn_after_read, int_to_bool-bool_to_int a.burn_after_read);
  }

find_by-head :
    (row : PasteRow) (pastes : List PasteRow) → find_by row_id row.id (row ∷ pastes) ≡ some row
unfolding find_by
find_by-head row pastes = rw (bytes_eq_refl row.id) refl

insert_hash-tables :
    (h : HashRow) (db db' : Db)
    → insert_hash h db ≡ some db'
    → (db'.pastes ≡ db.pastes) × (db'.burned_pastes ≡ db.burned_pastes)
unfolding insert_hash
insert_hash-tables h db db' e = (ground arith, ground arith)

-- From a well-formed database, whatever faults the successful save met: until the second in which
-- the paste expires, a read without faults succeeds and returns a content with the hash of the
-- ciphertext that was saved, under the same identifier, size, expiry (in whole seconds) and
-- burn-after-read flag, and burned already exactly if it burns after reading.
pub save_paste-get_paste :
    (p : Platform) (fails : Faults) (a : SaveArgs) (now : ℕ) (db db' : Db) (r : SavePasteResult)
    → IsWellFormed p db
    → save_paste p fails a db ≡ (ok r, db')
    → now / second < to_seconds (expires_at p a)
    → ReadBack p a now db'
save_paste-get_paste p fails a now db db' r w saved in_time =
    let fresh = save_paste-fresh p fails a db db' r saved in
    let unburned = fresh-not_burned p db.pastes db.burned_pastes a.id w.burned fresh in
    elim (Bool-cases r.was_deduplicated) [
      | inl old ↦
          let (_, named, same) = save_paste-referenced p fails a db db' r saved old in
          let held = existing-Holds p a db w named in
          rw same (
            read_reference p a now in_time (add_row (reference_row p a (existing_id p a db)) db)
              (existing_id p a db) named
              (find_by-head (reference_row p a (existing_id p a db)) db.pastes) (rw unburned refl)
              (Holds-cons p (reference_row p a (existing_id p a db)) db.pastes _ _ fresh held))
      | inr new ↦
          let (_, _, indexed) = save_paste-stored p fails a db db' r saved new in
          let (pastes, burned) = insert_hash-tables (new_hash p a) _ db' indexed in
          read_original p a now in_time db' (rw pastes (find_by-head (original_row p a) db.pastes))
            (rw (burned, unburned) refl)
    ]
