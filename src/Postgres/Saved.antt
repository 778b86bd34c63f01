-- ===== src/Postgres/Saved.antt =====
-- SavePaste of src/services/storage_postgres.go beside that of src/services/storage_sqlite.go.
use bincrypt.Prelude.{
  ◌≤◌, ◌≡◌, refl, Bool, true, false, [], ◌∷◌, Option, none, some, Bytes, arith, length,
  Option-cases, inl, inr,
}
use bincrypt.Base64.{decode}
use bincrypt.Base64.Alphabet.{std_encoding}
use bincrypt.Storage.{SaveArgs, Platform, err, StoreError, decode_failed}
use bincrypt.Sqlite.{Db, find_hash, insert_paste}
use bincrypt.Sqlite.Transaction.{Faults}
use bincrypt.Sqlite.Save as Sqlite_save
use bincrypt.Sqlite.Save.{
  new_hash, existing_of, null_string, expires_at, to_seconds, new_paste, plaintext_hash,
  check_banned,
}
use bincrypt.Postgres as Postgres
use bincrypt.Postgres.{microsecond, to_micros, id_width, hash_width, fits, fits_if_any, row_fits}
use bincrypt.Postgres.Save.{save_paste, save_checked, new_row}
use bincrypt.Postgres.Scaled.{
  tagged, scaled_args, unscale_saved, cut_saved, insert_paste-fits, insert_hash-fits,
}

same_row :
    (p : Platform) (a : SaveArgs) (plain_hash : Bytes) (content references : Option Bytes)
    → new_row p a plain_hash content references
      ≡ Sqlite_save.new_row p (scaled_args a) plain_hash content references
same_row p a plain_hash content references = ground arith

null_string-fits :
    (s : Bytes) → length s ≤ hash_width → fits_if_any hash_width (null_string s) ≡ true
null_string-fits [] h = refl
null_string-fits (c ∷ s) h = ground arith

-- The hash of a plaintext, or the empty text, is short if every hash is.
plaintext_hash-short :
    (p : Platform) (is_plaintext : Bool) (text plain_hash : Bytes)
    → ((s : Bytes) → length (p.sha256_hex s) ≤ hash_width)
    → plaintext_hash p is_plaintext text ≡ some plain_hash
    → length plain_hash ≤ hash_width
unfolding plaintext_hash
plaintext_hash-short p false text plain_hash short e = ground arith
plaintext_hash-short p true text plain_hash short e =
    elim (Option-cases (decode std_encoding text)) [
      | inl bad ↦ absurd (ground arith)
      | inr (decoded, good) ↦ elim (Option-cases (p.json_content decoded)) [
        | inl no_json ↦ ground arith
        | inr (content, json) ↦ ground (arith, short content)
      ]
    ]

module _ (p : Platform) (a : SaveArgs) (plain_hash : Bytes)
    (short : (s : Bytes) → length (p.sha256_hex s) ≤ hash_width) (named : length a.id ≤ id_width)
    (plain_short : length plain_hash ≤ hash_width) where
  insert_row-scaled :
      (content references : Option Bytes) (db : Db)
      → Postgres.insert_paste (new_row p a plain_hash content references) db
        ≡ insert_paste (Sqlite_save.new_row p (scaled_args a) plain_hash content references) db
  insert_row-scaled content references db =
      let hashed = short a.ciphertext in
      let plain = null_string-fits plain_hash plain_short in
      rw (← same_row p a plain_hash content references) (
        insert_paste-fits (new_row p a plain_hash content references) db
          (ground (arith, hashed, plain, named)))

  save_checked-scaled :
      (fails : Faults) (db : Db) (o : Option StoreError)
      → (cut_saved (save_checked p fails a plain_hash db o).0
          ≡ unscale_saved
              (Sqlite_save.save_checked p (tagged fails) (scaled_args a) plain_hash db o).0)
        × ((save_checked p fails a plain_hash db o).1
            ≡ (Sqlite_save.save_checked p (tagged fails) (scaled_args a) plain_hash db o).1)
  unfolding save_checked Sqlite_save.save_checked
  save_checked-scaled fails db (some e) = (refl, refl)
  save_checked-scaled fails db none =
      let existing = existing_of (find_hash (p.sha256_hex a.ciphertext) db) in
      let reference = insert_row-scaled none (some existing) db in
      let original = insert_row-scaled (some a.ciphertext) none db in
      let row = Sqlite_save.new_row p (scaled_args a) plain_hash (some a.ciphertext) none in
      elim (Option-cases (insert_paste row db)) [
        | inl there ↦
            (ground (arith, reference, original, there), ground (arith, reference, original, there))
        | inr (after, added) ↦
            let index = insert_hash-fits (new_hash p a) after (short a.ciphertext) named in
            (
              ground (arith, reference, original, added, index),
              ground (arith, reference, original, added, index),
            )
      ]

check_banned-tagged :
    (p : Platform) (fails : Faults) (db : Db) (plain_hash hash : Bytes)
    → check_banned p (tagged fails) db plain_hash hash ≡ check_banned p fails db plain_hash hash
unfolding check_banned
check_banned-tagged p fails db plain_hash hash = ground arith

abbrev banned_answer : Platform → Faults → SaveArgs → Db → Bytes → Option StoreError
banned_answer p fails a db plain_hash =
    check_banned p fails db plain_hash (p.sha256_hex a.ciphertext)

-- Both backends go on with the hash of the plaintext, or refuse.
save_paste-checked :
    (p : Platform) (fails : Faults) (a : SaveArgs) (db : Db) (plain_hash : Bytes)
    → plaintext_hash p a.is_plaintext a.ciphertext ≡ some plain_hash
    → (save_paste p fails a db db
        ≡ save_checked p fails a plain_hash db (banned_answer p fails a db plain_hash))
      × (Sqlite_save.save_paste p (tagged fails) (scaled_args a) db
          ≡ Sqlite_save.save_checked p
              (tagged fails)
              (scaled_args a)
              plain_hash
              db
              (banned_answer p fails a db plain_hash))
unfolding save_paste Sqlite_save.save_paste
save_paste-checked p fails a db plain_hash e =
    let same = check_banned-tagged p fails db plain_hash (p.sha256_hex a.ciphertext) in
    (ground (arith, e), ground (arith, e, same))

save_paste-refused :
    (p : Platform) (fails : Faults) (a : SaveArgs) (db : Db)
    → plaintext_hash p a.is_plaintext a.ciphertext ≡ none
    → (save_paste p fails a db db ≡ (err decode_failed, db))
      × (Sqlite_save.save_paste p (tagged fails) (scaled_args a) db ≡ (err decode_failed, db))
unfolding save_paste Sqlite_save.save_paste
save_paste-refused p fails a db e = (ground (arith, e), ground (arith, e))

pub save_paste-scaled :
    (p : Platform) (fails : Faults) (a : SaveArgs) (db : Db)
    → ((s : Bytes) → length (p.sha256_hex s) ≤ hash_width)
    → length a.id ≤ id_width
    → (cut_saved (save_paste p fails a db db).0
        ≡ unscale_saved (Sqlite_save.save_paste p (tagged fails) (scaled_args a) db).0)
      × ((save_paste p fails a db db).1
          ≡ (Sqlite_save.save_paste p (tagged fails) (scaled_args a) db).1)
save_paste-scaled p fails a db short named =
    elim (Option-cases (plaintext_hash p a.is_plaintext a.ciphertext)) [
      | inl bad ↦
          let (post, lite) = save_paste-refused p fails a db bad in rw (post, lite) (refl, refl)
      | inr (plain_hash, e) ↦
          let (post, lite) = save_paste-checked p fails a db plain_hash e in
          rw (post, lite)
            (save_checked-scaled p a plain_hash short named
              (plaintext_hash-short p a.is_plaintext a.ciphertext plain_hash short e) fails db
              (banned_answer p fails a db plain_hash))
    ]
