-- ===== src/Sqlite/Bans.antt =====
-- Banned content: what a ban does to later saves, and a ban that has no effect.
use bincrypt.Prelude.{
  ◌≡◌, refl, ◌∙◌, ap, true, false, List, [], ◌∷◌, none, Bytes, arith, is_empty, inl, inr,
  bytes_eq_refl,
}
use bincrypt.Storage.{SaveArgs, Platform, Result, ok, err, StoreError, SavePasteResult}
use bincrypt.Sqlite.{
  HashType, ciphertext, plaintext, BannedRow, Db, is_banned, upsert_banned, same_type, insert_paste,
  insert_hash, insert_burned, delete_paste_row,
}
use bincrypt.Sqlite.Transaction.{Faults, insert_ban}
use bincrypt.Sqlite.Save.{save_paste}
use bincrypt.Sqlite.Admin.{ban_content_hash, ban_plaintext_hash, delete_paste, mark_burned}
use bincrypt.Sqlite.Preservation.{
  Request, save, get, burn, delete, ban_content, ban_plaintext, serve, run,
}
use bincrypt.Sqlite.Outcomes.{
  hash_of, plain_hash, save_paste-err, save_paste-allowed, get_paste-tables,
}

abbrev pub other_type : HashType → HashType
other_type ciphertext = plaintext
other_type plaintext = ciphertext

same_type_refl : (t : HashType) → same_type t t ≡ true
same_type_refl ciphertext = refl
same_type_refl plaintext = refl

-- A ban takes effect if the hash is not on the other list.
upsert_banned-bans :
    (row : BannedRow) (rows : List BannedRow)
    → is_banned (other_type row.hash_type) row.hash rows ≡ false
    → is_banned row.hash_type row.hash (upsert_banned row rows) ≡ true
unfolding is_banned upsert_banned
upsert_banned-bans row [] h = ground (arith, bytes_eq_refl row.hash, same_type_refl row.hash_type)
upsert_banned-bans row (old ∷ rows) h =
    ground (arith, upsert_banned-bans row rows, bytes_eq_refl row.hash)

-- On a hash that is on the other list only, a ban changes no list.
upsert_banned-inert :
    (row : BannedRow) (rows : List BannedRow)
    → is_banned (other_type row.hash_type) row.hash rows ≡ true
    → is_banned row.hash_type row.hash rows ≡ false
    → is_banned row.hash_type row.hash (upsert_banned row rows) ≡ false
unfolding is_banned upsert_banned
upsert_banned-inert row [] h k = ground arith
upsert_banned-inert row (old ∷ rows) h k = ground (arith, upsert_banned-inert row rows)

-- What was banned before stays banned.
upsert_banned-keeps :
    (t : HashType) (hash : Bytes) (row : BannedRow) (rows : List BannedRow)
    → is_banned t hash rows ≡ true
    → is_banned t hash (upsert_banned row rows) ≡ true
unfolding is_banned upsert_banned
upsert_banned-keeps t hash row [] h = ground arith
upsert_banned-keeps t hash row (old ∷ rows) h = ground (arith, upsert_banned-keeps t hash row rows)

module _ (p : Platform) (t : HashType) (hash : Bytes) where
  save-banned :
      (fails : Faults) (a : SaveArgs) (db : Db)
      → (save_paste p fails a db).1.banned_hashes ≡ db.banned_hashes
  unfolding save_paste insert_paste insert_hash
  save-banned fails a db = ground arith

  delete-banned :
      (fails : Faults) (id : Bytes) (db : Db)
      → ((delete_paste fails id db).1.banned_hashes ≡ db.banned_hashes)
        × ((mark_burned fails id db).1.banned_hashes ≡ db.banned_hashes)
  unfolding delete_paste delete_paste_row mark_burned insert_burned
  delete-banned fails id db = (ground arith, ground arith)

  serve-banned :
      (fails : Faults) (r : Request) (db : Db)
      → is_banned t hash db.banned_hashes ≡ true
      → is_banned t hash (serve p fails r db).banned_hashes ≡ true
  unfolding serve ban_content_hash ban_plaintext_hash
  serve-banned fails (save a) db h = rw (save-banned fails a db) h
  serve-banned fails (get now id) db h = rw (get_paste-tables fails now id db).2 h
  serve-banned fails (burn id) db h = rw (delete-banned fails id db).1 h
  serve-banned fails (delete id) db h = rw (delete-banned fails id db).0 h
  serve-banned fails (ban_content k reason) db h = ground (
    arith,
    upsert_banned-keeps t hash (record { hash = k; hash_type = ciphertext; reason = reason })
        db.banned_hashes h,
  )
  serve-banned fails (ban_plaintext k reason) db h = ground (
    arith,
    upsert_banned-keeps t hash (record { hash = k; hash_type = plaintext; reason = reason })
        db.banned_hashes h,
  )

  run-banned :
      (rs : List (Faults × Request)) (db : Db)
      → is_banned t hash db.banned_hashes ≡ true
      → is_banned t hash (run p rs db).banned_hashes ≡ true
  unfolding run
  run-banned [] db h = h
  run-banned ((fails, r) ∷ rs) db h = run-banned rs (serve p fails r db) (serve-banned fails r db h)

-- The save returns an error and changes nothing.
abbrev pub IsRefused : Platform → Faults → SaveArgs → Db → Type 0
IsRefused p fails a db = (e : StoreError) × (save_paste p fails a db ≡ (err e, db))

IsRefused-unless :
    (p : Platform) (fails : Faults) (a : SaveArgs) (db : Db)
    → ((db' : Db) (r : SavePasteResult) → save_paste p fails a db ≡ (ok r, db') → ⊥)
    → IsRefused p fails a db
IsRefused-unless p fails a db never = of (save_paste p fails a db) refl
  where
    of :
        (out : Result StoreError SavePasteResult × Db)
        → save_paste p fails a db ≡ out
        → IsRefused p fails a db
    of (ok r, db') h = absurd (never db' r h)
    of (err e, db') h = (e, h ∙ ap (λ (d : Db). (err e, d)) (save_paste-err p fails a db db' e h))

ban_content_hash-bans :
    (fails : Faults) (hash reason : Bytes) (db db' : Db)
    → ban_content_hash fails hash reason db ≡ (none, db')
    → is_banned plaintext hash db.banned_hashes ≡ false
    → is_banned ciphertext hash db'.banned_hashes ≡ true
unfolding ban_content_hash
ban_content_hash-bans fails hash reason db db' h k = ground (
  arith,
  upsert_banned-bans (record { hash = hash; hash_type = ciphertext; reason = reason })
      db.banned_hashes k,
)

ban_plaintext_hash-bans :
    (fails : Faults) (hash reason : Bytes) (db db' : Db)
    → ban_plaintext_hash fails hash reason db ≡ (none, db')
    → is_banned ciphertext hash db.banned_hashes ≡ false
    → is_banned plaintext hash db'.banned_hashes ≡ true
unfolding ban_plaintext_hash
ban_plaintext_hash-bans fails hash reason db db' h k = ground (
  arith,
  upsert_banned-bans (record { hash = hash; hash_type = plaintext; reason = reason })
      db.banned_hashes k,
)

-- Once BanContentHash has returned no error for a hash that is not on the plaintext list, a save of
-- a text with that hash is refused and changes nothing, after any further requests and whatever
-- faults it meets.
pub ban_content_hash-refuses :
    (p : Platform) (fails fails' : Faults) (hash reason : Bytes) (db db' : Db)
    (rs : List (Faults × Request)) (a : SaveArgs)
    → is_banned plaintext hash db.banned_hashes ≡ false
    → ban_content_hash fails hash reason db ≡ (none, db')
    → hash_of p a ≡ hash
    → IsRefused p fails' a (run p rs db')
ban_content_hash-refuses p fails fails' hash reason db db' rs a k h same =
    let banned =
      run-banned p ciphertext hash rs db' (ban_content_hash-bans fails hash reason db db' h k) in
    IsRefused-unless p fails' a (run p rs db') λ db'' r saved.
      let allowed = (save_paste-allowed p fails' a (run p rs db') db'' r saved).0 in
      cc (rw same at allowed, banned)

-- Once BanPlaintextHash has returned no error for a hash that is not on the ciphertext list, a save
-- whose plaintext hash is that hash, and not empty, is refused and changes nothing, after any
-- further requests and whatever faults it meets.
pub ban_plaintext_hash-refuses :
    (p : Platform) (fails fails' : Faults) (hash reason : Bytes) (db db' : Db)
    (rs : List (Faults × Request)) (a : SaveArgs)
    → is_banned ciphertext hash db.banned_hashes ≡ false
    → ban_plaintext_hash fails hash reason db ≡ (none, db')
    → plain_hash p a ≡ hash
    → is_empty hash ≡ false
    → IsRefused p fails' a (run p rs db')
ban_plaintext_hash-refuses p fails fails' hash reason db db' rs a k h same named =
    let banned =
      run-banned p plaintext hash rs db' (ban_plaintext_hash-bans fails hash reason db db' h k) in
    IsRefused-unless p fails' a (run p rs db') λ db'' r saved.
      let allowed = rw same at ((save_paste-allowed p fails' a (run p rs db') db'' r saved).1) in
      elim allowed [ inl empty ↦ cc (empty, named) | inr free ↦ cc (free, banned) ]

-- For a hash that is on the ciphertext list and not on the plaintext list, BanPlaintextHash returns
-- no error unless its statement fails, and the hash is not on the plaintext list afterwards.
pub ban_plaintext_hash-inert :
    (fails : Faults) (hash reason : Bytes) (db : Db)
    → fails insert_ban ≡ false
    → is_banned ciphertext hash db.banned_hashes ≡ true
    → is_banned plaintext hash db.banned_hashes ≡ false
    → ((ban_plaintext_hash fails hash reason db).0 ≡ none)
      × (is_banned plaintext hash (ban_plaintext_hash fails hash reason db).1.banned_hashes ≡ false)
unfolding ban_plaintext_hash
ban_plaintext_hash-inert fails hash reason db passed h k = (
  ground arith,
  ground (
    arith,
    upsert_banned-inert (record { hash = hash; hash_type = plaintext; reason = reason })
        db.banned_hashes h k,
  ),
)
