-- ===== src/Sqlite/Preservation.antt =====
-- Every operation of the SQLite backend keeps the invariant, whatever calls fail; a run of
-- operations is a list of requests.
use bincrypt.Prelude.{
  ℕ, ◌⊎◌, ◌≡◌, refl, ap, bytes_eq_refl, sym, false, List, [], ◌∷◌, some, Bytes, arith, is_empty,
  Bool-cases, Option-cases, inl, inr, find_by, find_by-All, find_by_key,
}
use bincrypt.Storage.{SaveArgs, Platform, Result, ok, err, StoreError, SavePasteResult, Paste}
use bincrypt.Sqlite.{
  PasteRow, HashRow, Db, empty, find_paste, find_hash, row_hash, self, is_burned, insert_burned,
}
use bincrypt.Sqlite.Transaction.{Faults, delete_row, insert_burn}
use bincrypt.Sqlite.Save.{save_paste, new_hash}
use bincrypt.Sqlite.Get.{get_paste, int_to_bool}
use bincrypt.Sqlite.Admin.{mark_burned, delete_paste, ban_content_hash, ban_plaintext_hash}
use bincrypt.Sqlite.Outcomes.{
  existing_id, original_row, reference_row, hash_of, save_paste-err, save_paste-fresh,
  save_paste-referenced, save_paste-stored, get_paste-err, get_paste-tables, get_paste-burned,
  get_paste-Served, Served,
}
use bincrypt.Sqlite.Invariant.{
  Holds, IsPresent, RowOk, IsWellFormed, add_row-IsWellFormed, insert_hash-IsWellFormed, Holds-cons,
}
use bincrypt.Sqlite.Deletion.{delete_paste_row-IsWellFormed}

-- The requests that a backend serves.
pub data Request : Type 0 where
  save : SaveArgs → Request
  get : ℕ → Bytes → Request
  burn delete : Bytes → Request
  ban_content ban_plaintext : Bytes → Bytes → Request

module _ (p : Platform) where
  empty-IsWellFormed : IsWellFormed p empty
  empty-IsWellFormed = record { rows = tt; index = tt; burned = tt }

  unfoldable pub serve : Faults → Request → Db → Db
  serve fails (save a) db = (save_paste p fails a db).1
  serve fails (get now id) db = (get_paste fails now id db).1
  serve fails (burn id) db = (mark_burned fails id db).1
  serve fails (delete id) db = (delete_paste fails id db).1
  serve fails (ban_content hash reason) db = (ban_content_hash fails hash reason db).1
  serve fails (ban_plaintext hash reason) db = (ban_plaintext_hash fails hash reason db).1

  -- Each request with the faults that it meets.
  unfoldable pub run : List (Faults × Request) → Db → Db
  unfolding serve
  run [] db = db
  run ((fails, r) ∷ rs) db = run rs (serve fails r db)

  -- The indexed paste of a hash holds a content with that hash.
  pub find_hash-Holds :
      (hash : Bytes) (row : HashRow) (db : Db)
      → IsWellFormed p db
      → find_hash hash db ≡ some row
      → Holds p db.pastes row.paste_id hash
  find_hash-Holds hash row db w h = rw (← find_by_key row_hash hash db.hash_index row h) (
      find_by-All row_hash (λ (r : HashRow). Holds p db.pastes r.paste_id r.content_hash) hash
        db.hash_index row w.index h)

  original-RowOk : (a : SaveArgs) (pastes : List PasteRow) → RowOk p pastes (original_row p a)
  original-RowOk a pastes = record {
    own = λ c e. let same : a.ciphertext ≡ c = ground arith in ap p.sha256_hex (sym same);
    named = λ t e. cc;
    target = λ t e. cc;
  }

  original-Holds :
      (a : SaveArgs) (pastes : List PasteRow)
      → Holds p (original_row p a ∷ pastes) a.id (hash_of p a)
  unfolding find_by
  original-Holds a pastes = record {
    row = original_row p a;
    content = a.ciphertext;
    found = rw (bytes_eq_refl a.id) refl;
    present = refl;
    hashed = refl;
  }

  reference-RowOk :
      (a : SaveArgs) (pastes : List PasteRow) (target : Bytes)
      → is_empty target ≡ false
      → Holds p pastes target (hash_of p a)
      → RowOk p pastes (reference_row p a target)
  reference-RowOk a pastes target named h = record {
    own = λ c e. cc;
    named = λ t e. let same : target ≡ t = ground arith in rw (← same) named;
    target = λ t e. let same : target ≡ t = ground arith in rw (← same) h;
  }

  pub existing-Holds :
      (a : SaveArgs) (db : Db)
      → IsWellFormed p db
      → is_empty (existing_id p a db) ≡ false
      → Holds p db.pastes (existing_id p a db) (hash_of p a)
  existing-Holds a db w named = elim (Option-cases (find_hash (hash_of p a) db)) [
    | inl unknown ↦ absurd (ground arith)
    | inr (row, known) ↦ rw known (find_hash-Holds (hash_of p a) row db w known)
  ]

  saved-IsWellFormed :
      (fails : Faults) (a : SaveArgs) (db db' : Db) (r : SavePasteResult)
      → save_paste p fails a db ≡ (ok r, db')
      → IsWellFormed p db
      → IsWellFormed p db'
  saved-IsWellFormed fails a db db' r saved w =
      let fresh = save_paste-fresh p fails a db db' r saved in
      elim (Bool-cases r.was_deduplicated) [
        | inl old ↦
            let (_, named, same) = save_paste-referenced p fails a db db' r saved old in
            let held = existing-Holds a db w named in
            rw same (
              add_row-IsWellFormed p (reference_row p a (existing_id p a db)) db fresh
                (reference-RowOk a _ (existing_id p a db) named
                  (Holds-cons p _ db.pastes _ _ fresh held))
                w)
        | inr new ↦
            let (_, _, indexed) = save_paste-stored p fails a db db' r saved new in
            insert_hash-IsWellFormed p (new_hash p a) _ db' indexed (original-Holds a db.pastes)
              (add_row-IsWellFormed p (original_row p a) db fresh (original-RowOk a _) w)
      ]

  -- Whichever of its calls fail, SavePaste keeps the invariant.
  pub save_paste-IsWellFormed :
      (fails : Faults) (a : SaveArgs) (db : Db)
      → IsWellFormed p db
      → IsWellFormed p (save_paste p fails a db).1
  save_paste-IsWellFormed fails a db w = after (save_paste p fails a db) refl
    where
      after :
          (out : Result StoreError SavePasteResult × Db)
          → save_paste p fails a db ≡ out
          → IsWellFormed p out.1
      after (ok r, db') h = saved-IsWellFormed fails a db db' r h w
      after (err e, db') h = rw (save_paste-err p fails a db db' e h) w

  -- At most one burned paste was added, and it is there.
  abbrev pub BurnedGrows : Db → Db → Type 0
  BurnedGrows db db' =
      (db'.burned_pastes ≡ db.burned_pastes)
      ⊎ ((id : Bytes) × (db'.burned_pastes ≡ id ∷ db.burned_pastes) × IsPresent p db.pastes id)

  same_tables :
      (db db' : Db)
      → db'.pastes ≡ db.pastes
      → db'.hash_index ≡ db.hash_index
      → BurnedGrows db db'
      → IsWellFormed p db
      → IsWellFormed p db'
  same_tables db db' h k (inl same) w = record {
    rows = rw h w.rows;
    index = rw (h, k) w.index;
    burned = rw (h, same) w.burned;
  }
  same_tables db db' h k (inr (id, more, there)) w = record {
    rows = rw h w.rows;
    index = rw (h, k) w.index;
    burned = rw (h, more) (there, w.burned);
  }

  mark_burned-tables :
      (fails : Faults) (id : Bytes) (db : Db)
      → ((mark_burned fails id db).1.pastes ≡ db.pastes)
        × ((mark_burned fails id db).1.hash_index ≡ db.hash_index)
        × BurnedGrows db (mark_burned fails id db).1
  unfolding mark_burned insert_burned
  mark_burned-tables fails id db = (
    ground arith,
    ground arith,
    elim (Option-cases (find_paste id db)) [
      | inl missing ↦ inl (ground arith)
      | inr (row, found) ↦ elim (Option-cases (find_by self id db.burned_pastes)) [
        | inl fresh ↦ elim (Bool-cases (fails insert_burn)) [
          | inl failed ↦ inl (ground arith)
          | inr passed ↦ inr (id, ground arith, ground arith)
        ]
        | inr (old, known) ↦ inl (ground arith)
      ]
    ],
  )

  served :
      {now : ℕ} {id : Bytes} {db db' : Db} {content : Bytes} {paste : Paste}
      → Served now id db db' content paste
      → BurnedGrows db db'
  served {id} {db} s = elim (Bool-cases (int_to_bool s.row.burn_after_read)) [
    | inl once ↦ inr (id, ap (λ (d : Db). d.burned_pastes) (rw once at s.marked), rw s.found refl)
    | inr many ↦ inl (ap (λ (d : Db). d.burned_pastes) (rw many at s.marked))
  ]

  pub get_paste-grows :
      (fails : Faults) (now : ℕ) (id : Bytes) (db : Db)
      → BurnedGrows db (get_paste fails now id db).1
  get_paste-grows fails now id db = after (get_paste fails now id db) refl
    where
      after :
          (out : Result StoreError (Bytes × Paste) × Db)
          → get_paste fails now id db ≡ out
          → BurnedGrows db out.1
      after (err e, db') h =
          inl (ap (λ (d : Db). d.burned_pastes) (get_paste-err fails now id db db' e h))
      after (ok (content, paste), db') h = elim (Bool-cases (is_burned id db)) [
        | inl burned ↦ inl (
            ap (λ (d : Db). d.burned_pastes)
              (get_paste-burned fails now id db db' content paste h burned).2)
        | inr fresh ↦ served (get_paste-Served fails now id db db' content paste h fresh)
      ]

  delete_paste-IsWellFormed :
      (fails : Faults) (id : Bytes) (db : Db)
      → IsWellFormed p db
      → IsWellFormed p (delete_paste fails id db).1
  unfolding delete_paste
  delete_paste-IsWellFormed fails id db w = elim (Bool-cases (fails delete_row)) [
    | inl failed ↦ rw failed w
    | inr passed ↦ rw passed (delete_paste_row-IsWellFormed p id db w)
  ]

  ban-tables :
      (fails : Faults) (hash reason : Bytes) (db : Db)
      → ((ban_content_hash fails hash reason db).1.pastes ≡ db.pastes)
        × ((ban_content_hash fails hash reason db).1.hash_index ≡ db.hash_index)
        × ((ban_plaintext_hash fails hash reason db).1.pastes ≡ db.pastes)
        × ((ban_plaintext_hash fails hash reason db).1.hash_index ≡ db.hash_index)
        × ((ban_content_hash fails hash reason db).1.burned_pastes ≡ db.burned_pastes)
        × ((ban_plaintext_hash fails hash reason db).1.burned_pastes ≡ db.burned_pastes)
  unfolding ban_content_hash ban_plaintext_hash
  ban-tables fails hash reason db =
      (ground arith, ground arith, ground arith, ground arith, ground arith, ground arith)

  serve-IsWellFormed :
      (fails : Faults) (r : Request) (db : Db)
      → IsWellFormed p db
      → IsWellFormed p (serve fails r db)
  unfolding serve
  serve-IsWellFormed fails (save a) db w = save_paste-IsWellFormed fails a db w
  serve-IsWellFormed fails (get now id) db w =
      let t = get_paste-tables fails now id db in
      same_tables db _ t.0 t.1 (get_paste-grows fails now id db) w
  serve-IsWellFormed fails (burn id) db w =
      let t = mark_burned-tables fails id db in same_tables db _ t.0 t.1 t.2 w
  serve-IsWellFormed fails (delete id) db w = delete_paste-IsWellFormed fails id db w
  serve-IsWellFormed fails (ban_content hash reason) db w =
      let t = ban-tables fails hash reason db in same_tables db _ t.0 t.1 (inl t.4) w
  serve-IsWellFormed fails (ban_plaintext hash reason) db w =
      let t = ban-tables fails hash reason db in same_tables db _ t.2 t.3 (inl t.5) w

  run-keeps :
      (rs : List (Faults × Request)) (db : Db) → IsWellFormed p db → IsWellFormed p (run rs db)
  unfolding run
  run-keeps [] db w = w
  run-keeps ((fails, r) ∷ rs) db w =
      run-keeps rs (serve fails r db) (serve-IsWellFormed fails r db w)

  -- After any requests to an empty database, whichever database calls fail: each stored content has
  -- its row's hash, each reference names a paste that holds a content with the referring row's
  -- hash, and each hash of the index belongs to a paste that holds a content with that hash.
  pub run-IsWellFormed : (rs : List (Faults × Request)) → IsWellFormed p (run rs empty)
  run-IsWellFormed rs = run-keeps rs empty empty-IsWellFormed
