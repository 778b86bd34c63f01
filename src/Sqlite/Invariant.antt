-- ===== src/Sqlite/Invariant.antt =====
-- The invariant of the SQLite tables, and that every operation keeps it.
use bincrypt.Prelude.{
  ◌≡◌, true, false, List, [], ◌∷◌, none, some, Bytes, bytes_eq_iff, arith, is_empty, Option-cases,
  inl, inr, All, find_by,
}
use bincrypt.Storage.{Platform}
use bincrypt.Sqlite.{PasteRow, HashRow, Db, find_paste, find_hash, insert_hash, row_id, is_some}
use bincrypt.Sqlite.Outcomes.{add_row}

module _ (p : Platform) where
  -- The paste `id` holds a content with the given hash.
  pub record Holds (pastes : List PasteRow) (id hash : Bytes) : Type 0 where
    pub row : PasteRow
    pub content : Bytes
    pub found : find_by row_id id pastes ≡ some row
    pub present : row.content ≡ some content
    pub hashed : p.sha256_hex content ≡ hash

  -- The row of a paste: its own content has the row's hash, and so has the content of the paste
  -- that it refers to.
  pub record RowOk (pastes : List PasteRow) (row : PasteRow) : Type 0 where
    pub own : (c : Bytes) → row.content ≡ some c → p.sha256_hex c ≡ row.content_hash
    pub named : (target : Bytes) → row.references_id ≡ some target → is_empty target ≡ false
    pub target :
        (target : Bytes) → row.references_id ≡ some target → Holds pastes target row.content_hash

  abbrev pub IsPresent : List PasteRow → Bytes → Type 0
  IsPresent pastes id = is_some (find_by row_id id pastes) ≡ true

  -- Each row of pastes is well formed, each hash of the index belongs to a paste that holds its
  -- content, and each burned paste is there.
  pub record IsWellFormed (db : Db) : Type 0 where
    pub rows : All (RowOk db.pastes) db.pastes
    pub index : All (λ (r : HashRow). Holds db.pastes r.paste_id r.content_hash) db.hash_index
    pub burned : All (IsPresent db.pastes) db.burned_pastes

  pub Holds-cons :
      (row : PasteRow) (pastes : List PasteRow) (id hash : Bytes)
      → find_by row_id row.id pastes ≡ none
      → Holds pastes id hash
      → Holds (row ∷ pastes) id hash
  unfolding find_by
  Holds-cons row pastes id hash fresh h = record {
    row = h.row;
    content = h.content;
    found = ground (arith, bytes_eq_iff row.id id);
    present = h.present;
    hashed = h.hashed;
  }

  RowOk-cons :
      (row r : PasteRow) (pastes : List PasteRow)
      → find_by row_id row.id pastes ≡ none
      → RowOk pastes r
      → RowOk (row ∷ pastes) r
  RowOk-cons row r pastes fresh h = record {
    own = h.own;
    named = h.named;
    target = λ t e. Holds-cons row pastes t r.content_hash fresh (h.target t e);
  }

  All-RowOk-cons :
      (row : PasteRow) (pastes rs : List PasteRow)
      → find_by row_id row.id pastes ≡ none
      → All (RowOk pastes) rs
      → All (RowOk (row ∷ pastes)) rs
  All-RowOk-cons row pastes [] fresh h = tt
  All-RowOk-cons row pastes (r ∷ rs) fresh (o, h) =
      (RowOk-cons row r pastes fresh o, All-RowOk-cons row pastes rs fresh h)

  All-Holds-cons :
      (row : PasteRow) (pastes : List PasteRow) (rs : List HashRow)
      → find_by row_id row.id pastes ≡ none
      → All (λ (r : HashRow). Holds pastes r.paste_id r.content_hash) rs
      → All (λ (r : HashRow). Holds (row ∷ pastes) r.paste_id r.content_hash) rs
  All-Holds-cons row pastes [] fresh h = tt
  All-Holds-cons row pastes (r ∷ rs) fresh (o, h) = (
    Holds-cons row pastes r.paste_id r.content_hash fresh o,
    All-Holds-cons row pastes rs fresh h,
  )

  All-IsPresent-cons :
      (row : PasteRow) (pastes : List PasteRow) (ids : List Bytes)
      → All (IsPresent pastes) ids
      → All (IsPresent (row ∷ pastes)) ids
  unfolding find_by
  All-IsPresent-cons row pastes [] h = tt
  All-IsPresent-cons row pastes (id ∷ ids) (o, h) =
      (ground arith, All-IsPresent-cons row pastes ids h)

  -- A fresh row that is well formed by itself keeps the invariant.
  pub add_row-IsWellFormed :
      (row : PasteRow) (db : Db)
      → find_paste row.id db ≡ none
      → RowOk (row ∷ db.pastes) row
      → IsWellFormed db
      → IsWellFormed (add_row row db)
  add_row-IsWellFormed row db fresh o w = record {
    rows = (o, All-RowOk-cons row db.pastes db.pastes fresh w.rows);
    index = All-Holds-cons row db.pastes db.hash_index fresh w.index;
    burned = All-IsPresent-cons row db.pastes db.burned_pastes w.burned;
  }

  -- So does a hash that is added for a paste that holds its content.
  pub insert_hash-IsWellFormed :
      (r : HashRow) (db db' : Db)
      → insert_hash r db ≡ some db'
      → Holds db.pastes r.paste_id r.content_hash
      → IsWellFormed db
      → IsWellFormed db'
  unfolding insert_hash
  insert_hash-IsWellFormed r db db' e h w = elim (Option-cases (find_hash r.content_hash db)) [
    | inl unknown ↦ elim (Option-cases (find_paste r.paste_id db)) [
      | inl missing ↦ absurd (ground arith)
      | inr (row, found) ↦
          let same : db' ≡ record db { hash_index = r ∷ db.hash_index } = ground arith in
          rw same (record { rows = w.rows; index = (h, w.index); burned = w.burned })
    ]
    | inr (old, known) ↦ let same : db' ≡ db = ground arith in rw same w
  ]
