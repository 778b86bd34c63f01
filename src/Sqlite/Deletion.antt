-- ===== src/Sqlite/Deletion.antt =====
-- DELETE FROM pastes keeps the invariant: the cascades leave no dangling reference.
use mathlib.Core.List.{map}
use mathlib.Core.Option
use bincrypt.Prelude.{
  ◌≡◌, refl, Bool, true, false, List, Option, none, some, Bytes, bytes_eq, bytes_eq_iff, arith,
  find_by, remove_by, find_by-remove_by, All-remove_by, find_by-map, All-map, if◌then◌else◌,
}
use bincrypt.Storage.{Platform}
use bincrypt.Sqlite.{
  PasteRow, HashRow, Db, delete_paste_row, clear_reference, row_id, row_paste, self, is_some,
}
use bincrypt.Sqlite.Invariant.{Holds, IsPresent, RowOk, IsWellFormed}

abbrev deleted : Bytes → List PasteRow → List PasteRow
deleted d pastes = map (clear_reference d) (remove_by row_id d pastes)

clear_reference-id : (d : Bytes) (row : PasteRow) → row_id (clear_reference d row) ≡ row_id row
unfolding clear_reference
clear_reference-id d row = refl

map_unless :
    (d : Bytes) (b : Bool) (o : Option PasteRow)
    → Option.map (clear_reference d) (if b then none else o)
      ≡ (if b then none else Option.map (clear_reference d) o)
map_unless d true o = refl
map_unless d false o = refl

-- The pastes that stay, by their identifier.
pub find_by-deleted :
    (d k : Bytes) (pastes : List PasteRow)
    → find_by row_id k (deleted d pastes)
      ≡ (if bytes_eq d k then none else Option.map (clear_reference d) (find_by row_id k pastes))
find_by-deleted d k pastes =
    rw
      (
        find_by-map row_id (clear_reference d) (clear_reference-id d) k (remove_by row_id d pastes),
        find_by-remove_by row_id k d pastes,
      )
      (map_unless d (bytes_eq d k) (find_by row_id k pastes))

cleared :
    (d target : Bytes) (row : PasteRow)
    → (clear_reference d row).references_id ≡ some target
    → (row.references_id ≡ some target) × (bytes_eq d target ≡ false)
unfolding clear_reference
cleared d target row h = ground (arith, bytes_eq_iff target d, bytes_eq_iff d target)

differs : (d id : Bytes) → bytes_eq id d ≡ false → bytes_eq d id ≡ false
differs d id h = ground (arith, bytes_eq_iff id d, bytes_eq_iff d id)

is_some-map :
    (d : Bytes) (o : Option PasteRow)
    → is_some o ≡ true
    → is_some (Option.map (clear_reference d) o) ≡ true
is_some-map d none h = h
is_some-map d (some row) h = refl

module _ (p : Platform) (d : Bytes) (pastes : List PasteRow) where
  Holds-deleted :
      (id hash : Bytes)
      → bytes_eq d id ≡ false
      → Holds p pastes id hash
      → Holds p (deleted d pastes) id hash
  unfolding clear_reference
  Holds-deleted id hash other h = record {
    row = clear_reference d h.row;
    content = h.content;
    found = rw (find_by-deleted d id pastes, other, h.found) refl;
    present = h.present;
    hashed = h.hashed;
  }

  RowOk-deleted :
      (row : PasteRow) → RowOk p pastes row → RowOk p (deleted d pastes) (clear_reference d row)
  unfolding clear_reference
  RowOk-deleted row o = record {
    own = o.own;
    named = λ t e. o.named t (cleared d t row e).0;
    target = λ t e.
        Holds-deleted t row.content_hash (cleared d t row e).1 (o.target t (cleared d t row e).0);
  }

IsPresent-deleted :
    (p : Platform) (d : Bytes) (pastes : List PasteRow) (id : Bytes)
    → bytes_eq id d ≡ false
    → IsPresent p pastes id
    → IsPresent p (deleted d pastes) id
IsPresent-deleted p d pastes id other h =
    rw (find_by-deleted d id pastes, differs d id other) (is_some-map d _ h)

-- A deleted paste leaves no reference to it and no hash in the index.
pub delete_paste_row-IsWellFormed :
    (p : Platform) (d : Bytes) (db : Db)
    → IsWellFormed p db
    → IsWellFormed p (delete_paste_row d db)
unfolding delete_paste_row
delete_paste_row-IsWellFormed p d db w = record {
  rows =
      All-map (RowOk p db.pastes) (RowOk p (deleted d db.pastes)) (clear_reference d)
        (remove_by row_id d db.pastes) (RowOk-deleted p d db.pastes)
        (All-remove_by row_id (RowOk p db.pastes) (RowOk p db.pastes) d db.pastes (λ x _ o. o)
          w.rows);
  index =
      All-remove_by row_paste (λ (r : HashRow). Holds p db.pastes r.paste_id r.content_hash)
        (λ (r : HashRow). Holds p (deleted d db.pastes) r.paste_id r.content_hash) d db.hash_index
        (λ r other h.
          Holds-deleted p d db.pastes r.paste_id r.content_hash (differs d r.paste_id other) h)
        w.index;
  burned =
      All-remove_by self (IsPresent p db.pastes) (IsPresent p (deleted d db.pastes)) d
        db.burned_pastes (IsPresent-deleted p d db.pastes) w.burned;
}
