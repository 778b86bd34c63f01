-- ===== src/Sqlite/Orphans.antt =====
-- What becomes of a deduplicated paste when the paste that holds its content is deleted.
use bincrypt.Prelude.{
  ℕ, ◌≡◌, refl, ap, ◌∙◌, true, false, ◌∷◌, none, some, Bytes, arith, Bool-cases, inl, inr, bytes_eq,
  bytes_eq_iff, bytes_eq_refl, find_by,
}
use bincrypt.Storage.{SaveArgs, Platform, Result, ok, err, StoreError, SavePasteResult, Paste}
use bincrypt.Sqlite.{
  PasteRow, Db, find_paste, is_some, is_burned, delete_paste_row, clear_reference,
}
use bincrypt.Sqlite.Transaction.{Faults}
use bincrypt.Sqlite.Save.{save_paste}
use bincrypt.Sqlite.Get.{get_paste, content_of, content_id}
use bincrypt.Sqlite.Admin.{delete_paste}
use bincrypt.Sqlite.Outcomes.{
  add_row, existing_id, reference_row, save_paste-referenced, save_paste-fresh, save_paste-target,
  get_paste-burned, get_paste-Served,
}
use bincrypt.Sqlite.Deletion.{find_by-deleted}
use bincrypt.Sqlite.Burn.{has_content}

-- A row with neither content nor reference is never served.
orphan_unread :
    (fails : Faults) (now : ℕ) (id : Bytes) (db : Db) (row : PasteRow)
    → find_paste id db ≡ some row
    → row.content ≡ none
    → row.references_id ≡ none
    → has_content (get_paste fails now id db).0 ≡ false
orphan_unread fails now id db row found bare alone = of (get_paste fails now id db) refl
  where
    unresolved :
        (other : PasteRow) {content : Bytes}
        → find_paste id db ≡ some other
        → content_of (find_paste (content_id id other.references_id) db) ≡ some content
        → ⊥
    unresolved other {content} again resolved =
        let same : row ≡ other = ground arith in
        let nothing : content_of (find_paste (content_id id row.references_id) db) ≡ none =
          rw (alone, found) bare in
        cc (nothing, resolved)

    of :
        (out : Result StoreError (Bytes × Paste) × Db)
        → get_paste fails now id db ≡ out
        → has_content out.0 ≡ false
    of (err e, db') h = refl
    of (ok (content, paste), db') h = elim (Bool-cases (is_burned id db)) [
      | inl burned ↦ rw (get_paste-burned fails now id db db' content paste h burned).0 refl
      | inr fresh ↦
          let s = get_paste-Served fails now id db db' content paste h fresh in
          absurd (unresolved s.row s.found s.resolved)
    ]

delete_paste_lem :
    (fails : Faults) (id : Bytes) (db db' : Db)
    → delete_paste fails id db ≡ (none, db')
    → db' ≡ delete_paste_row id db
unfolding delete_paste
delete_paste_lem fails id db db' h = ground arith

target_other :
    (db : Db) (target id : Bytes)
    → is_some (find_paste target db) ≡ true
    → find_paste id db ≡ none
    → bytes_eq target id ≡ false
target_other db target id there fresh = ground (arith, bytes_eq_iff target id)

orphan_found :
    (p : Platform) (a : SaveArgs) (target : Bytes) (db : Db)
    → bytes_eq target a.id ≡ false
    → find_paste a.id (delete_paste_row target (add_row (reference_row p a target) db))
      ≡ some (clear_reference target (reference_row p a target))
unfolding delete_paste_row find_by
orphan_found p a target db other =
    rw
      (
        find_by-deleted target a.id (reference_row p a target ∷ db.pastes),
        other,
        bytes_eq_refl a.id,
      )
      refl

orphan_alone :
    (p : Platform) (a : SaveArgs) (target : Bytes)
    → (clear_reference target (reference_row p a target)).references_id ≡ none
unfolding clear_reference
orphan_alone p a target = rw (bytes_eq_refl target) refl

-- SavePaste has deduplicated a paste onto another one, and that one is then deleted: no read of the
-- new paste is answered with a content, at any time and whatever faults it meets.
pub delete_paste-orphans :
    (p : Platform) (fails fails' : Faults) (a : SaveArgs) (db db' db'' : Db) (r : SavePasteResult)
    (now : ℕ)
    → save_paste p fails a db ≡ (ok r, db')
    → r.was_deduplicated ≡ true
    → delete_paste fails r.references_id db' ≡ (none, db'')
    → has_content (get_paste fails' now a.id db'').0 ≡ false
unfolding clear_reference
delete_paste-orphans p fails fails' a db db' db'' r now saved old gone =
    let (same, _, row) = save_paste-referenced p fails a db db' r saved old in
    let target = existing_id p a db in
    let fresh = save_paste-fresh p fails a db db' r saved in
    let there = save_paste-target p fails a db db' r saved old in
    let after : db'' ≡ delete_paste_row target (add_row (reference_row p a target) db) =
      delete_paste_lem fails r.references_id db' db'' gone
      ∙ ap (λ (x : SavePasteResult). delete_paste_row x.references_id db') same
      ∙ ap (delete_paste_row target) row in
    rw after (
      orphan_unread fails' now a.id
        (delete_paste_row target (add_row (reference_row p a target) db))
        (clear_reference target (reference_row p a target))
        (orphan_found p a target db (target_other db target a.id there fresh)) refl
        (orphan_alone p a target))
