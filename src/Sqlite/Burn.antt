-- ===== src/Sqlite/Burn.antt =====
-- A burn-after-read paste is delivered at most once, over any run of requests.
use mathlib.Core.Option
use bincrypt.Prelude.{
  ℕ, ◌+◌, ◌≤◌, ◌≡◌, ◌≢◌, ◌∙◌, refl, sym, ap, Bool, true, false, not, ◌&&◌, List, [], ◌∷◌, Option,
  none, some, Bytes, arith, is_empty, Bool-cases, Option-cases, inl, inr, find_by, bytes_eq,
  bytes_eq_iff, bytes_eq_refl, find_by-remove_by, if◌then◌else◌,
}
use bincrypt.Storage.{SaveArgs, Platform, Result, ok, err, StoreError, Paste}
use bincrypt.Sqlite.{
  PasteRow, Db, find_paste, row_id, self, is_burned, insert_burned, insert_paste, insert_hash,
  delete_paste_row, clear_reference, is_some,
}
use bincrypt.Sqlite.Transaction.{Faults, delete_row}
use bincrypt.Sqlite.Save.{save_paste}
use bincrypt.Sqlite.Get.{get_paste, int_to_bool}
use bincrypt.Sqlite.Admin.{mark_burned, delete_paste, ban_content_hash, ban_plaintext_hash}
use bincrypt.Sqlite.Outcomes.{
  mark, get_paste-tables, get_paste-err, get_paste-burned, get_paste-Served,
}
use bincrypt.Sqlite.Deletion.{find_by-deleted}
use bincrypt.Sqlite.Preservation.{
  Request, save, get, burn, delete, ban_content, ban_plaintext, serve, BurnedGrows, get_paste-grows,
}

-- Does the answer carry a content?
abbrev pub has_content : Result StoreError (Bytes × Paste) → Bool
has_content (ok (content, paste)) = not (is_empty content)
has_content (err e) = false

abbrev pub one_if : Bool → ℕ
one_if true = 1
one_if false = 0

module _ (p : Platform) (id : Bytes) where
  -- Is the request a read of `id` that is answered with a content?
  abbrev pub delivers : Faults → Request → Db → Bool
  delivers fails (get now k) db = bytes_eq k id && has_content (get_paste fails now k db).0
  delivers fails _ db = false

  -- How many reads of `id` a run answers with a content.
  unfoldable pub deliveries : List (Faults × Request) → Db → ℕ
  deliveries [] db = 0
  deliveries ((fails, r) ∷ rs) db =
      one_if (delivers fails r db) + deliveries rs (serve p fails r db)

  -- No request saves a paste under `id`.
  abbrev pub SavesOthers : List (Faults × Request) → Type 0
  SavesOthers [] = Unit
  SavesOthers ((fails, save a) ∷ rs) = (a.id ≢ id) × SavesOthers rs
  SavesOthers ((fails, r) ∷ rs) = SavesOthers rs

  -- One while the paste is there and not burned.
  abbrev charge_of : Option PasteRow → Bool → ℕ
  charge_of none burned = 0
  charge_of (some row) burned = one_if (not burned)

  charge_of-le-one : (o : Option PasteRow) (burned : Bool) → charge_of o burned ≤ 1
  charge_of-le-one none burned = omega arith
  charge_of-le-one (some row) true = omega arith
  charge_of-le-one (some row) false = omega arith

  abbrev charge : Db → ℕ
  charge db = charge_of (find_paste id db) (is_burned id db)

  -- If the paste is there, it burns after reading.
  abbrev pub BurnsAfterRead : Db → Type 0
  BurnsAfterRead db =
      (row : PasteRow) → find_paste id db ≡ some row → int_to_bool row.burn_after_read ≡ true

  -- What a request that delivers nothing does to the paste.
  record Quiet (db db' : Db) : Type 0 where
    still :
        (row : PasteRow)
        → find_paste id db' ≡ some row
        → (old : PasteRow) × (find_paste id db ≡ some old)
          × (row.burn_after_read ≡ old.burn_after_read)
    burned : is_some (find_paste id db') ≡ true → is_burned id db ≡ true → is_burned id db' ≡ true

  Quiet-charge : (db db' : Db) → Quiet db db' → charge db' ≤ charge db
  Quiet-charge db db' q = elim (Option-cases (find_paste id db')) [
    | inl missing ↦ ground arith
    | inr (row, found) ↦
        let (old, was, same) = q.still row found in ground (arith, q.burned (rw found refl))
  ]

  Quiet-burns : (db db' : Db) → Quiet db db' → BurnsAfterRead db → BurnsAfterRead db'
  Quiet-burns db db' q b row found = let (old, was, same) = q.still row found in rw same (b old was)

  same-Quiet :
      (db db' : Db)
      → find_paste id db' ≡ find_paste id db
      → (is_burned id db ≡ true → is_burned id db' ≡ true)
      → Quiet db db'
  same-Quiet db db' e b = record {
    still = λ row found. (row, sym e ∙ found, refl);
    burned = λ _. b;
  }

  save-Quiet :
      (fails : Faults) (a : SaveArgs) (db : Db) → a.id ≢ id → Quiet db (serve p fails (save a) db)
  unfolding serve save_paste insert_paste insert_hash find_by
  save-Quiet fails a db other =
      same-Quiet db _ (ground (arith, bytes_eq_iff a.id id)) (λ h. ground arith)

  deleted_row :
      (k : Bytes) (b : Bool) (o : Option PasteRow) (row : PasteRow)
      → (if b then none else Option.map (clear_reference k) o) ≡ some row
      → (old : PasteRow) × (o ≡ some old) × (row.burn_after_read ≡ old.burn_after_read)
  unfolding clear_reference
  deleted_row k true o row e = cc
  deleted_row k false none row e = cc
  deleted_row k false (some old) row e = (old, refl, ground arith)

  deleted-burned :
      (k : Bytes) (b : Bool) (o : Option PasteRow) (burned : Option Bytes)
      → is_some (if b then none else Option.map (clear_reference k) o) ≡ true
      → is_some burned ≡ true
      → is_some (if b then none else burned) ≡ true
  deleted-burned k true o burned e h = e
  deleted-burned k false o burned e h = h

  delete-Quiet : (fails : Faults) (k : Bytes) (db : Db) → Quiet db (serve p fails (delete k) db)
  unfolding serve delete_paste delete_paste_row
  delete-Quiet fails k db = elim (Bool-cases (fails delete_row)) [
    | inl failed ↦ rw (failed, serve, delete_paste) (same-Quiet db db refl (λ h. h))
    | inr passed ↦
        rw (passed, serve, delete_paste)
          (record {
            still = λ row found.
                deleted_row k (bytes_eq k id) (find_paste id db) row
                  (rw (find_by-deleted k id db.pastes) at found);
            burned = λ there h. rw (find_by-remove_by self id k db.burned_pastes) (
                deleted-burned k (bytes_eq k id) (find_paste id db) _
                  (rw (find_by-deleted k id db.pastes) at there) h);
          })
  ]

  burn-Quiet : (fails : Faults) (k : Bytes) (db : Db) → Quiet db (serve p fails (burn k) db)
  unfolding serve mark_burned insert_burned find_by
  burn-Quiet fails k db = same-Quiet db _ (ground arith) (λ h. ground arith)

  grown : (db db' : Db) → BurnedGrows p db db' → is_burned id db ≡ true → is_burned id db' ≡ true
  unfolding find_by
  grown db db' (inl same) h = rw same h
  grown db db' (inr (k, more, _)) h = rw more (ground arith)

  get-Quiet :
      (fails : Faults) (now : ℕ) (k : Bytes) (db : Db) → Quiet db (serve p fails (get now k) db)
  unfolding serve
  get-Quiet fails now k db =
      same-Quiet db (get_paste fails now k db).1
        (ap (find_by row_id id) (get_paste-tables fails now k db).0)
        (grown db (get_paste fails now k db).1 (get_paste-grows p fails now k db))

  ban-Quiet :
      (fails : Faults) (hash reason : Bytes) (db : Db)
      → Quiet db (serve p fails (ban_content hash reason) db)
        × Quiet db (serve p fails (ban_plaintext hash reason) db)
  unfolding serve ban_content_hash ban_plaintext_hash
  ban-Quiet fails hash reason db = (
    same-Quiet db _ (ground arith) (λ h. ground arith),
    same-Quiet db _ (ground arith) (λ h. ground arith),
  )

  own-charge :
      (fails : Faults) (now : ℕ) (db : Db) (out : Result StoreError (Bytes × Paste) × Db)
      → BurnsAfterRead db
      → get_paste fails now id db ≡ out
      → one_if (has_content out.0) + charge out.1 ≤ charge db
  unfolding find_by
  own-charge fails now db (err e, db') b h =
      rw (get_paste-err fails now id db db' e h) (omega arith)
  own-charge fails now db (ok (content, paste), db') b h = elim (Bool-cases (is_burned id db)) [
    | inl burned ↦
        let (empty, _, same) = get_paste-burned fails now id db db' content paste h burned in
        rw (empty, same) (omega arith)
    | inr fresh ↦
        let s = get_paste-Served fails now id db db' content paste h fresh in
        let once = b s.row s.found in
        let marked : db' ≡ mark true id db = rw once at s.marked in
        rw (marked, s.found, fresh) (ground (arith, bytes_eq_refl id))
  ]

  get-charge :
      (fails : Faults) (now : ℕ) (k : Bytes) (db : Db)
      → BurnsAfterRead db
      → one_if (delivers fails (get now k) db) + charge (serve p fails (get now k) db) ≤ charge db
  unfolding serve
  get-charge fails now k db b = elim (Bool-cases (bytes_eq k id)) [
    | inl same ↦
        let named : k ≡ id = ground (arith, bytes_eq_iff k id) in
        rw (same, named) (own-charge fails now db (get_paste fails now id db) b refl)
    | inr other ↦ rw other (omega (arith, Quiet-charge db _ (get-Quiet fails now k db)))
  ]

  -- A request that delivers nothing, and the rest of the run.
  later :
      (n : ℕ) (db db' : Db)
      → Quiet db db'
      → BurnsAfterRead db
      → (BurnsAfterRead db' → n ≤ charge db')
      → 0 + n ≤ charge db
  later n db db' q b rest = omega (arith, Quiet-charge db db' q, rest (Quiet-burns db db' q b))

  deliveries-le-charge :
      (rs : List (Faults × Request)) (db : Db)
      → BurnsAfterRead db
      → SavesOthers rs
      → deliveries rs db ≤ charge db
  unfolding deliveries
  deliveries-le-charge [] db b o = omega arith
  deliveries-le-charge ((fails, save a) ∷ rs) db b (other, o) =
      later _ db _ (save-Quiet fails a db other) b (λ b'. deliveries-le-charge rs _ b' o)
  deliveries-le-charge ((fails, get now k) ∷ rs) db b o = omega (
    arith,
    get-charge fails now k db b,
    deliveries-le-charge rs (serve p fails (get now k) db)
        (Quiet-burns db _ (get-Quiet fails now k db) b) o,
  )
  deliveries-le-charge ((fails, burn k) ∷ rs) db b o =
      later _ db _ (burn-Quiet fails k db) b (λ b'. deliveries-le-charge rs _ b' o)
  deliveries-le-charge ((fails, delete k) ∷ rs) db b o =
      later _ db _ (delete-Quiet fails k db) b (λ b'. deliveries-le-charge rs _ b' o)
  deliveries-le-charge ((fails, ban_content h k) ∷ rs) db b o =
      later _ db _ (ban-Quiet fails h k db).0 b (λ b'. deliveries-le-charge rs _ b' o)
  deliveries-le-charge ((fails, ban_plaintext h k) ∷ rs) db b o =
      later _ db _ (ban-Quiet fails h k db).1 b (λ b'. deliveries-le-charge rs _ b' o)

-- If the paste stored under an identifier, should there be one, burns after reading, then any run
-- of requests of which none saves under that identifier answers at most one read of it with a
-- content, whatever times and faults the requests meet and whatever is burned, deleted and banned
-- between them.
pub deliveries-le-one :
    (p : Platform) (id : Bytes) (rs : List (Faults × Request)) (db : Db)
    → BurnsAfterRead p id db
    → SavesOthers p id rs
    → deliveries p id rs db ≤ 1
deliveries-le-one p id rs db b o = omega (
  arith,
  deliveries-le-charge p id rs db b o,
  charge_of-le-one p id (find_paste id db) (is_burned id db),
)
