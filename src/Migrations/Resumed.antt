-- ===== src/Migrations/Resumed.antt =====
-- What a second run of migrations/migrate.go does after a first one that may have failed.
use bincrypt.Prelude.{
  ◌≡◌, ◌⊎◌, refl, sym, ◌∙◌, ap, true, false, List, [], ◌∷◌, Option, none, some, Bytes,
  bytes_eq_refl, arith, if◌then◌else◌, Bool-cases, inl, inr,
}
use bincrypt.Migrations.{
  Database, MigrateError, check_failed, read_failed, begin_failed, apply_failed, record_failed,
  commit_failed, Course, goes_through, fails_at, answer_lost, trim_suffix, sql_suffix, is_recorded,
  finish_file, start_file, migrate_file, after_file, migrate_files, sql_files, sort_names,
  migrate_up,
}

module _ {S : Type 0} (apply : Bytes → S → Option S) where
  abbrev Outcome : Type 0
  Outcome = Option MigrateError × Database S

  abbrev smooth : Bytes → Course
  smooth file = goes_through

  abbrev version_of : Bytes → Bytes
  version_of file = trim_suffix file sql_suffix

  abbrev HasFile : Bytes → Database S → Type 0
  HasFile file db = is_recorded (version_of file) db.versions ≡ true

  -- What is recorded stays recorded.
  abbrev Keeps : Database S → Database S → Type 0
  Keeps db db' = (v : Bytes) → is_recorded v db.versions ≡ true → is_recorded v db'.versions ≡ true

  -- The file was carried out as it is without a failure, and is recorded.
  abbrev IsWhole : Bytes → Database S → Database S → Type 0
  IsWhole file db db' =
      (migrate_file apply goes_through file db ≡ (none, db')) × HasFile file db' × Keeps db db'

  -- An error leaves the database as it was, or all was done.
  abbrev IsStep : Bytes → Database S → Outcome → Type 0
  IsStep file db (none, db') = IsWhole file db db'
  IsStep file db (some e, db') = (db' ≡ db) ⊎ IsWhole file db db'

  skip :
      (file : Bytes) (db : Database S)
      → HasFile file db
      → migrate_file apply goes_through file db ≡ (none, db)
  unfolding migrate_file
  skip file db h = rw h refl

  finish-IsStep :
      (course : Course) (file : Bytes) (db : Database S) (o : Option S)
      → is_recorded (version_of file) db.versions ≡ false
      → apply file db.schema ≡ o
      → IsStep file db (finish_file apply course (version_of file) o db)
  unfolding finish_file migrate_file start_file is_recorded
  finish-IsStep goes_through file db none new e = inl refl
  finish-IsStep (fails_at x) file db none new e = inl refl
  finish-IsStep answer_lost file db none new e = inl refl
  finish-IsStep goes_through file db (some schema) new e =
      (rw (new, e) refl, rw (bytes_eq_refl (version_of file)) refl, λ v h. ground arith)
  finish-IsStep (fails_at x) file db (some schema) new e = inl refl
  finish-IsStep answer_lost file db (some schema) new e =
      inr (rw (new, e) refl, rw (bytes_eq_refl (version_of file)) refl, λ v h. ground arith)

  start-IsStep :
      (course : Course) (file : Bytes) (db : Database S)
      → is_recorded (version_of file) db.versions ≡ false
      → IsStep file db (start_file apply course file db)
  unfolding start_file
  start-IsStep goes_through file db new = finish-IsStep goes_through file db _ new refl
  start-IsStep answer_lost file db new = finish-IsStep answer_lost file db _ new refl
  start-IsStep (fails_at read_failed) file db new = inl refl
  start-IsStep (fails_at begin_failed) file db new = inl refl
  start-IsStep (fails_at check_failed) file db new =
      finish-IsStep (fails_at check_failed) file db _ new refl
  start-IsStep (fails_at apply_failed) file db new =
      finish-IsStep (fails_at apply_failed) file db _ new refl
  start-IsStep (fails_at record_failed) file db new =
      finish-IsStep (fails_at record_failed) file db _ new refl
  start-IsStep (fails_at commit_failed) file db new =
      finish-IsStep (fails_at commit_failed) file db _ new refl

  unless-IsStep :
      (course : Course) (file : Bytes) (db : Database S)
      → IsStep file db (
          if is_recorded (version_of file) db.versions
          then (none, db)
          else start_file apply course file db)
  unless-IsStep course file db = elim (Bool-cases (is_recorded (version_of file) db.versions)) [
    | inl old ↦ rw old (skip file db old, old, λ v h. h)
    | inr new ↦ rw new (start-IsStep course file db new)
  ]

  migrate-IsStep :
      (course : Course) (file : Bytes) (db : Database S)
      → IsStep file db (migrate_file apply course file db)
  unfolding migrate_file
  migrate-IsStep goes_through file db = unless-IsStep goes_through file db
  migrate-IsStep answer_lost file db = unless-IsStep answer_lost file db
  migrate-IsStep (fails_at check_failed) file db = inl refl
  migrate-IsStep (fails_at read_failed) file db = unless-IsStep (fails_at read_failed) file db
  migrate-IsStep (fails_at begin_failed) file db = unless-IsStep (fails_at begin_failed) file db
  migrate-IsStep (fails_at apply_failed) file db = unless-IsStep (fails_at apply_failed) file db
  migrate-IsStep (fails_at record_failed) file db = unless-IsStep (fails_at record_failed) file db
  migrate-IsStep (fails_at commit_failed) file db = unless-IsStep (fails_at commit_failed) file db

  kept :
      (file : Bytes) (db : Database S) (out : Outcome) (v : Bytes)
      → IsStep file db out
      → is_recorded v db.versions ≡ true
      → is_recorded v out.1.versions ≡ true
  kept file db (none, db') v (whole, has, keeps) h = keeps v h
  kept file db (some e, db') v (inl same) h = rw same h
  kept file db (some e, db') v (inr (whole, has, keeps)) h = keeps v h

  after-kept :
      (out : Outcome) (next : Database S → Outcome) (v : Bytes)
      → is_recorded v out.1.versions ≡ true
      → ((db : Database S)
          → is_recorded v db.versions ≡ true
          → is_recorded v (next db).1.versions ≡ true)
      → is_recorded v (after_file apply out (next out.1)).1.versions ≡ true
  unfolding after_file
  after-kept (none, db) next v h again = again db h
  after-kept (some e, db) next v h again = h

  run-Keeps :
      (course : Bytes → Course) (files : List Bytes) (db : Database S)
      → Keeps db (migrate_files apply course files db).1
  unfolding migrate_files
  run-Keeps course [] db v h = h
  run-Keeps course (file ∷ files) db v h =
      let out = migrate_file apply (course file) file db in
      let step = migrate-IsStep (course file) file db in
      after-kept out (migrate_files apply course files) v (kept file db out v step h)
        (λ db' h'. run-Keeps course files db' v h')

  -- After a file that is done.
  go_on :
      (file : Bytes) (files : List Bytes) (db db' : Database S)
      → migrate_file apply goes_through file db ≡ (none, db')
      → migrate_files apply smooth (file ∷ files) db ≡ migrate_files apply smooth files db'
  unfolding migrate_files after_file
  go_on file files db db' e = rw e refl

  -- One file and the rest, in both runs.
  resume-file :
      (file : Bytes) (files : List Bytes) (db : Database S) (course : Bytes → Course)
      (out : Outcome)
      → IsStep file db out
      → migrate_files apply smooth files (migrate_files apply course files out.1).1
        ≡ migrate_files apply smooth files out.1
      → migrate_files apply smooth
          (file ∷ files)
          (after_file apply out (migrate_files apply course files out.1)).1
        ≡ migrate_files apply smooth (file ∷ files) db
  unfolding after_file
  resume-file file files db course (none, db') (whole, has, keeps) again =
      let end = (migrate_files apply course files db').1 in
      go_on file files end end (skip file end (run-Keeps course files db' (version_of file) has))
      ∙ again
      ∙ sym (go_on file files db db' whole)
  resume-file file files db course (some e, db') (inl same) again =
      ap (λ (d : Database S). migrate_files apply smooth (file ∷ files) d) same
  resume-file file files db course (some e, db') (inr (whole, has, keeps)) again =
      go_on file files db' db' (skip file db' has) ∙ sym (go_on file files db db' whole)

  resume :
      (course : Bytes → Course) (files : List Bytes) (db : Database S)
      → migrate_files apply smooth files (migrate_files apply course files db).1
        ≡ migrate_files apply smooth files db
  unfolding migrate_files
  resume course [] db = refl
  resume course (file ∷ files) db =
      let out = migrate_file apply (course file) file db in
      resume-file file files db course out (migrate-IsStep (course file) file db)
        (resume course files out.1)

-- However a run of the migrations ends, with a failure of any of its calls or the lost answer of a
-- commit, a run after it that meets no such failure ends as it would have ended alone: with the same
-- schema, the same recorded versions and the same error, if the statements of a file are refused.
-- What the statements of a file do depends on the schema only.
pub migrate_up-resumes :
    {S : Type 0} (apply : Bytes → S → Option S) (course : Bytes → Course) (names : List Bytes)
    (db : Database S)
    → migrate_up apply (λ file. goes_through) names (migrate_up apply course names db).1
      ≡ migrate_up apply (λ file. goes_through) names db
unfolding migrate_up
migrate_up-resumes apply course names db = resume apply course (sort_names (sql_files names)) db
