-- ===== src/Migrations.antt =====
-- migrations/migrate.go: the migrations of the PostgreSQL schema, each in a transaction of its own.
-- One process runs them; log lines are left out.
pub mod Resumed
mod Examples
use bincrypt.Prelude.{
  ℕ, ◌||◌, Bool, true, false, List, [], ◌∷◌, Option, none, some, Bytes, bytes_eq, codes, ltb, ◌==◌,
  if◌then◌else◌,
}

-- The schema with its data, and the rows of schema_migrations.
pub record Database (S : Type 0) : Type 0 where
  pub schema : S
  pub versions : List Bytes

pub data MigrateError : Type 0 where
  check_failed read_failed begin_failed apply_failed record_failed commit_failed : MigrateError

-- What becomes of the calls for one file; a commit fails before it has an effect, or its answer is
-- lost after. Whether the statements of the file can be carried out is not decided here.
pub data Course : Type 0 where
  goes_through : Course
  fails_at : MigrateError → Course
  answer_lost : Course

-- strings.HasSuffix
unfoldable pub has_suffix : Bytes → Bytes → Bool
has_suffix [] suffix = bytes_eq [] suffix
has_suffix (c ∷ s) suffix = bytes_eq (c ∷ s) suffix || has_suffix s suffix

-- strings.TrimSuffix
unfoldable pub trim_suffix : Bytes → Bytes → Bytes
trim_suffix [] suffix = []
trim_suffix (c ∷ s) suffix =
    let rest = trim_suffix s suffix in if bytes_eq (c ∷ s) suffix then [] else c ∷ rest

-- Of a file with this suffix, filepath.Ext is the suffix.
abbrev pub sql_suffix : Bytes
sql_suffix = codes ".sql"

unfoldable pub sql_files : List Bytes → List Bytes
unfolding has_suffix
sql_files [] = []
sql_files (name ∷ names) =
    if has_suffix name sql_suffix then name ∷ sql_files names else sql_files names

-- The order of Go's strings.
unfoldable pub is_less : Bytes → Bytes → Bool
is_less s [] = false
is_less [] (_ ∷ _) = true
is_less (c ∷ s) (d ∷ t) = if c == d then is_less s t else ltb c d

unfoldable pub insert_name : Bytes → List Bytes → List Bytes
unfolding is_less
insert_name name [] = name ∷ []
insert_name name (n ∷ names) =
    let rest = insert_name name names in if is_less n name then n ∷ rest else name ∷ n ∷ names

-- sort.Strings
unfoldable pub sort_names : List Bytes → List Bytes
unfolding insert_name
sort_names [] = []
sort_names (name ∷ names) = insert_name name (sort_names names)

unfoldable pub is_recorded : Bytes → List Bytes → Bool
is_recorded version [] = false
is_recorded version (v ∷ versions) = bytes_eq v version || is_recorded version versions

-- `apply` carries out the statements of a file, if the database accepts them.
module _ {S : Type 0} (apply : Bytes → S → Option S) where
  abbrev record_version : Bytes → S → Database S → Database S
  record_version version schema db = record { schema = schema; versions = version ∷ db.versions }

  -- The transaction of a file, after its statements.
  unfoldable pub finish_file :
      Course → Bytes → Option S → Database S → Option MigrateError × Database S
  finish_file course version none db = (some apply_failed, db)
  finish_file goes_through version (some schema) db = (none, record_version version schema db)
  finish_file answer_lost version (some schema) db =
      (some commit_failed, record_version version schema db)
  finish_file (fails_at e) version (some schema) db = (some e, db)

  -- A file that is not recorded; what fails before its statements leaves the database as it is.
  unfoldable pub start_file : Course → Bytes → Database S → Option MigrateError × Database S
  unfolding finish_file
  start_file (fails_at read_failed) file db = (some read_failed, db)
  start_file (fails_at begin_failed) file db = (some begin_failed, db)
  start_file course file db =
      finish_file course (trim_suffix file sql_suffix) (apply file db.schema) db

  -- The body of the loop.
  unfoldable pub migrate_file : Course → Bytes → Database S → Option MigrateError × Database S
  unfolding start_file
  migrate_file (fails_at check_failed) file db = (some check_failed, db)
  migrate_file course file db =
      if is_recorded (trim_suffix file sql_suffix) db.versions
      then (none, db)
      else start_file course file db

  -- An error ends the loop.
  unfoldable pub after_file :
      Option MigrateError × Database S
      → Option MigrateError × Database S
      → Option MigrateError × Database S
  after_file (none, db) rest = rest
  after_file (some e, db) rest = (some e, db)

  module _ (course : Bytes → Course) where
    unfoldable pub migrate_files : List Bytes → Database S → Option MigrateError × Database S
    unfolding migrate_file after_file
    migrate_files [] db = (none, db)
    migrate_files (file ∷ files) db =
        let out = migrate_file (course file) file db in after_file out (migrate_files files out.1)

    -- migrateUp, for the names in the embedded directory.
    unfoldable pub migrate_up : List Bytes → Database S → Option MigrateError × Database S
    unfolding migrate_files sql_files sort_names
    migrate_up names db = migrate_files (sort_names (sql_files names)) db
