-- ===== src/Migrations/Examples.antt =====
-- migrations/migrate.go with two migrations, the second of which is interrupted.
use bincrypt.Prelude.{
  ℕ, ◌+◌, ◌≡◌, refl, List, [], ◌∷◌, Option, some, Bytes, bytes_eq, codes, if◌then◌else◌,
}
use bincrypt.Migrations.{
  Database, commit_failed, Course, goes_through, answer_lost, sql_files, sort_names, trim_suffix,
  is_recorded, migrate_file, migrate_files, migrate_up,
}
use bincrypt.Migrations.Resumed.{migrate_up-resumes}

-- A schema is the number of its changes.
abbrev apply : Bytes → ℕ → Option ℕ
apply file schema = some (schema + 1)

abbrev names : List Bytes
names = codes "b.sql" ∷ codes "migrate.go" ∷ codes "a.sql" ∷ []

abbrev empty : Database ℕ
empty = record { schema = 0; versions = [] }

abbrev course : Bytes → Course
course file = if bytes_eq file (codes "b.sql") then answer_lost else goes_through

abbrev interrupted : Database ℕ
interrupted = record { schema = 2; versions = codes "b" ∷ codes "a" ∷ [] }

is_interrupted : migrate_up apply course names empty ≡ (some commit_failed, interrupted)
unfolding migrate_up sql_files sort_names migrate_files migrate_file trim_suffix is_recorded
    bytes_eq
is_interrupted = refl

migrate_up-resumes_example :
    migrate_up apply (λ file. goes_through) names (migrate_up apply course names empty).1
    ≡ migrate_up apply (λ file. goes_through) names empty
migrate_up-resumes_example = migrate_up-resumes apply course names empty
