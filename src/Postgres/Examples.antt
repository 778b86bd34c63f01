-- ===== src/Postgres/Examples.antt =====
-- Runs of the PostgreSQL backend of src/services/storage_postgres.go on a small database.
use bincrypt.Prelude.{◌≡◌, refl, true, false, [], ◌∷◌, none, some, arith, codes, bytes_eq, find_by}
use bincrypt.Storage.{Platform, SaveArgs, err, reference_failed}
use bincrypt.Sqlite.{Db, is_banned}
use bincrypt.Postgres.{insert_paste}
use bincrypt.Sqlite.Roundtrip.{no_faults}
use bincrypt.Postgres.Save.{save_paste}
use bincrypt.Postgres.Refinement.{IsRescaled, postgres_backend-IsRescaled}

abbrev platform : Platform
platform = record {
  sha256_hex = λ s. codes "#";
  json_content = λ s. some s;
  paste_json_size = λ paste. some 200;
}

-- One paste, which burns after reading, and expires after a minute.
abbrev one_paste : Db
one_paste = record {
  pastes =
      record {
        id = codes "a";
        content = some (codes "YWJj");
        references_id = none;
        content_hash = codes "#";
        plaintext_hash = none;
        expires_at = 60000000;
        burn_after_read = 1;
        size_bytes = 4;
        is_plaintext = 0;
        created_at = 0;
      }
      ∷ [];
  hash_index = record { content_hash = codes "#"; paste_id = codes "a" } ∷ [];
  burned_pastes = [];
  banned_hashes = [];
}

abbrev args : SaveArgs
args = record {
  id = codes "b";
  ciphertext = codes "eHl6";
  expiry_seconds = 60;
  burn_after_read = true;
  is_plaintext = false;
  now = 1234567;
}

-- An identifier of more than 43 characters is refused.
long_refused :
    (save_paste platform no_faults
      (record args { id = codes "AAAAAAAAAAAAAAAAAAAAAAAAAAAAAAAAAAAAAAAAAAAA" })
      one_paste
      one_paste).0
    ≡ err reference_failed
unfolding save_paste find_by bytes_eq is_banned insert_paste
long_refused = refl

postgres_backend-IsRescaled_example :
    IsRescaled platform no_faults args 1234567 (codes "a") (codes "#") (codes "spam") one_paste
postgres_backend-IsRescaled_example =
    postgres_backend-IsRescaled platform no_faults args 1234567 (codes "a") (codes "#")
      (codes "spam") one_paste (λ s. omega arith) (omega arith) (omega arith) (omega arith)
