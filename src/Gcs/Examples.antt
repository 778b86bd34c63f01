-- ===== src/Gcs/Examples.antt =====
-- Runs of the Cloud Storage backend of src/services/storage_gcs.go on small buckets.
use bincrypt.Prelude.{
  ℕ, ◌≡◌, refl, Bool, true, false, [], ◌∷◌, some, Bytes, arith, codes, bytes_eq, find_by, remove_by,
}
use bincrypt.Storage.{SaveArgs, Platform, ok, err, get_failed}
use bincrypt.Sqlite.{is_some}
use bincrypt.Sqlite.Save.{save_result, plaintext_hash}
use bincrypt.Gcs.{
  no_metadata, attrs_reply, Object, Bucket, missing, succeeded, failed, apply, request,
  paste_object_name, hash_index_object_name,
}
use bincrypt.Gcs.Save.{
  save_paste, save_hashed, check_bans, check_hash, check_ban, ban_error, or_save, save_allowed,
  after_find, save_original, written,
}
use bincrypt.Gcs.Get.{start, answer_of, get_paste}
use bincrypt.Gcs.Admin.{delete_paste}
use bincrypt.Gcs.Termination.{resume_all, get_paste-terminates}
use bincrypt.Gcs.Outcomes.{reliable}
use bincrypt.Gcs.Roundtrip.{read_back, save_paste-read_back}
use bincrypt.Gcs.Dangling.{delete_paste-dangles}

abbrev platform : Platform
platform = record {
  sha256_hex = λ s. b'#' ∷ s;
  json_content = λ s. some s;
  paste_json_size = λ paste. some 200;
}

abbrev args : Bytes → Bool → SaveArgs
args id once = record {
  id = id;
  ciphertext = codes "xyz";
  expiry_seconds = 60;
  burn_after_read = once;
  is_plaintext = false;
  now = 0;
}

abbrev pub object_of : Bytes → ℕ → Bool → Bytes → Bytes → Object
object_of id expires once references content = record {
  name = paste_object_name id;
  generation = expires;
  metadata = record {
    expires_at = some expires;
    created_at = some 0;
    size_bytes = some 3;
    burn_after_read = once;
    references = references;
    paste_id = [];
  };
  content = content;
}

abbrev empty : Bucket
empty = record { objects = []; next_generation = 1 }

-- A save, and a read of what was saved.
abbrev saved : Bucket
unfolding save_paste save_hashed check_bans check_hash check_ban ban_error or_save save_allowed
    after_find save_original written request apply attrs_reply plaintext_hash
saved = (save_paste platform reliable (args (codes "a") true) empty).1

save_paste_test :
    (save_paste platform reliable (args (codes "a") true) empty).0
    ≡ ok (save_result platform (args (codes "a") true) false [])
unfolding save_paste save_hashed check_bans check_hash check_ban ban_error or_save save_allowed
    after_find save_original written request apply attrs_reply plaintext_hash find_by remove_by
    bytes_eq
save_paste_test = refl

save_paste-read_back_example :
    (get_paste 5 (codes "a") reliable saved).0
    ≡ some (
        read_back platform reliable
          (args (codes "a") true)
          (save_result platform (args (codes "a") true) false [])
          saved)
unfolding saved save_paste save_hashed check_bans check_hash check_ban ban_error or_save
    save_allowed after_find save_original written request apply attrs_reply plaintext_hash find_by
    remove_by bytes_eq
save_paste-read_back_example =
    save_paste-read_back platform reliable (args (codes "a") true) 5 empty saved _ refl refl
      (omega arith)

get_paste-terminates_example :
    (is_some (
        answer_of
          (resume_all 5 (codes "a") (failed ∷ missing ∷ missing ∷ succeeded ∷ failed ∷ []) start))
      ≡ true)
    × (is_some (get_paste 5 (codes "a") reliable empty).0 ≡ true)
get_paste-terminates_example =
    get_paste-terminates 5 (codes "a") reliable
      (failed ∷ missing ∷ missing ∷ succeeded ∷ failed ∷ []) empty (omega arith)

-- "b" expired at 1 and refers to "a", which expires at 60.
abbrev two_pastes : Bucket
two_pastes = record {
  objects =
      object_of (codes "b") 1 false (codes "a") []
      ∷ object_of (codes "a") 60 false [] (codes "xyz")
      ∷ [];
  next_generation = 61;
}

-- The index of the hash of "xyz" names "a".
abbrev indexed : Bucket
indexed = record {
  objects =
      record {
        name = hash_index_object_name (codes "#xyz");
        generation = 2;
        metadata = record no_metadata { paste_id = codes "a" };
        content = [];
      }
      ∷ object_of (codes "a") 60 false [] (codes "xyz")
      ∷ [];
  next_generation = 61;
}

abbrev without_a : Bucket
unfolding delete_paste
without_a = (delete_paste reliable (codes "a") indexed).1

delete_paste-dangles_example :
    ((save_paste platform reliable (args (codes "b") false) without_a).0
      ≡ ok (save_result platform (args (codes "b") false) true (codes "a")))
    × ((get_paste 5
          (codes "b")
          reliable
          (save_paste platform reliable (args (codes "b") false) without_a).1).0
        ≡ some (err get_failed))
unfolding without_a find_by bytes_eq
delete_paste-dangles_example =
    delete_paste-dangles platform (args (codes "b") false) 5 indexed
      (record {
        name = hash_index_object_name (codes "#xyz");
        generation = 2;
        metadata = record no_metadata { paste_id = codes "a" };
        content = [];
      })
      refl refl refl refl refl refl (omega arith)
