-- ===== src/Sqlite/Examples.antt =====
-- Runs of the SQLite backend of src/services/storage_sqlite.go on small databases.
use bincrypt.Prelude.{
  ◌≡◌, refl, ◌≤◌, Bool, true, false, List, [], ◌∷◌, none, some, Bytes, arith, codes, bytes_eq,
  find_by,
}
use bincrypt.Storage.{SaveArgs, Platform, ok, err, SavePasteResult, banned_content, commit_failed}
use bincrypt.Base64.{decode}
use bincrypt.Base64.Alphabet.{value_of}
use bincrypt.Sqlite.{
  PasteRow, Db, empty, ciphertext, plaintext, find_paste, is_banned, insert_paste, insert_hash,
  upsert_banned, insert_burned, delete_paste_row,
}
use bincrypt.Sqlite.Transaction.{Faults, commit_tx}
use bincrypt.Sqlite.Save.{save_paste, plaintext_hash}
use bincrypt.Sqlite.Get.{get_paste}
use bincrypt.Sqlite.Admin.{ban_content_hash, ban_plaintext_hash, delete_paste}
use bincrypt.Sqlite.Invariant.{IsWellFormed}
use bincrypt.Sqlite.Outcomes.{plain_hash}
use bincrypt.Sqlite.Preservation.{
  Request, save, get, burn, delete, ban_content, serve, run, run-IsWellFormed,
}
use bincrypt.Sqlite.Roundtrip.{no_faults, ReadBack, save_paste-get_paste}
use bincrypt.Sqlite.Burn.{deliveries, deliveries-le-one}
use bincrypt.Sqlite.Bans.{IsRefused, ban_content_hash-refuses, ban_plaintext_hash-refuses}

-- A hash that marks its argument; every JSON text is its own "content".
abbrev platform : Platform
platform = record {
  sha256_hex = λ s. b'#' ∷ s;
  json_content = λ s. some s;
  paste_json_size = λ paste. some 200;
}

abbrev args : Bytes → Bool → SaveArgs
args id once = record {
  id = id;
  ciphertext = codes "YWJj";
  expiry_seconds = 60;
  burn_after_read = once;
  is_plaintext = true;
  now = 0;
}

-- One paste, which burns after reading.
abbrev one_paste : Db
one_paste = record {
  pastes =
      record {
        id = codes "a";
        content = some (codes "YWJj");
        references_id = none;
        content_hash = codes "#YWJj";
        plaintext_hash = some (codes "#abc");
        expires_at = 60;
        burn_after_read = 1;
        size_bytes = 4;
        is_plaintext = 1;
        created_at = 0;
      }
      ∷ [];
  hash_index = record { content_hash = codes "#YWJj"; paste_id = codes "a" } ∷ [];
  burned_pastes = [];
  banned_hashes = [];
}

saves_one : (save_paste platform no_faults (args (codes "a") true) empty).1 ≡ one_paste
unfolding save_paste insert_paste insert_hash find_by bytes_eq plaintext_hash decode is_banned
    value_of
saves_one = refl

abbrev two_reads : List (Faults × Request)
two_reads = (no_faults, get 0 (codes "a")) ∷ (no_faults, get 0 (codes "a")) ∷ []

one_delivery : deliveries platform (codes "a") two_reads one_paste ≡ 1
unfolding deliveries serve get_paste find_by bytes_eq insert_burned
one_delivery = refl

burns : (row : PasteRow) → find_paste (codes "a") one_paste ≡ some row → row.burn_after_read ≡ 1
unfolding find_by bytes_eq
burns row e = ground arith

deliveries-le-one_example : deliveries platform (codes "a") two_reads one_paste ≤ 1
deliveries-le-one_example =
    deliveries-le-one platform (codes "a") two_reads one_paste (λ row e. rw (burns row e) refl) tt

-- A save, a copy of it, a read, a ban, a deletion and a burn.
abbrev busy_run : List (Faults × Request)
busy_run =
    (no_faults, save (args (codes "a") true))
    ∷ (no_faults, save (args (codes "b") false))
    ∷ (no_faults, get 1 (codes "a"))
    ∷ (no_faults, ban_content (codes "#YWJj") [])
    ∷ (no_faults, delete (codes "a"))
    ∷ (no_faults, burn (codes "b"))
    ∷ []

run-IsWellFormed_example : IsWellFormed platform (run platform busy_run empty)
run-IsWellFormed_example = run-IsWellFormed platform busy_run

one_paste-IsWellFormed : IsWellFormed platform one_paste
unfolding save_paste run
one_paste-IsWellFormed =
    rw (← saves_one) (run-IsWellFormed platform ((no_faults, save (args (codes "a") true)) ∷ []))

-- The same text again, under another identifier.
abbrev saved_again : SavePasteResult
saved_again = record {
  paste = record {
    id = codes "b";
    expires_at = 60000000000;
    burn_after_read = false;
    size_bytes = 4;
    created_at = 0;
    is_burned = false;
  };
  was_deduplicated = true;
  references_id = codes "a";
  content_hash = codes "#YWJj";
}

abbrev two_pastes : Db
two_pastes = record one_paste {
  pastes =
      record {
        id = codes "b";
        content = none;
        references_id = some (codes "a");
        content_hash = codes "#YWJj";
        plaintext_hash = some (codes "#abc");
        expires_at = 60;
        burn_after_read = 0;
        size_bytes = 4;
        is_plaintext = 1;
        created_at = 0;
      }
      ∷ one_paste.pastes;
}

saves_again :
    save_paste platform no_faults (args (codes "b") false) one_paste ≡ (ok saved_again, two_pastes)
unfolding save_paste insert_paste insert_hash find_by bytes_eq plaintext_hash decode is_banned
    value_of
saves_again = refl

save_paste-get_paste_example : ReadBack platform (args (codes "b") false) 59000000000 two_pastes
save_paste-get_paste_example =
    save_paste-get_paste platform no_faults (args (codes "b") false) 59000000000 one_paste
      two_pastes saved_again one_paste-IsWellFormed saves_again (omega arith)

deletes :
    delete_paste no_faults saved_again.references_id two_pastes
    ≡ (none, delete_paste_row (codes "a") two_pastes)
unfolding delete_paste
deletes = refl

-- The text is on the ciphertext list, or the plaintext is on the other one.
abbrev banned : Db
banned = record empty {
  banned_hashes = record { hash = codes "#YWJj"; hash_type = ciphertext; reason = [] } ∷ [];
}

abbrev banned_plaintext : Db
banned_plaintext = record empty {
  banned_hashes = record { hash = codes "#abc"; hash_type = plaintext; reason = [] } ∷ [];
}

bans : ban_content_hash no_faults (codes "#YWJj") [] empty ≡ (none, banned)
unfolding ban_content_hash upsert_banned
bans = refl

bans_plaintext : ban_plaintext_hash no_faults (codes "#abc") [] empty ≡ (none, banned_plaintext)
unfolding ban_plaintext_hash upsert_banned
bans_plaintext = refl

nothing_banned :
    (is_banned plaintext (codes "#YWJj") empty.banned_hashes ≡ false)
    × (is_banned ciphertext (codes "#abc") empty.banned_hashes ≡ false)
unfolding is_banned
nothing_banned = (refl, refl)

ban_content_hash-refuses_example :
    IsRefused platform no_faults (args (codes "b") false) (run platform busy_run banned)
ban_content_hash-refuses_example =
    ban_content_hash-refuses platform no_faults no_faults (codes "#YWJj") [] empty banned busy_run
      (args (codes "b") false) nothing_banned.0 bans refl

plain_hash_abc : plain_hash platform (args (codes "b") false) ≡ codes "#abc"
unfolding plaintext_hash decode value_of
plain_hash_abc = refl

ban_plaintext_hash-refuses_example :
    IsRefused platform no_faults (args (codes "b") false) (run platform busy_run banned_plaintext)
ban_plaintext_hash-refuses_example =
    ban_plaintext_hash-refuses platform no_faults no_faults (codes "#abc") [] empty banned_plaintext
      busy_run (args (codes "b") false) nothing_banned.1 bans_plaintext plain_hash_abc refl

on_one_list :
    (is_banned ciphertext (codes "#YWJj") banned.banned_hashes ≡ true)
    × (is_banned plaintext (codes "#YWJj") banned.banned_hashes ≡ false)
unfolding is_banned bytes_eq
on_one_list = (refl, refl)

abbrev after_refusal : Db
after_refusal = (save_paste platform no_faults (args (codes "b") false) banned).1

refused :
    save_paste platform no_faults (args (codes "b") false) banned
    ≡ (err banned_content, after_refusal)
unfolding save_paste plaintext_hash decode value_of is_banned bytes_eq
refused = refl

-- The read fails to commit, after it has marked the paste.
abbrev lost_commit : Faults
lost_commit commit_tx = true
lost_commit _ = false

abbrev after_failure : Db
after_failure = (get_paste lost_commit 1 (codes "a") one_paste).1

fails_to_commit : get_paste lost_commit 1 (codes "a") one_paste ≡ (err commit_failed, after_failure)
unfolding get_paste find_by bytes_eq insert_burned
fails_to_commit = refl
