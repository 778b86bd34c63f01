-- ===== src/Handlers/Examples.antt =====
-- The handlers of src/handlers_paste.go over the SQLite backend, with one paste.
use bincrypt.Prelude.{
  arith, ℕ, zero, suc, ◌+◌, ◌≡◌, refl, ◌↔◌, true, [], ◌∷◌, none, some, Bytes, codes, pos, bytes_eq,
  find_by,
}
use bincrypt.Text.{trim_space}
use bincrypt.Storage.{Platform, Paste, ok}
use bincrypt.Base64.{encode, decode}
use bincrypt.Base64.Alphabet.{value_of, symbol}
use bincrypt.Base64.Identifier.{generate_id, matches_id}
use bincrypt.DeletionQueue.{new_deletion_queue}
use bincrypt.Validation.{
  decode_any, CreatePasteRequest, sanitize_string, validate_create_paste_request, validate_paste,
  validate_paste_id, validate_base64, validate_expiry_seconds,
}
use bincrypt.Sqlite.{Db, empty, is_burned, insert_paste, insert_hash, is_banned, insert_burned}
use bincrypt.Sqlite.Save.{save_paste}
use bincrypt.Sqlite.Get.{get_paste}
use bincrypt.Sqlite.Roundtrip.{no_faults}
use bincrypt.Sqlite.Backend.{sqlite_backend}
use bincrypt.Handlers.{Response, World, Failure, Body, simple_error}
use bincrypt.Handlers.Create.{Json, Inputs, prepare, adjust_expiry, create_paste}
use bincrypt.Handlers.Read.{Clocks, get_paste_api}
use bincrypt.Handlers.Served.{
  IsServable, get_paste_api-ok_iff, get_paste_api-served, get_paste_api-burned,
}
use bincrypt.Handlers.Delivered.{IsModest, IsDelivered, create_paste-IsDelivered}
use bincrypt.Sqlite.Invariant.{IsWellFormed}
use bincrypt.Sqlite.Preservation.{run, run-IsWellFormed}
use mathlib.Core.Path.{subst}
use bincrypt.Handlers.Stored.{IsStored, create_paste-IsStored}

abbrev platform : Platform
platform = record {
  sha256_hex = λ s. b'#' ∷ s;
  json_content = λ s. some s;
  paste_json_size = λ paste. some 200;
}

abbrev json : Json
json = record {
  marshal_metadata = λ m. some m;
  marshal_plaintext = λ text metadata. some (b'{' ∷ text);
}

-- A text of 43 letters, and 32 bytes of zeros, which give it.
abbrev id : Bytes
id = codes "AAAAAAAAAAAAAAAAAAAAAAAAAAAAAAAAAAAAAAAAAAA"

abbrev zeros : ℕ → Bytes
zeros zero = []
zeros (suc n) = 0 ∷ zeros n

abbrev request : CreatePasteRequest
request = record {
  ciphertext = codes "YWJj";
  plaintext = [];
  metadata = none;
  expiry_seconds = pos 3600;
  burn_after_read = true;
}

abbrev server : Db → World Db
server db = record {
  store = db;
  metrics = record { pastes_created = 0; pastes_viewed = 0; pastes_burned = 0 };
  queue = new_deletion_queue 1;
  audit = [];
}

abbrev inputs : Inputs
inputs = record { now = 0; entropy = some (zeros 32) }

accepts :
    (create_paste platform
      (sqlite_backend platform no_faults)
      json
      inputs
      (some request)
      (server empty)).0.status
    ≡ 200
unfolding create_paste validate_create_paste_request validate_base64 decode_any decode value_of
    validate_expiry_seconds prepare generate_id save_paste is_banned find_by insert_paste
    insert_hash bytes_eq encode validate_paste matches_id adjust_expiry symbol
accepts = refl

create_paste-IsStored_example :
    IsStored platform (sqlite_backend platform no_faults) json inputs (server empty) request (
      create_paste platform
        (sqlite_backend platform no_faults)
        json
        inputs
        (some request)
        (server empty))
create_paste-IsStored_example =
    create_paste-IsStored platform (sqlite_backend platform no_faults) json inputs (server empty)
      request accepts

same_tail : (c : ℕ) (s t : Bytes) → ◌≡◌ {A = Bytes} (c ∷ s) (c ∷ t) → s ≡ t
same_tail c s t h = cc

empty-IsWellFormed : IsWellFormed platform empty
unfolding run
empty-IsWellFormed = run-IsWellFormed platform []

modest : (s : Bytes) → some (b'{' ∷ []) ≡ some s → IsModest s
modest s h =
    let same : b'{' ∷ [] ≡ s = cc in
    subst IsModest same ((omega arith, tt), omega arith, omega arith)

abbrev later : Clocks
later = record { stored = 5000000000; handled = 5000000000 }

create_paste-IsDelivered_example :
    IsDelivered platform json inputs request no_faults later (server empty)
unfolding adjust_expiry
create_paste-IsDelivered_example =
    create_paste-IsDelivered platform json inputs request no_faults later (server empty) (zeros 32)
      modest (λ text x plain size h kept. same_tail b'#' x text)
      (λ k text x after named read. omega arith) empty-IsWellFormed refl refl (omega arith) accepts
      (omega arith) (omega arith)

-- The paste, unread and burned.
abbrev unread : Db
unread = record {
  pastes =
      record {
        id = id;
        content = some (codes "YWJj");
        references_id = none;
        content_hash = codes "#YWJj";
        plaintext_hash = none;
        expires_at = 3600;
        burn_after_read = 1;
        size_bytes = 4;
        is_plaintext = 0;
        created_at = 0;
      }
      ∷ [];
  hash_index = record { content_hash = codes "#YWJj"; paste_id = id } ∷ [];
  burned_pastes = [];
  banned_hashes = [];
}

abbrev burned : Db
burned = record unread { burned_pastes = id ∷ [] }

abbrev paste : Paste
paste = record {
  id = id;
  expires_at = 3600000000000;
  burn_after_read = true;
  size_bytes = 4;
  created_at = 0;
  is_burned = true;
}

abbrev clocks : Clocks
clocks = record { stored = 5; handled = 6 }

reads : get_paste no_faults 5 (sanitize_string id) unread ≡ (ok (codes "YWJj", paste), burned)
unfolding get_paste sanitize_string find_by bytes_eq insert_burned trim_space
reads = refl

get_paste_api-ok_iff_example :
    ((get_paste_api platform (sqlite_backend platform no_faults) clocks id (server unread)).0.status
      ≡ 200)
    ↔ IsServable platform clocks id (codes "YWJj") paste
get_paste_api-ok_iff_example =
    get_paste_api-ok_iff platform (sqlite_backend platform no_faults) clocks id (server unread)
      (codes "YWJj") paste burned reads

answers :
    (get_paste_api platform (sqlite_backend platform no_faults) clocks id (server unread)).0.status
    ≡ 200
unfolding get_paste_api validate_paste_id sanitize_string trim_space matches_id get_paste find_by
    bytes_eq insert_burned validate_base64 decode_any decode value_of validate_paste
answers = refl

abbrev answered : Response × World Db
answered = get_paste_api platform (sqlite_backend platform no_faults) clocks id (server unread)

get_paste_api-served_example :
    (answered.0.body ≡ Body.paste id (codes "YWJj") true 3600000000000)
    × (answered.1.store ≡ burned)
    × (answered.1.metrics.pastes_viewed ≡ (server unread).metrics.pastes_viewed + 1)
    × (answered.1.metrics.pastes_burned ≡ (server unread).metrics.pastes_burned + 1)
    × (answered.1.queue ≡ record ((server unread).queue) {
      tasks = sanitize_string id ∷ [];
      accepted = sanitize_string id ∷ [];
    })
unfolding new_deletion_queue
get_paste_api-served_example =
    get_paste_api-served platform (sqlite_backend platform no_faults) clocks id (server unread)
      (codes "YWJj") paste burned reads answers

id_matches : matches_id id ≡ true
unfolding matches_id
id_matches = refl

id_burned : is_burned id burned ≡ true
unfolding find_by bytes_eq
id_burned = refl

get_paste_api-burned_example :
    get_paste_api platform (sqlite_backend platform no_faults) clocks id (server burned)
    ≡ simple_error Failure.data_corrupted 500 (server burned)
get_paste_api-burned_example =
    get_paste_api-burned platform no_faults clocks id (server burned) id_matches refl refl id_burned
