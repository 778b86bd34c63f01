-- ===== src/Gcs.antt =====
-- The Cloud Storage backend, src/services/storage_gcs.go: the bucket, and the requests on it that
-- the backend makes. Each request is one step on the bucket. An object keeps the metadata that is
-- read again (bincrypt-id, bincrypt-is-burned, the hashes, the reason and the times of a ban or a
-- burn never are); the numbers in it are formatted by strconv and parsed again.
pub mod Save
pub mod Get
pub mod Admin
pub mod Backend
pub mod Lookup
pub mod Race
pub mod Saved
pub mod Roundtrip
pub mod Claims
pub mod Once
pub mod Termination
pub mod Outcomes
pub mod Dangling
mod Examples
mod RaceExamples
use bincrypt.Prelude.{
  ℕ, suc, ◌&&◌, ◌==◌, Bool, true, false, List, [], ◌∷◌, ◌++◌, Option, none, some, Bytes, codes,
  if◌then◌else◌, find_by, remove_by,
}
use bincrypt.Sqlite.{is_some}

-- A missing text is empty; a missing number does not parse.
pub record Metadata : Type 0 where
  pub expires_at : Option ℕ
  pub created_at : Option ℕ
  pub size_bytes : Option ℕ
  pub burn_after_read : Bool
  pub references : Bytes
  pub paste_id : Bytes

abbrev pub no_metadata : Metadata
no_metadata = record {
  expires_at = none;
  created_at = none;
  size_bytes = none;
  burn_after_read = false;
  references = [];
  paste_id = [];
}

pub record Object : Type 0 where
  pub name : Bytes
  pub generation : ℕ
  pub metadata : Metadata
  pub content : Bytes

-- The service gives each version of an object a generation of its own.
pub record Bucket : Type 0 where
  pub objects : List Object
  pub next_generation : ℕ

abbrev pub object_name : Object → Bytes
object_name o = o.name

abbrev pub find_object : Bytes → Bucket → Option Object
find_object name b = find_by object_name name b.objects

-- Attrs, Delete, a Writer with or without the condition DoesNotExist, and a Reader with the
-- condition GenerationMatch.
pub data Op : Type 0 where
  attrs delete : Bytes → Op
  write : Bytes → Bool → Metadata → Bytes → Op
  read : Bytes → ℕ → Op

-- `missing` is ErrObjectNotExist, `unmet` the error 412 of a condition, `failed` any other error.
pub data Reply : Type 0 where
  found : Object → Reply
  contents : Bytes → Reply
  succeeded missing unmet failed : Reply

attrs_reply : Option Object → Reply
attrs_reply none = missing
attrs_reply (some o) = found o

read_reply : ℕ → Option Object → Reply
read_reply generation none = missing
read_reply generation (some o) = if o.generation == generation then contents o.content else unmet

abbrev put_object : Bytes → Metadata → Bytes → Bucket → Bucket
put_object name metadata content b = record {
  objects =
      record { name = name; generation = b.next_generation; metadata = metadata; content = content }
      ∷ remove_by object_name name b.objects;
  next_generation = suc b.next_generation;
}

unfoldable pub apply : Op → Bucket → Reply × Bucket
unfolding attrs_reply read_reply
apply (attrs name) b = (attrs_reply (find_object name b), b)
apply (delete name) b =
    if is_some (find_object name b)
    then (succeeded, record b { objects = remove_by object_name name b.objects })
    else (missing, b)
apply (write name if_missing metadata content) b =
    if if_missing && is_some (find_object name b)
    then (unmet, b)
    else (succeeded, put_object name metadata content b)
apply (read name generation) b = (read_reply generation (find_object name b), b)

-- A request works, does not reach the bucket, or is carried out and its answer lost.
pub data Fault : Type 0 where
  works refused unacknowledged : Fault

unfoldable pub request : Fault → Op → Bucket → Reply × Bucket
request works op b = apply op b
request refused op b = (failed, b)
request unacknowledged op b = (failed, (apply op b).1)

-- pasteObjectName, burnObjectName, hashIndexObjectName, bannedHashObjectName and
-- bannedPlaintextHashObjectName.
abbrev pub paste_object_name : Bytes → Bytes
paste_object_name id = codes "pastes/" ++ id

abbrev pub burn_object_name : Bytes → Bytes
burn_object_name id = codes "burns/" ++ id

abbrev pub hash_index_object_name : Bytes → Bytes
hash_index_object_name hash = codes "hashes/" ++ hash

abbrev pub banned_hash_object_name : Bytes → Bytes
banned_hash_object_name hash = codes "banned-hashes/ciphertext/" ++ hash

abbrev pub banned_plaintext_hash_object_name : Bytes → Bytes
banned_plaintext_hash_object_name hash = codes "banned-hashes/plaintext/" ++ hash
