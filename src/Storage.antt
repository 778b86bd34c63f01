-- ===== src/Storage.antt =====
-- src/services/storage_backend.go and src/models/paste.go: what every storage backend takes and
-- returns. Times are nanoseconds since Go's zero time (year 1), so the zero time is 0.
use bincrypt.Prelude.{ℕ, Bool, true, false, Option, Bytes}

pub data Result (E A : Type 0) : Type 0 where
  ok : A → Result E A
  err : E → Result E A

-- `decode_failed` and the names after it are the wrapped errors of the backends, one for each
-- message; the others are the sentinel errors.
pub data StoreError : Type 0 where
  not_found banned_content : StoreError
  decode_failed plaintext_ban_check_failed ban_check_failed begin_failed : StoreError
  existing_check_failed reference_failed save_failed index_failed commit_failed : StoreError
  burn_check_failed get_failed burn_failed content_failed delete_failed ban_failed : StoreError

pub record Paste : Type 0 where
  pub id : Bytes
  pub expires_at : ℕ
  pub burn_after_read : Bool
  pub size_bytes : ℕ
  pub created_at : ℕ
  pub is_burned : Bool

pub record SavePasteResult : Type 0 where
  pub paste : Paste
  pub was_deduplicated : Bool
  pub references_id : Bytes
  pub content_hash : Bytes

-- What the program takes from crypto/sha256 with encoding/hex, and from encoding/json: the hash of
-- a text in hexadecimal, the "content" string of a JSON object, and the size of a paste's JSON
-- (`none` for an error).
pub record Platform : Type 0 where
  pub sha256_hex : Bytes → Bytes
  pub json_content : Bytes → Option Bytes
  pub paste_json_size : Paste → Option ℕ

-- The arguments of SavePaste, with the clock's reading. `expiry_seconds` is an int in the source;
-- its callers have checked that it is positive.
pub record SaveArgs : Type 0 where
  pub id : Bytes
  pub ciphertext : Bytes
  pub expiry_seconds : ℕ
  pub burn_after_read : Bool
  pub is_plaintext : Bool
  pub now : ℕ

-- StorageBackend over a store `S`: each call returns the store that it leaves. Context, Ping and
-- Close have no part in the state.
pub record StorageBackend (S : Type 0) : Type 0 where
  pub save_paste : SaveArgs → S → Result StoreError SavePasteResult × S
  pub get_paste : ℕ → Bytes → S → Result StoreError (Bytes × Paste) × S
  pub mark_burned : Bytes → S → Option StoreError × S
  pub delete_paste : Bytes → S → Option StoreError × S
  pub ban_content_hash : Bytes → Bytes → S → Option StoreError × S
  pub ban_plaintext_hash : Bytes → Bytes → S → Option StoreError × S

-- A paste that was burned before: every field but the identifier has its zero value.
abbrev pub burned_paste : Bytes → Paste
burned_paste id = record {
  id = id;
  expires_at = 0;
  burn_after_read = false;
  size_bytes = 0;
  created_at = 0;
  is_burned = true;
}

abbrev pub second : ℕ
second = 1000000000
