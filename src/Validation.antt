-- ===== src/Validation.antt =====
-- src/validation.go and Paste.Validate of src/models/paste.go. Error texts are constructors.
pub mod Bounds
mod Examples
use bincrypt.Prelude.{
  ℕ, ◌*◌, ◌/◌, Bool, true, false, not, ◌&&◌, ◌||◌, List, [], ◌∷◌, ◌++◌, Option, none, some, Bytes,
  ℤ, is_below, is_above, ltb, leb, ◌==◌, if◌then◌else◌, is_empty, length,
}
use bincrypt.Text.{trim_space}
use bincrypt.Base64.{decode}
use bincrypt.Base64.Alphabet.{std_encoding, url_encoding, raw_std_encoding, raw_url_encoding}
use bincrypt.Base64.Identifier.{matches_id}
use bincrypt.Storage.{Paste, Platform}

abbrev pub max_ciphertext_size_encrypted : ℕ
max_ciphertext_size_encrypted = 393216

abbrev pub max_ciphertext_size_unencrypted : ℕ
max_ciphertext_size_unencrypted = 524288

abbrev pub max_ciphertext_size : ℕ
max_ciphertext_size = 10 * 1024 * 1024

abbrev pub max_base64_size : ℕ
max_base64_size = max_ciphertext_size * 4 / 3

abbrev pub min_ciphertext_size : ℕ
min_ciphertext_size = 1

abbrev pub max_expiry_seconds : ℕ
max_expiry_seconds = 30 * 24 * 60 * 60

abbrev pub min_expiry_seconds : ℕ
min_expiry_seconds = 60

abbrev pub max_free_tier_expiry_seconds : ℕ
max_free_tier_expiry_seconds = 7 * 24 * 60 * 60

-- The messages, without the name of the field that some of them begin with.
pub data Message : Type 0 where
  is_required exceeds_maximum_size invalid_base64 is_too_small exceeds_decoded_size : Message
  expiry_too_short expiry_too_long : Message
  paste_id_required invalid_paste_id_format : Message
  invalid_paste_metadata paste_metadata_exceeds_limit : Message
  either_required cannot_provide_both plaintext_exceeds_limit : Message

pub data Field : Type 0 where
  content ciphertext plaintext expiry_seconds : Field

pub record ValidationError : Type 0 where
  pub field : Field
  pub message : Message

pub record CreatePasteRequest : Type 0 where
  pub ciphertext : Bytes
  pub plaintext : Bytes
  pub metadata : Option Bytes  -- the JSON text of the value
  pub expiry_seconds : ℤ
  pub burn_after_read : Bool

or_else : Option Bytes → Option Bytes → Option Bytes
or_else none other = other
or_else (some s) other = some s

-- The decodings that ValidateBase64 tries, in its order.
unfoldable pub decode_any : Bytes → Option Bytes
unfolding or_else
decode_any s = or_else (decode std_encoding s) (
    or_else (decode url_encoding s)
      (or_else (decode raw_std_encoding s) (decode raw_url_encoding s)))

check_decoded : Option Bytes → Option Message
check_decoded none = some invalid_base64
check_decoded (some decoded) =
    if ltb (length decoded) min_ciphertext_size
    then some is_too_small
    else if ltb max_ciphertext_size (length decoded)
    then some exceeds_decoded_size
    else none

-- ValidateBase64, `none` for the nil error.
unfoldable pub validate_base64 : Bytes → Option Message
unfolding check_decoded
validate_base64 s =
    if is_empty s
    then some is_required
    else if ltb max_base64_size (length s)
    then some exceeds_maximum_size
    else check_decoded (decode_any s)

unfoldable pub validate_expiry_seconds : ℤ → Option Message
validate_expiry_seconds expiry =
    if is_below expiry min_expiry_seconds
    then some expiry_too_short
    else if is_above expiry max_expiry_seconds
    then some expiry_too_long
    else none

unfoldable pub validate_paste_id : Bytes → Option Message
validate_paste_id id =
    if is_empty id
    then some paste_id_required
    else if not (matches_id id)
    then some invalid_paste_id_format
    else none

-- The mapping of SanitizeString drops control characters but tab, line feed and carriage return.
unfoldable pub drop_controls : Bytes → Bytes
drop_controls [] = []
drop_controls (c ∷ s) =
    if ltb c 32 && not (c == 9) && not (c == 10) && not (c == 13)
    then drop_controls s
    else c ∷ drop_controls s

unfoldable pub sanitize_string : Bytes → Bytes
unfolding drop_controls
sanitize_string s = trim_space (drop_controls s)

-- Paste.Validate
check_size : Option ℕ → Option Message
check_size none = some invalid_paste_metadata
check_size (some size) = if ltb 1024 size then some paste_metadata_exceeds_limit else none

unfoldable pub validate_paste : Platform → Paste → Option Message
unfolding check_size
validate_paste p paste =
    if not (matches_id paste.id)
    then some invalid_paste_id_format
    else check_size (p.paste_json_size paste)

-- One entry if there is an error.
abbrev pub errors_of : Field → Option Message → List ValidationError
errors_of field none = []
errors_of field (some message) = record { field = field; message = message } ∷ []

unfoldable pub validate_create_paste_request : CreatePasteRequest → List ValidationError
validate_create_paste_request r =
    if is_empty r.ciphertext && is_empty r.plaintext
    then errors_of content (some either_required)
    else (if not (is_empty r.ciphertext) && not (is_empty r.plaintext)
        then errors_of content (some cannot_provide_both)
        else [])
      ++ (if not (is_empty r.ciphertext)
          then errors_of ciphertext (validate_base64 r.ciphertext)
          else [])
      ++ (if not (is_empty r.plaintext) && ltb max_ciphertext_size_unencrypted (length r.plaintext)
          then errors_of plaintext (some plaintext_exceeds_limit)
          else [])
      ++ errors_of expiry_seconds (validate_expiry_seconds r.expiry_seconds)
