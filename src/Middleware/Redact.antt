-- ===== src/Middleware/Redact.antt =====
-- sanitizeQuery and sanitizePathForLogs of src/middleware.go: what is left out of log lines.
use mathlib.Core.List.{map}
use bincrypt.Prelude.{
  Bool, true, false, ◌&&◌, ◌||◌, List, [], ◌∷◌, ◌++◌, Option, none, some, Bytes, codes,
  if◌then◌else◌, is_empty,
}
use bincrypt.Text.{has_prefix, contains, to_lower, split, join, cut}
use bincrypt.Validation.{validate_paste_id}

abbrev pub redacted : Bytes
redacted = codes "<redacted>"

abbrev pub sensitive_words : List Bytes
sensitive_words =
    codes "token" ∷ codes "key" ∷ codes "secret" ∷ codes "password" ∷ codes "auth" ∷ []

contains_any : Bytes → List Bytes → Bool
contains_any key [] = false
contains_any key (word ∷ words) = contains key word || contains_any key words

-- The inner loop of sanitizeQuery.
unfoldable pub is_sensitive : Bytes → Bool
unfolding contains_any
is_sensitive key = contains_any (to_lower key) sensitive_words

redact_pair : Bytes → Bytes × Option Bytes → Bytes
redact_pair part (key, none) = part
redact_pair part (key, some value) = key ++ b'=' ∷ (if is_sensitive key then redacted else value)

unfoldable pub redact_part : Bytes → Bytes
unfolding redact_pair
redact_part part = redact_pair part (cut b'=' part)

unfoldable pub sanitize_query : Bytes → Bytes
sanitize_query query = if is_empty query then [] else join b'&' (map redact_part (split b'&' query))

is_valid_id : Bytes → Bool
is_valid_id id = elim (validate_paste_id id) [ none ↦ true | some _ ↦ false ]

-- "/p/<id>" has three parts, "/api/paste/<id>" four.
ends_in_id : Bool → List Bytes → Bool
unfolding is_valid_id
ends_in_id false (_ ∷ _ ∷ id ∷ []) = is_valid_id id
ends_in_id true (_ ∷ _ ∷ _ ∷ id ∷ []) = is_valid_id id
ends_in_id _ _ = false

-- sanitizePathForLogs
unfoldable pub sanitize_path : Bytes → Bytes
unfolding ends_in_id
sanitize_path path =
    if has_prefix path (codes "/p/") && ends_in_id false (split b'/' path)
    then codes "/p/{paste_id}"
    else if has_prefix path (codes "/api/paste/") && ends_in_id true (split b'/' path)
    then codes "/api/paste/{paste_id}"
    else path
