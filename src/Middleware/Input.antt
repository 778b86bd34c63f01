-- ===== src/Middleware/Input.antt =====
-- InputValidation of src/middleware.go. The maps of the request are lists of their entries.
use bincrypt.Prelude.{
  ℕ, Bool, false, not, ◌&&◌, ◌||◌, List, [], ◌∷◌, Option, none, some, Bytes, bytes_eq, codes, ltb,
  if◌then◌else◌, is_empty, length, all,
}
use bincrypt.Text.{has_prefix, contains, to_lower, trim_space, cut}
use bincrypt.Base64.Identifier.{is_id_char}

pub record HttpRequest : Type 0 where
  pub method : Bytes
  pub headers : List (Bytes × List Bytes)
  pub vars : List (Bytes × Bytes)
  pub query : List (Bytes × List Bytes)
  pub content_type : Bytes
  pub path : Bytes

pub data InputError : Type 0 where
  method_not_allowed unsupported_content_type : InputError
  invalid_header_name header_value_too_long invalid_header_value : InputError
  invalid_paste_id invalid_paste_id_format : InputError
  invalid_query_parameter query_parameter_too_long path_too_long invalid_path : InputError

abbrev pub status_of : InputError → ℕ
status_of method_not_allowed = 405
status_of unsupported_content_type = 415
status_of _ = 400

abbrev pub is_one_of : Bytes → List Bytes → Bool
is_one_of s [] = false
is_one_of s (t ∷ ts) = bytes_eq s t || is_one_of s ts

abbrev pub valid_methods : List Bytes
valid_methods = codes "GET" ∷ codes "POST" ∷ codes "OPTIONS" ∷ codes "HEAD" ∷ []

abbrev pub allowed_types : List Bytes
allowed_types =
    codes "application/json"
    ∷ codes "application/x-www-form-urlencoded"
    ∷ codes "multipart/form-data"
    ∷ codes "text/plain"
    ∷ []

-- A later check runs only if the earlier ones return nothing.
abbrev pub and_then : Option InputError → Option InputError → Option InputError
and_then (some e) next = some e
and_then none next = next

unfoldable pub is_split_header : Bytes → Bytes → Bool
is_split_header name value =
    has_prefix (to_lower name) (codes "x-forwarded-") && contains value (10 ∷ [])

unfoldable pub check_header_values : Bytes → List Bytes → Option InputError
check_header_values name [] = none
check_header_values name (value ∷ values) =
    if ltb 8192 (length value)
    then some header_value_too_long
    else if is_split_header name value
    then some invalid_header_value
    else check_header_values name values

unfoldable pub check_headers : List (Bytes × List Bytes) → Option InputError
unfolding check_header_values
check_headers [] = none
check_headers ((name, values) ∷ headers) =
    if ltb 128 (length name)
    then some invalid_header_name
    else and_then (check_header_values name values) (check_headers headers)

unfoldable pub check_id : Bytes → Option InputError
check_id value =
    if ltb 100 (length value) || ltb (length value) 1
    then some invalid_paste_id
    else if all is_id_char value
    then none
    else some invalid_paste_id_format

unfoldable pub check_vars : List (Bytes × Bytes) → Option InputError
unfolding check_id
check_vars [] = none
check_vars ((key, value) ∷ vars) =
    and_then (if bytes_eq key (codes "id") then check_id value else none) (check_vars vars)

unfoldable pub check_query_values : List Bytes → Option InputError
check_query_values [] = none
check_query_values (value ∷ values) =
    if ltb 1024 (length value) then some query_parameter_too_long else check_query_values values

unfoldable pub check_query : List (Bytes × List Bytes) → Option InputError
unfolding check_query_values
check_query [] = none
check_query ((key, values) ∷ query) =
    if ltb 128 (length key)
    then some invalid_query_parameter
    else and_then (check_query_values values) (check_query query)

-- The text before `;`, trimmed if there is one.
media_of : Bytes × Option Bytes → Bytes
media_of (all_of_it, none) = all_of_it
media_of (before, some _) = trim_space before

unfoldable pub media_type : Bytes → Bytes
unfolding media_of
media_type content_type =
    if is_empty content_type
    then codes "application/octet-stream"
    else media_of (cut b';' content_type)

unfoldable pub check_content_type : HttpRequest → Option InputError
check_content_type r =
    if bytes_eq r.method (codes "POST") && not (is_one_of (media_type r.content_type) allowed_types)
    then some unsupported_content_type
    else none

unfoldable pub check_path : Bytes → Option InputError
check_path path =
    if ltb 2048 (length path)
    then some path_too_long
    else if contains path (codes "..") || contains path (codes "./")
    then some invalid_path
    else none

-- `none` passes the request on.
unfoldable pub input_validation : HttpRequest → Option InputError
unfolding check_headers check_vars check_query check_content_type check_path
input_validation r =
    if is_one_of r.method valid_methods
    then and_then (check_headers r.headers) (
        and_then (check_vars r.vars)
          (and_then (check_query r.query) (and_then (check_content_type r) (check_path r.path))))
    else some method_not_allowed
