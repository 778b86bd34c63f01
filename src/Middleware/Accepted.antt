-- ===== src/Middleware/Accepted.antt =====
-- Which requests InputValidation of src/middleware.go passes on.
use bincrypt.Prelude.{
  ◌≤◌, ◌≡◌, refl, ◌↔◌, true, false, List, [], ◌∷◌, Option, none, some, Bytes, bytes_eq, codes,
  arith, if◌then◌else◌, length, all, All,
}
use bincrypt.Text.{contains}
use bincrypt.Base64.Identifier.{is_id_char}
use bincrypt.Middleware.Input.{
  HttpRequest, InputError, is_one_of, valid_methods, allowed_types, and_then, is_split_header,
  check_header_values, check_headers, check_id, check_vars, check_query_values, check_query,
  media_type, check_content_type, check_path, input_validation,
}

abbrev pub IsHeaderValue : Bytes → Bytes → Type 0
IsHeaderValue name value = (length value ≤ 8192) × (is_split_header name value ≡ false)

abbrev pub IsHeader : Bytes × List Bytes → Type 0
IsHeader (name, values) = (length name ≤ 128) × All (IsHeaderValue name) values

-- A variable of the route named `id` holds 1 to 100 letters, digits, `-` and `_`.
abbrev pub IsVar : Bytes × Bytes → Type 0
IsVar (key, value) =
    bytes_eq key (codes "id") ≡ true
    → (1 ≤ length value) × (length value ≤ 100) × (all is_id_char value ≡ true)

abbrev pub IsQueryValue : Bytes → Type 0
IsQueryValue value = length value ≤ 1024

abbrev pub IsQuery : Bytes × List Bytes → Type 0
IsQuery (key, values) = (length key ≤ 128) × All IsQueryValue values

abbrev pub IsClean : HttpRequest → Type 0
IsClean r =
    (is_one_of r.method valid_methods ≡ true)
    × All IsHeader r.headers
    × All IsVar r.vars
    × All IsQuery r.query
    × (bytes_eq r.method (codes "POST") ≡ true
        → is_one_of (media_type r.content_type) allowed_types ≡ true)
    × (length r.path ≤ 2048)
    × (contains r.path (codes "..") ≡ false)
    × (contains r.path (codes "./") ≡ false)

and_then_iff : (a b : Option InputError) → (and_then a b ≡ none) ↔ ((a ≡ none) × (b ≡ none))
and_then_iff none b = (λ h. (refl, h), λ h. h.1)
and_then_iff (some e) b = (λ h. cc, λ h. h.0)

header_values_iff :
    (name : Bytes) (values : List Bytes)
    → (check_header_values name values ≡ none) ↔ All (IsHeaderValue name) values
unfolding check_header_values
header_values_iff name [] = (λ h. tt, λ h. refl)
header_values_iff name (value ∷ values) =
    let rest = header_values_iff name values in
    (
      λ h. ((ground arith, ground arith), rest.0 (ground arith)),
      λ h. let k = rest.1 h.1 in ground arith,
    )

headers_iff :
    (headers : List (Bytes × List Bytes)) → (check_headers headers ≡ none) ↔ All IsHeader headers
unfolding check_headers
headers_iff [] = (λ h. tt, λ h. refl)
headers_iff ((name, values) ∷ headers) =
    let own = header_values_iff name values in
    let rest = headers_iff headers in
    let both = and_then_iff (check_header_values name values) (check_headers headers) in
    (
      λ h.
          let k : (length name ≤ 128)
              × (and_then (check_header_values name values) (check_headers headers) ≡ none) =
            (ground arith, ground arith) in
          ((k.0, own.0 (both.0 k.1).0), rest.0 (both.0 k.1).1),
      λ h. let k = both.1 (own.1 h.0.1, rest.1 h.1) in ground arith,
    )

id_iff :
    (key value : Bytes)
    → ((if bytes_eq key (codes "id") then check_id value else none) ≡ none) ↔ IsVar (key, value)
unfolding check_id
id_iff key value = (λ h k. (ground arith, ground arith, ground arith), λ h. ground arith)

vars_iff : (vars : List (Bytes × Bytes)) → (check_vars vars ≡ none) ↔ All IsVar vars
unfolding check_vars
vars_iff [] = (λ h. tt, λ h. refl)
vars_iff ((key, value) ∷ vars) =
    let own = id_iff key value in
    let rest = vars_iff vars in
    let both =
      and_then_iff (if bytes_eq key (codes "id") then check_id value else none) (check_vars vars) in
    (λ h. (own.0 (both.0 h).0, rest.0 (both.0 h).1), λ h. both.1 (own.1 h.0, rest.1 h.1))

query_values_iff :
    (values : List Bytes) → (check_query_values values ≡ none) ↔ All IsQueryValue values
unfolding check_query_values
query_values_iff [] = (λ h. tt, λ h. refl)
query_values_iff (value ∷ values) =
    let rest = query_values_iff values in
    (λ h. (ground arith, rest.0 (ground arith)), λ h. let k = rest.1 h.1 in ground arith)

IsQuery-iff : (query : List (Bytes × List Bytes)) → (check_query query ≡ none) ↔ All IsQuery query
unfolding check_query
IsQuery-iff [] = (λ h. tt, λ h. refl)
IsQuery-iff ((key, values) ∷ query) =
    let own = query_values_iff values in
    let rest = IsQuery-iff query in
    let both = and_then_iff (check_query_values values) (check_query query) in
    (
      λ h.
          let k : (length key ≤ 128)
              × (and_then (check_query_values values) (check_query query) ≡ none) =
            (ground arith, ground arith) in
          ((k.0, own.0 (both.0 k.1).0), rest.0 (both.0 k.1).1),
      λ h. let k = both.1 (own.1 h.0.1, rest.1 h.1) in ground arith,
    )

content_type_iff :
    (r : HttpRequest)
    → (check_content_type r ≡ none) ↔ (
        bytes_eq r.method (codes "POST") ≡ true
        → is_one_of (media_type r.content_type) allowed_types ≡ true)
unfolding check_content_type
content_type_iff r = (λ h k. ground arith, λ h. ground arith)

path_iff :
    (path : Bytes)
    → (check_path path ≡ none) ↔ (
        (length path ≤ 2048)
        × (contains path (codes "..") ≡ false)
        × (contains path (codes "./") ≡ false))
unfolding check_path
path_iff path = (λ h. (ground arith, ground arith, ground arith), λ h. ground arith)

validation_iff :
    (r : HttpRequest)
    → (input_validation r ≡ none) ↔ (
        (is_one_of r.method valid_methods ≡ true)
        × (check_headers r.headers ≡ none)
        × (check_vars r.vars ≡ none)
        × (check_query r.query ≡ none)
        × (check_content_type r ≡ none)
        × (check_path r.path ≡ none))
unfolding input_validation
validation_iff r = (
  λ h. (ground arith, ground arith, ground arith, ground arith, ground arith, ground arith),
  λ h. ground arith,
)

-- InputValidation passes a request on exactly if its method is one of the four, its headers, its
-- query and its path keep their limits, no X-Forwarded header has a line feed in a value, a variable
-- `id` is made of 1 to 100 of the characters of identifiers, a POST has one of the four content
-- types, and the path has no ".." and no "./"; so the order in which Go walks its maps is no matter.
pub input_validation_iff : (r : HttpRequest) → (input_validation r ≡ none) ↔ IsClean r
input_validation_iff r =
    let whole = validation_iff r in
    let headers = headers_iff r.headers in
    let vars = vars_iff r.vars in
    let query = IsQuery-iff r.query in
    let type = content_type_iff r in
    let path = path_iff r.path in
    (
      λ h.
          let (a, b, c, d, e, f) = whole.0 h in
          let (short, up, here) = path.0 f in
          (a, headers.0 b, vars.0 c, query.0 d, type.0 e, short, up, here),
      λ h.
          let (a, b, c, d, e, short, up, here) = h in
          whole.1 (a, headers.1 b, vars.1 c, query.1 d, type.1 e, path.1 (short, up, here)),
    )
