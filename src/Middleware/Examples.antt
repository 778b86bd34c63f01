-- ===== src/Middleware/Examples.antt =====
-- The middleware of src/middleware.go on small inputs.
use bincrypt.Prelude.{
  ℕ, ◌≡◌, refl, true, List, [], ◌∷◌, none, Bytes, codes, arith, All, find_by, remove_by, bytes_eq,
}
use bincrypt.Text.{split, join, cut, contains, to_lower, has_prefix, trim_space}
use mathlib.Core.List.{map}
use bincrypt.Base64.Identifier.{matches_id, is_id_char}
use bincrypt.RateLimit.Exact.{exact}
use bincrypt.RateLimit.{check_rate_limit, entry_key}
use bincrypt.Middleware.Redact.{is_sensitive, redact_part, sanitize_query}
use bincrypt.Middleware.Redaction.{IsRedacted, sanitize_query-IsRedacted}
use bincrypt.Middleware.Input.{HttpRequest, is_split_header, media_type, input_validation}
use bincrypt.Middleware.Limits.{rate_key, rate_limiter}
use bincrypt.Middleware.Passes.{Arrival, IsTraffic, passes}

abbrev query : Bytes
query = codes "a=1&Api_Key=2&b"

redacted_query : sanitize_query query ≡ codes "a=1&Api_Key=<redacted>&b"
unfolding sanitize_query split redact_part join cut is_sensitive contains to_lower
redacted_query = refl

sanitize_query-IsRedacted_example :
    All IsRedacted (split b'&' (sanitize_query query))
    × (split b'&' (sanitize_query query) ≡ map redact_part (split b'&' query))
sanitize_query-IsRedacted_example = sanitize_query-IsRedacted query

abbrev id : Bytes
id = codes "abcdefghijABCDEFGHIJ0123456789-_abcdefghijk"

id_matches : matches_id id ≡ true
unfolding matches_id
id_matches = refl

abbrev request : HttpRequest
request = record {
  method = codes "POST";
  headers = (codes "X-Forwarded-For", codes "10.0.0.1" ∷ []) ∷ [];
  vars = (codes "id", id) ∷ [];
  query = (codes "a", codes "1" ∷ []) ∷ [];
  content_type = codes "application/json; charset=utf-8";
  path = codes "/api/paste";
}

accepted : input_validation request ≡ none
unfolding input_validation bytes_eq is_split_header has_prefix to_lower contains is_id_char
    media_type cut trim_space
accepted = refl

abbrev limits : Bytes → ℕ × ℕ
limits action = (2, 10)

abbrev arrival : Bytes → Bytes → ℕ → Arrival
arrival action ip now = record { action = action; ip = ip; now = now }

-- Three requests for one action, of which two pass, and one for another action.
abbrev traffic : List Arrival
traffic =
    arrival (codes "create") (codes "::1") 0
    ∷ arrival (codes "create") (codes "::1") 0
    ∷ arrival (codes "read") (codes "::1") 0
    ∷ arrival (codes "create") (codes "::1") 1
    ∷ []

two_pass : passes exact limits (codes "create") (codes "::1") traffic [] ≡ 2
unfolding passes rate_limiter bytes_eq check_rate_limit find_by remove_by
two_pass = refl

traffic-IsTraffic : IsTraffic 0 1 traffic
traffic-IsTraffic = (
  omega arith,
  omega arith,
  refl,
  (
    omega arith,
    omega arith,
    refl,
    (omega arith, omega arith, refl, (omega arith, omega arith, refl, omega arith)),
  ),
)

nothing_found : find_by entry_key (rate_key (codes "create") (codes "::1")) [] ≡ none
unfolding find_by
nothing_found = refl
