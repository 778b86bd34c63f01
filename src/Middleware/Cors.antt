-- ===== src/Middleware/Cors.antt =====
-- CORS of src/middleware.go.
use bincrypt.Prelude.{
  Bool, true, false, ◌||◌, List, [], ◌∷◌, Option, none, some, Bytes, bytes_eq, codes, if◌then◌else◌,
  is_empty,
}
use bincrypt.Text.{trim_space, split}

-- What is written before the request is passed on: whether the two fixed headers are set, the value
-- of Access-Control-Allow-Origin, and whether the request is answered here with status 200.
pub record CorsReply : Type 0 where
  pub has_headers : Bool
  pub allow_origin : Option Bytes
  pub is_answered : Bool

-- The loop over CORS_ALLOWED_ORIGINS.
unfoldable pub match_origin : Bytes → List Bytes → Option Bytes
match_origin origin [] = none
match_origin origin (allowed ∷ origins) =
    if bytes_eq origin (trim_space allowed) || bytes_eq (trim_space allowed) (codes "*")
    then some origin
    else match_origin origin origins

-- The secret CORS_ALLOWED_ORIGINS, the header Origin, and the method.
unfoldable pub cors : Bytes → Bytes → Bytes → CorsReply
unfolding match_origin
cors allowed_origins origin method =
    if is_empty allowed_origins
    then record { has_headers = false; allow_origin = none; is_answered = false }
    else record {
      has_headers = true;
      allow_origin = match_origin origin (split b',' allowed_origins);
      is_answered = bytes_eq method (codes "OPTIONS");
    }
