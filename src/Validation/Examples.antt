-- ===== src/Validation/Examples.antt =====
-- The checks of src/validation.go on one request and one identifier.
use bincrypt.Prelude.{◌≡◌, refl, ◌↔◌, true, [], none, Bytes, pos, codes}
use bincrypt.Base64.Identifier.{matches_id}
use bincrypt.Validation.{CreatePasteRequest, validate_create_paste_request}
use bincrypt.Validation.Bounds.{IsAcceptable, validate_create_paste_request_iff}

abbrev request : CreatePasteRequest
request = record {
  ciphertext = codes "YWJj";
  plaintext = [];
  metadata = none;
  expiry_seconds = pos 3600;
  burn_after_read = true;
}

validate_create_paste_request_iff_example :
    (validate_create_paste_request request ≡ []) ↔ IsAcceptable request
validate_create_paste_request_iff_example = validate_create_paste_request_iff request

abbrev id : Bytes
id = codes "abcdefghijABCDEFGHIJ0123456789-_abcdefghijk"

id_matches : matches_id id ≡ true
unfolding matches_id
id_matches = refl
