-- ===== src/Base64/Identifier.antt =====
-- src/utils/id.go and the pattern of paste identifiers (idRegex of src/validation.go).
use bincrypt.Prelude.{
  ℕ, ◌+◌, ◌*◌, ◌/◌, ◌%◌, ◌<◌, ◌≡◌, refl, Bool, true, [], ◌∷◌, Option, none, some, Bytes, All, all,
  length, arith, ◌==◌, ◌||◌, ◌&&◌,
}
use bincrypt.Base64.{encode}
use bincrypt.Base64.Alphabet.{symbol, in_range, raw_url_encoding}
use bincrypt.Base64.Roundtrip.{IsByte, length-encode_raw}

-- GenerateID: `entropy` is what rand.Read leaves in the buffer of 32 bytes, `none` its error.
unfoldable pub generate_id : Option Bytes → Option Bytes
generate_id none = none
generate_id (some b) = some (encode raw_url_encoding b)

-- [A-Za-z0-9_-]
unfoldable pub is_id_char : ℕ → Bool
is_id_char c =
    in_range b'A' b'Z' c || in_range b'a' b'z' c || in_range b'0' b'9' c || c == b'_' || c == b'-'

-- ^[A-Za-z0-9_-]{43}$
unfoldable pub matches_id : Bytes → Bool
unfolding is_id_char
matches_id s = length s == 43 && all is_id_char s

symbol-is_id_char : (n : ℕ) → n < 64 → is_id_char (symbol raw_url_encoding n) ≡ true
unfolding symbol is_id_char
symbol-is_id_char n h = ground arith

encode-is_id_char :
    (bs : Bytes) → All IsByte bs → all is_id_char (encode raw_url_encoding bs) ≡ true
unfolding encode
encode-is_id_char [] h = refl
encode-is_id_char (a ∷ []) (ha, _) =
    ground (arith, symbol-is_id_char (a / 4), symbol-is_id_char (a % 4 * 16))
encode-is_id_char (a ∷ b ∷ []) (ha, (hb, _)) = ground (
  arith,
  symbol-is_id_char (a / 4),
  symbol-is_id_char (a % 4 * 16 + b / 16),
  symbol-is_id_char (b % 16 * 4),
)
encode-is_id_char (a ∷ b ∷ c ∷ rest) (ha, (hb, (hc, h))) = ground (
  arith,
  symbol-is_id_char (a / 4),
  symbol-is_id_char (a % 4 * 16 + b / 16),
  symbol-is_id_char (b % 16 * 4 + c / 64),
  symbol-is_id_char (c % 64),
  encode-is_id_char rest h,
)

-- The identifier made from 32 random bytes matches the pattern by which every handler checks
-- identifiers.
pub generate_id-matches_id :
    (b id : Bytes)
    → length b ≡ 32
    → All IsByte b
    → generate_id (some b) ≡ some id
    → matches_id id ≡ true
unfolding generate_id matches_id
generate_id-matches_id b id n h e = ground (arith, length-encode_raw b, encode-is_id_char b h)
