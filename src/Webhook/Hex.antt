-- ===== src/Webhook/Hex.antt =====
-- encoding/hex as VerifyWebhook of src/services/btcpay.go uses it, and its round trip.
use bincrypt.Prelude.{
  ℕ, ◌+◌, ◌-◌, ◌*◌, ◌/◌, ◌%◌, ◌<◌, ◌≡◌, refl, ◌&&◌, [], ◌∷◌, Option, none, some, Bytes, All, arith,
  ltb, leb, if◌then◌else◌,
}

abbrev pub hex_digit : ℕ → ℕ
hex_digit n = if ltb n 10 then n + 48 else n + 87

abbrev pub hex_value : ℕ → Option ℕ
hex_value c =
    if leb b'0' c && leb c b'9'
    then some (c - 48)
    else if leb b'a' c && leb c b'f'
    then some (c - 87)
    else if leb b'A' c && leb c b'F'
    then some (c - 55)
    else none

unfoldable pub encode_hex : Bytes → Bytes
encode_hex [] = []
encode_hex (b ∷ bs) = hex_digit (b / 16) ∷ hex_digit (b % 16) ∷ encode_hex bs

byte_in_front : Option ℕ → Option ℕ → Option Bytes → Option Bytes
byte_in_front (some x) (some y) (some rest) = some ((x * 16 + y) ∷ rest)
byte_in_front _ _ _ = none

-- hex.DecodeString: an odd length and any other character are errors.
unfoldable pub decode_hex : Bytes → Option Bytes
unfolding byte_in_front
decode_hex [] = some []
decode_hex (c ∷ []) = none
decode_hex (c ∷ d ∷ s) = byte_in_front (hex_value c) (hex_value d) (decode_hex s)

pub hex_value-hex_digit : (n : ℕ) → n < 16 → hex_value (hex_digit n) ≡ some n
hex_value-hex_digit n h = ground arith

pub decode_hex-encode_hex :
    (bs : Bytes) → All (λ b. b < 256) bs → decode_hex (encode_hex bs) ≡ some bs
unfolding decode_hex encode_hex
decode_hex-encode_hex [] h = refl
decode_hex-encode_hex (b ∷ bs) (small, h) =
    ground (
      arith,
      hex_value-hex_digit (b / 16),
      hex_value-hex_digit (b % 16),
      decode_hex-encode_hex bs h,
    )
