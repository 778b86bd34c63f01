-- ===== src/Base64/Roundtrip.antt =====
-- Decoding what the encoder wrote, in every encoding, and the length of the text.
use bincrypt.Prelude.{
  ℕ, ◌+◌, ◌*◌, ◌/◌, ◌%◌, ◌<◌, ◌≡◌, refl, [], ◌∷◌, some, Bytes, All, length, arith,
}
use bincrypt.Base64.{encode, decode, decode_quanta, strip_newlines}
use bincrypt.Base64.Alphabet.{
  Encoding, symbol, value_of-symbol, symbol_plain, raw_url_encoding, std_encoding,
}

abbrev pub IsByte : ℕ → Type 0
IsByte n = n < 256

-- One full quantum.
decode_quanta-quantum :
    (e : Encoding) (a b c : ℕ) (s rest : Bytes)
    → IsByte a
    → IsByte b
    → IsByte c
    → decode_quanta e s ≡ some rest
    → decode_quanta e (
        symbol e (a / 4)
        ∷ symbol e (a % 4 * 16 + b / 16)
        ∷ symbol e (b % 16 * 4 + c / 64)
        ∷ symbol e (c % 64)
        ∷ s)
      ≡ some (a ∷ b ∷ c ∷ rest)
unfolding decode_quanta
decode_quanta-quantum e a b c s rest ha hb hc h = ground (
  arith,
  value_of-symbol e (a / 4),
  value_of-symbol e (a % 4 * 16 + b / 16),
  value_of-symbol e (b % 16 * 4 + c / 64),
  value_of-symbol e (c % 64),
  symbol_plain e (c % 64),
)

decode_quanta-encode :
    (e : Encoding) (bs : Bytes) → All IsByte bs → decode_quanta e (encode e bs) ≡ some bs
unfolding encode decode_quanta
decode_quanta-encode e [] h = refl
decode_quanta-encode e (a ∷ []) (ha, _) =
    ground (arith, value_of-symbol e (a / 4), value_of-symbol e (a % 4 * 16))
decode_quanta-encode e (a ∷ b ∷ []) (ha, (hb, _)) = ground (
  arith,
  value_of-symbol e (a / 4),
  value_of-symbol e (a % 4 * 16 + b / 16),
  value_of-symbol e (b % 16 * 4),
  symbol_plain e (b % 16 * 4),
)
decode_quanta-encode e (a ∷ b ∷ c ∷ rest) (ha, (hb, (hc, h))) =
    decode_quanta-quantum e a b c (encode e rest) rest ha hb hc (decode_quanta-encode e rest h)

strip_newlines-encode :
    (e : Encoding) (bs : Bytes) → All IsByte bs → strip_newlines (encode e bs) ≡ encode e bs
unfolding encode strip_newlines
strip_newlines-encode e [] h = refl
strip_newlines-encode e (a ∷ []) (ha, _) =
    ground (arith, symbol_plain e (a / 4), symbol_plain e (a % 4 * 16))
strip_newlines-encode e (a ∷ b ∷ []) (ha, (hb, _)) = ground (
  arith,
  symbol_plain e (a / 4),
  symbol_plain e (a % 4 * 16 + b / 16),
  symbol_plain e (b % 16 * 4),
)
strip_newlines-encode e (a ∷ b ∷ c ∷ rest) (ha, (hb, (hc, h))) = ground (
  arith,
  symbol_plain e (a / 4),
  symbol_plain e (a % 4 * 16 + b / 16),
  symbol_plain e (b % 16 * 4 + c / 64),
  symbol_plain e (c % 64),
  strip_newlines-encode e rest h,
)

-- In each of the four encodings, decoding what the encoder wrote for a list of bytes gives that
-- list back.
pub decode-encode : (e : Encoding) (bs : Bytes) → All IsByte bs → decode e (encode e bs) ≡ some bs
unfolding decode
decode-encode e bs h = rw (strip_newlines-encode e bs h) (decode_quanta-encode e bs h)

-- The raw encoding of n bytes has ⌈4n / 3⌉ symbols.
pub length-encode_raw : (bs : Bytes) → length (encode raw_url_encoding bs) ≡ (length bs * 4 + 2) / 3
unfolding encode
length-encode_raw [] = refl
length-encode_raw (a ∷ []) = refl
length-encode_raw (a ∷ b ∷ []) = refl
length-encode_raw (a ∷ b ∷ c ∷ rest) = omega (arith, length-encode_raw rest)

-- The padded encoding of n bytes has 4⌈n / 3⌉ symbols.
pub length-encode_std : (bs : Bytes) → length (encode std_encoding bs) ≡ (length bs + 2) / 3 * 4
unfolding encode
length-encode_std [] = refl
length-encode_std (a ∷ []) = refl
length-encode_std (a ∷ b ∷ []) = refl
length-encode_std (a ∷ b ∷ c ∷ rest) = omega (arith, length-encode_std rest)
