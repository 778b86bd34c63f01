-- ===== src/Base64.antt =====
-- encoding/base64 as the program uses it: the four encodings that ValidateBase64 tries, the encoder
-- of CreatePaste and GenerateID, and utils/id.go over it. Texts are lists of bytes.
pub mod Alphabet
pub mod Roundtrip
pub mod Identifier
mod Examples
use bincrypt.Prelude.{
  ℕ, ◌+◌, ◌*◌, ◌/◌, ◌%◌, Bool, true, false, not, ◌&&◌, ◌||◌, List, [], ◌∷◌, ◌++◌, Option, none,
  some, Bytes, ◌==◌, if◌then◌else◌, is_empty,
}
use Alphabet.{Encoding, symbol, value_of}

-- EncodeToString: three bytes give four symbols; a rest of one or two bytes is padded with `=`
-- unless the encoding is raw.
unfoldable pub encode : Encoding → Bytes → Bytes
encode e [] = []
encode e (a ∷ []) =
    symbol e (a / 4) ∷ symbol e (a % 4 * 16) ∷ (if e.padded then b'=' ∷ b'=' ∷ [] else [])
encode e (a ∷ b ∷ []) =
    symbol e (a / 4)
    ∷ symbol e (a % 4 * 16 + b / 16)
    ∷ symbol e (b % 16 * 4)
    ∷ (if e.padded then b'=' ∷ [] else [])
encode e (a ∷ b ∷ c ∷ rest) =
    symbol e (a / 4)
    ∷ symbol e (a % 4 * 16 + b / 16)
    ∷ symbol e (b % 16 * 4 + c / 64)
    ∷ symbol e (c % 64)
    ∷ encode e rest

one_byte : Option ℕ → Option ℕ → Option Bytes
one_byte (some x) (some y) = some ((x * 4 + y / 16) ∷ [])
one_byte _ _ = none

two_bytes : Option ℕ → Option ℕ → Option ℕ → Option Bytes
two_bytes (some x) (some y) (some z) = some ((x * 4 + y / 16) ∷ (y % 16 * 16 + z / 4) ∷ [])
two_bytes _ _ _ = none

-- Three bytes in front of what the rest of the text decodes to.
three_bytes : Option ℕ → Option ℕ → Option ℕ → Option ℕ → Option Bytes → Option Bytes
three_bytes (some x) (some y) (some z) (some w) (some rest) =
    some ((x * 4 + y / 16) ∷ (y % 16 * 16 + z / 4) ∷ (z % 4 * 64 + w) ∷ rest)
three_bytes _ _ _ _ _ = none

-- Four symbols. Padding may stand only in the last two places of the last four.
quantum : Encoding → ℕ → ℕ → ℕ → ℕ → Bool → Option Bytes → Option Bytes
unfolding one_byte two_bytes three_bytes
quantum e a b c d last rest =
    if e.padded && d == b'='
    then (if not last
        then none
        else (if c == b'='
            then one_byte (value_of e a) (value_of e b)
            else two_bytes (value_of e a) (value_of e b) (value_of e c)))
    else three_bytes (value_of e a) (value_of e b) (value_of e c) (value_of e d) rest

decode_quanta : Encoding → Bytes → Option Bytes
unfolding one_byte two_bytes quantum
decode_quanta e [] = some []
decode_quanta e (a ∷ []) = none
decode_quanta e (a ∷ b ∷ []) = if e.padded then none else one_byte (value_of e a) (value_of e b)
decode_quanta e (a ∷ b ∷ c ∷ []) =
    if e.padded then none else two_bytes (value_of e a) (value_of e b) (value_of e c)
decode_quanta e (a ∷ b ∷ c ∷ d ∷ rest) = quantum e a b c d (is_empty rest) (decode_quanta e rest)

-- The decoder skips line ends wherever they stand.
strip_newlines : Bytes → Bytes
strip_newlines [] = []
strip_newlines (c ∷ s) = if c == b'\n' || c == b'\r' then strip_newlines s else c ∷ strip_newlines s

-- DecodeString, with `none` for CorruptInputError.
unfoldable pub decode : Encoding → Bytes → Option Bytes
unfolding strip_newlines decode_quanta
decode e s = decode_quanta e (strip_newlines s)
