-- ===== src/Base64/Alphabet.antt =====
-- The two alphabets of encoding/base64 and the value of each symbol.
use bincrypt.Prelude.{
  ℕ, ◌+◌, ◌-◌, ◌<◌, ◌≡◌, Bool, true, false, ◌&&◌, ◌||◌, Option, none, some, ltb, leb, ◌==◌,
  if◌then◌else◌, arith,
}

-- `url` selects `-_` for `+/`; a raw encoding is not padded.
pub record Encoding : Type 0 where
  pub url : Bool
  pub padded : Bool

abbrev pub std_encoding : Encoding
std_encoding = record { url = false; padded = true }

abbrev pub url_encoding : Encoding
url_encoding = record { url = true; padded = true }

abbrev pub raw_std_encoding : Encoding
raw_std_encoding = record { url = false; padded = false }

abbrev pub raw_url_encoding : Encoding
raw_url_encoding = record { url = true; padded = false }

unfoldable pub symbol : Encoding → ℕ → ℕ
symbol e n =
    if ltb n 26
    then b'A' + n
    else if ltb n 52
    then b'a' + (n - 26)
    else if ltb n 62
    then b'0' + (n - 52)
    else if n == 62
    then (if e.url then b'-' else b'+')
    else if e.url
    then b'_'
    else b'/'

abbrev pub in_range : ℕ → ℕ → ℕ → Bool
in_range lo hi c = leb lo c && leb c hi

unfoldable pub value_of : Encoding → ℕ → Option ℕ
value_of e c =
    if in_range b'A' b'Z' c
    then some (c - b'A')
    else if in_range b'a' b'z' c
    then some (c - b'a' + 26)
    else if in_range b'0' b'9' c
    then some (c - b'0' + 52)
    else if c == (if e.url then b'-' else b'+')
    then some 62
    else if c == (if e.url then b'_' else b'/')
    then some 63
    else none

-- Every symbol is read back as its value.
pub value_of-symbol : (e : Encoding) (n : ℕ) → n < 64 → value_of e (symbol e n) ≡ some n
unfolding symbol value_of
value_of-symbol e n h = ground arith

-- No symbol is the padding or a line end.
pub symbol_plain :
    (e : Encoding) (n : ℕ)
    → n < 64
    → ((symbol e n == b'=') ≡ false) × ((symbol e n == 10 || symbol e n == 13) ≡ false)
unfolding symbol
symbol_plain e n h = ground arith
