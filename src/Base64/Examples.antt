-- ===== src/Base64/Examples.antt =====
-- The encoder, the decoder and the identifiers on small inputs.
use bincrypt.Prelude.{ℕ, zero, suc, ◌≡◌, refl, [], ◌∷◌, some, Bytes}
use bincrypt.Base64.{encode}
use bincrypt.Base64.Alphabet.{raw_url_encoding}
use bincrypt.Base64.Identifier.{generate_id}

abbrev repeat : ℕ → ℕ → Bytes
repeat zero b = []
repeat (suc n) b = b ∷ repeat n b

abbrev named : Bytes
named = encode raw_url_encoding (repeat 32 255)

names : generate_id (some (repeat 32 255)) ≡ some named
unfolding generate_id
names = refl
