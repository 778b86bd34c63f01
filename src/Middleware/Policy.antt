-- ===== src/Middleware/Policy.antt =====
-- The Content-Security-Policy of src/middleware.go and the nonce in it.
use mathlib.Core.List.{append_assoc}
use bincrypt.Prelude.{
  ℕ, ◌+◌, ◌*◌, ◌/◌, ◌%◌, ◌<◌, ◌≡◌, refl, Bool, true, ◌==◌, ◌||◌, [], ◌∷◌, ◌++◌, some, Bytes, codes,
  arith, all, All, length,
}
use bincrypt.Text.{has_prefix, contains}
use bincrypt.Base64.{encode}
use bincrypt.Base64.Alphabet.{symbol, in_range, std_encoding}
use bincrypt.Base64.Roundtrip.{IsByte, length-encode_std}
use bincrypt.Middleware.Nonce.{generate_csp_nonce, connect_sources, policy, csp}

-- Letters, digits, +, / and =.
abbrev pub is_nonce_char : ℕ → Bool
is_nonce_char c =
    in_range b'A' b'Z' c
    || in_range b'a' b'z' c
    || in_range b'0' b'9' c
    || c == b'+'
    || c == b'/'
    || c == b'='

symbol-is_nonce_char : (n : ℕ) → n < 64 → is_nonce_char (symbol std_encoding n) ≡ true
unfolding symbol
symbol-is_nonce_char n h = ground arith

encode-is_nonce_char :
    (bs : Bytes) → All IsByte bs → all is_nonce_char (encode std_encoding bs) ≡ true
unfolding encode
encode-is_nonce_char [] h = refl
encode-is_nonce_char (a ∷ []) (ha, _) =
    ground (arith, symbol-is_nonce_char (a / 4), symbol-is_nonce_char (a % 4 * 16))
encode-is_nonce_char (a ∷ b ∷ []) (ha, (hb, _)) = ground (
  arith,
  symbol-is_nonce_char (a / 4),
  symbol-is_nonce_char (a % 4 * 16 + b / 16),
  symbol-is_nonce_char (b % 16 * 4),
)
encode-is_nonce_char (a ∷ b ∷ c ∷ rest) (ha, (hb, (hc, h))) = ground (
  arith,
  symbol-is_nonce_char (a / 4),
  symbol-is_nonce_char (a % 4 * 16 + b / 16),
  symbol-is_nonce_char (b % 16 * 4 + c / 64),
  symbol-is_nonce_char (c % 64),
  encode-is_nonce_char rest h,
)

has_prefix_self : (s t : Bytes) → has_prefix (s ++ t) s ≡ true
unfolding has_prefix
has_prefix_self [] t = ground arith
has_prefix_self (c ∷ s) t = ground (arith, has_prefix_self s t)

contains-prefix : (s t : Bytes) → contains (s ++ t) s ≡ true
unfolding contains
contains-prefix [] [] = refl
contains-prefix [] (c ∷ t) = refl
contains-prefix (c ∷ s) t = ground (arith, has_prefix_self s t)

contains-middle : (before s after : Bytes) → contains (before ++ (s ++ after)) s ≡ true
unfolding contains
contains-middle [] s after = contains-prefix s after
contains-middle (c ∷ before) s after = ground (arith, contains-middle before s after)

-- 'nonce-…' as it stands in a policy.
abbrev pub nonce_source : Bytes → Bytes
nonce_source nonce = codes "'nonce-" ++ nonce ++ codes "'"

before_nonce : Bytes
before_nonce = codes "default-src 'self'; script-src 'self' "

after_nonce : Bytes → Bytes → Bytes
after_nonce nonce firebase_domain =
    codes " https://challenges.cloudflare.com; style-src 'self' 'nonce-"
    ++ nonce
    ++ codes "'; font-src 'self'; img-src 'self' data:; connect-src "
    ++ connect_sources firebase_domain
    ++ codes "; frame-src https://challenges.cloudflare.com; object-src 'none'; base-uri 'self'; "
    ++ codes "form-action 'self'; frame-ancestors 'none'; block-all-mixed-content; "
    ++ codes "upgrade-insecure-requests"

policy-split :
    (nonce firebase_domain : Bytes)
    → policy nonce firebase_domain
      ≡ before_nonce ++ (nonce_source nonce ++ after_nonce nonce firebase_domain)
unfolding policy before_nonce after_nonce
policy-split nonce firebase_domain = simp append_assoc refl

-- If rand.Read gives 16 bytes, CSP makes a nonce of 24 characters, each a letter, a digit, +, / or
-- =, and a header with a source 'nonce-…' of the very nonce that it puts into the request's
-- context.
pub csp-nonce :
    (entropy firebase_domain : Bytes)
    → length entropy ≡ 16
    → All IsByte entropy
    → (nonce : Bytes) × (header : Bytes) × (csp (some entropy) firebase_domain
        ≡ some (nonce, header))
      × (length nonce ≡ 24)
      × (all is_nonce_char nonce ≡ true)
      × (contains header (nonce_source nonce) ≡ true)
unfolding csp generate_csp_nonce
csp-nonce entropy firebase_domain n bytes =
    let nonce = encode std_encoding entropy in
    (
      nonce,
      policy nonce firebase_domain,
      refl,
      omega (arith, length-encode_std entropy),
      encode-is_nonce_char entropy bytes,
      rw (policy-split nonce firebase_domain)
          (contains-middle before_nonce (nonce_source nonce) (after_nonce nonce firebase_domain)),
    )
