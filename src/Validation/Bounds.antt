-- ===== src/Validation/Bounds.antt =====
-- What a request that passes validation satisfies, and that sanitising keeps an identifier.
use bincrypt.Prelude.{
  ℕ, ◌≤◌, ◌<◌, ◌≡◌, refl, ◌↔◌, true, false, not, [], ◌∷◌, none, Bytes, arith, ℤ, pos, negsuc, ltb,
  is_empty, length, all,
}
use bincrypt.Text.{trim_space, trim_left, trim_right, is_space}
use bincrypt.Base64.Identifier.{matches_id, is_id_char}
use bincrypt.Validation.{
  CreatePasteRequest, validate_create_paste_request, validate_base64, validate_expiry_seconds,
  min_expiry_seconds, max_expiry_seconds, max_ciphertext_size_unencrypted, drop_controls,
  sanitize_string, validate_paste_id,
}

-- An expiry within the limits.
abbrev pub InRange : ℤ → Type 0
InRange (pos n) = (min_expiry_seconds ≤ n) × (n ≤ max_expiry_seconds)
InRange (negsuc n) = ⊥

-- One of the two contents, valid, and an expiry within the limits.
abbrev pub IsAcceptable : CreatePasteRequest → Type 0
IsAcceptable r =
    (is_empty r.ciphertext ≡ not (is_empty r.plaintext))
    × (is_empty r.ciphertext ≡ false → validate_base64 r.ciphertext ≡ none)
    × (length r.plaintext ≤ max_ciphertext_size_unencrypted)
    × InRange r.expiry_seconds

expiry-InRange : (e : ℤ) → validate_expiry_seconds e ≡ none → InRange e
unfolding validate_expiry_seconds
expiry-InRange (pos n) h = (ground arith, ground arith)
expiry-InRange (negsuc n) h = cc

InRange-expiry : (e : ℤ) → InRange e → validate_expiry_seconds e ≡ none
unfolding validate_expiry_seconds
InRange-expiry (pos n) h = ground arith
InRange-expiry (negsuc n) h = absurd h

length_of_empty : (s : Bytes) → is_empty s ≡ true → length s ≡ 0
length_of_empty [] h = refl
length_of_empty (c ∷ s) h = cc

accepted :
    (r : CreatePasteRequest)
    → validate_create_paste_request r ≡ []
    → (is_empty r.ciphertext ≡ not (is_empty r.plaintext))
      × (is_empty r.ciphertext ≡ false → validate_base64 r.ciphertext ≡ none)
      × (length r.plaintext ≤ max_ciphertext_size_unencrypted)
      × (validate_expiry_seconds r.expiry_seconds ≡ none)
unfolding validate_create_paste_request
accepted r h =
    (ground arith, ground arith, ground (arith, length_of_empty r.plaintext), ground arith)

-- validateCreatePasteRequest reports no error exactly for a request with a ciphertext or a
-- plaintext but not both, whose ciphertext, if there is one, passes ValidateBase64, whose plaintext
-- has at most 524288 bytes, and whose expiry lies between one minute and thirty days.
pub validate_create_paste_request_iff :
    (r : CreatePasteRequest) → (validate_create_paste_request r ≡ []) ↔ IsAcceptable r
unfolding validate_create_paste_request
validate_create_paste_request_iff r = (
  λ h. let (a, b, c, d) = accepted r h in (a, b, c, expiry-InRange r.expiry_seconds d),
  λ ok. ground (arith, InRange-expiry r.expiry_seconds ok.3, ok.1),
)

-- An identifier has no control character and no space.
pub id_char_plain : (c : ℕ) → is_id_char c ≡ true → (ltb c 32 ≡ false) × (is_space c ≡ false)
unfolding is_id_char is_space
id_char_plain c h = (ground arith, ground arith)

drop_controls-id : (s : Bytes) → all is_id_char s ≡ true → drop_controls s ≡ s
unfolding drop_controls
drop_controls-id [] h = refl
drop_controls-id (c ∷ s) h = ground (arith, id_char_plain c, drop_controls-id s)

pub trim_left-id : (s : Bytes) → all is_id_char s ≡ true → trim_left s ≡ s
unfolding trim_left
trim_left-id [] h = refl
trim_left-id (c ∷ s) h = ground (arith, id_char_plain c)

pub trim_right-id : (s : Bytes) → all is_id_char s ≡ true → trim_right s ≡ s
unfolding trim_right
trim_right-id [] h = refl
trim_right-id (c ∷ []) h = ground (arith, id_char_plain c)
trim_right-id (c ∷ d ∷ s) h = ground (arith, trim_right-id (d ∷ s))

not_empty : (s : Bytes) → 0 < length s → is_empty s ≡ false
not_empty [] h = absurd (omega arith)
not_empty (c ∷ s) h = refl

-- SanitizeString leaves an identifier as it is, and ValidatePasteID accepts it.
pub sanitize_string-id :
    (id : Bytes) → matches_id id ≡ true → (sanitize_string id ≡ id) × (validate_paste_id id ≡ none)
unfolding sanitize_string trim_space validate_paste_id matches_id
sanitize_string-id id h =
    let plain : all is_id_char id ≡ true = ground arith in
    (
      rw (drop_controls-id id plain, trim_left-id id plain) (trim_right-id id plain),
      ground (arith, not_empty id),
    )
