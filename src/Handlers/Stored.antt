-- ===== src/Handlers/Stored.antt =====
-- What CreatePaste stores, and that it is served back.
use bincrypt.Prelude.{
  ℕ, ◌≤◌, ◌≡◌, refl, sym, ◌∙◌, ap, Bool, true, false, [], Option, none, some, Bytes, arith,
  Option-cases, inl, inr, ℤ, pos, negsuc, pos_part, is_empty, length,
}
use bincrypt.Storage.{Result, ok, err, StoreError, SavePasteResult, StorageBackend, Platform}
use bincrypt.Base64.{encode, decode}
use bincrypt.Base64.Alphabet.{std_encoding}
use bincrypt.Base64.Identifier.{generate_id}
use bincrypt.Validation.{
  CreatePasteRequest, validate_create_paste_request, validate_paste, max_ciphertext_size_encrypted,
  max_ciphertext_size_unencrypted, max_free_tier_expiry_seconds, min_expiry_seconds,
}
use bincrypt.Validation.Bounds.{InRange, IsAcceptable, validate_create_paste_request_iff}
use bincrypt.Handlers.{World, Failure, Response, created}
use bincrypt.Handlers.Create.{
  Json, Inputs, Prepared, content, rejected, failed, prepare, adjust_expiry, save_args,
  create_paste,
}

-- What is stored for a request: the ciphertext as it came, which decodes to at most 384 KiB, or the
-- JSON of a plaintext of at most 512 KiB, in base64.
abbrev pub IsContent : Json → CreatePasteRequest → Bytes → Bool → ℕ → Type 0
IsContent j r text false size =
    (text ≡ r.ciphertext)
    × (is_empty r.ciphertext ≡ false)
    × (size ≤ max_ciphertext_size_encrypted)
    × ((decoded : Bytes) × (decode std_encoding text ≡ some decoded) × (length decoded ≡ size))
IsContent j r text true size =
    (size ≡ length r.plaintext)
    × (is_empty r.ciphertext ≡ true)
    × (size ≤ max_ciphertext_size_unencrypted)
    × ((json : Bytes) × (j.marshal_plaintext r.plaintext r.metadata ≡ some json)
        × (text ≡ encode std_encoding json))

prepare-IsContent :
    (j : Json) (r : CreatePasteRequest) (text : Bytes) (is_plaintext : Bool) (size : ℕ)
    → prepare j r ≡ content text is_plaintext size
    → IsContent j r text is_plaintext size
unfolding prepare
prepare-IsContent j r text false size h = elim (Option-cases (decode std_encoding r.ciphertext)) [
  | inl bad ↦ ground arith
  | inr (decoded, good) ↦
      (ground arith, ground arith, ground arith, (decoded, ground arith, ground arith))
]
prepare-IsContent j r text true size h =
    elim (Option-cases (j.marshal_plaintext r.plaintext r.metadata)) [
      | inl bad ↦ ground arith
      | inr (json, good) ↦ (ground arith, ground arith, ground arith, (json, good, ground arith))
    ]

-- The free tier's expiry: that of the request, and at most seven days.
adjusted :
    (e : ℤ)
    → InRange e
    → (min_expiry_seconds ≤ pos_part (adjust_expiry e))
      × (pos_part (adjust_expiry e) ≤ max_free_tier_expiry_seconds)
unfolding adjust_expiry
adjusted (pos n) h = (ground arith, ground arith)
adjusted (negsuc n) h = absurd h

module _ {S : Type 0} (p : Platform) (b : StorageBackend S) (j : Json) (i : Inputs)
    (w : World S) where
  -- A paste that was accepted: what was asked for, what was stored, and how.
  pub record IsStored (r : CreatePasteRequest) (out : Response × World S) : Type 0 where
    pub text : Bytes
    pub is_plaintext : Bool
    pub size : ℕ
    pub id : Bytes
    pub saved : SavePasteResult
    pub valid : IsAcceptable r
    pub expiry :
        (min_expiry_seconds ≤ pos_part (adjust_expiry r.expiry_seconds))
        × (pos_part (adjust_expiry r.expiry_seconds) ≤ max_free_tier_expiry_seconds)
    pub prepared : IsContent j r text is_plaintext size
    pub named : generate_id i.entropy ≡ some id
    pub stored :
        b.save_paste (save_args p b r id text is_plaintext i.now) w.store ≡ (ok saved, out.1.store)
    pub answered : out.0.body ≡ created saved.paste.id saved.paste.expires_at
    pub metadata : validate_paste p saved.paste ≡ none

  create_paste-store :
      (r : CreatePasteRequest) (text : Bytes) (is_plaintext : Bool) (size : ℕ) (id : Bytes)
      (out : Result StoreError SavePasteResult) (store : S)
      → prepare j r ≡ content text is_plaintext size
      → generate_id i.entropy ≡ some id
      → b.save_paste (save_args p b r id text is_plaintext i.now) w.store ≡ (out, store)
      → validate_create_paste_request r ≡ []
      → (create_paste p b j i (some r) w).1.store ≡ store
  unfolding create_paste
  create_paste-store r text is_plaintext size id (ok saved) store h k s v = ground arith
  create_paste-store r text is_plaintext size id (err StoreError.banned_content) store h k s v =
      ground arith
  create_paste-store r text is_plaintext size id (err e) store h k s v = ground arith

  accepted-validates :
      (r : CreatePasteRequest)
      → (create_paste p b j i (some r) w).0.status ≡ 200
      → validate_create_paste_request r ≡ []
  unfolding create_paste
  accepted-validates r h = ground arith

  accepted-IsStored :
      (r : CreatePasteRequest) (text : Bytes) (is_plaintext : Bool) (size : ℕ) (id : Bytes)
      (saved : SavePasteResult) (store : S)
      → prepare j r ≡ content text is_plaintext size
      → generate_id i.entropy ≡ some id
      → b.save_paste (save_args p b r id text is_plaintext i.now) w.store ≡ (ok saved, store)
      → (create_paste p b j i (some r) w).0.status ≡ 200
      → IsStored r (create_paste p b j i (some r) w)
  unfolding create_paste
  accepted-IsStored r text is_plaintext size id saved store h k s accepted =
      let valid = accepted-validates r accepted in
      let acceptable = (validate_create_paste_request_iff r).0 valid in
      record {
        text = text;
        is_plaintext = is_plaintext;
        size = size;
        id = id;
        saved = saved;
        valid = acceptable;
        expiry = adjusted r.expiry_seconds acceptable.3;
        prepared = prepare-IsContent j r text is_plaintext size h;
        named = k;
        stored =
            s
            ∙ ap (λ db. (ok saved, db))
                (sym (create_paste-store r text is_plaintext size id (ok saved) store h k s valid));
        answered = ground arith;
        metadata = ground arith;
      }

  failed-impossible :
      (r : CreatePasteRequest) (f : Failure) (status : ℕ) {A : Type 0}
      → prepare j r ≡ failed f status
      → (create_paste p b j i (some r) w).0.status ≡ 200
      → A
  unfolding create_paste prepare
  failed-impossible r f status h accepted = ground arith

  -- If CreatePaste answers 200, over any backend, then the request was acceptable; SavePaste
  -- succeeded and left the store that the handler leaves; it was called under the identifier that
  -- was generated, with an expiry between one minute and seven days, and with the ciphertext, which
  -- is standard base64 of at most 393216 bytes, or with the base64 of the JSON made of a plaintext
  -- of at most 524288 bytes; and the answer carries the saved paste's identifier and expiry, the
  -- paste having passed Validate.
  pub create_paste-IsStored :
      (r : CreatePasteRequest)
      → (create_paste p b j i (some r) w).0.status ≡ 200
      → IsStored r (create_paste p b j i (some r) w)
  unfolding create_paste
  create_paste-IsStored r accepted = prepared_as (prepare j r) refl (generate_id i.entropy) refl
    where
      saved_as :
          (text : Bytes) (is_plaintext : Bool) (size : ℕ) (id : Bytes)
          → prepare j r ≡ content text is_plaintext size
          → generate_id i.entropy ≡ some id
          → (out : Result StoreError SavePasteResult × S)
          → b.save_paste (save_args p b r id text is_plaintext i.now) w.store ≡ out
          → IsStored r (create_paste p b j i (some r) w)
      saved_as text is_plaintext size id h k (ok saved, store) s =
          accepted-IsStored r text is_plaintext size id saved store h k s accepted
      saved_as text is_plaintext size id h k (err StoreError.banned_content, store) s = ground arith
      saved_as text is_plaintext size id h k (err e, store) s = ground arith

      prepared_as :
          (c : Prepared)
          → prepare j r ≡ c
          → (name : Option Bytes) → generate_id i.entropy ≡ name
          → IsStored r (create_paste p b j i (some r) w)
      prepared_as (content text is_plaintext size) h (some id) k =
          saved_as text is_plaintext size id h k _ refl
      prepared_as (content text is_plaintext size) h none k = ground arith
      prepared_as (rejected reason f) h name k = ground arith
      prepared_as (failed f status) h name k = failed-impossible r f status h accepted
