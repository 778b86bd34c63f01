-- ===== src/Handlers/Delivered.antt =====
-- What CreatePaste of src/handlers_paste.go accepts, GetPasteAPI sends back, over the SQLite
-- backend of src/services/storage_sqlite.go.
use bincrypt.Prelude.{
  ℕ, ◌+◌, ◌*◌, ◌/◌, ◌≤◌, ◌<◌, ◌≡◌, refl, sym, ◌∙◌, Bool, true, false, [], ◌∷◌, Option, none, some,
  Bytes, All, arith, Option-cases, inl, inr, pos_part, is_empty, length,
}
use bincrypt.Base64.{encode}
use bincrypt.Base64.Alphabet.{std_encoding}
use bincrypt.Base64.Roundtrip.{IsByte, decode-encode, length-encode_std}
use bincrypt.Base64.Identifier.{generate_id, matches_id, generate_id-matches_id}
use bincrypt.Storage.{ok, Paste, Platform, second}
use bincrypt.Sqlite.{Db}
use bincrypt.Sqlite.Transaction.{Faults}
use bincrypt.Sqlite.Save.{to_seconds}
use bincrypt.Sqlite.Get.{get_paste}
use bincrypt.Sqlite.Backend.{sqlite_backend}
use bincrypt.Sqlite.Invariant.{IsWellFormed}
use bincrypt.Sqlite.Roundtrip.{no_faults, IsKept, ReadBack, save_paste-get_paste}
use bincrypt.Validation.{CreatePasteRequest, decode_any, validate_base64, validate_paste}
use bincrypt.Handlers.{World, Response, Body}
use bincrypt.Handlers.Create.{Json, Inputs, adjust_expiry, save_args, create_paste}
use bincrypt.Handlers.Stored.{IsContent, IsStored, create_paste-IsStored}
use bincrypt.Handlers.Read.{Clocks, get_paste_api}
use bincrypt.Handlers.Served.{get_paste_api-ok_iff, get_paste_api-served}
use bincrypt.Validation.Bounds.{sanitize_string-id}
use bincrypt.Validation.{sanitize_string}

-- What encoding/json writes for a plaintext of at most 512 KiB with its metadata: bytes, some, and at
-- most 8 MiB.
abbrev pub IsModest : Bytes → Type 0
IsModest json = All IsByte json × (0 < length json) × (length json ≤ 8388608)

not_empty : (s : Bytes) → 0 < length s → is_empty s ≡ false
not_empty [] h = absurd (omega (arith, h))
not_empty (c ∷ s) h = refl

encoded_valid : (json : Bytes) → IsModest json → validate_base64 (encode std_encoding json) ≡ none
unfolding validate_base64 decode_any
encoded_valid json (bytes, some_byte, modest) =
    rw (decode-encode std_encoding json bytes)
      (ground (arith, length-encode_std json, not_empty (encode std_encoding json)))

-- The JSON of a paste under a well-formed identifier fits the limit of Paste.Validate.
abbrev pub IsSmall : Option ℕ → Type 0
IsSmall none = ⊥
IsSmall (some n) = n ≤ 1024

small_valid :
    (p : Platform) (x : Paste)
    → matches_id x.id ≡ true
    → IsSmall (p.paste_json_size x)
    → validate_paste p x ≡ none
unfolding validate_paste
small_valid p x named small = elim (Option-cases (p.paste_json_size x)) [
  | inl none_there ↦ absurd (rw none_there at small)
  | inr (n, size) ↦ let le : n ≤ 1024 = rw size at small in ground arith
]

-- The second in which a paste of this request expires.
abbrev pub last_second : Inputs → CreatePasteRequest → ℕ
last_second i r = to_seconds (i.now + pos_part (adjust_expiry r.expiry_seconds) * second)

module _ (p : Platform) (j : Json) (i : Inputs) (r : CreatePasteRequest) (fails : Faults)
    (c : Clocks) (w : World Db) where
  abbrev made : Response × World Db
  made = create_paste p (sqlite_backend p fails) j i (some r) w

  -- A request for the paste afterwards, with every call of the database working.
  abbrev fetched : Bytes → Response × World Db
  fetched id = get_paste_api p (sqlite_backend p no_faults) c id made.1

  pub record IsDelivered : Type 0 where
    pub id : Bytes
    pub text : Bytes
    pub is_plaintext : Bool
    pub size : ℕ
    pub content : IsContent j r text is_plaintext size
    pub named : generate_id i.entropy ≡ some id
    pub ok_status : (fetched id).0.status ≡ 200
    pub body : (fetched id).0.body ≡ Body.paste id text r.burn_after_read (last_second i r * second)

-- No content of the database but the text of the request has the hash of that text.
abbrev pub IsDistinct : Platform → Json → CreatePasteRequest → Db → Type 0
IsDistinct p j r db =
    (text x : Bytes) (is_plaintext : Bool) (size : ℕ)
    → IsContent j r text is_plaintext size
    → IsKept db x
    → p.sha256_hex x ≡ p.sha256_hex text
    → x ≡ text

-- The metadata that GetPaste returns for the identifier has small JSON.
abbrev pub IsSmallPaste : Platform → Inputs → Db → ℕ → Type 0
IsSmallPaste p i db now =
    (id text : Bytes) (x : Paste) (after : Db)
    → generate_id i.entropy ≡ some id
    → get_paste no_faults now id db ≡ (ok (text, x), after)
    → IsSmall (p.paste_json_size x)

module _ (p : Platform) (j : Json) (i : Inputs) (r : CreatePasteRequest)
    (json_modest : (json : Bytes)
      → j.marshal_plaintext r.plaintext r.metadata ≡ some json
      → IsModest json) where
  content_valid :
      (text : Bytes) (is_plaintext : Bool) (size : ℕ)
      → (is_empty r.ciphertext ≡ false → validate_base64 r.ciphertext ≡ none)
      → IsContent j r text is_plaintext size
      → validate_base64 text ≡ none
  content_valid text false size valid (same, given, _, _) = rw same (valid given)
  content_valid text true size valid (_, _, _, (json, made, encoded)) =
      rw encoded (encoded_valid json (json_modest json made))

  module _ (fails : Faults) (c : Clocks) (w : World Db)
      (distinct : IsDistinct p j r (made p j i r fails c w).1.store)
      (paste_modest : IsSmallPaste p i (made p j i r fails c w).1.store c.stored) where
    deliver :
        (s : IsStored p (sqlite_backend p fails) j i w r (made p j i r fails c w))
        → matches_id s.id ≡ true
        → ReadBack p
            (save_args p (sqlite_backend p fails) r s.id s.text s.is_plaintext i.now)
            c.stored
            (made p j i r fails c w).1.store
        → c.handled ≤ last_second i r * second
        → IsDelivered p j i r fails c w
    deliver s id_valid back in_time =
        let b = sqlite_backend p no_faults in
        let (clean, named) = sanitize_string-id s.id id_valid in
        let same =
          distinct s.text back.content s.is_plaintext s.size s.prepared back.kept back.same_hash in
        let read : b.get_paste c.stored (sanitize_string s.id) (made p j i r fails c w).1.store
            ≡ (ok (s.text, back.paste), back.after) =
          rw (clean, ← same) back.read in
        let metadata : validate_paste p back.paste ≡ none =
          small_valid p back.paste (rw back.same_id id_valid)
            (paste_modest s.id back.content back.paste back.after s.named back.read) in
        let served =
          (get_paste_api-ok_iff p b c s.id (made p j i r fails c w).1 s.text back.paste back.after
              read).1
            (
              rw clean named,
              content_valid s.text s.is_plaintext s.size s.valid.1 s.prepared,
              metadata,
              rw back.expiry in_time,
              (λ burned. back.burns.0 ∙ sym back.burns.1 ∙ burned),
            ) in
        record {
          id = s.id;
          text = s.text;
          is_plaintext = s.is_plaintext;
          size = s.size;
          content = s.prepared;
          named = s.named;
          ok_status = served;
          body =
              rw (back.same_id, back.burns.0, back.expiry) at
                (get_paste_api-served p b c s.id (made p j i r fails c w).1 s.text back.paste
                  back.after read served).0;
        }

-- Over the SQLite backend with a well-formed database, and with whatever calls of it fail in the
-- first request: if CreatePaste answers 200, its 32 random bytes given, then until the second of the
-- paste's expiry GetPasteAPI for the identifier that was generated answers 200, with every call of
-- the database working, and its body has that identifier, the content of the request (its
-- ciphertext as it came, or the base64 of the JSON of its plaintext), the request's burn-after-read flag and
-- the expiry of the request, cut to seven days, in whole seconds. Assumed are that no content in the
-- database after the first request but the text of the request has the SHA-256 of that text, that
-- the JSON of the request's plaintext is neither empty nor above 8 MiB, and that the JSON of the
-- metadata that GetPaste returns for the identifier has at most 1024 bytes.
pub create_paste-IsDelivered :
    (p : Platform) (j : Json) (i : Inputs) (r : CreatePasteRequest) (fails : Faults) (c : Clocks)
    (w : World Db) (entropy : Bytes)
    → (json_modest : (json : Bytes)
        → j.marshal_plaintext r.plaintext r.metadata ≡ some json
        → IsModest json)
    → IsDistinct p j r (create_paste p (sqlite_backend p fails) j i (some r) w).1.store
    → IsSmallPaste p i (create_paste p (sqlite_backend p fails) j i (some r) w).1.store c.stored
    → IsWellFormed p w.store
    → i.entropy ≡ some entropy
    → length entropy ≡ 32
    → All IsByte entropy
    → (create_paste p (sqlite_backend p fails) j i (some r) w).0.status ≡ 200
    → c.stored / second < last_second i r
    → c.handled ≤ last_second i r * second
    → IsDelivered p j i r fails c w
create_paste-IsDelivered p j i r fails c w entropy json_modest distinct paste_modest well random
      size bytes accepted early in_time =
    let s = create_paste-IsStored p (sqlite_backend p fails) j i w r accepted in
    let id_valid = generate_id-matches_id entropy s.id size bytes (rw (← random) s.named) in
    let back =
      save_paste-get_paste p fails
        (save_args p (sqlite_backend p fails) r s.id s.text s.is_plaintext i.now) c.stored w.store
        (create_paste p (sqlite_backend p fails) j i (some r) w).1.store s.saved well s.stored
        early in
    deliver p j i r json_modest fails c w distinct paste_modest s id_valid back in_time
