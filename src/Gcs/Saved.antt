-- ===== src/Gcs/Saved.antt =====
-- The object that SavePaste of src/services/storage_gcs.go leaves.
use bincrypt.Prelude.{
  ℕ, ◌≡◌, refl, false, not, [], Option, none, some, Bytes, arith, if◌then◌else◌, is_empty, bytes_eq,
  bytes_eq_refl, Bool-cases, inl, inr,
}
use mathlib.Core.Path.{subst}
use bincrypt.Storage.{Result, ok, err, StoreError, Platform, SaveArgs, SavePasteResult}
use bincrypt.Sqlite.Save.{plaintext_hash}
use bincrypt.Gcs.{
  no_metadata, Object, Bucket, find_object, put_object, Op, attrs, Reply, found, contents,
  succeeded, missing, unmet, failed, apply, Fault, works, refused, unacknowledged, request,
  paste_object_name, burn_object_name, hash_index_object_name,
}
use bincrypt.Gcs.Save.{
  save_paste, save_allowed, save_original, create_reference_paste, check_bans, check_hash,
  check_ban, or_save, save_hashed, after_find, paste_metadata,
}
use bincrypt.Gcs.Lookup.{put_object-find}

module _ (p : Platform) (fails : Op → Fault) (a : SaveArgs) where
  -- The object that a save leaves: an original, or a reference to `target`.
  abbrev pub saved_object : Bytes → Bytes → ℕ → Object
  saved_object references content generation = record {
    name = paste_object_name a.id;
    generation = generation;
    metadata = paste_metadata p fails a references;
    content = content;
  }

  pub record IsSaved (r : SavePasteResult) (b b' : Bucket) : Type 0 where
    pub generation : ℕ
    pub stored :
        find_object (paste_object_name a.id) b'
        ≡ some (
            saved_object r.references_id
              (if r.was_deduplicated then [] else a.ciphertext)
              generation)
    pub own : r.was_deduplicated ≡ not (is_empty r.references_id)
    pub unburned : find_object (burn_object_name a.id) b' ≡ find_object (burn_object_name a.id) b

  save_original-IsSaved :
      (b b' : Bucket) (r : SavePasteResult)
      → save_original p fails a b ≡ (ok r, b')
      → IsSaved r b b'
  unfolding save_original request apply bytes_eq
  save_original-IsSaved b b' r e =
      let key = paste_object_name a.id in
      let burn = burn_object_name a.id in
      let index = hash_index_object_name (p.sha256_hex a.ciphertext) in
      let meta = paste_metadata p fails a [] in
      let b1 = put_object key meta a.ciphertext b in
      let imeta = record no_metadata { paste_id = a.id } in
      record {
        generation = b.next_generation;
        stored = ground (
          arith,
          put_object-find key key meta a.ciphertext b,
          bytes_eq_refl key,
          put_object-find key index imeta [] b1,
        );
        own = ground arith;
        unburned = ground (
          arith,
          put_object-find burn key meta a.ciphertext b,
          put_object-find burn index imeta [] b1,
        );
      }

  create_reference-IsSaved :
      (target : Bytes) (b b' : Bucket) (r : SavePasteResult)
      → is_empty target ≡ false
      → create_reference_paste p fails a target b ≡ (ok r, b')
      → IsSaved r b b'
  unfolding create_reference_paste request apply bytes_eq
  create_reference-IsSaved target b b' r named e =
      let key = paste_object_name a.id in
      let burn = burn_object_name a.id in
      record {
        generation = b.next_generation;
        stored = ground (
          arith,
          put_object-find key key (paste_metadata p fails a target) [] b,
          bytes_eq_refl key,
        );
        own = ground arith;
        unburned = ground (arith, put_object-find burn key (paste_metadata p fails a target) [] b);
      }

  -- Asking leaves the bucket as it is.
  check_bans-same : (plain_hash : Bytes) (b : Bucket) → (check_bans p fails a plain_hash b).1 ≡ b
  unfolding check_bans check_hash check_ban request apply
  check_bans-same plain_hash b = ground arith

  ask-same :
      (fault : Fault) (name : Bytes) (b : Bucket)
      → request fault (attrs name) b ≡ ((request fault (attrs name) b).0, b)
  unfolding request apply
  ask-same works name b = refl
  ask-same refused name b = refl
  ask-same unacknowledged name b = refl

  err-ok :
      (e : StoreError) (r : SavePasteResult) (b b' : Bucket)
      → ◌≡◌ {A = Result StoreError SavePasteResult × Bucket} (err e, b) (ok r, b')
      → ⊥
  err-ok e r b b' h = cc

  after_find-IsSaved :
      (reply : Reply) (b b' : Bucket) (r : SavePasteResult)
      → after_find p fails a (reply, b) ≡ (ok r, b')
      → IsSaved r b b'
  unfolding after_find
  after_find-IsSaved missing b b' r e = save_original-IsSaved b b' r e
  after_find-IsSaved (found o) b b' r e = elim (Bool-cases (is_empty o.metadata.paste_id)) [
    | inl none_there ↦ save_original-IsSaved b b' r (rw none_there at e)
    | inr named ↦ create_reference-IsSaved o.metadata.paste_id b b' r named (rw named at e)
  ]
  after_find-IsSaved (contents c) b b' r e = elim (err-ok _ r b b' e) [ ]
  after_find-IsSaved succeeded b b' r e = elim (err-ok _ r b b' e) [ ]
  after_find-IsSaved unmet b b' r e = elim (err-ok _ r b b' e) [ ]
  after_find-IsSaved failed b b' r e = elim (err-ok _ r b b' e) [ ]

  or_save-IsSaved :
      (banned : Option StoreError) (b b' : Bucket) (r : SavePasteResult)
      → or_save p fails a (banned, b) ≡ (ok r, b')
      → IsSaved r b b'
  unfolding or_save save_allowed
  or_save-IsSaved (some error) b b' r e = elim (err-ok error r b b' e) [ ]
  or_save-IsSaved none b b' r e =
      let index = hash_index_object_name (p.sha256_hex a.ciphertext) in
      after_find-IsSaved (request (fails (attrs index)) (attrs index) b).0 b b' r
        (rw (ask-same (fails (attrs index)) index b) at e)

  save_hashed-IsSaved :
      (text : Option Bytes) (b b' : Bucket) (r : SavePasteResult)
      → save_hashed p fails a text b ≡ (ok r, b')
      → IsSaved r b b'
  unfolding save_hashed
  save_hashed-IsSaved none b b' r e = elim (err-ok _ r b b' e) [ ]
  save_hashed-IsSaved (some plain_hash) b b' r e =
      or_save-IsSaved (check_bans p fails a plain_hash b).0 b b' r (
        subst (λ x. or_save p fails a ((check_bans p fails a plain_hash b).0, x) ≡ (ok r, b'))
          (check_bans-same plain_hash b) e)

  pub save_paste-IsSaved :
      (b b' : Bucket) (r : SavePasteResult) → save_paste p fails a b ≡ (ok r, b') → IsSaved r b b'
  unfolding save_paste
  save_paste-IsSaved b b' r e =
      save_hashed-IsSaved (plaintext_hash p a.is_plaintext a.ciphertext) b b' r e
