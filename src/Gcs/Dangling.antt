-- ===== src/Gcs/Dangling.antt =====
-- DeletePaste of src/services/storage_gcs.go leaves the hash index, which a later save of the same
-- text takes for a paste.
use bincrypt.Prelude.{
  ℕ, ◌≤◌, ◌*◌, ◌≡◌, refl, true, false, [], none, some, Bytes, arith, is_empty, bytes_eq,
  bytes_eq_refl, if◌then◌else◌,
}
use mathlib.Core.Path.{◌∙◌}
use bincrypt.Storage.{ok, err, get_failed, Platform, SaveArgs, second}
use bincrypt.Sqlite.Save.{plaintext_hash, expires_at, to_seconds, save_result}
use bincrypt.Gcs.{
  attrs_reply, Object, Bucket, find_object, put_object, delete, apply, request, paste_object_name,
  burn_object_name, hash_index_object_name, banned_hash_object_name,
}
use bincrypt.Gcs.Save.{
  ban_error, save_paste, save_hashed, save_allowed, after_find, or_save, check_hash, check_ban,
  created_reference, create_reference_paste, check_bans, paste_metadata,
}
use bincrypt.Gcs.Get.{get_paste}
use bincrypt.Gcs.Admin.{delete_paste, deleted, delete_marker}
use bincrypt.Gcs.Lookup.{put_object-find, delete-find}
use bincrypt.Gcs.Outcomes.{reliable}
use bincrypt.Gcs.Roundtrip.{save_paste-read_back}

delete_paste-reliable :
    (id : Bytes) (b : Bucket)
    → delete_paste reliable id b
      ≡ (none, (apply (delete (burn_object_name id)) (apply (delete (paste_object_name id)) b).1).1)
unfolding delete_paste deleted delete_marker request apply
delete_paste-reliable id b = ground arith

-- What DeletePaste of `id` leaves under another name.
delete_paste-find :
    (id k : Bytes) (b : Bucket)
    → find_object k (delete_paste reliable id b).1 ≡ (
        if bytes_eq (paste_object_name id) k
        then none
        else if bytes_eq (burn_object_name id) k
        then none
        else find_object k b)
delete_paste-find id k b = rw (delete_paste-reliable id b) (
    ground (
      arith,
      delete-find k (burn_object_name id) (apply (delete (paste_object_name id)) b).1,
      delete-find k (paste_object_name id) b,
    ))

module _ (p : Platform) (a : SaveArgs) (b : Bucket) (index : Object)
    (sealed : a.is_plaintext ≡ false)
    (indexed : find_object (hash_index_object_name (p.sha256_hex a.ciphertext)) b ≡ some index)
    (named : is_empty index.metadata.paste_id ≡ false)
    (allowed : find_object (banned_hash_object_name (p.sha256_hex a.ciphertext)) b ≡ none) where
  -- A save of a text that is not banned and that the index names.
  save_paste-indexed : save_paste p reliable a b ≡ (
    ok (save_result p a true index.metadata.paste_id),
    put_object (paste_object_name a.id) (paste_metadata p reliable a index.metadata.paste_id) [] b,
  )
  unfolding save_paste save_hashed check_bans check_hash check_ban ban_error or_save save_allowed
      after_find create_reference_paste created_reference request apply attrs_reply plaintext_hash
  save_paste-indexed = ground arith

-- A save of a text, no plaintext, whose hash is not banned and whose index names a paste, after
-- DeletePaste of that paste: with every request working it succeeds, deduplicated onto the paste
-- that is gone, and if another identifier is saved and has no burn marker, then until the new paste
-- expires every read of it answers with an error and no content.
pub delete_paste-dangles :
    (p : Platform) (a : SaveArgs) (now : ℕ) (b : Bucket) (index : Object)
    → a.is_plaintext ≡ false
    → find_object (hash_index_object_name (p.sha256_hex a.ciphertext)) b ≡ some index
    → is_empty index.metadata.paste_id ≡ false
    → find_object (banned_hash_object_name (p.sha256_hex a.ciphertext)) b ≡ none
    → bytes_eq a.id index.metadata.paste_id ≡ false
    → find_object (burn_object_name a.id) b ≡ none
    → now ≤ to_seconds (expires_at p a) * second
    → let gone = (delete_paste reliable index.metadata.paste_id b).1 in
      ((save_paste p reliable a gone).0 ≡ ok (save_result p a true index.metadata.paste_id))
      × ((get_paste now a.id reliable (save_paste p reliable a gone).1).0 ≡ some (err get_failed))
unfolding bytes_eq
delete_paste-dangles p a now b index sealed indexed named allowed other unburned early =
    let target = index.metadata.paste_id in
    let gone = (delete_paste reliable target b).1 in
    let find = λ (k : Bytes). delete_paste-find target k b in
    let saved =
      save_paste-indexed p a gone index sealed
        (ground (arith, find (hash_index_object_name (p.sha256_hex a.ciphertext)))) named
        (ground (arith, find (banned_hash_object_name (p.sha256_hex a.ciphertext)))) in
    let clear : find_object (burn_object_name a.id) gone ≡ none =
      ground (arith, find (burn_object_name a.id)) in
    let meta = paste_metadata p reliable a target in
    let absent : find_object (paste_object_name target)
          (put_object (paste_object_name a.id) meta [] gone)
        ≡ none =
      ground (
        arith,
        put_object-find (paste_object_name target) (paste_object_name a.id) meta [] gone,
        find (paste_object_name target),
        bytes_eq_refl (paste_object_name target),
      ) in
    rw saved
      (refl, save_paste-read_back p reliable a now gone _ _ saved clear early ∙ rw absent refl)
