-- ===== src/Gcs/Outcomes.antt =====
-- What GetPaste of src/services/storage_gcs.go answers when every request works.
use bincrypt.Prelude.{
  ℕ, ◌≡◌, refl, Bool, true, false, [], Option, none, some, Bytes, arith, if◌then◌else◌, is_empty,
  bytes_eq, bytes_eq_refl, find_by-remove_by, find_by_key, remove_by,
}
use bincrypt.Storage.{ok, err, not_found, get_failed}
use bincrypt.Gcs.{
  no_metadata, attrs_reply, read_reply, Object, Bucket, object_name, find_object, put_object, Op,
  apply, Fault, works, request, paste_object_name, burn_object_name,
}
use bincrypt.Gcs.Get.{
  Answer, paste_of, is_expired, next_op, resolved, follow, resume, step, steps, get_paste,
}
use bincrypt.Gcs.Lookup.{put_object-find}

abbrev pub reliable : Op → Fault
reliable op = works

abbrev pub burned_name : Bytes → Bytes → Bool
burned_name id k = bytes_eq (burn_object_name id) (paste_object_name k)

-- The bucket once the marker is written, where the paste burns after reading.
abbrev pub after_get : Bytes → Bool → Bucket → Bucket
after_get id once b = if once then put_object (burn_object_name id) no_metadata [] b else b

module _ (now : ℕ) (id : Bytes) (b : Bucket) (o : Object)
    (stored : find_object (paste_object_name id) b ≡ some o)
    (unburned : find_object (burn_object_name id) b ≡ none) where
  pub get_paste-own :
      is_expired now o ≡ false
      → o.metadata.references ≡ []
      → get_paste now id reliable b ≡ (
        some (ok (o.content, paste_of id o o.metadata.burn_after_read o.content)),
        after_get id o.metadata.burn_after_read b,
      )
  unfolding get_paste steps step next_op resume follow resolved request apply attrs_reply read_reply
      bytes_eq
  get_paste-own fresh own = ground (
    arith,
    find_by_key object_name (paste_object_name id) b.objects o stored,
    put_object-find (paste_object_name id) (burn_object_name id) no_metadata [] b,
  )

  -- A reference is read from the object that it refers to.
  abbrev pub referred : Option Object → Answer
  referred none = err get_failed
  referred (some target) =
      ok (target.content, paste_of id o o.metadata.burn_after_read target.content)

  pub get_paste-reference :
      (target : Object)
      → is_expired now o ≡ false
      → is_empty o.metadata.references ≡ false
      → find_object (paste_object_name o.metadata.references) b ≡ some target
      → get_paste now id reliable b ≡ (
        some (ok (target.content, paste_of id o o.metadata.burn_after_read target.content)),
        after_get id o.metadata.burn_after_read b,
      )
  unfolding get_paste steps step next_op resume follow resolved request apply attrs_reply read_reply
      bytes_eq
  get_paste-reference target fresh refers there = ground (
    arith,
    find_by_key object_name (paste_object_name o.metadata.references) b.objects target there,
    put_object-find (paste_object_name o.metadata.references) (burn_object_name id) no_metadata []
        b,
  )

  pub get_paste-dangling :
      is_empty o.metadata.references ≡ false
      → find_object (paste_object_name o.metadata.references) b ≡ none
      → get_paste now id reliable b ≡ (some (err get_failed), b)
  unfolding get_paste steps step next_op resume follow resolved request apply attrs_reply
  get_paste-dangling refers gone = ground arith

  get_paste-expired :
      (target : Object)
      → is_expired now o ≡ true
      → is_empty o.metadata.references ≡ false
      → find_object (paste_object_name o.metadata.references) b ≡ some target
      → get_paste now id reliable b ≡ (
        some (err not_found),
        record b {
          objects = remove_by object_name (paste_object_name o.metadata.references) b.objects;
        },
      )
  unfolding get_paste steps step next_op resume follow resolved request apply attrs_reply bytes_eq
  get_paste-expired target old refers there = ground (
    arith,
    find_by_key object_name (paste_object_name o.metadata.references) b.objects target there,
    find_by-remove_by object_name (burn_object_name id) (paste_object_name o.metadata.references)
        b.objects,
  )

-- Reading a reference that has expired deletes the object that it refers to, which may be another
-- paste that has not, and leaves the reference: if the object of paste `id` refers to another paste,
-- whose object is stored, and has expired, and no burn marker is there, then with every request
-- working GetPaste of `id` answers not_found, afterwards the other paste has no object, and the
-- object of `id` is as it was.
pub get_paste-deletes_target :
    (now : ℕ) (id : Bytes) (b : Bucket) (o target : Object)
    → find_object (paste_object_name id) b ≡ some o
    → find_object (burn_object_name id) b ≡ none
    → is_expired now o ≡ true
    → is_empty o.metadata.references ≡ false
    → bytes_eq o.metadata.references id ≡ false
    → find_object (paste_object_name o.metadata.references) b ≡ some target
    → ((get_paste now id reliable b).0 ≡ some (err not_found))
      × (find_object (paste_object_name o.metadata.references) (get_paste now id reliable b).1
          ≡ none)
      × (find_object (paste_object_name id) (get_paste now id reliable b).1 ≡ some o)
unfolding bytes_eq
get_paste-deletes_target now id b o target stored unburned old refers other there =
    let key = paste_object_name o.metadata.references in
    rw (get_paste-expired now id b o stored unburned target old refers there) (
      refl,
      ground (arith, find_by-remove_by object_name key key b.objects, bytes_eq_refl key),
      ground (arith, find_by-remove_by object_name (paste_object_name id) key b.objects),
    )
