-- ===== src/Gcs/Lookup.antt =====
-- What a request to the bucket of src/services/storage_gcs.go leaves under each name.
use bincrypt.Prelude.{
  ◌≡◌, Bool, true, false, none, some, Bytes, arith, if◌then◌else◌, bytes_eq, bytes_eq_iff, find_by,
  find_by-remove_by, Bool-cases, inl, inr,
}
use bincrypt.Sqlite.{is_some}
use bincrypt.Gcs.{
  Metadata, Object, Bucket, object_name, find_object, put_object, Op, attrs, delete, write, read,
  apply, Fault, works, refused, unacknowledged, request,
}

pub put_object-find :
    (k name : Bytes) (metadata : Metadata) (content : Bytes) (b : Bucket)
    → find_object k (put_object name metadata content b) ≡ (
        if bytes_eq name k
        then some (record {
          name = name;
          generation = b.next_generation;
          metadata = metadata;
          content = content;
        })
        else find_object k b)
unfolding find_by
put_object-find k name metadata content b =
    ground (arith, find_by-remove_by object_name k name b.objects)

pub delete-find :
    (k name : Bytes) (b : Bucket)
    → find_object k (apply (delete name) b).1 ≡ (if bytes_eq name k then none else find_object k b)
unfolding apply
delete-find k name b = elim (Bool-cases (bytes_eq name k)) [
  | inl same ↦
      let e : name ≡ k = (bytes_eq_iff name k).0 same in
      ground (arith, find_by-remove_by object_name k name b.objects, e)
  | inr other ↦ ground (arith, find_by-remove_by object_name k name b.objects)
]

-- The object under a name is gone, or is as it was, after a request that does not write it.
abbrev pub writes_to : Bytes → Op → Bool
writes_to k (attrs name) = false
writes_to k (delete name) = false
writes_to k (write name c metadata content) = bytes_eq name k
writes_to k (read name generation) = false

abbrev pub deletes : Bytes → Op → Bool
deletes k (attrs name) = false
deletes k (delete name) = bytes_eq name k
deletes k (write name c metadata content) = false
deletes k (read name generation) = false

apply-unwritten :
    (k : Bytes) (op : Op) (b : Bucket) (o : Object)
    → writes_to k op ≡ false
    → find_object k (apply op b).1 ≡ some o
    → find_object k b ≡ some o
unfolding apply
apply-unwritten k (attrs name) b o h e = e
apply-unwritten k (delete name) b o h e =
    ground (arith, find_by-remove_by object_name k name b.objects)
apply-unwritten k (write name c metadata content) b o h e =
    ground (arith, put_object-find k name metadata content b)
apply-unwritten k (read name generation) b o h e = e

apply-undeleted :
    (k : Bytes) (op : Op) (b : Bucket)
    → deletes k op ≡ false
    → is_some (find_object k b) ≡ true
    → is_some (find_object k (apply op b).1) ≡ true
unfolding apply
apply-undeleted k (attrs name) b h e = e
apply-undeleted k (delete name) b h e =
    ground (arith, find_by-remove_by object_name k name b.objects)
apply-undeleted k (write name c metadata content) b h e =
    ground (arith, put_object-find k name metadata content b)
apply-undeleted k (read name generation) b h e = e

pub request-unwritten :
    (fault : Fault) (k : Bytes) (op : Op) (b : Bucket) (o : Object)
    → writes_to k op ≡ false
    → find_object k (request fault op b).1 ≡ some o
    → find_object k b ≡ some o
unfolding request
request-unwritten works k op b o h e = apply-unwritten k op b o h e
request-unwritten refused k op b o h e = e
request-unwritten unacknowledged k op b o h e = apply-unwritten k op b o h e

pub request-undeleted :
    (fault : Fault) (k : Bytes) (op : Op) (b : Bucket)
    → deletes k op ≡ false
    → is_some (find_object k b) ≡ true
    → is_some (find_object k (request fault op b).1) ≡ true
unfolding request
request-undeleted works k op b h e = apply-undeleted k op b h e
request-undeleted refused k op b h e = e
request-undeleted unacknowledged k op b h e = apply-undeleted k op b h e
