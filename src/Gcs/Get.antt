-- ===== src/Gcs/Get.antt =====
-- GetPaste of src/services/storage_gcs.go as a machine: a phase is where the reader waits for the
-- bucket, so that several readers can take turns.
use bincrypt.Prelude.{
  ℕ, zero, suc, ◌*◌, Bool, true, false, [], Option, none, some, Bytes, if◌then◌else◌, is_empty,
  length, ltb, ◌==◌,
}
use bincrypt.Storage.{
  Result, ok, err, StoreError, not_found, get_failed, burn_failed, content_failed, Paste,
  burned_paste, second,
}
use bincrypt.Gcs.{
  no_metadata, Object, Bucket, Op, attrs, delete, write, read, Reply, found, contents, succeeded,
  missing, unmet, Fault, request, paste_object_name, burn_object_name,
}

abbrev pub Answer : Type 0
Answer = Result StoreError (Bytes × Paste)

-- `checking` waits for the burn marker of the paste's object, `resolving` for the object that it
-- refers to. The other phases name the object that holds the content too.
pub data Phase : Type 0 where
  start : Phase
  checking resolving : Object → Phase
  claiming : Object → Object → Phase
  reading : Bool → Object → Object → Phase
  deleting : Object → Phase
  deleting_burn : Phase
  finished : Answer → Phase

-- A number that does not parse leaves the zero value.
abbrev pub or_zero : Option ℕ → ℕ
or_zero none = 0
or_zero (some n) = n

abbrev pub paste_of : Bytes → Object → Bool → Bytes → Paste
paste_of id o burned content = record {
  id = id;
  expires_at = or_zero o.metadata.expires_at * second;
  burn_after_read = o.metadata.burn_after_read;
  size_bytes =
      if or_zero o.metadata.size_bytes == 0 then length content else or_zero o.metadata.size_bytes;
  created_at = or_zero o.metadata.created_at * second;
  is_burned = burned;
}

-- A paste whose expiry does not parse never expires.
abbrev pub is_expired : ℕ → Object → Bool
is_expired now o = elim o.metadata.expires_at [
  | none ↦ false
  | some expires ↦ ltb (expires * second) now
]

abbrev pub answer_of : Phase → Option Answer
answer_of (finished answer) = some answer
answer_of _ = none

module _ (now : ℕ) (id : Bytes) where
  -- What the reader asks for next. The text of the marker, a time, is never read.
  unfoldable pub next_op : Phase → Option Op
  next_op start = some (attrs (paste_object_name id))
  next_op (checking o) = some (attrs (burn_object_name id))
  next_op (resolving o) = some (attrs (paste_object_name o.metadata.references))
  next_op (claiming o target) = some (write (burn_object_name id) true no_metadata [])
  next_op (reading burned o target) = some (read target.name target.generation)
  next_op (deleting target) = some (delete target.name)
  next_op deleting_burn = some (delete (burn_object_name id))
  next_op (finished answer) = none

  -- Steps 5 and 6: the expiry is the paste's, the object to delete is the one with the content.
  unfoldable pub resolved : Object → Object → Phase
  resolved o target =
      if is_expired now o
      then deleting target
      else if o.metadata.burn_after_read
      then claiming o target
      else reading false o target

  -- Step 4
  unfoldable pub follow : Object → Phase
  unfolding resolved
  follow o = if is_empty o.metadata.references then resolved o o else resolving o

  -- An error of the burn marker's Attrs is taken for its absence.
  unfoldable pub resume : Phase → Reply → Phase
  unfolding follow resolved
  resume start (found o) = checking o
  resume start missing = finished (err not_found)
  resume start _ = finished (err get_failed)
  resume (checking o) (found marker) = finished (ok ([], burned_paste id))
  resume (checking o) _ = follow o
  resume (resolving o) (found target) = resolved o target
  resume (resolving o) _ = finished (err get_failed)
  resume (claiming o target) succeeded = reading true o target
  resume (claiming o target) unmet = finished (ok ([], burned_paste id))
  resume (claiming o target) _ = finished (err burn_failed)
  resume (reading burned o target) (contents content) =
      finished (ok (content, paste_of id o burned content))
  resume (reading burned o target) missing = finished (err not_found)
  resume (reading burned o target) _ = finished (err content_failed)
  resume (deleting target) _ = deleting_burn
  resume deleting_burn _ = finished (err not_found)
  resume (finished answer) _ = finished answer

  module _ (fails : Op → Fault) where
    -- One request to the bucket, unless the reader has finished.
    unfoldable pub step : Phase × Bucket → Phase × Bucket
    unfolding next_op resume
    step (phase, b) = elim (next_op phase) [
      | none ↦ (phase, b)
      | some op ↦ (resume phase (request (fails op) op b).0, (request (fails op) op b).1)
    ]

    unfoldable pub steps : ℕ → Phase × Bucket → Phase × Bucket
    steps zero s = s
    steps (suc n) s = steps n (step s)

    -- No call makes more than five requests; `none` would be a call that is not over by then.
    unfoldable pub get_paste : Bucket → Option Answer × Bucket
    unfolding steps
    get_paste b = let (phase, b') = steps 5 (start, b) in (answer_of phase, b')
