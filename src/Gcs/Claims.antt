-- ===== src/Gcs/Claims.antt =====
-- What one request of a reader of src/services/storage_gcs.go does to its claim on a content.
use bincrypt.Prelude.{
  ℕ, ◌+◌, ◌*◌, ◌≤◌, ◌≡◌, refl, Bool, true, false, not, [], some, Bytes, arith, is_empty, bytes_eq,
  bytes_eq_refl, Bool-cases, inl, inr,
}
use bincrypt.Storage.{ok, err, second}
use bincrypt.Sqlite.{is_some}
use bincrypt.Gcs.{
  no_metadata, attrs_reply, Object, Bucket, find_object, Op, attrs, write, read, Reply, found,
  contents, succeeded, missing, unmet, failed, apply, Fault, request, paste_object_name,
  burn_object_name,
}
use bincrypt.Gcs.Get.{
  Answer, Phase, start, checking, resolving, claiming, reading, deleting, deleting_burn, finished,
  or_zero, is_expired, next_op, resolved, follow, resume, step,
}
use bincrypt.Gcs.Lookup.{writes_to, deletes, put_object-find, request-unwritten, request-undeleted}
use bincrypt.Gcs.Race.{reads_clock}

-- Has the reader got the content, or the right to read it?
abbrev pub has_text : Answer → Bool
has_text (ok (content, paste)) = not (is_empty content)
has_text (err e) = false

abbrev pub has_claim : Phase → Bool
has_claim (reading burned o target) = burned
has_claim (finished answer) = has_text answer
has_claim _ = false

abbrev pub one_if : Bool → ℕ
one_if true = 1
one_if false = 0

abbrev pub is_marked : Bytes → Bucket → Bool
is_marked id b = is_some (find_object (burn_object_name id) b)

module _ (id : Bytes) (until : ℕ) (o0 : Object) (once : o0.metadata.burn_after_read ≡ true)
    (lasting : until ≤ or_zero o0.metadata.expires_at * second) where
  -- What a reader remembers of the paste is true.
  abbrev pub IsTrue : Phase → Type 0
  IsTrue start = Unit
  IsTrue (checking o) = o ≡ o0
  IsTrue (resolving o) = o ≡ o0
  IsTrue (claiming o target) = Unit
  IsTrue (reading burned o target) = burned ≡ true
  IsTrue (deleting target) = ⊥
  IsTrue deleting_burn = ⊥
  IsTrue (finished answer) = Unit

  abbrev pub IsPaste : Bucket → Type 0
  IsPaste b = (o : Object) → find_object (paste_object_name id) b ≡ some o → o ≡ o0

  not_expired : (now : ℕ) → now ≤ until → is_expired now o0 ≡ false
  not_expired now h = ground arith

  -- A request that neither writes the paste nor deletes the marker.
  pub record Kept (b b' : Bucket) : Type 0 where
    pub stored : IsPaste b'
    pub marked : is_marked id b ≡ true → is_marked id b' ≡ true

  pub keeps :
      (fault : Fault) (op : Op) (b : Bucket)
      → writes_to (paste_object_name id) op ≡ false
      → deletes (burn_object_name id) op ≡ false
      → IsPaste b
      → Kept b (request fault op b).1
  keeps fault op b w d p = record {
    stored = λ o e. p o (request-unwritten fault (paste_object_name id) op b o w e);
    marked = request-undeleted fault (burn_object_name id) op b d;
  }

  abbrev IsUnclaimed : Phase → Type 0
  IsUnclaimed p = IsTrue p × (has_claim p ≡ false)

  -- The next phase of a reader, for any reply that a request to this bucket can get.
  after_start :
      (r : Reply) (b : Bucket)
      → IsPaste b
      → ((o : Object) → r ≡ found o → find_object (paste_object_name id) b ≡ some o)
      → (now : ℕ) → IsUnclaimed (resume now id start r)
  unfolding resume
  after_start (found o) b p h now = (p o (h o refl), refl)
  after_start (contents c) b p h now = (tt, refl)
  after_start succeeded b p h now = (tt, refl)
  after_start missing b p h now = (tt, refl)
  after_start unmet b p h now = (tt, refl)
  after_start failed b p h now = (tt, refl)

  resolved-claiming :
      (o target : Object) (now : ℕ)
      → o ≡ o0
      → now ≤ until
      → resolved now id o target ≡ claiming o target
  unfolding resolved
  resolved-claiming o target now same h = rw (same, not_expired now h, once) refl

  follow-IsUnclaimed : (o : Object) (now : ℕ) → o ≡ o0 → now ≤ until → IsUnclaimed (follow now id o)
  unfolding follow
  follow-IsUnclaimed o now same h = elim (Bool-cases (is_empty o.metadata.references)) [
    | inl e ↦ rw (e, resolved-claiming o o now same h) (tt, refl)
    | inr e ↦ rw e (same, refl)
  ]

  after_check :
      (r : Reply) (o : Object) (now : ℕ)
      → o ≡ o0
      → now ≤ until
      → IsUnclaimed (resume now id (checking o) r)
  unfolding resume
  after_check (found marker) o now same h = (tt, refl)
  after_check (contents c) o now same h = follow-IsUnclaimed o now same h
  after_check succeeded o now same h = follow-IsUnclaimed o now same h
  after_check missing o now same h = follow-IsUnclaimed o now same h
  after_check unmet o now same h = follow-IsUnclaimed o now same h
  after_check failed o now same h = follow-IsUnclaimed o now same h

  after_resolve :
      (r : Reply) (o : Object) (now : ℕ)
      → o ≡ o0
      → now ≤ until
      → IsUnclaimed (resume now id (resolving o) r)
  unfolding resume
  after_resolve (found target) o now same h = rw (resolved-claiming o target now same h) (tt, refl)
  after_resolve (contents c) o now same h = (tt, refl)
  after_resolve succeeded o now same h = (tt, refl)
  after_resolve missing o now same h = (tt, refl)
  after_resolve unmet o now same h = (tt, refl)
  after_resolve failed o now same h = (tt, refl)

  -- A turn of one reader: a claim is gained only with the marker.
  pub record Turned (b : Bucket) (phase : Phase) (s : Phase × Bucket) : Type 0 where
    pub stored : IsPaste s.1
    pub sound : IsTrue s.0
    pub charged :
        one_if (has_claim s.0) + one_if (is_marked id b)
        ≤ one_if (has_claim phase) + one_if (is_marked id s.1)

  -- A request that leaves the paste and the marker, with no claim gained.
  quiet :
      (phase next : Phase) (b b' : Bucket)
      → Kept b b'
      → IsTrue next
      → one_if (has_claim next) ≤ one_if (has_claim phase)
      → Turned b phase (next, b')
  quiet phase next b b' k t h = record {
    stored = k.stored;
    sound = t;
    charged = ground (arith, k.marked);
  }

  unclaimed :
      (phase next : Phase) (b b' : Bucket)
      → Kept b b'
      → IsUnclaimed next
      → Turned b phase (next, b')
  unclaimed phase next b b' k (t, h) = quiet phase next b b' k t (ground arith)

  found-stored :
      (fault : Fault) (name : Bytes) (b : Bucket) (o : Object)
      → (request fault (attrs name) b).0 ≡ found o
      → find_object name b ≡ some o
  unfolding request apply attrs_reply
  found-stored fault name b o e = ground arith

  is_other : bytes_eq (burn_object_name id) (paste_object_name id) ≡ false
  unfolding bytes_eq
  is_other = refl

  -- The marker is written only where there was none.
  new_marker :
      (fault : Fault) (b : Bucket)
      → (request fault (write (burn_object_name id) true no_metadata []) b).0 ≡ succeeded
      → (is_marked id b ≡ false)
        × (is_marked id (request fault (write (burn_object_name id) true no_metadata []) b).1
            ≡ true)
  unfolding request apply
  new_marker fault b e = ground (
    arith,
    put_object-find (burn_object_name id) (burn_object_name id) no_metadata [] b,
    bytes_eq_refl (burn_object_name id),
  )

  after_claim :
      (r : Reply) (o target : Object) (now : ℕ) (b b' : Bucket)
      → Kept b b'
      → (r ≡ succeeded → (is_marked id b ≡ false) × (is_marked id b' ≡ true))
      → Turned b (claiming o target) (resume now id (claiming o target) r, b')
  unfolding resume
  after_claim succeeded o target now b b' k h =
      let (fresh, made) = h refl in
      record { stored = k.stored; sound = refl; charged = rw (fresh, made) (omega arith) }
  after_claim (found x) o target now b b' k h = unclaimed (claiming o target) _ b b' k (tt, refl)
  after_claim (contents c) o target now b b' k h = unclaimed (claiming o target) _ b b' k (tt, refl)
  after_claim missing o target now b b' k h = unclaimed (claiming o target) _ b b' k (tt, refl)
  after_claim unmet o target now b b' k h = unclaimed (claiming o target) _ b b' k (tt, refl)
  after_claim failed o target now b b' k h = unclaimed (claiming o target) _ b b' k (tt, refl)

  after_read :
      (r : Reply) (burned : Bool) (o target : Object) (now : ℕ)
      → burned ≡ true
      → IsTrue (resume now id (reading burned o target) r)
        × (one_if (has_claim (resume now id (reading burned o target) r)) ≤ one_if burned)
  unfolding resume
  after_read (contents c) burned o target now h = (tt, ground arith)
  after_read (found x) burned o target now h = (tt, ground arith)
  after_read succeeded burned o target now h = (tt, ground arith)
  after_read missing burned o target now h = (tt, ground arith)
  after_read unmet burned o target now h = (tt, ground arith)
  after_read failed burned o target now h = (tt, ground arith)

  pub turn_of :
      (fault : Fault) (phase : Phase) (now : ℕ) (b : Bucket)
      → IsPaste b
      → (reads_clock phase ≡ true → now ≤ until)
      → IsTrue phase
      → Turned b phase (step now id (λ _. fault) (phase, b))
  unfolding step next_op
  turn_of fault start now b p h t =
      unclaimed start _ b _ (keeps fault (attrs (paste_object_name id)) b refl refl p)
        (after_start _ b p (found-stored fault (paste_object_name id) b) now)
  turn_of fault (checking o) now b p h t =
      unclaimed (checking o) _ b _ (keeps fault (attrs (burn_object_name id)) b refl refl p)
        (after_check _ o now t (h refl))
  turn_of fault (resolving o) now b p h t =
      unclaimed (resolving o) _ b _
        (keeps fault (attrs (paste_object_name o.metadata.references)) b refl refl p)
        (after_resolve _ o now t (h refl))
  turn_of fault (claiming o target) now b p h t =
      after_claim _ o target now b _
        (keeps fault (write (burn_object_name id) true no_metadata []) b is_other refl p)
        (new_marker fault b)
  turn_of fault (reading burned o target) now b p h t =
      let (sound, less) =
        after_read (request fault (read target.name target.generation) b).0 burned o target now t in
      quiet (reading burned o target) _ b _
        (keeps fault (read target.name target.generation) b refl refl p) sound less
  turn_of fault (deleting target) now b p h t = elim t [ ]
  turn_of fault deleting_burn now b p h t = elim t [ ]
  turn_of fault (finished answer) now b p h t = record {
    stored = p;
    sound = tt;
    charged = omega arith;
  }
