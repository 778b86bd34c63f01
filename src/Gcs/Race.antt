-- ===== src/Gcs/Race.antt =====
-- Readers of one paste that take turns at the bucket of src/services/storage_gcs.go, with the
-- requests of other calls between theirs.
use bincrypt.Prelude.{ℕ, ◌≤◌, ◌≡◌, Bool, true, false, List, ◌∷◌, ◌++◌, Bytes}
use bincrypt.Gcs.{Bucket, Op, Fault, request, paste_object_name, burn_object_name}
use bincrypt.Gcs.Get.{Phase, start, checking, resolving, step}
use bincrypt.Gcs.Lookup.{writes_to, deletes}

-- The bucket and the calls of GetPaste, each with what it does next.
pub record Race : Type 0 where
  pub bucket : Bucket
  pub readers : List Phase

-- Whether a call may come to read its clock, to check the expiry, once its next request is answered.
abbrev pub reads_clock : Phase → Bool
reads_clock (checking o) = true
reads_clock (resolving o) = true
reads_clock _ = false

-- A reader's next request at the time `now`, with what becomes of it.
abbrev pub advance : Bytes → Fault → ℕ → Phase → Bucket → Phase × Bucket
advance id fault now r b = step now id (λ _. fault) (r, b)

-- Calls start at any time, but none checks the expiry after `until`.
pub data RaceStep (id : Bytes) (until : ℕ) (s : Race) : Race → Type 0 where
  arrive : RaceStep id until s (record s { readers = start ∷ s.readers })
  turn :
      (fault : Fault) (now : ℕ) (before after : List Phase) (r : Phase)
      → (reads_clock r ≡ true → now ≤ until)
      → s.readers ≡ before ++ r ∷ after
      → RaceStep id until s (record {
        bucket = (advance id fault now r s.bucket).1;
        readers = before ++ (advance id fault now r s.bucket).0 ∷ after;
      })
  -- Any request of another call that neither writes the paste nor deletes its burn marker.
  other :
      (fault : Fault) (op : Op)
      → writes_to (paste_object_name id) op ≡ false
      → deletes (burn_object_name id) op ≡ false
      → RaceStep id until s (record s { bucket = (request fault op s.bucket).1 })

pub data Races (id : Bytes) (until : ℕ) (s : Race) : Race → Type 0 where
  stop : Races id until s s
  then_step : {t u : Race} → Races id until s t → RaceStep id until t u → Races id until s u
