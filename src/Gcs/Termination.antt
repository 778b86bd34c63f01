-- ===== src/Gcs/Termination.antt =====
-- Every call of GetPaste of src/services/storage_gcs.go is over after five requests.
use bincrypt.Prelude.{ℕ, zero, suc, ◌≤◌, ◌≡◌, List, [], ◌∷◌, true, Bytes, arith, length}
use bincrypt.Sqlite.{is_some}
use bincrypt.Gcs.{
  Object, Bucket, Op, Reply, found, contents, succeeded, missing, unmet, failed, Fault,
}
use bincrypt.Gcs.Get.{
  Phase, start, checking, resolving, claiming, reading, deleting, deleting_burn, finished, next_op,
  resolved, follow, resume, step, steps, answer_of, get_paste,
}

-- How many replies a phase may still wait for.
abbrev rank : Phase → ℕ
rank start = 5
rank (checking o) = 4
rank (resolving o) = 3
rank (claiming o target) = 2
rank (deleting target) = 2
rank (reading burned o target) = 1
rank deleting_burn = 1
rank (finished answer) = 0

module _ (now : ℕ) (id : Bytes) where
  rank-resolved : (o target : Object) → rank (resolved now id o target) ≤ 2
  unfolding resolved
  rank-resolved o target = ground arith

  rank-follow : (o : Object) → rank (follow now id o) ≤ 3
  unfolding follow
  rank-follow o = ground (arith, rank-resolved o o)

  rank-resume :
      (phase : Phase) (r : Reply) (n : ℕ) → rank phase ≤ suc n → rank (resume now id phase r) ≤ n
  unfolding resume
  rank-resume start r n h = ground arith
  rank-resume (checking o) r n h = ground (arith, rank-follow o)
  rank-resume (resolving o) (found target) n h = omega (arith, rank-resolved o target)
  rank-resume (resolving o) (contents c) n h = omega arith
  rank-resume (resolving o) succeeded n h = omega arith
  rank-resume (resolving o) missing n h = omega arith
  rank-resume (resolving o) unmet n h = omega arith
  rank-resume (resolving o) failed n h = omega arith
  rank-resume (claiming o target) r n h = ground arith
  rank-resume (reading burned o target) r n h = ground arith
  rank-resume (deleting target) r n h = ground arith
  rank-resume deleting_burn r n h = ground arith
  rank-resume (finished answer) r n h = ground arith

  rank-answer : (phase : Phase) → rank phase ≤ 0 → is_some (answer_of phase) ≡ true
  rank-answer phase h = ground arith

  -- A call that gets these replies, one after the other.
  unfoldable pub resume_all : List Reply → Phase → Phase
  resume_all [] phase = phase
  resume_all (r ∷ rs) phase = resume_all rs (resume now id phase r)

  rank-resume_all :
      (rs : List Reply) (phase : Phase) → rank phase ≤ length rs → rank (resume_all rs phase) ≤ 0
  unfolding resume_all
  rank-resume_all [] phase h = h
  rank-resume_all (r ∷ rs) phase h =
      rank-resume_all rs (resume now id phase r) (rank-resume phase r (length rs) (omega arith))

  module _ (fails : Op → Fault) where
    rank-step : (s : Phase × Bucket) (n : ℕ) → rank s.0 ≤ suc n → rank (step now id fails s).0 ≤ n
    unfolding step next_op resume
    rank-step (start, b) n h = rank-resume start _ n h
    rank-step (checking o, b) n h = rank-resume (checking o) _ n h
    rank-step (resolving o, b) n h = rank-resume (resolving o) _ n h
    rank-step (claiming o target, b) n h = rank-resume (claiming o target) _ n h
    rank-step (reading burned o target, b) n h = rank-resume (reading burned o target) _ n h
    rank-step (deleting target, b) n h = omega arith
    rank-step (deleting_burn, b) n h = omega arith
    rank-step (finished answer, b) n h = omega arith

    rank-steps : (n : ℕ) (s : Phase × Bucket) → rank s.0 ≤ n → rank (steps now id fails n s).0 ≤ 0
    unfolding steps
    rank-steps zero s h = h
    rank-steps (suc n) s h = rank-steps n (step now id fails s) (rank-step s n h)

    pub get_paste-answers : (b : Bucket) → is_some (get_paste now id fails b).0 ≡ true
    unfolding get_paste
    get_paste-answers b =
        rank-answer (steps now id fails 5 (start, b)).0 (rank-steps 5 (start, b) (omega arith))

-- A call of GetPaste has its answer after at most five requests: whatever five replies it gets, from
-- whatever becomes of the bucket meanwhile, it has finished, and run alone on any bucket under any
-- faults it answers.
pub get_paste-terminates :
    (now : ℕ) (id : Bytes) (fails : Op → Fault) (rs : List Reply) (b : Bucket)
    → 5 ≤ length rs
    → (is_some (answer_of (resume_all now id rs start)) ≡ true)
      × (is_some (get_paste now id fails b).0 ≡ true)
get_paste-terminates now id fails rs b h = (
  rank-answer now id (resume_all now id rs start) (rank-resume_all now id rs start h),
  get_paste-answers now id fails b,
)
