-- ===== src/Firestore/Examples.antt =====
-- The limiter of src/services/ratelimit_firestore.go on four calls, with room for two in 10 seconds.
use native.Mathlib.Nat.{div-mul-le_self}
use bincrypt.Prelude.{ℕ, ◌-◌, ◌*◌, ◌/◌, ◌≤◌, ◌≡◌, refl, false, List, [], ◌∷◌, none, some, arith}
use bincrypt.RateLimit.{Decision}
use bincrypt.Redis.Members.{count_above}
use bincrypt.Firestore.{
  instant, Document, Transaction, commits, unacknowledged, Call, valid_timestamps, check_document,
}
use bincrypt.Firestore.Bound.{admitted, firestore_admitted-le}
use bincrypt.Firestore.Told.{IsTold, check_document-IsTold}

-- Instants cut to microseconds.
abbrev stored : ℕ → ℕ
stored t = t / 1000 * 1000

abbrev window : ℕ
window = 10000000000

abbrev call : ℕ → Transaction → Call
call now t = record { now = now; later = now; transaction = t }

abbrev calls : List Call
calls =
    call 1000000500 commits
    ∷ call 2000000000 unacknowledged
    ∷ call 3000000000 commits
    ∷ call 11500000000 commits
    ∷ []

-- The second call is written although its caller sees an error, so that the third is refused.
two_admitted : admitted stored 2 window calls none [] ≡ 11500000000 ∷ 1000000000 ∷ []
unfolding admitted check_document valid_timestamps
two_admitted = refl

firestore_admitted-le_example :
    count_above (11500000000 - window) (admitted stored 2 window calls none []) ≤ 2
firestore_admitted-le_example =
    firestore_admitted-le stored 2 window 0 11500000000 calls (λ t. div-mul-le_self t 1000)
      (λ t. omega arith) (omega arith, (omega arith, (omega arith, (omega arith, omega arith))))

abbrev document : Document
document = record {
  timestamps = some (instant 2000000000 ∷ instant 1000000000 ∷ []);
  updated_at = 2000000000;
  expires_at = 22000000000;
}

abbrev refusal : Decision
refusal = record {
  allowed = false;
  remaining = 0;
  reset_at = 11000000000;
  retry_after = 8000000000;
}

is_refused :
    (check_document stored 2 window 3000000000 3000000000 commits (some document)).0 ≡ some refusal
unfolding check_document valid_timestamps
is_refused = refl

check_document-IsTold_example : IsTold window 3000000000 3000000000 (some document) refusal
check_document-IsTold_example =
    check_document-IsTold stored 2 window 3000000000 3000000000 commits (some document) refusal
      (omega arith) is_refused refl
