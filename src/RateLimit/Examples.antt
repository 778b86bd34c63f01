-- ===== src/RateLimit/Examples.antt =====
-- Runs of the limiter of src/services/ratelimit.go: three requests in ten seconds, without rounding.
use bincrypt.Prelude.{
  ℕ, ◌+◌, ◌-◌, ◌*◌, ◌≤◌, ◌≡◌, refl, none, some, List, [], ◌∷◌, arith, codes, find_by, bytes_eq,
}
use bincrypt.RateLimit.Rounding.{accuracy}
use bincrypt.RateLimit.Exact.{exact, exact-IsRounded}
use bincrypt.RateLimit.{tokens_to_add, Entry, check_rate_limit, cleanup, entry_key}
use bincrypt.RateLimit.Bound.{Check, IsRun, admitted, admitted-le}
use bincrypt.RateLimit.Cleanup.{FillsUp, IsUnique, check_rate_limit-cleanup}

exact-FillsUp : FillsUp exact 3 10
unfolding tokens_to_add
exact-FillsUp e h = omega arith

abbrev check : ℕ → Check
check now = record { key = codes "ip"; limit = 3; window = 10; now = now }

abbrev checks : List Check
checks = check 0 ∷ check 0 ∷ check 1 ∷ check 1 ∷ check 5 ∷ check 5 ∷ []

-- Three at once, and one more after five seconds.
four_admitted : admitted exact (codes "ip") checks [] ≡ 4
unfolding admitted check_rate_limit find_by bytes_eq
four_admitted = refl

checks-IsRun : IsRun (codes "ip") 3 10 0 5 checks
checks-IsRun = (
  omega arith,
  omega arith,
  (λ _. (refl, refl)),
  (
    omega arith,
    omega arith,
    (λ _. (refl, refl)),
    (
      omega arith,
      omega arith,
      (λ _. (refl, refl)),
      (
        omega arith,
        omega arith,
        (λ _. (refl, refl)),
        (
          omega arith,
          omega arith,
          (λ _. (refl, refl)),
          (omega arith, omega arith, (λ _. (refl, refl)), omega arith),
        ),
      ),
    ),
  ),
)

nothing_found : find_by entry_key (codes "ip") [] ≡ none
unfolding find_by
nothing_found = refl

admitted-le_example :
    admitted exact (codes "ip") checks [] * (10 * accuracy)
    ≤ 3 * (10 * accuracy) + (5 - 0) * (3 * (accuracy + 1))
admitted-le_example =
    admitted-le exact (codes "ip") 3 10 0 5 checks [] (exact-IsRounded 3 10 5 (omega arith))
      checks-IsRun nothing_found

-- An empty bucket that nobody has used for more than two hours.
abbrev buckets : List Entry
buckets =
    record { key = codes "ip"; bucket = record { tokens = 0; last_refill = 0; last_accessed = 0 } }
    ∷ []

buckets-IsUnique : IsUnique buckets
unfolding find_by
buckets-IsUnique = (refl, tt)

refilled :
    (e : Entry)
    → find_by entry_key (codes "ip") buckets ≡ some e
    → e.bucket.last_refill ≤ e.bucket.last_accessed
unfolding find_by bytes_eq
refilled e h = ground arith

check_rate_limit-cleanup_example :
    (check_rate_limit exact 3 10 7200000000002 (codes "ip") (cleanup 7200000000001 buckets)).0
    ≡ (check_rate_limit exact 3 10 7200000000002 (codes "ip") buckets).0
check_rate_limit-cleanup_example =
    check_rate_limit-cleanup exact 3 10 7200000000001 7200000000002 (codes "ip") buckets
      buckets-IsUnique exact-FillsUp (omega arith) (omega arith) (omega arith) refilled
