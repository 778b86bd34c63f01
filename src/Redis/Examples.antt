-- ===== src/Redis/Examples.antt =====
-- Runs of the sliding window of src/services/ratelimit_redis.go on one key.
use bincrypt.Prelude.{
  ℕ, ◌-◌, ◌*◌, ◌≤◌, ◌≡◌, refl, false, List, [], ◌∷◌, some, arith, codes, bytes_eq, find_by,
  remove_by,
}
use bincrypt.Storage.{second}
use bincrypt.RateLimit.{Decision}
use bincrypt.Redis.{
  number, SortedSet, answered, ran, remove_until, remove_member, insert, expire, alive,
}
use bincrypt.Redis.Check.{script, read_reply, check_valid, check_set, Call, check_rate_limit}
use bincrypt.Redis.Members.{count_above}
use bincrypt.Redis.Bound.{admitted, redis_admitted-le}

-- Doubles that keep every integer.
abbrev exact : ℕ → ℕ
exact n = n

abbrev call_at : ℕ → Call
call_at now = record {
  key = codes "a";
  limit = 2;
  window = 60 * second;
  now = now;
  clock = now;
  later = now;
  run = ran answered;
  pipe = answered;
  removal = answered;
}

abbrev three_calls : List Call
three_calls = call_at (1 * second) ∷ call_at (2 * second) ∷ call_at (3 * second) ∷ []

two_admitted :
    admitted exact
      (λ a b h. h)
      2
      60
      (omega arith)
      (omega arith)
      (codes "r:")
      (codes "a")
      three_calls
      []
      []
    ≡ 2 * second ∷ 1 * second ∷ []
unfolding admitted check_rate_limit check_set check_valid script read_reply alive expire
    remove_until remove_member insert find_by remove_by bytes_eq
two_admitted = refl

redis_admitted-le_example :
    count_above (3 * second - 60 * second) (
      admitted exact
        (λ a b h. h)
        2
        60
        (omega arith)
        (omega arith)
        (codes "r:")
        (codes "a")
        three_calls
        []
        [])
    ≤ 2
unfolding find_by bytes_eq
redis_admitted-le_example =
    redis_admitted-le exact 2 60 0 (3 * second) (codes "r:") (codes "a") three_calls [] (λ a b h. h)
      (omega arith) (omega arith) refl
      (
        omega arith,
        refl,
        (answered, refl),
        (λ h. (refl, refl, omega arith)),
        (
          omega arith,
          refl,
          (answered, refl),
          (λ h. (refl, refl, omega arith)),
          (omega arith, refl, (answered, refl), (λ h. (refl, refl, omega arith)), omega arith),
        ),
      )

-- A key whose window is full.
abbrev full : SortedSet
full = record {
  members = record { score = 5; member = number 5 } ∷ [];
  expires = some (60 * second);
}

abbrev refusal : Decision
refusal = record { allowed = false; remaining = 0; reset_at = 0; retry_after = 0 }
