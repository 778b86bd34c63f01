-- ===== src/RateLimit.antt =====
-- The in-memory token bucket of src/services/ratelimit.go. Instants and durations are nanoseconds;
-- the mutex makes each check one step. Go's clock readings carry a monotonic part, so no elapsed
-- time is negative.
pub mod Rounding
pub mod Bound
pub mod Cleanup
pub mod Exact
mod Examples
use bincrypt.Prelude.{
  ℕ, ◌+◌, ◌-◌, ◌*◌, Bool, true, false, List, [], ◌∷◌, Option, none, some, Bytes, ltb, if◌then◌else◌,
  find_by, remove_by,
}
use bincrypt.Storage.{second}

-- The operations on float64 that the limiter uses: the conversions of an int or an int64 to and fro,
-- Duration.Seconds, and the two operators. The value of a double that is finite and not negative is
-- num / den.
pub record Floats : Type 1 where
  pub Double : Type 0
  pub num : Double → ℕ
  pub den : Double → ℕ
  pub of_nat : ℕ → Double
  pub truncate : Double → ℕ
  pub seconds : ℕ → Double
  pub div : Double → Double → Double
  pub mul : Double → Double → Double

-- refillRate, in tokens per second.
unfoldable pub refill_rate : (f : Floats) → ℕ → ℕ → f.Double
refill_rate f limit window = f.div (f.of_nat limit) (f.seconds window)

-- tokensToAdd, for the time that has passed since the last refill.
unfoldable pub tokens_to_add : Floats → ℕ → ℕ → ℕ → ℕ
unfolding refill_rate
tokens_to_add f elapsed limit window =
    f.truncate (f.mul (f.seconds elapsed) (refill_rate f limit window))

-- retryAfter, from timeToNextToken.
unfoldable pub retry_after_of : Floats → ℕ → ℕ → ℕ
unfolding refill_rate
retry_after_of f limit window =
    f.truncate (f.mul (f.div (f.of_nat 1) (refill_rate f limit window)) (f.of_nat second))

pub record RateBucket : Type 0 where
  pub tokens : ℕ
  pub last_refill : ℕ
  pub last_accessed : ℕ

-- One entry of the map `buckets`.
pub record Entry : Type 0 where
  pub key : Bytes
  pub bucket : RateBucket

abbrev pub entry_key : Entry → Bytes
entry_key e = e.key

pub record Decision : Type 0 where
  pub allowed : Bool
  pub remaining : ℕ
  pub reset_at : ℕ
  pub retry_after : ℕ

abbrev pub two_hours : ℕ
two_hours = 7200000000000

module _ (f : Floats) (limit window now : ℕ) where
  unfoldable pub new_bucket : RateBucket
  new_bucket = record { tokens = limit; last_refill = now; last_accessed = now }

  unfoldable pub refill : RateBucket → RateBucket
  unfolding tokens_to_add
  refill b =
      let added = tokens_to_add f (now - b.last_refill) limit window in
      let sum = b.tokens + added in
      if ltb 0 added
      then record {
        tokens = if ltb limit sum then limit else sum;
        last_refill = now;
        last_accessed = now;
      }
      else record b { last_accessed = now }

  -- The bucket to use: a new one, full, or the old one refilled.
  unfoldable pub bucket_for : Option Entry → RateBucket
  unfolding new_bucket refill
  bucket_for none = new_bucket
  bucket_for (some e) = refill e.bucket

  unfoldable pub spend : RateBucket → Decision × RateBucket
  unfolding retry_after_of
  spend b =
      if ltb 0 b.tokens
      then (
        record {
          allowed = true;
          remaining = b.tokens - 1;
          reset_at = now + window;
          retry_after = 0;
        },
        record b { tokens = b.tokens - 1 },
      )
      else (
        record {
          allowed = false;
          remaining = 0;
          reset_at = now + retry_after_of f limit window;
          retry_after = retry_after_of f limit window;
        },
        b,
      )

  -- CheckRateLimit; its error is always nil.
  unfoldable pub check_rate_limit : Bytes → List Entry → Decision × List Entry
  unfolding bucket_for spend
  check_rate_limit key buckets =
      let (d, b) = spend (bucket_for (find_by entry_key key buckets)) in
      (d, record { key = key; bucket = b } ∷ remove_by entry_key key buckets)

-- The first loop of cleanup.
unfoldable pub expired_keys : ℕ → List Entry → List Bytes
expired_keys now [] = []
expired_keys now (e ∷ es) =
    if ltb two_hours (now - e.bucket.last_accessed)
    then e.key ∷ expired_keys now es
    else expired_keys now es

-- The second loop.
unfoldable pub delete_keys : List Bytes → List Entry → List Entry
delete_keys [] es = es
delete_keys (k ∷ ks) es = delete_keys ks (remove_by entry_key k es)

unfoldable pub cleanup : ℕ → List Entry → List Entry
unfolding expired_keys delete_keys
cleanup now buckets = delete_keys (expired_keys now buckets) buckets
