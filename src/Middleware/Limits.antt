-- ===== src/Middleware/Limits.antt =====
-- RateLimiter and GlobalRateLimit of src/middleware.go over the RateLimiter interface of
-- src/services/ratelimit.go, and the in-memory limiter behind it.
use bincrypt.Prelude.{
  ℕ, ◌+◌, ◌/◌, List, ◌∷◌, ◌++◌, Option, none, some, Bytes, codes, ltb, if◌then◌else◌,
}
use bincrypt.Storage.{second}
use bincrypt.RateLimit.{Floats, Entry, Decision, check_rate_limit}

-- CheckRateLimit with its error as `none`.
pub record RateLimiter (S : Type 0) : Type 0 where
  pub check : Bytes → ℕ → ℕ → S → Option Decision × S

-- The in-memory service at one instant.
abbrev pub memory_limiter : Floats → ℕ → RateLimiter (List Entry)
memory_limiter f now = record {
  check = λ key limit window buckets.
      let (d, buckets') = check_rate_limit f limit window now key buckets in (some d, buckets');
}

-- The headers X-RateLimit-Limit, X-RateLimit-Remaining, X-RateLimit-Reset and Retry-After.
pub record RateHeaders : Type 0 where
  pub limit : ℕ
  pub remaining : ℕ
  pub reset : ℕ
  pub retry_after : Option ℕ

-- Passed on, status 503, or status 429.
pub data Verdict : Type 0 where
  passed unavailable limited : Verdict

-- fmt.Sprintf("%s:%s", action, clientIP)
unfoldable pub rate_key : Bytes → Bytes → Bytes
rate_key action ip = action ++ b':' ∷ ip

abbrev pub retry_seconds : ℕ → Option ℕ
retry_seconds wait = if ltb 0 wait then some (wait / second) else none

abbrev pub minute : ℕ
minute = 60000000000

decided_headers : ℕ → Decision → RateHeaders
decided_headers limit d = record {
  limit = limit;
  remaining = d.remaining;
  reset = d.reset_at / second;
  retry_after = if d.allowed then none else retry_seconds d.retry_after;
}

-- A limiter that fails refuses.
decide : ℕ → ℕ → ℕ → Option Decision → Verdict × RateHeaders
unfolding decided_headers
decide limit window now none = (
  unavailable,
  record {
    limit = limit;
    remaining = 0;
    reset = (now + window) / second;
    retry_after = some (window / second);
  },
)
decide limit window now (some d) = (if d.allowed then passed else limited, decided_headers limit d)

-- A limiter that fails lets the request pass; the only header is Retry-After.
decide_global : Option Decision → Verdict × Option ℕ
decide_global none = (passed, none)
decide_global (some d) =
    if d.allowed then (passed, none) else (limited, retry_seconds d.retry_after)

module _ {S : Type 0} (l : RateLimiter S) where
  unfoldable pub rate_limiter : Bytes → ℕ → ℕ → ℕ → Bytes → S → (Verdict × RateHeaders) × S
  unfolding decide rate_key
  rate_limiter action limit window now ip s =
      let (d, s') = l.check (rate_key action ip) limit window s in (decide limit window now d, s')

  unfoldable pub global_rate_limit : ℕ → Bytes → S → (Verdict × Option ℕ) × S
  unfolding decide_global rate_key
  global_rate_limit requests_per_minute ip s =
      let (d, s') = l.check (rate_key (codes "global") ip) requests_per_minute minute s in
      (decide_global d, s')
