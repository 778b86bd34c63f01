-- ===== src/Redis/Limiter.antt =====
-- The Redis service as the RateLimiter of src/middleware.go, for one call.
use bincrypt.Prelude.{ℕ, List, Bytes}
use bincrypt.Middleware.Limits.{RateLimiter}
use bincrypt.Redis.{Key, Delivery, Run}
use bincrypt.Redis.Check.{check_rate_limit}

abbrev pub redis_limiter :
    (ℕ → ℕ) → Bytes → ℕ → ℕ → ℕ → Run → Delivery → Delivery → RateLimiter (List Key)
redis_limiter to_double prefix now clock later run pipe removal = record {
  check = λ key limit window db.
      check_rate_limit to_double prefix
        (record {
          key = key;
          limit = limit;
          window = window;
          now = now;
          clock = clock;
          later = later;
          run = run;
          pipe = pipe;
          removal = removal;
        })
        db;
}
