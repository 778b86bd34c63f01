-- ===== src/RateLimit/Exact.antt =====
-- Numbers without rounding in place of float64, for runs of src/services/ratelimit.go.
use native.Mathlib.Nat.{div-mul-le_self}
use bincrypt.Prelude.{ℕ, ◌*◌, ◌/◌, ◌<◌, arith}
use bincrypt.Storage.{second}
use bincrypt.RateLimit.{Floats}
use bincrypt.RateLimit.Rounding.{IsRounded}

-- A pair (n, d) is the fraction n / d.
abbrev pub exact : Floats
exact = record {
  Double = ℕ × ℕ;
  num = λ x. x.0;
  den = λ x. x.1;
  of_nat = λ n. (n, 1);
  truncate = λ x. x.0 / x.1;
  seconds = λ e. (e, second);
  div = λ x y. (x.0 * y.1, x.1 * y.0);
  mul = λ x y. (x.0 * y.0, x.1 * y.1);
}

pub exact-IsRounded : (limit window span : ℕ) → 0 < window → IsRounded exact limit window span
exact-IsRounded limit window span h = record {
  limit_finite = omega arith;
  limit_above = omega arith;
  window_finite = omega arith;
  window_below = omega arith;
  rate_finite = omega arith;
  rate_above = omega arith;
  elapsed_finite = λ e k. omega arith;
  elapsed_above = λ e k. omega arith;
  product_finite = λ e k. omega arith;
  product_above = λ e k. omega arith;
  truncated = λ e k. div-mul-le_self (e * (limit * second)) (second * (1 * window));
}
