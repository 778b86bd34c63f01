-- ===== src/RateLimit/Rounding.antt =====
-- What rounding in float64 does to the tokens that src/services/ratelimit.go adds.
use native.Mathlib.Nat.{mul-le-mul_right, le_of_mul-le-mul_right}
use bincrypt.Prelude.{ℕ, ◌+◌, ◌-◌, ◌*◌, ◌≤◌, ◌<◌, arith}
use bincrypt.Storage.{second}
use bincrypt.RateLimit.{Floats, tokens_to_add}

-- Each operation is taken to have a relative error of at most 1 / precision.
abbrev pub precision : ℕ
precision = 1125899906842624

-- The operations round as IEEE 754 and the Go documentation say, at the operands at which they are
-- used for one limit and window and for elapsed times up to `span`: results are finite, and none is
-- above the exact one, or below it for the window, by more than the relative error.
pub record IsRounded (f : Floats) (limit window span : ℕ) : Type 0 where
  pub limit_finite : 0 < f.den (f.of_nat limit)
  pub limit_above :
      f.num (f.of_nat limit) * precision ≤ limit * (precision + 1) * f.den (f.of_nat limit)
  pub window_finite : 0 < f.den (f.seconds window)
  pub window_below :
      window * (precision - 1) * f.den (f.seconds window)
      ≤ second * precision * f.num (f.seconds window)
  pub rate_finite : 0 < f.den (f.div (f.of_nat limit) (f.seconds window))
  pub rate_above :
      f.num (f.div (f.of_nat limit) (f.seconds window))
        * (f.num (f.seconds window) * f.den (f.of_nat limit) * precision)
      ≤ f.num (f.of_nat limit)
        * (precision + 1)
        * f.den (f.seconds window)
        * f.den (f.div (f.of_nat limit) (f.seconds window))
  pub elapsed_finite : (e : ℕ) → e ≤ span → 0 < f.den (f.seconds e)
  pub elapsed_above :
      (e : ℕ)
      → e ≤ span
      → f.num (f.seconds e) * (second * precision) ≤ e * (precision + 1) * f.den (f.seconds e)
  pub product_finite :
      (e : ℕ)
      → e ≤ span
      → 0 < f.den (f.mul (f.seconds e) (f.div (f.of_nat limit) (f.seconds window)))
  pub product_above :
      (e : ℕ)
      → e ≤ span
      → let rate = f.div (f.of_nat limit) (f.seconds window) in
        f.num (f.mul (f.seconds e) rate) * (f.den (f.seconds e) * f.den rate * precision)
        ≤ f.num (f.seconds e) * f.num rate * (precision + 1) * f.den (f.mul (f.seconds e) rate)
  pub truncated :
      (e : ℕ)
      → e ≤ span
      → let product = f.mul (f.seconds e) (f.div (f.of_nat limit) (f.seconds window)) in
        f.truncate product * f.den product ≤ f.num product

-- A bound on a / b by n / d, and a bound on n / d.
le-through : (a b n d r s : ℕ) → 0 < d → a * d ≤ b * n → n * r ≤ s * d → a * r ≤ b * s
le-through a b n d r s pos h k =
    let first : a * d * r ≤ b * n * r = mul-le-mul_right r h in
    let then_ : n * r * b ≤ s * d * b = mul-le-mul_right b k in
    let both : a * r * d ≤ b * s * d = omega (arith, first, then_) in
    le_of_mul-le-mul_right {k = d} both pos

-- The five roundings, one after the other: `a` of the limit, `w` of the window, `r` of the rate, `s`
-- of the elapsed time and `m` of the product, for p the precision, q = p + 1, and t the tokens.
roundings :
    (t e l win p q low c an ad wn wd rn rd sn sd mn md : ℕ)
    → 0 < ad
    → 0 < wd
    → 0 < rd
    → 0 < sd
    → 0 < md
    → t * md ≤ mn
    → mn * (sd * rd * p) ≤ sn * rn * q * md
    → sn * (c * p) ≤ e * q * sd
    → rn * (wn * ad * p) ≤ an * q * wd * rd
    → an * p ≤ l * q * ad
    → win * low * wd ≤ c * p * wn
    → t * (p * p * p) * (win * low) ≤ e * (q * q * q * q) * l
roundings t e l win p q low c an ad wn wd rn rd sn sd mn md had hwd hrd hsd hmd ht hm hs hr ha hw =
    let one : t * (sd * rd * p) ≤ 1 * (sn * rn * q) =
      le-through t 1 mn md (sd * rd * p) (sn * rn * q) hmd (omega (arith, ht)) hm in
    let two : t * rd * p * (c * p) ≤ rn * q * (e * q) =
      le-through (t * rd * p) (rn * q) sn sd (c * p) (e * q) hsd (omega (arith, one)) hs in
    let three : t * p * c * p * (wn * ad * p) ≤ q * e * q * (an * q * wd) =
      le-through (t * p * c * p) (q * e * q) rn rd (wn * ad * p) (an * q * wd) hrd
        (omega (arith, two)) hr in
    let four : t * p * c * p * wn * p * p ≤ q * e * q * q * wd * (l * q) =
      le-through (t * p * c * p * wn * p) (q * e * q * q * wd) an ad p (l * q) had
        (omega (arith, three)) ha in
    let five : win * low * wd * (t * p * p * p) ≤ c * p * wn * (t * p * p * p) =
      mul-le-mul_right (t * p * p * p) hw in
    le_of_mul-le-mul_right {k = wd} (omega (arith, four, five)) hwd

-- The relative error of the sum of all roundings is at most 1 / accuracy.
abbrev pub accuracy : ℕ
accuracy = 140737488355328

within-accuracy :
    (t e l win a b k : ℕ)
    → 0 < a
    → t * win * a ≤ e * l * b
    → b * k ≤ a * (k + 1)
    → t * (win * k) ≤ e * (l * (k + 1))
within-accuracy t e l win a b k pos h c =
    let scaled : t * win * a * k ≤ e * l * b * k = mul-le-mul_right k h in
    let closer : b * k * (e * l) ≤ a * (k + 1) * (e * l) = mul-le-mul_right (e * l) c in
    le_of_mul-le-mul_right {k = a} (omega (arith, scaled, closer)) pos

-- The tokens that are added exceed the exact rate by no more than that.
pub tokens_to_add-le :
    (f : Floats) (limit window span e : ℕ)
    → IsRounded f limit window span
    → e ≤ span
    → tokens_to_add f e limit window * (window * accuracy) ≤ e * (limit * (accuracy + 1))
unfolding tokens_to_add
tokens_to_add-le f limit window span e h k =
    let p = precision in
    let low = precision - 1 in
    let q = precision + 1 in
    let rate = f.div (f.of_nat limit) (f.seconds window) in
    let product = f.mul (f.seconds e) rate in
    let t = f.truncate product in
    let exact : t * (p * p * p) * (window * low) ≤ e * (q * q * q * q) * limit =
      roundings t e limit window p q low second (f.num (f.of_nat limit)) (f.den (f.of_nat limit))
        (f.num (f.seconds window)) (f.den (f.seconds window)) (f.num rate) (f.den rate)
        (f.num (f.seconds e)) (f.den (f.seconds e)) (f.num product) (f.den product) h.limit_finite
        h.window_finite h.rate_finite (h.elapsed_finite e k) (h.product_finite e k)
        (h.truncated e k) (h.product_above e k) (h.elapsed_above e k) h.rate_above h.limit_above
        h.window_below in
    within-accuracy t e limit window (p * p * p * low) (q * q * q * q) accuracy (omega arith)
      (omega (arith, exact)) (omega arith)
