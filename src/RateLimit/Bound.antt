-- ===== src/RateLimit/Bound.antt =====
-- How many requests the token bucket lets through.
use native.Mathlib.Nat.{mul-le-mul_right, le_refl}
use bincrypt.Prelude.{
  ℕ, ◌+◌, ◌-◌, ◌*◌, ◌≤◌, ◌<◌, ◌≡◌, refl, ap, ◌&&◌, List, [], ◌∷◌, Option, none, some, Bytes, arith,
  Bool-cases, inl, inr, bytes_eq, bytes_eq_iff, bytes_eq_refl, find_by, find_by-remove_by,
  if◌then◌else◌,
}
use bincrypt.RateLimit.{
  Floats, tokens_to_add, RateBucket, Entry, entry_key, new_bucket, refill, bucket_for, spend,
  check_rate_limit,
}
use bincrypt.RateLimit.Rounding.{IsRounded, accuracy, tokens_to_add-le}

-- The bucket under a key after a check, and that no other key is touched.
pub check_rate_limit-find :
    (f : Floats) (limit window now : ℕ) (key other : Bytes) (buckets : List Entry)
    → find_by entry_key other (check_rate_limit f limit window now key buckets).1 ≡ (
        if bytes_eq key other
        then some (record {
          key = key;
          bucket =
              (spend f limit window now
                (bucket_for f limit window now (find_by entry_key key buckets))).1;
        })
        else find_by entry_key other buckets)
unfolding check_rate_limit find_by
check_rate_limit-find f limit window now key other buckets =
    ground (arith, find_by-remove_by entry_key other key buckets)

pub check_rate_limit-decision :
    (f : Floats) (limit window now : ℕ) (key : Bytes) (buckets : List Entry)
    → (check_rate_limit f limit window now key buckets).0
      ≡ (spend f limit window now (bucket_for f limit window now (find_by entry_key key buckets))).0
unfolding check_rate_limit
check_rate_limit-decision f limit window now key buckets = refl

-- Up to `span`, the limiter adds at most gain / unit tokens for a nanosecond.
abbrev IsBounded : Floats → ℕ → ℕ → ℕ → ℕ → ℕ → Type 0
IsBounded f limit window gain unit span =
    (e : ℕ) → e ≤ span → tokens_to_add f e limit window * unit ≤ e * gain

-- What a bucket is worth until the instant `end`: its tokens and all that will accrue, in
-- unit-ths of a token.
abbrev worth : ℕ → ℕ → ℕ → RateBucket → ℕ
worth gain unit end b = b.tokens * unit + (end - b.last_refill) * gain

worth_grow :
    (gain unit end last now tokens added sum : ℕ)
    → last ≤ now
    → now ≤ end
    → sum ≤ tokens + added
    → added * unit ≤ (now - last) * gain
    → sum * unit + (end - now) * gain ≤ tokens * unit + (end - last) * gain
worth_grow gain unit end last now tokens added sum h k s a =
    let split : end - last ≡ (now - last) + (end - now) = omega arith in
    let scaled : (end - last) * gain ≡ (now - last) * gain + (end - now) * gain =
      omega (arith, ap (λ (t : ℕ). t * gain) split) in
    let grown : sum * unit ≤ (tokens + added) * unit = mul-le-mul_right unit s in omega arith

worth_spend :
    (gain unit end last tokens : ℕ)
    → 0 < tokens
    → (tokens - 1) * unit + (end - last) * gain + unit ≤ tokens * unit + (end - last) * gain
worth_spend gain unit end last tokens h =
    let split : tokens ≡ (tokens - 1) + 1 = omega arith in
    omega (arith, ap (λ (t : ℕ). t * unit) split)

refill-worth :
    (f : Floats) (limit window gain unit first end now : ℕ) (b : RateBucket)
    → IsBounded f limit window gain unit (end - first)
    → first ≤ b.last_refill
    → b.last_refill ≤ now
    → now ≤ end
    → (worth gain unit end (refill f limit window now b) ≤ worth gain unit end b)
      × ((refill f limit window now b).last_refill ≤ now)
      × (first ≤ (refill f limit window now b).last_refill)
unfolding refill
refill-worth f limit window gain unit first end now b exact old h k =
    let added = tokens_to_add f (now - b.last_refill) limit window in
    let bounded : added * unit ≤ (now - b.last_refill) * gain =
      exact (now - b.last_refill) (omega arith) in
    (
      ground (
        arith,
        worth_grow gain unit end b.last_refill now b.tokens added (b.tokens + added) h k,
        worth_grow gain unit end b.last_refill now b.tokens added limit h k,
        bounded,
      ),
      ground arith,
      ground arith,
    )

-- One call of CheckRateLimit.
pub record Check : Type 0 where
  pub key : Bytes
  pub limit : ℕ
  pub window : ℕ
  pub now : ℕ

-- The clock does not run back and stays within `end`, and every call for `key` has the same
-- limit and window.
abbrev pub IsRun : Bytes → ℕ → ℕ → ℕ → ℕ → List Check → Type 0
IsRun key limit window start end [] = start ≤ end
IsRun key limit window start end (c ∷ cs) =
    (start ≤ c.now)
    × (c.now ≤ end)
    × (c.key ≡ key → (c.limit ≡ limit) × (c.window ≡ window))
    × IsRun key limit window c.now end cs

module _ (f : Floats) (key : Bytes) where
  -- How many calls for `key` are allowed in a run.
  unfoldable pub admitted : List Check → List Entry → ℕ
  admitted [] buckets = 0
  admitted (c ∷ cs) buckets =
      let out = check_rate_limit f c.limit c.window c.now c.key buckets in
      (if bytes_eq c.key key && out.0.allowed then 1 else 0) + admitted cs out.1

  module _ (limit window gain unit first end : ℕ)
      (exact : IsBounded f limit window gain unit (end - first)) where
    -- What the entry of `key` is worth until `end`: a missing one counts as full at `start`.
    abbrev total : ℕ → Option Entry → ℕ
    total start none = limit * unit + (end - start) * gain
    total start (some e) = worth gain unit end e.bucket

    abbrev IsPast : ℕ → Option Entry → Type 0
    IsPast start none = first ≤ start
    IsPast start (some e) = (first ≤ e.bucket.last_refill) × (e.bucket.last_refill ≤ start)

    own_bucket :
        (start now : ℕ) (o : Option Entry)
        → start ≤ now
        → now ≤ end
        → IsPast start o
        → (worth gain unit end (bucket_for f limit window now o) ≤ total start o)
          × ((bucket_for f limit window now o).last_refill ≤ now)
          × (first ≤ (bucket_for f limit window now o).last_refill)
    unfolding bucket_for new_bucket
    own_bucket start now none h k past =
        let less : end - now ≤ end - start = omega arith in
        (omega (arith, mul-le-mul_right gain less), le_refl now, omega arith)
    own_bucket start now (some e) h k (old, past) =
        refill-worth f limit window gain unit first end now e.bucket exact old (omega arith) k

    spend-worth :
        (now : ℕ) (b : RateBucket)
        → ((if (spend f limit window now b).0.allowed then 1 else 0) * unit
              + worth gain unit end (spend f limit window now b).1
            ≤ worth gain unit end b)
          × ((spend f limit window now b).1.last_refill ≡ b.last_refill)
    unfolding spend
    spend-worth now b =
        (ground (arith, worth_spend gain unit end b.last_refill b.tokens), ground arith)

    own-step :
        (start now n : ℕ) (buckets : List Entry)
        → start ≤ now
        → now ≤ end
        → IsPast start (find_by entry_key key buckets)
        → let out = check_rate_limit f limit window now key buckets in
          (n * unit ≤ total now (find_by entry_key key out.1)
            → ((if out.0.allowed then 1 else 0) + n) * unit
              ≤ total start (find_by entry_key key buckets))
          × IsPast now (find_by entry_key key out.1)
    own-step start now n buckets h k past =
        let b = bucket_for f limit window now (find_by entry_key key buckets) in
        let (grown, before, after) =
          own_bucket start now (find_by entry_key key buckets) h k past in
        let (spent, kept) = spend-worth now b in
        rw
          (
            check_rate_limit-find f limit window now key key buckets,
            bytes_eq_refl key,
            check_rate_limit-decision f limit window now key buckets,
          )
          (λ rest. omega arith, (omega arith, omega arith))

    total-le : (start now : ℕ) (o : Option Entry) → start ≤ now → total now o ≤ total start o
    total-le start now none h =
        let less : end - now ≤ end - start = omega arith in
        omega (arith, mul-le-mul_right gain less)
    total-le start now (some e) h = omega arith

    IsPast-le : (start now : ℕ) (o : Option Entry) → start ≤ now → IsPast start o → IsPast now o
    IsPast-le start now none h past = omega arith
    IsPast-le start now (some e) h (old, past) = (old, omega arith)

    any-step :
        (k : Bytes) (l w start now n : ℕ) (buckets : List Entry)
        → (k ≡ key → (l ≡ limit) × (w ≡ window))
        → start ≤ now
        → now ≤ end
        → IsPast start (find_by entry_key key buckets)
        → let out = check_rate_limit f l w now k buckets in
          (n * unit ≤ total now (find_by entry_key key out.1)
            → ((if bytes_eq k key && out.0.allowed then 1 else 0) + n) * unit
              ≤ total start (find_by entry_key key buckets))
          × IsPast now (find_by entry_key key out.1)
    any-step k l w start now n buckets same h h' past = elim (Bool-cases (bytes_eq k key)) [
      | inl own ↦
          let named : k ≡ key = (bytes_eq_iff k key).0 own in
          let (lim, win) = same named in
          rw (named, lim, win, bytes_eq_refl key) (own-step start now n buckets h h' past)
      | inr other ↦
          rw (check_rate_limit-find f l w now k key buckets, other)
            (
              λ rest. omega (arith, total-le start now (find_by entry_key key buckets) h),
              IsPast-le start now _ h past,
            )
    ]

    admitted-le-total :
        (start : ℕ) (cs : List Check) (buckets : List Entry)
        → IsRun key limit window start end cs
        → IsPast start (find_by entry_key key buckets)
        → admitted cs buckets * unit ≤ total start (find_by entry_key key buckets)
    unfolding admitted
    admitted-le-total start [] buckets h past = omega arith
    admitted-le-total start (c ∷ cs) buckets (h, k, same, rest) past =
        let out = check_rate_limit f c.limit c.window c.now c.key buckets in
        let n = admitted cs out.1 in
        let (step, later) = any-step c.key c.limit c.window start c.now n buckets same h k past in
        step (admitted-le-total c.now cs out.1 rest later)

-- In a run of calls on one limiter that starts at `start` with no bucket for a key and ends by
-- `end`, in which the clock does not run back and every call for the key has the same limit and
-- window, the calls allowed for the key number at most
-- limit + limit * (end - start) / window * (1 + 1 / accuracy), whatever other keys are checked; if
-- each operation on doubles for this limit and window, and for elapsed times up to end - start, has
-- a finite result and a relative error of at most 1 / precision.
pub admitted-le :
    (f : Floats) (key : Bytes) (limit window start end : ℕ) (cs : List Check) (buckets : List Entry)
    → IsRounded f limit window (end - start)
    → IsRun key limit window start end cs
    → find_by entry_key key buckets ≡ none
    → admitted f key cs buckets * (window * accuracy)
      ≤ limit * (window * accuracy) + (end - start) * (limit * (accuracy + 1))
admitted-le f key limit window start end cs buckets rounded run fresh = rw fresh at (
    admitted-le-total f key limit window (limit * (accuracy + 1)) (window * accuracy) start end
      (λ e h. tokens_to_add-le f limit window (end - start) e rounded h) start cs buckets run
      (rw fresh (le_refl start)))
