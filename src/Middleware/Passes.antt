-- ===== src/Middleware/Passes.antt =====
-- How many requests of one client the rate limits let through, with the in-memory limiter.
use bincrypt.Prelude.{
  ℕ, ◌+◌, ◌-◌, ◌*◌, ◌≤◌, ◌≡◌, refl, ◌↔◌, Bool, true, false, not, ◌&&◌, ◌==◌, List, [], ◌∷◌, Option,
  none, some, Bytes, bytes_eq, bytes_eq_iff, codes, arith, all, find_by, if◌then◌else◌, Bool-cases,
  inl, inr,
}
use bincrypt.RateLimit.{Floats, Entry, entry_key, Decision, check_rate_limit}
use bincrypt.RateLimit.Rounding.{IsRounded, accuracy}
use bincrypt.RateLimit.Bound.{Check, IsRun, admitted, admitted-le}
use bincrypt.Middleware.Limits.{
  RateLimiter, memory_limiter, Verdict, passed, unavailable, limited, rate_key, rate_limiter,
  minute, global_rate_limit,
}

-- An action has no colon.
abbrev pub is_plain : Bytes → Bool
is_plain action = all (λ c. not (c == b':')) action

-- If no action has a colon, the keys of two counters are the same only if both the action and the address are, even if
-- addresses have colons, as IPv6 addresses do.
pub rate_key-injective :
    (a b x y : Bytes)
    → is_plain a ≡ true
    → is_plain b ≡ true
    → rate_key a x ≡ rate_key b y
    → (a ≡ b) × (x ≡ y)
unfolding rate_key
rate_key-injective [] [] x y h k e = (refl, ground arith)
rate_key-injective [] (d ∷ b) x y h k e = ground arith
rate_key-injective (c ∷ a) [] x y h k e = ground arith
rate_key-injective (c ∷ a) (d ∷ b) x y h k e =
    let (same, ips) = rate_key-injective a b x y (ground arith) (ground arith) (ground arith) in
    let first : c ≡ d = ground arith in (rw (first, same) refl, ips)

-- Does the limiter's answer allow the request? An error counts as `otherwise`.
abbrev pub is_allowed : Bool → Option Decision → Bool
is_allowed otherwise none = otherwise
is_allowed otherwise (some d) = d.allowed

-- RateLimiter passes a request on exactly if the limiter answers and allows it; GlobalRateLimit
-- passes it on exactly if the limiter fails or allows it.
pub rate_limiter-passes_iff :
    {S : Type 0} (l : RateLimiter S) (action ip : Bytes) (limit window now : ℕ) (s : S)
    → (((rate_limiter l action limit window now ip s).0.0 ≡ passed)
        ↔ (is_allowed false (l.check (rate_key action ip) limit window s).0 ≡ true))
      × (((global_rate_limit l limit ip s).0.0 ≡ passed)
          ↔ (is_allowed true (l.check (rate_key (codes "global") ip) limit minute s).0 ≡ true))
unfolding rate_limiter global_rate_limit
rate_limiter-passes_iff l action ip limit window now s =
    ((λ h. ground arith, λ h. ground arith), (λ h. ground arith, λ h. ground arith))

-- A request that reaches RateLimiter.
pub record Arrival : Type 0 where
  pub action : Bytes
  pub ip : Bytes
  pub now : ℕ

abbrev pub is_passed : Verdict → Bool
is_passed passed = true
is_passed unavailable = false
is_passed limited = false

-- The clock does not run back and stays within `end`, and no action has a colon.
abbrev pub IsTraffic : ℕ → ℕ → List Arrival → Type 0
IsTraffic start end [] = start ≤ end
IsTraffic start end (a ∷ rest) =
    (start ≤ a.now) × (a.now ≤ end) × (is_plain a.action ≡ true) × IsTraffic a.now end rest

pub rate_key-eq :
    (a b x y : Bytes)
    → is_plain a ≡ true
    → is_plain b ≡ true
    → bytes_eq (rate_key a x) (rate_key b y) ≡ (bytes_eq a b && bytes_eq x y)
rate_key-eq a b x y h k = elim (Bool-cases (bytes_eq (rate_key a x) (rate_key b y))) [
  | inl same ↦
      let (actions, ips) =
        rate_key-injective a b x y h k ((bytes_eq_iff (rate_key a x) (rate_key b y)).0 same) in
      ground (arith, bytes_eq_iff a b, bytes_eq_iff x y)
  | inr other ↦ elim (Bool-cases (bytes_eq a b)) [
    | inl actions ↦ elim (Bool-cases (bytes_eq x y)) [
      | inl ips ↦
          let key : rate_key a x ≡ rate_key b y =
            rw ((bytes_eq_iff a b).0 actions, (bytes_eq_iff x y).0 ips) refl in
          ground (arith, bytes_eq_iff (rate_key a x) (rate_key b y))
      | inr ips ↦ ground arith
    ]
    | inr actions ↦ ground arith
  ]
]

-- Each action has its limit and its window.
module _ (f : Floats) (limits : Bytes → ℕ × ℕ) where
  -- How many of the requests for one action from one address are passed on.
  unfoldable pub passes : Bytes → Bytes → List Arrival → List Entry → ℕ
  passes action ip [] buckets = 0
  passes action ip (a ∷ rest) buckets =
      let out =
        rate_limiter (memory_limiter f a.now) a.action (limits a.action).0 (limits a.action).1 a.now
          a.ip buckets in
      (if bytes_eq a.action action && bytes_eq a.ip ip && is_passed out.0.0 then 1 else 0)
      + passes action ip rest out.1

  abbrev checks_of : List Arrival → List Check
  checks_of [] = []
  checks_of (a ∷ rest) =
      record {
        key = rate_key a.action a.ip;
        limit = (limits a.action).0;
        window = (limits a.action).1;
        now = a.now;
      }
      ∷ checks_of rest

  passes-admitted :
      (action ip : Bytes) (start end : ℕ) (rest : List Arrival) (buckets : List Entry)
      → is_plain action ≡ true
      → IsTraffic start end rest
      → passes action ip rest buckets ≡ admitted f (rate_key action ip) (checks_of rest) buckets
  unfolding passes admitted rate_limiter
  passes-admitted action ip start end [] buckets h t = refl
  passes-admitted action ip start end (a ∷ rest) buckets h (_, _, plain, t) =
      let out =
        check_rate_limit f (limits a.action).0 (limits a.action).1 a.now (rate_key a.action a.ip)
          buckets in
      ground (
        arith,
        passes-admitted action ip a.now end rest out.1 h t,
        rate_key-eq a.action action a.ip ip plain h,
      )

  checks_of-IsRun :
      (action ip : Bytes) (start end : ℕ) (rest : List Arrival)
      → is_plain action ≡ true
      → IsTraffic start end rest
      → IsRun (rate_key action ip) (limits action).0 (limits action).1 start end (checks_of rest)
  checks_of-IsRun action ip start end [] h t = t
  checks_of-IsRun action ip start end (a ∷ rest) h (after, before, plain, t) = (
    after,
    before,
    (λ key.
        let same = (rate_key-injective a.action action a.ip ip plain h key).0 in
        (rw same refl, rw same refl)),
    checks_of-IsRun action ip a.now end rest h t,
  )

-- With the in-memory limiter, started without a bucket for an action and an address, and if
-- each operation on doubles is accurate, RateLimiter passes on at most
-- limit + limit * (end - start) / window * (1 + 1 / accuracy) of the requests for that action from that address between
-- `start` and `end`, whatever other actions and addresses send in between, if the clock does not
-- run back and no action has a colon.
pub passes-le :
    (f : Floats) (limits : Bytes → ℕ × ℕ) (action ip : Bytes) (start end : ℕ) (rest : List Arrival)
    (buckets : List Entry)
    → IsRounded f (limits action).0 (limits action).1 (end - start)
    → is_plain action ≡ true
    → IsTraffic start end rest
    → find_by entry_key (rate_key action ip) buckets ≡ none
    → passes f limits action ip rest buckets * ((limits action).1 * accuracy)
      ≤ (limits action).0 * ((limits action).1 * accuracy)
        + (end - start) * ((limits action).0 * (accuracy + 1))
passes-le f limits action ip start end rest buckets exact plain t fresh =
    rw (passes-admitted f limits action ip start end rest buckets plain t) (
      admitted-le f (rate_key action ip) (limits action).0 (limits action).1 start end
        (checks_of f limits rest) buckets exact
        (checks_of-IsRun f limits action ip start end rest plain t) fresh)
