-- ===== src/Server/Admission.antt =====
-- How many requests of one client reach CreatePaste of src/server.go, with the in-memory limiter.
use bincrypt.Prelude.{
  ℕ, ◌+◌, ◌-◌, ◌*◌, ◌≤◌, ◌≡◌, refl, true, List, [], ◌∷◌, ◌++◌, Option, none, some, Bytes,
  bytes_eq_iff, codes, arith, find_by,
}
use bincrypt.RateLimit.{Floats, Entry, entry_key}
use bincrypt.RateLimit.Rounding.{IsRounded, accuracy}
use bincrypt.RateLimit.Bound.{Check, IsRun, admitted-le}
use bincrypt.Middleware.Limits.{
  Verdict, passed, unavailable, limited, rate_key, minute, global_rate_limit,
}
use bincrypt.Middleware.Passes.{rate_key-injective}
use bincrypt.Server.{Handler, Limit, Route}
use bincrypt.Server.Serve.{
  Match, found, wrong_method, not_found, redirected, Request, Site, client_of, table, global_limit,
  screen, serve,
}
use bincrypt.Server.Gates.{IsMux}
use bincrypt.Server.Checks.{
  create_action, fits, global_is_other, limiter, own_checks, screened_checks, counted_checks,
  match_checks, checks_of, created, created-admitted, route-fits,
}

-- The clock does not run back and stays within `end`.
abbrev pub IsTimed : ℕ → ℕ → List Request → Type 0
IsTimed start end [] = start ≤ end
IsTimed start end (r ∷ rest) = (start ≤ r.now) × (r.now ≤ end) × IsTimed r.now end rest

module _ (f : Floats) (site : Site) where
  abbrev IsCreateRun : Bytes → ℕ → ℕ → List Check → Type 0
  IsCreateRun client start end cs = IsRun (rate_key create_action client) 10 minute start end cs

  IsRun-earlier :
      (client : Bytes) (start start' end : ℕ) (cs : List Check)
      → start ≤ start'
      → IsCreateRun client start' end cs
      → IsCreateRun client start end cs
  IsRun-earlier client start start' end [] h k = omega arith
  IsRun-earlier client start start' end (c ∷ cs) h (after, before, same, k) =
      (omega arith, before, same, k)

  limited-IsRun :
      (r : Request) (client : Bytes) (end : ℕ) (handler : Handler) (l : Option Limit)
      (cs : List Check)
      → fits handler l ≡ true
      → r.now ≤ end
      → IsCreateRun client r.now end cs
      → IsCreateRun client r.now end (own_checks f site r l ++ cs)
  limited-IsRun r client end handler none cs e h k = k
  limited-IsRun r client end handler (some l) cs e h k = (
    omega arith,
    h,
    (λ key.
        let same =
          rate_key-injective l.action create_action (client_of site r) client (ground arith) refl
            key in
        ground (arith, same.0, bytes_eq_iff l.action create_action)),
    k,
  )

  screened-IsRun :
      (r : Request) (client : Bytes) (end : ℕ) (route : Route) (o : Option ℕ) (cs : List Check)
      → fits route.handler route.limit ≡ true
      → r.now ≤ end
      → IsCreateRun client r.now end cs
      → IsCreateRun client r.now end (screened_checks f site r route o ++ cs)
  screened-IsRun r client end route none cs e h k =
      limited-IsRun r client end route.handler route.limit cs e h k
  screened-IsRun r client end route (some status) cs e h k = k

  counted-IsRun :
      (r : Request) (client : Bytes) (end : ℕ) (route : Route) (vars : List (Bytes × Bytes))
      (v : Verdict) (cs : List Check)
      → fits route.handler route.limit ≡ true
      → r.now ≤ end
      → IsCreateRun client r.now end cs
      → IsCreateRun client r.now end (counted_checks f site r route vars v ++ cs)
  counted-IsRun r client end route vars passed cs e h k =
      screened-IsRun r client end route (screen site r vars) cs e h k
  counted-IsRun r client end route vars limited cs e h k = k
  counted-IsRun r client end route vars unavailable cs e h k = k

  match-IsRun :
      (r : Request) (client : Bytes) (start end : ℕ) (m : Match) (s : List Entry) (cs : List Check)
      → IsMux site.find
      → site.find (table site) r.http ≡ m
      → start ≤ r.now
      → r.now ≤ end
      → IsCreateRun client r.now end cs
      → IsCreateRun client start end (match_checks f site r m s ++ cs)
  match-IsRun r client start end wrong_method s cs mux e h k run =
      IsRun-earlier client start r.now end cs h run
  match-IsRun r client start end not_found s cs mux e h k run =
      IsRun-earlier client start r.now end cs h run
  match-IsRun r client start end redirected s cs mux e h k run =
      IsRun-earlier client start r.now end cs h run
  match-IsRun r client start end (found route vars) s cs mux e h k run =
      let verdict =
        (global_rate_limit (limiter f site r.now) global_limit (client_of site r) s).0.0 in
      (
        h,
        k,
        (λ key.
            let same =
              rate_key-injective (codes "global") create_action (client_of site r) client refl refl
                key in
            ground (arith, same.0, global_is_other, bytes_eq_iff (codes "global") create_action)),
        counted-IsRun r client end route vars verdict cs (route-fits f site r route vars mux e) k
            run,
      )

  checks_of-IsRun :
      (client : Bytes) (start end : ℕ) (rs : List Request) (s : List Entry)
      → IsMux site.find
      → IsTimed start end rs
      → IsCreateRun client start end (checks_of f site rs s)
  checks_of-IsRun client start end [] s mux t = t
  checks_of-IsRun client start end (r ∷ rest) s mux (h, k, t) =
      let after = (serve site (limiter f site) r s).1 in
      match-IsRun r client start end (site.find (table site) r.http) s (checks_of f site rest after)
        mux refl h k (checks_of-IsRun client r.now end rest after mux t)

-- With the in-memory limiter, started without a bucket for CreatePaste and the client, at most
-- 10 + 10 * (end - start) / minute * (1 + 1 / accuracy) of a client's requests reach CreatePaste
-- between `start` and `end`, whatever other requests anyone sends in between; if the clock does not
-- run back, mux finds routes as it documents, and each operation on doubles for this limit and
-- window, and for elapsed times up to end - start, has a finite result and a relative error of at
-- most 1 / precision.
pub created-le :
    (f : Floats) (site : Site) (client : Bytes) (start end : ℕ) (rs : List Request)
    (buckets : List Entry)
    → IsRounded f 10 minute (end - start)
    → IsMux site.find
    → IsTimed start end rs
    → find_by entry_key (rate_key create_action client) buckets ≡ none
    → created f site client rs buckets * (minute * accuracy)
      ≤ 10 * (minute * accuracy) + (end - start) * (10 * (accuracy + 1))
created-le f site client start end rs buckets exact mux t fresh =
    rw (created-admitted f site client rs buckets mux) (
      admitted-le f (rate_key create_action client) 10 minute start end
        (checks_of f site rs buckets) buckets exact
        (checks_of-IsRun f site client start end rs buckets mux t) fresh)
