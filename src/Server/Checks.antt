-- ===== src/Server/Checks.antt =====
-- The calls of CheckRateLimit behind the requests that reach CreatePaste of src/server.go.
use bincrypt.Prelude.{
  ℕ, ◌+◌, ◌≡◌, refl, ◌∙◌, Bool, true, false, not, ◌&&◌, ◌==◌, List, [], ◌∷◌, ◌++◌, Option, none,
  some, Bytes, bytes_eq, bytes_eq_iff, codes, arith, all, if◌then◌else◌,
}
use bincrypt.RateLimit.{Floats, Entry}
use bincrypt.RateLimit.Bound.{Check, admitted}
use bincrypt.Middleware.Limits.{
  RateLimiter, memory_limiter, Verdict, passed, unavailable, limited, rate_key, rate_limiter,
  minute, global_rate_limit,
}
use bincrypt.Middleware.Passes.{is_plain, rate_key-eq}
use bincrypt.Server.{Handler, create_paste, Limit, Route, routes}
use bincrypt.Server.Serve.{
  Match, found, wrong_method, not_found, redirected, Request, Outcome, reached, answered, Site,
  client_of, table, global_limit, serve_limited, screen, serve_screened, serve_counted, serve_match,
  serve,
}
use bincrypt.Server.Gates.{IsMux, all-Memᴰ}

abbrev pub is_create : Handler → Bool
is_create create_paste = true
is_create _ = false

abbrev pub creates : Outcome → Bool
creates (reached h) = is_create h
creates (answered status) = false

abbrev pub create_action : Bytes
create_action = codes "create_paste"

-- A route for CreatePaste has the limiter of CreatePaste, with 10 requests, and no other route has.
abbrev pub fits : Handler → Option Limit → Bool
fits handler none = not (is_create handler)
fits handler (some l) =
    is_plain l.action
    && (if bytes_eq l.action create_action
        then is_create handler && l.requests == 10 && l.window == minute
        else not (is_create handler))

routes-fit : (m i : Bool) → all (λ route. fits route.handler route.limit) (routes m i) ≡ true
unfolding routes bytes_eq
routes-fit true true = refl
routes-fit true false = refl
routes-fit false true = refl
routes-fit false false = refl

pub global_is_other : bytes_eq (codes "global") create_action ≡ false
unfolding bytes_eq
global_is_other = refl

module _ (f : Floats) (site : Site) where
  abbrev pub limiter : ℕ → RateLimiter (List Entry)
  limiter now = memory_limiter f now

  -- How many of the requests of `client` reach CreatePaste.
  unfoldable pub created : Bytes → List Request → List Entry → ℕ
  created client [] buckets = 0
  created client (r ∷ rest) buckets =
      let out = serve site limiter r buckets in
      (if creates out.0 && bytes_eq (client_of site r) client then 1 else 0)
      + created client rest out.1

  -- The calls of CheckRateLimit that a request makes.
  abbrev pub global_check : Request → Check
  global_check r = record {
    key = rate_key (codes "global") (client_of site r);
    limit = global_limit;
    window = minute;
    now = r.now;
  }

  abbrev pub own_checks : Request → Option Limit → List Check
  own_checks r none = []
  own_checks r (some l) =
      record {
        key = rate_key l.action (client_of site r);
        limit = l.requests;
        window = l.window;
        now = r.now;
      }
      ∷ []

  abbrev pub screened_checks : Request → Route → Option ℕ → List Check
  screened_checks r route none = own_checks r route.limit
  screened_checks r route (some status) = []

  abbrev pub counted_checks : Request → Route → List (Bytes × Bytes) → Verdict → List Check
  counted_checks r route vars passed = screened_checks r route (screen site r vars)
  counted_checks r route vars _ = []

  abbrev pub match_checks : Request → Match → List Entry → List Check
  match_checks r wrong_method buckets = []
  match_checks r not_found buckets = []
  match_checks r redirected buckets = []
  match_checks r (found route vars) buckets =
      global_check r
      ∷ counted_checks r route vars
          (global_rate_limit (limiter r.now) global_limit (client_of site r) buckets).0.0

  abbrev pub checks_of : List Request → List Entry → List Check
  checks_of [] buckets = []
  checks_of (r ∷ rest) buckets =
      match_checks r (site.find (table site) r.http) buckets
      ++ checks_of rest (serve site limiter r buckets).1

  abbrev counts : Request → Bytes → Outcome → ℕ
  counts r client out = if creates out && bytes_eq (client_of site r) client then 1 else 0

  limited-counts :
      (r : Request) (client : Bytes) (handler : Handler) (l : Option Limit) (s : List Entry)
      (cs : List Check)
      → fits handler l ≡ true
      → let out = serve_limited site limiter r handler l s in
        (admitted f (rate_key create_action client) (own_checks r l ++ cs) s
          ≡ counts r client out.0 + admitted f (rate_key create_action client) cs out.1)
  unfolding serve_limited admitted rate_limiter
  limited-counts r client handler none s cs e = ground arith
  limited-counts r client handler (some l) s cs e = ground (
    arith,
    rate_key-eq l.action create_action (client_of site r) client,
    bytes_eq_iff l.action create_action,
  )

  screened-counts :
      (r : Request) (client : Bytes) (route : Route) (o : Option ℕ) (s : List Entry)
      (cs : List Check)
      → fits route.handler route.limit ≡ true
      → let out = serve_screened site limiter r route o s in
        (admitted f (rate_key create_action client) (screened_checks r route o ++ cs) s
          ≡ counts r client out.0 + admitted f (rate_key create_action client) cs out.1)
  unfolding serve_screened
  screened-counts r client route none s cs e =
      limited-counts r client route.handler route.limit s cs e
  screened-counts r client route (some status) s cs e = omega arith

  counted-counts :
      (r : Request) (client : Bytes) (route : Route) (vars : List (Bytes × Bytes)) (v : Verdict)
      (s : List Entry) (cs : List Check)
      → fits route.handler route.limit ≡ true
      → let out = serve_counted site limiter r route vars v s in
        (admitted f (rate_key create_action client) (counted_checks r route vars v ++ cs) s
          ≡ counts r client out.0 + admitted f (rate_key create_action client) cs out.1)
  unfolding serve_counted
  counted-counts r client route vars passed s cs e =
      screened-counts r client route (screen site r vars) s cs e
  counted-counts r client route vars limited s cs e = omega arith
  counted-counts r client route vars unavailable s cs e = omega arith

  -- The global counter is not that of CreatePaste.
  global-counts :
      (r : Request) (client : Bytes) (s : List Entry) (cs : List Check)
      → admitted f (rate_key create_action client) (global_check r ∷ cs) s
        ≡ admitted f
            (rate_key create_action client)
            cs
            (global_rate_limit (limiter r.now) global_limit (client_of site r) s).1
  unfolding admitted global_rate_limit
  global-counts r client s cs = ground (
    arith,
    rate_key-eq (codes "global") create_action (client_of site r) client refl refl,
    global_is_other,
  )

  pub route-fits :
      (r : Request) (route : Route) (vars : List (Bytes × Bytes))
      → IsMux site.find
      → site.find (table site) r.http ≡ found route vars
      → fits route.handler route.limit ≡ true
  route-fits r route vars mux e =
      all-Memᴰ (λ x. fits x.handler x.limit) route (table site)
        (routes-fit site.enable_metrics site.has_invoices) (mux (table site) r.http route vars e).0

  match-counts :
      (r : Request) (client : Bytes) (m : Match) (s : List Entry) (cs : List Check)
      → IsMux site.find
      → site.find (table site) r.http ≡ m
      → let out = serve_match site limiter r m s in
        (admitted f (rate_key create_action client) (match_checks r m s ++ cs) s
          ≡ counts r client out.0 + admitted f (rate_key create_action client) cs out.1)
  unfolding serve_match
  match-counts r client wrong_method s cs mux e = omega arith
  match-counts r client not_found s cs mux e = omega arith
  match-counts r client redirected s cs mux e = omega arith
  match-counts r client (found route vars) s cs mux e =
      let out = global_rate_limit (limiter r.now) global_limit (client_of site r) s in
      global-counts r client s (counted_checks r route vars out.0.0 ++ cs)
      ∙ counted-counts r client route vars out.0.0 out.1 cs (route-fits r route vars mux e)

  pub created-admitted :
      (client : Bytes) (rs : List Request) (s : List Entry)
      → IsMux site.find
      → created client rs s ≡ admitted f (rate_key create_action client) (checks_of rs s) s
  unfolding created admitted serve
  created-admitted client [] s mux = refl
  created-admitted client (r ∷ rest) s mux =
      let m = site.find (table site) r.http in
      let after = (serve_match site limiter r m s).1 in
      omega (
        arith,
        match-counts r client m s (checks_of rest after) mux refl,
        created-admitted client rest after mux,
      )
