-- ===== src/Server/Serve.antt =====
-- How the server of src/server.go handles a request up to its handler. Recovery, Logging and
-- RequestSizeLimit pass every request on and are left out.
use bincrypt.Prelude.{ℕ, Bool, List, Option, none, some, Bytes, codes, if◌then◌else◌}
use bincrypt.ClientIp.{Net, TrustedProxyConfig, get_client_ip}
use bincrypt.Middleware.Input.{HttpRequest, status_of, input_validation}
use bincrypt.Middleware.Limits.{
  RateLimiter, Verdict, passed, unavailable, limited, rate_limiter, global_rate_limit,
}
use bincrypt.Middleware.Cors.{cors}
use bincrypt.Server.{Handler, Limit, Route, routes}

-- What mux finds: a route with the variables of its path, only routes for other methods, or nothing;
-- or that the path is not in its clean form, to which it redirects first.
pub data Match : Type 0 where
  found : Route → List (Bytes × Bytes) → Match
  wrong_method not_found redirected : Match

-- A request; `header` is r.Header.Get, and `nonce` is what generateCSPNonce returns while the request
-- is served, `none` for an error.
pub record Request : Type 0 where
  pub http : HttpRequest
  pub header : Bytes → Bytes
  pub remote_addr : Bytes
  pub now : ℕ
  pub nonce : Option Bytes

-- The handler that is called, or the status of the answer if none is.
pub data Outcome : Type 0 where
  reached : Handler → Outcome
  answered : ℕ → Outcome

-- The server's configuration, the libraries it calls, and the value of CORS_ALLOWED_ORIGINS.
pub record Site : Type 0 where
  pub find : List Route → HttpRequest → Match
  pub net : Net
  pub proxy_config : Option TrustedProxyConfig
  pub allowed_origins : Bytes
  pub enable_metrics : Bool
  pub has_invoices : Bool

abbrev pub client_of : Site → Request → Bytes
client_of site r = get_client_ip site.net site.proxy_config r.remote_addr r.header

abbrev pub table : Site → List Route
table site = routes site.enable_metrics site.has_invoices

-- How many requests GlobalRateLimit lets through in a minute.
abbrev pub global_limit : ℕ
global_limit = 300

-- What RateLimiter makes of a limiter's verdict.
abbrev pub limited_outcome : Verdict → Handler → Outcome
limited_outcome passed handler = reached handler
limited_outcome unavailable handler = answered 503
limited_outcome limited handler = answered 429

-- InputValidation, CORS and CSP: the status, if one of them answers.
unfoldable pub screen : Site → Request → List (Bytes × Bytes) → Option ℕ
screen site r vars = elim (input_validation (record (r.http) { vars = vars })) [
  | some e ↦ some (status_of e)
  | none ↦
      if (cors site.allowed_origins (r.header (codes "Origin")) r.http.method).is_answered
      then some 200
      else elim r.nonce [ none ↦ some 500 | some nonce ↦ none ]
]

module _ {S : Type 0} (site : Site) (limiter : ℕ → RateLimiter S) where
  -- A route's own RateLimiter, if it has one.
  unfoldable pub serve_limited : Request → Handler → Option Limit → S → Outcome × S
  serve_limited r handler none s = (reached handler, s)
  serve_limited r handler (some l) s =
      let out =
        rate_limiter (limiter r.now) l.action l.requests l.window r.now (client_of site r) s in
      (limited_outcome out.0.0 handler, out.1)

  unfoldable pub serve_screened : Request → Route → Option ℕ → S → Outcome × S
  unfolding serve_limited
  serve_screened r route (some status) s = (answered status, s)
  serve_screened r route none s = serve_limited r route.handler route.limit s

  unfoldable pub serve_counted : Request → Route → List (Bytes × Bytes) → Verdict → S → Outcome × S
  unfolding serve_screened
  serve_counted r route vars passed s = serve_screened r route (screen site r vars) s
  serve_counted r route vars _ s = (answered 429, s)

  -- The middleware of a route that was found, from GlobalRateLimit on; the router runs it only then.
  unfoldable pub serve_match : Request → Match → S → Outcome × S
  unfolding serve_counted
  serve_match r wrong_method s = (answered 405, s)
  serve_match r not_found s = (answered 404, s)
  serve_match r redirected s = (answered 301, s)
  serve_match r (found route vars) s =
      let out = global_rate_limit (limiter r.now) global_limit (client_of site r) s in
      serve_counted r route vars out.0.0 out.1

  unfoldable pub serve : Request → S → Outcome × S
  unfolding serve_match
  serve r s = serve_match r (site.find (table site) r.http) s
