-- ===== src/Server/Gates.antt =====
-- What a request has passed when it reaches its handler in src/server.go.
use mathlib.Core.List.{Memᴰ}
use mathlib.Core.List.Memᴰ.{head, tail}
use bincrypt.Prelude.{
  ℕ, ◌≡◌, ◌≢◌, refl, ◌⊎◌, inl, inr, Bool, true, false, List, [], ◌∷◌, Option, none, some, Bytes,
  codes, arith, bytes_eq, all, not, ◌||◌,
}
use bincrypt.Middleware.Input.{HttpRequest, input_validation}
use bincrypt.Middleware.Limits.{
  RateLimiter, Verdict, passed, unavailable, limited, rate_limiter, global_rate_limit,
}
use bincrypt.Middleware.Accepted.{IsClean, input_validation_iff}
use bincrypt.Server.{Handler, static_files, Limit, Route, routes}
use bincrypt.Server.Serve.{
  Match, found, wrong_method, not_found, redirected, Request, reached, answered, Site, client_of,
  table, global_limit, serve_limited, screen, serve_screened, serve_counted, serve_match, serve,
}

abbrev pub accepts : Option Bytes → Bytes → Bool
accepts none method = true
accepts (some own) method = bytes_eq own method

-- What mux documents: the route that it finds is one of the router's and takes the method.
abbrev pub IsMux : (List Route → HttpRequest → Match) → Type 0
IsMux find =
    (rs : List Route) (r : HttpRequest) (route : Route) (vars : List (Bytes × Bytes))
    → find rs r ≡ found route vars
    → Memᴰ route rs × (accepts route.method r.method ≡ true)

module _ {S : Type 0} (site : Site) (limiter : ℕ → RateLimiter S) where
  -- The route's own limiter, asked after the global one, lets the request through.
  abbrev pub IsWithin : Request → Option Limit → S → Type 0
  IsWithin r none s = Unit
  IsWithin r (some l) s =
      (rate_limiter (limiter r.now) l.action l.requests l.window r.now (client_of site r) s).0.0
      ≡ passed

  -- What a request has passed in front of the handler of `route`.
  pub record IsAdmitted (r : Request) (route : Route) (vars : List (Bytes × Bytes)) (s : S)
      : Type 0 where
    pub listed : Memᴰ route (table site)
    pub method : accepts route.method r.http.method ≡ true
    pub clean : IsClean (record (r.http) { vars = vars })
    pub global : (global_rate_limit (limiter r.now) global_limit (client_of site r) s).0.0 ≡ passed
    pub nonced : r.nonce ≢ none
    pub within :
        IsWithin r route.limit
          (global_rate_limit (limiter r.now) global_limit (client_of site r) s).1

  serve_limited-reached :
      (r : Request) (handler h : Handler) (l : Option Limit) (s : S)
      → (serve_limited site limiter r handler l s).0 ≡ reached h
      → (handler ≡ h) × IsWithin r l s
  unfolding serve_limited
  serve_limited-reached r handler h none s e = (ground arith, tt)
  serve_limited-reached r handler h (some l) s e = (ground arith, ground arith)

  screen-none :
      (r : Request) (vars : List (Bytes × Bytes))
      → screen site r vars ≡ none
      → (input_validation (record (r.http) { vars = vars }) ≡ none) × (r.nonce ≢ none)
  unfolding screen
  screen-none r vars e = (ground arith, λ no. ground arith)

  serve_screened-reached :
      (r : Request) (route : Route) (o : Option ℕ) (h : Handler) (s : S)
      → (serve_screened site limiter r route o s).0 ≡ reached h
      → (o ≡ none) × (route.handler ≡ h) × IsWithin r route.limit s
  unfolding serve_screened
  serve_screened-reached r route none h s e =
      let (same, within) = serve_limited-reached r route.handler h route.limit s e in
      (refl, same, within)
  serve_screened-reached r route (some status) h s e = absurd (ground arith)

  serve_counted-reached :
      (r : Request) (route : Route) (vars : List (Bytes × Bytes)) (v : Verdict) (h : Handler)
      (s : S)
      → (serve_counted site limiter r route vars v s).0 ≡ reached h
      → (v ≡ passed) × (screen site r vars ≡ none) × (route.handler ≡ h) × IsWithin r route.limit s
  unfolding serve_counted
  serve_counted-reached r route vars passed h s e =
      let (quiet, same, within) = serve_screened-reached r route (screen site r vars) h s e in
      (refl, quiet, same, within)
  serve_counted-reached r route vars limited h s e = absurd (ground arith)
  serve_counted-reached r route vars unavailable h s e = absurd (ground arith)

  abbrev pub IsServed : Request → Handler → S → Type 0
  IsServed r h s =
      (route : Route) × (vars : List (Bytes × Bytes)) × (site.find (table site) r.http
        ≡ found route vars)
      × (route.handler ≡ h)
      × IsAdmitted r route vars s

  serve_match-reached :
      (r : Request) (m : Match) (h : Handler) (s : S)
      → IsMux site.find
      → site.find (table site) r.http ≡ m
      → (serve_match site limiter r m s).0 ≡ reached h
      → IsServed r h s
  unfolding serve_match
  serve_match-reached r wrong_method h s mux e k = absurd (ground arith)
  serve_match-reached r not_found h s mux e k = absurd (ground arith)
  serve_match-reached r redirected h s mux e k = absurd (ground arith)
  serve_match-reached r (found route vars) h s mux e k =
      let out = global_rate_limit (limiter r.now) global_limit (client_of site r) s in
      let (counted, quiet, same, within) = serve_counted-reached r route vars out.0.0 h out.1 k in
      let (clean, nonced) = screen-none r vars quiet in
      let (listed, method) = mux (table site) r.http route vars e in
      (
        route,
        vars,
        e,
        same,
        record {
          listed = listed;
          method = method;
          clean = (input_validation_iff (record (r.http) { vars = vars })).0 clean;
          global = counted;
          nonced = nonced;
          within = within;
        },
      )

-- A request reaches a handler only through a route of the server's table for that handler that takes
-- the request's method, and only if GlobalRateLimit let it through at 300 in a minute,
-- InputValidation found it clean, a nonce could be made, and the route's own limiter, asked after
-- the global one, let it through; if mux finds routes as it documents.
pub serve-reached :
    {S : Type 0} (site : Site) (limiter : ℕ → RateLimiter S) (r : Request) (s : S) (h : Handler)
    → IsMux site.find
    → (serve site limiter r s).0 ≡ reached h
    → IsServed site limiter r h s
unfolding serve
serve-reached site limiter r s h mux e =
    serve_match-reached site limiter r (site.find (table site) r.http) h s mux refl e

pub all-Memᴰ :
    (p : Route → Bool) (route : Route) (rs : List Route)
    → all p rs ≡ true
    → Memᴰ route rs
    → p route ≡ true
all-Memᴰ p route [] h m = elim m [ ]
all-Memᴰ p route (x ∷ rs) h (head e) = rw e (ground arith)
all-Memᴰ p route (x ∷ rs) h (tail m) = all-Memᴰ p route rs (ground arith) m

abbrev is_static : Handler → Bool
is_static static_files = true
is_static _ = false

-- A route takes OPTIONS only for the static files.
abbrev refuses_options : Route → Bool
refuses_options route = not (accepts route.method (codes "OPTIONS")) || is_static route.handler

routes-refuse : (m i : Bool) → all refuses_options (routes m i) ≡ true
unfolding routes bytes_eq
routes-refuse true true = refl
routes-refuse true false = refl
routes-refuse false true = refl
routes-refuse false false = refl

is_static-eq : (h : Handler) → is_static h ≡ true → h ≡ static_files
is_static-eq static_files e = refl
is_static-eq _ e = absurd (ground arith)

-- What becomes of a request: mux answers it itself and the limiter is not asked, or the route is that
-- of the static files.
abbrev pub IsUnrouted : {S : Type 0} → Site → (ℕ → RateLimiter S) → Request → S → Type 0
IsUnrouted site limiter r s =
    (serve site limiter r s ≡ (answered 404, s))
    ⊎ (serve site limiter r s ≡ (answered 405, s))
    ⊎ (serve site limiter r s ≡ (answered 301, s))
    ⊎ ((route : Route) × (vars : List (Bytes × Bytes)) × (site.find (table site) r.http
          ≡ found route vars)
        × (route.handler ≡ static_files))

options_match :
    {S : Type 0} (site : Site) (limiter : ℕ → RateLimiter S) (r : Request) (s : S) (m : Match)
    → IsMux site.find
    → r.http.method ≡ codes "OPTIONS"
    → site.find (table site) r.http ≡ m
    → (serve_match site limiter r m s ≡ (answered 404, s))
      ⊎ (serve_match site limiter r m s ≡ (answered 405, s))
      ⊎ (serve_match site limiter r m s ≡ (answered 301, s))
      ⊎ ((route : Route) × (vars : List (Bytes × Bytes)) × (site.find (table site) r.http
            ≡ found route vars)
          × (route.handler ≡ static_files))
unfolding serve_match
options_match site limiter r s not_found mux o e = inl refl
options_match site limiter r s wrong_method mux o e = inr (inl refl)
options_match site limiter r s redirected mux o e = inr (inr (inl refl))
options_match site limiter r s (found route vars) mux o e =
    let (listed, method) = mux (table site) r.http route vars e in
    let fits =
      all-Memᴰ refuses_options route (table site)
        (routes-refuse site.enable_metrics site.has_invoices) listed in
    inr (inr (inr (route, vars, e, is_static-eq route.handler (ground (arith, rw o at method)))))

-- A preflight request, with the method OPTIONS, either is answered before CORS, with 404, with 405 or
-- with a redirect, 301, or its route is that of the static files; if the route that mux finds is one
-- of the router's and takes the method, as it documents.
pub options-IsUnrouted :
    {S : Type 0} (site : Site) (limiter : ℕ → RateLimiter S) (r : Request) (s : S)
    → IsMux site.find
    → r.http.method ≡ codes "OPTIONS"
    → IsUnrouted site limiter r s
unfolding serve
options-IsUnrouted site limiter r s mux o =
    options_match site limiter r s (site.find (table site) r.http) mux o refl
