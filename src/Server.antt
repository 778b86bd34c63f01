-- ===== src/Server.antt =====
-- src/server.go and src/main.go: the routes, the chain of middleware in front of them, start-up and
-- shutdown.
pub mod Startup
pub mod Guarded
pub mod Serve
pub mod Stop
pub mod Info
pub mod Disclosed
pub mod Gates
pub mod Checks
pub mod Admission
pub mod Drained
mod StartupExamples
mod Examples
use bincrypt.Prelude.{
  ℕ, Bool, true, false, List, [], ◌∷◌, ◌++◌, Option, none, some, Bytes, codes, if◌then◌else◌,
}
use bincrypt.Middleware.Limits.{minute}

-- What a route calls; `page` is servePage with the name of its file.
pub data Handler : Type 0 where
  create_paste get_paste_api health_check metrics get_client_config : Handler
  create_invoice payment_webhook view_paste static_files : Handler
  page : Bytes → Handler

-- The arguments of RateLimiter.
pub record Limit : Type 0 where
  pub action : Bytes
  pub requests : ℕ
  pub window : ℕ

-- A route without Methods takes each of them.
pub record Route : Type 0 where
  pub method : Option Bytes
  pub path : Bytes
  pub is_prefix : Bool
  pub limit : Option Limit
  pub handler : Handler

abbrev pub get : Option Bytes
get = some (codes "GET")

abbrev pub post : Option Bytes
post = some (codes "POST")

abbrev pub per_minute : Bytes → ℕ → Option Limit
per_minute action requests = some (record { action = action; requests = requests; window = minute })

abbrev route : Option Bytes → Bytes → Option Limit → Handler → Route
route method path limit handler = record {
  method = method;
  path = path;
  is_prefix = false;
  limit = limit;
  handler = handler;
}

-- The routes in the order in which Start adds them; those of EnableMetrics and of the invoice
-- service are there if they are configured.
unfoldable pub routes : Bool → Bool → List Route
routes enable_metrics has_invoices =
    route post (codes "/api/paste") (per_minute (codes "create_paste") 10) create_paste
      ∷ route get (codes "/api/paste/{id}") (per_minute (codes "get_paste") 100) get_paste_api
      ∷ route get (codes "/api/health") none health_check
      ∷ (if enable_metrics then route get (codes "/api/metrics") none metrics ∷ [] else [])
    ++ route get (codes "/api/config") (per_minute (codes "api_config") 60) get_client_config
      ∷ (if has_invoices
          then route post (codes "/api/invoice") (per_minute (codes "create_invoice") 10)
              create_invoice
            ∷ route post (codes "/api/payhook") none payment_webhook
            ∷ []
          else [])
    ++ route get (codes "/p/{id}") (per_minute (codes "view_paste") 100) view_paste
      ∷ record {
        method = none;
        path = codes "/static/";
        is_prefix = true;
        limit = none;
        handler = static_files;
      }
      ∷ route get (codes "/") none (page (codes "static/index.html"))
      ∷ route get (codes "/news") none (page (codes "static/news.html"))
      ∷ route get (codes "/about") none (page (codes "static/about.html"))
      ∷ []
