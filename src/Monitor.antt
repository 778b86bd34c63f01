-- ===== src/Monitor.antt =====
-- The counts of src/logger/monitor.go that the Logging middleware of src/middleware.go keeps, and the
-- handler that sends them. Log lines are reduced to their level.
pub mod Counts
pub mod Access
mod Examples
use bincrypt.Prelude.{
  ℕ, suc, Bool, true, false, not, ◌==◌, ◌&&◌, List, [], ◌∷◌, ◌++◌, Option, none, some, Bytes, codes,
  leb, is_empty, bytes_eq, if◌then◌else◌, find_by, remove_by,
}
use bincrypt.Text.{split}
use bincrypt.Middleware.Redact.{sanitize_path}
use bincrypt.Secrets.{Config, File, get_secret_or_default}

-- One entry of a map of counts.
pub record Count : Type 0 where
  pub endpoint : Bytes
  pub number : ℕ

abbrev pub count_endpoint : Count → Bytes
count_endpoint c = c.endpoint

-- A missing key counts as 0.
abbrev pub number_of : Option Count → ℕ
number_of none = 0
number_of (some c) = c.number

unfoldable pub look_up : Bytes → List Count → ℕ
look_up endpoint counts = number_of (find_by count_endpoint endpoint counts)

unfoldable pub increment : Bytes → List Count → List Count
unfolding look_up
increment endpoint counts =
    record { endpoint = endpoint; number = suc (look_up endpoint counts) }
    ∷ remove_by count_endpoint endpoint counts

pub record Collector : Type 0 where
  pub request_counts : List Count
  pub error_counts : List Count

-- NewMetricsCollector
abbrev pub new_collector : Collector
new_collector = record { request_counts = []; error_counts = [] }

abbrev pub increment_request : Bytes → Collector → Collector
increment_request endpoint c = record c { request_counts = increment endpoint c.request_counts }

abbrev pub increment_error : Bytes → Collector → Collector
increment_error endpoint c = record c { error_counts = increment endpoint c.error_counts }

-- The parts of a request that Logging reads, and what GenerateID gives, "" for an error.
pub record Logged : Type 0 where
  pub method : Bytes
  pub path : Bytes
  pub request_id : Bytes
  pub trace_header : Bytes
  pub generated : Bytes

abbrev pub endpoint_of : Logged → Bytes
endpoint_of r = r.method ++ b' ' ∷ sanitize_path r.path

abbrev pub first_part : List Bytes → Bytes
first_part [] = []
first_part (part ∷ parts) = part

-- The trace is what stands before the first slash, the span what follows until a semicolon.
span_of : List Bytes → Bytes
span_of [] = []
span_of (trace ∷ []) = []
span_of (trace ∷ part ∷ parts) = first_part (split b';' part)

unfoldable pub trace_ids : Bytes → Bytes × Bytes
unfolding span_of
trace_ids header =
    if is_empty header
    then ([], [])
    else (first_part (split b'/' header), span_of (split b'/' header))

pub data Level : Type 0 where
  info warn error : Level

unfoldable pub level_of : ℕ → Level
level_of status = if leb 500 status then error else if leb 400 status then warn else info

-- What Logging tells of a request: the identifiers, whether its start is logged, the level of its
-- end, and whether it is audited as a hit of the rate limit.
pub record LogEntry : Type 0 where
  pub request_id : Bytes
  pub trace_id : Bytes
  pub span_id : Bytes
  pub started : Bool
  pub level : Level
  pub rate_limit_hit : Bool

-- Logging, for a request that the next handler answers with `status`.
unfoldable pub logging : Logged → ℕ → Collector → LogEntry × Collector
unfolding trace_ids level_of
logging r status c =
    let endpoint = endpoint_of r in
    let counted = increment_request endpoint c in
    let (trace, span) = trace_ids r.trace_header in
    (
      record {
        request_id = if is_empty r.request_id then r.generated else r.request_id;
        trace_id = trace;
        span_id = span;
        started = not (bytes_eq r.path (codes "/api/health"));
        level = level_of status;
        rate_limit_hit = status == 429;
      },
      if leb 400 status then increment_error endpoint counted else counted,
    )

-- How MetricsHandler answers: with the counts, or with a status.
pub data Metered : Type 0 where
  served : Collector → Metered
  refused : ℕ → Metered

abbrev pub bearer : Bytes
bearer = codes "Bearer "

unfoldable pub authorized : Bytes → Bytes → Collector → Metered
authorized token header c =
    if is_empty token
    then refused 503
    else if bytes_eq header (bearer ++ token)
    then served c
    else refused 401

-- MetricsHandler, with getMetricsToken: the file system, the Authorization header, the secrets and
-- the counts. An error of the encoder comes after the status.
unfoldable pub metrics_handler :
    (Bytes → File) → (Bytes → Bytes) → Bytes → Config → Collector → Metered × Config
unfolding authorized
metrics_handler files parent header secrets c =
    let (token, secrets') = get_secret_or_default files parent (codes "METRICS_TOKEN") [] secrets in
    (authorized token header c, secrets')
