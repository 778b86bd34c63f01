-- ===== src/Server/Examples.antt =====
-- The server of src/server.go on a few requests, with a small router.
use mathlib.Core.Path.{subst}
use mathlib.Core.List.Memᴰ.{head, tail}
use bincrypt.Prelude.{
  ℕ, ◌+◌, ◌-◌, ◌*◌, ◌≤◌, ◌≡◌, refl, sym, Bool, true, false, List, [], ◌∷◌, none, some, Bytes,
  bytes_eq, codes, arith, find_by, remove_by, if◌then◌else◌, pos, Bool-cases, inl, inr,
}
use bincrypt.RateLimit.Rounding.{accuracy}
use bincrypt.RateLimit.Exact.{exact, exact-IsRounded}
use bincrypt.RateLimit.{entry_key, check_rate_limit}
use bincrypt.ClientIp.{Net, get_client_ip}
use bincrypt.Middleware.Input.{HttpRequest, input_validation, is_split_header, media_type}
use bincrypt.Middleware.Limits.{memory_limiter, rate_key, minute, rate_limiter, global_rate_limit}
use bincrypt.Middleware.Cors.{cors}
use bincrypt.Text.{has_prefix, to_lower, contains, cut, trim_space}
use bincrypt.Server.{create_paste, Route, routes}
use bincrypt.Server.Serve.{
  Match, found, wrong_method, not_found, Request, reached, Site, screen, serve,
}
use bincrypt.Server.Gates.{accepts, IsMux, IsServed, IsUnrouted, serve-reached, options-IsUnrouted}
use bincrypt.Server.Checks.{create_action, created}
use bincrypt.Server.Admission.{created-le}
use bincrypt.DeletionQueue.{DeletionQueue}
use bincrypt.Server.Stop.{Server, Course}

-- A router that compares whole paths.
abbrev miss : Bool → Match
miss true = wrong_method
miss false = not_found

abbrev find_from : Bool → List Route → HttpRequest → Match
find_from missed [] r = miss missed
find_from missed (route ∷ rs) r =
    let rest = find_from missed rs r in
    let rest' = find_from true rs r in
    if bytes_eq route.path r.path
    then (if accepts route.method r.method then found route [] else rest')
    else rest

find_from-IsMux : (missed : Bool) → IsMux (find_from missed)
find_from-IsMux false [] r route vars e = absurd (ground arith)
find_from-IsMux true [] r route vars e = absurd (ground arith)
find_from-IsMux missed (x ∷ rs) r route vars e = elim (Bool-cases (bytes_eq x.path r.path)) [
  | inl same ↦ elim (Bool-cases (accepts x.method r.method)) [
    | inl takes ↦
        let own : x ≡ route = ground arith in
        (head (sym own), subst (λ (y : Route). accepts y.method r.method ≡ true) own takes)
    | inr refuses ↦
        let (listed, takes) = find_from-IsMux true rs r route vars (ground arith) in
        (tail listed, takes)
  ]
  | inr other ↦
      let (listed, takes) = find_from-IsMux missed rs r route vars (ground arith) in
      (tail listed, takes)
]

abbrev net : Net
net = record {
  parse_ip = λ s. some s;
  is_v4 = λ s. true;
  parse_cidr = λ s. none;
  cidr_mask = λ ones bits. [];
  contains = λ network s. false;
  split_host = λ s. some s;
}

abbrev site : Site
site = record {
  find = find_from false;
  net = net;
  proxy_config = none;
  allowed_origins = codes "*";
  enable_metrics = false;
  has_invoices = true;
}

abbrev request : Bytes → Bytes → ℕ → Request
request method client now = record {
  http = record {
    method = method;
    headers = [];
    vars = [];
    query = [];
    content_type = codes "application/json";
    path = codes "/api/paste";
  };
  header = λ name. [];
  remote_addr = client;
  now = now;
  nonce = some (codes "abc");
}

abbrev client : Bytes
client = codes "::1"

abbrev post : Request
post = request (codes "POST") client 5

reaches : (serve site (λ now. memory_limiter exact now) post []).0 ≡ reached create_paste
unfolding serve routes bytes_eq input_validation is_split_header media_type cut trim_space
    has_prefix to_lower contains cors get_client_ip global_rate_limit rate_limiter check_rate_limit
    find_by remove_by screen
reaches = refl

serve-reached_example : IsServed site (memory_limiter exact) post create_paste []
serve-reached_example =
    serve-reached site (memory_limiter exact) post [] create_paste (find_from-IsMux false) reaches

options-IsUnrouted_example :
    IsUnrouted site (memory_limiter exact) (request (codes "OPTIONS") client 5) []
options-IsUnrouted_example =
    options-IsUnrouted site (memory_limiter exact) (request (codes "OPTIONS") client 5) []
      (find_from-IsMux false) refl

no_bucket : find_by entry_key (rate_key create_action client) [] ≡ none
unfolding find_by
no_bucket = refl

-- The answer of the other methods is not counted.
abbrev arrivals : List Request
arrivals = post ∷ request (codes "GET") client 6 ∷ request (codes "POST") client 7 ∷ []

two_reach : created exact site client arrivals [] ≡ 2
unfolding created serve routes bytes_eq input_validation is_split_header media_type cut trim_space
    has_prefix to_lower contains cors get_client_ip global_rate_limit rate_limiter check_rate_limit
    find_by remove_by screen
two_reach = refl

created-le_example :
    created exact site client arrivals [] * (minute * accuracy)
    ≤ 10 * (minute * accuracy) + (9 - 0) * (10 * (accuracy + 1))
created-le_example =
    created-le exact site client 0 9 arrivals [] (exact-IsRounded 10 minute 9 (omega arith))
      (find_from-IsMux false)
      (
        omega arith,
        omega arith,
        (omega arith, omega arith, (omega arith, omega arith, omega arith)),
      )
      no_bucket

abbrev id : Bytes
id = codes "a"

abbrev queued : DeletionQueue
queued = record {
  tasks = id ∷ [];
  workers = 1;
  idle = 1;
  busy = [];
  returned = 0;
  closed = false;
  cancelled = false;
  accepted = id ∷ [];
  received = [];
  processed = [];
}

abbrev emptied : DeletionQueue
emptied = record queued {
  tasks = [];
  idle = 0;
  returned = 1;
  closed = true;
  received = id ∷ [];
  processed = id ∷ [];
}

abbrev server : Server
server = record {
  has_http_server = true;
  deletion_queue = some queued;
  has_limiter = true;
  has_storage = true;
}

abbrev course : Course
course = record {
  http_fails = false;
  until_deadline = some (pos 30000000000);
  wait = λ q. emptied;
  times_out = false;
  close_fails = true;
}
