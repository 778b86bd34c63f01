-- ===== src/Monitor/Examples.antt =====
-- Runs of the counts of src/logger/monitor.go.
use bincrypt.Prelude.{
  ℕ, ◌≡◌, refl, true, List, [], ◌∷◌, some, Bytes, codes, bytes_eq, find_by, remove_by,
}
use bincrypt.Text.{has_prefix}
use bincrypt.Middleware.Redact.{sanitize_path}
use bincrypt.Secrets.{
  File, absent, Config, get_env, get_secret, get_secret_or_default, load_secrets,
}
use bincrypt.Monitor.{Logged, look_up, increment, new_collector, refused, logging, metrics_handler}
use bincrypt.Monitor.Counts.{run_logging}

abbrev get : Bytes → Logged
get path = record {
  method = codes "GET";
  path = path;
  request_id = [];
  trace_header = codes "abc/12;o=1";
  generated = codes "x";
}

abbrev three_requests : List (Logged × ℕ)
three_requests =
    (get (codes "/api/health"), 200)
    ∷ (get (codes "/api/health"), 503)
    ∷ (get (codes "/p"), 404)
    ∷ []

two_to_health :
    look_up (codes "GET /api/health") (run_logging three_requests new_collector).request_counts ≡ 2
unfolding look_up run_logging logging increment sanitize_path has_prefix find_by remove_by bytes_eq
two_to_health = refl

abbrev no_files : Bytes → File
no_files name = absent

abbrev up : Bytes → Bytes
up name = codes "../.env"

abbrev secrets : Config
secrets = record {
  provider = some (record { env_file = codes ".env"; loaded = true });
  env = record { name = codes "METRICS_TOKEN"; value = codes "s3cret" } ∷ [];
}

wrong_token :
    (metrics_handler no_files up (codes "Bearer secret") secrets new_collector).0 ≡ refused 401
unfolding metrics_handler get_secret_or_default get_secret load_secrets get_env find_by bytes_eq
wrong_token = refl
