-- ===== src/Server/Startup.antt =====
-- Start-up: main of src/main.go, New of src/server.go, src/services/ratelimit_factory.go and
-- NewBTCPayClient of src/services/btcpay.go, in the build without the tag gcp.
use bincrypt.Prelude.{
  ℕ, suc, ◌==◌, ◌||◌, Bool, true, false, not, List, [], ◌∷◌, Option, none, some, Bytes, codes,
  bytes_eq, is_empty, if◌then◌else◌, ℤ, pos,
}
use bincrypt.Storage.{Result, ok, err}
use bincrypt.Secrets.{
  File, Variable, Config, get_env, get_secret_or_default, must_get_secret, initialize,
}
use bincrypt.ClientIp.{Net, Env, TrustedProxyConfig, load_trusted_proxy_config}
use bincrypt.DeletionQueue.{DeletionQueue, default_workers, new_deletion_queue}

-- What start-up takes from libraries: strconv.Atoi, whether a SQLite file or a PostgreSQL pool opens
-- and answers a ping, and whether Redis does, with redis.ParseURL.
pub record Machine : Type 0 where
  pub atoi : Bytes → Option ℤ
  pub sqlite_opens : Bytes → Bool
  pub postgres_opens : Bytes → Bool
  pub redis_opens : Bytes → Bool

-- The limiter that is used: in memory, or in Redis at a URL with a prefix of its keys.
pub data Limiter : Type 0 where
  memory : Limiter
  redis : Bytes → Bytes → Limiter

pub data LimiterError : Type 0 where
  redis_url_required redis_failed : LimiterError
  project_required firestore_not_available unknown_type : LimiterError

pub data Storage : Type 0 where
  sqlite postgres : Bytes → Storage

-- Why the process ends: the last two are MustGetSecret and the panic of mustParseCIDR.
pub data Exit : Type 0 where
  sqlite_failed postgres_failed gcs_not_available invalid_storage_backend : Exit
  no_database_url bad_proxy_networks : Exit

pub record BtcpayClient : Type 0 where
  pub endpoint : Bytes
  pub store_id : Bytes
  pub api_key : Bytes
  pub webhook_secret : Bytes

keep_slash : Bytes → Bytes
keep_slash [] = []
keep_slash (c ∷ s) = b'/' ∷ c ∷ s

-- strings.TrimRight(s, "/")
unfoldable pub trim_slashes : Bytes → Bytes
unfolding keep_slash
trim_slashes [] = []
trim_slashes (c ∷ s) = if c == b'/' then keep_slash (trim_slashes s) else c ∷ trim_slashes s

unfoldable pub new_btcpay_client : Bytes → Bytes → Bytes → Bytes → Option BtcpayClient
new_btcpay_client endpoint api_key store_id webhook_secret =
    if is_empty endpoint || is_empty api_key || is_empty store_id
    then none
    else if is_empty webhook_secret
    then none
    else some (record {
      endpoint = trim_slashes endpoint;
      store_id = store_id;
      api_key = api_key;
      webhook_secret = webhook_secret;
    })

-- A failure only disables the invoices.
unfoldable pub invoice_service : Bytes → Bytes → Bytes → Bytes → Option BtcpayClient
invoice_service endpoint api_key store_id webhook_secret =
    if not (is_empty endpoint)
      || not (is_empty api_key)
      || not (is_empty store_id)
      || not (is_empty webhook_secret)
    then new_btcpay_client endpoint api_key store_id webhook_secret
    else none

-- The server that New makes, with what main passes to it.
pub record Started : Type 0 where
  pub port : Bytes
  pub storage : Storage
  pub invoices : Option BtcpayClient
  pub enable_metrics : Bool
  pub limiter : Limiter
  pub queue : DeletionQueue
  pub proxy_config : TrustedProxyConfig

unfoldable pub has_service : Option BtcpayClient → Bool
has_service none = false
has_service (some client) = true

-- RATE_LIMITER_TYPE failed: New falls back to the memory.
unfoldable pub or_memory : Result LimiterError Limiter → Limiter
or_memory (ok limiter) = limiter
or_memory (err e) = memory

positive_or_default : Option ℤ → ℕ
positive_or_default (some (pos (suc n))) = suc n
positive_or_default _ = default_workers

abbrev pub proxy_env : List Variable → Env
proxy_env env = record {
  k_service = get_env (codes "K_SERVICE") env;
  trusted_proxies_enabled = get_env (codes "TRUSTED_PROXIES_ENABLED") env;
  trusted_proxies = get_env (codes "TRUSTED_PROXIES") env;
  trusted_headers = get_env (codes "TRUSTED_HEADERS") env;
}

module _ (files : Bytes → File) (parent : Bytes → Bytes) (net : Net) (m : Machine) where
  abbrev pub secret : Bytes → Bytes → Config → Bytes × Config
  secret key default c = get_secret_or_default files parent key default c

  -- NewRedisRateLimitService
  unfoldable pub new_redis_limiter : Bytes → Bytes → Result LimiterError Limiter
  new_redis_limiter url prefix =
      if is_empty url
      then err redis_url_required
      else if m.redis_opens url
      then ok (redis url (if is_empty prefix then codes "ratelimit:" else prefix))
      else err redis_failed

  redis_from_env : Config → Result LimiterError Limiter × Config
  unfolding new_redis_limiter
  redis_from_env c =
      let (url, c1) = secret (codes "REDIS_URL") [] c in
      let (prefix, c2) = secret (codes "RATE_LIMIT_KEY_PREFIX") (codes "bincrypt:ratelimit:") c1 in
      if is_empty url then (err redis_url_required, c1) else (new_redis_limiter url prefix, c2)

  firestore_from_env : Config → Result LimiterError Limiter × Config
  firestore_from_env c =
      let (project, c1) = secret (codes "FIREBASE_PROJECT_ID") [] c in
      let (collection, c2) = secret (codes "RATE_LIMIT_COLLECTION") (codes "ratelimits") c1 in
      if is_empty project then (err project_required, c1) else (err firestore_not_available, c2)

  unfoldable pub new_rate_limiter_from_env : Config → Result LimiterError Limiter × Config
  unfolding redis_from_env firestore_from_env
  new_rate_limiter_from_env c =
      let (kind, c1) = secret (codes "RATE_LIMITER_TYPE") [] c in
      if is_empty kind || bytes_eq kind (codes "memory")
      then (ok memory, c1)
      else if bytes_eq kind (codes "redis")
      then redis_from_env c1
      else if bytes_eq kind (codes "firestore")
      then firestore_from_env c1
      else (err unknown_type, c1)

  -- DELETION_WORKERS
  unfoldable pub deletion_workers : Bytes → ℕ
  unfolding positive_or_default
  deletion_workers text =
      if is_empty text then default_workers else positive_or_default (m.atoi text)

  postgres_from_url : Option Bytes → Result Exit Storage
  postgres_from_url none = err no_database_url
  postgres_from_url (some url) =
      if m.postgres_opens url then ok (postgres url) else err postgres_failed

  -- The switch over STORAGE_BACKEND.
  unfoldable pub open_storage : Bytes → Config → Result Exit Storage × Config
  unfolding postgres_from_url
  open_storage backend c =
      if bytes_eq backend (codes "sqlite")
      then (let (path, c1) = secret (codes "SQLITE_PATH") (codes "./bincrypt.db") c in
          (if m.sqlite_opens path then ok (sqlite path) else err sqlite_failed, c1))
      else if bytes_eq backend (codes "postgres")
      then (let (url, c1) = must_get_secret files parent (codes "DATABASE_URL") c in
          (postgres_from_url url, c1))
      else if bytes_eq backend (codes "gcs")
      then (err gcs_not_available, c)
      else (err invalid_storage_backend, c)

  unfoldable pub started :
      Bytes → Storage → Option BtcpayClient → Bool → Limiter → List Variable → Result Exit Started
  unfolding deletion_workers
  started port storage invoices enable_metrics limiter env =
      elim (load_trusted_proxy_config net (proxy_env env)) [
        | none ↦ err bad_proxy_networks
        | some proxy_config ↦ ok (record {
          port = port;
          storage = storage;
          invoices = invoices;
          enable_metrics = enable_metrics;
          limiter = limiter;
          queue = new_deletion_queue (deletion_workers (get_env (codes "DELETION_WORKERS") env));
          proxy_config = proxy_config;
        })
      ]

  -- From the storage on: the BTCPay settings, the configuration, and New.
  unfoldable pub configure : Bytes → Storage → Config → Result Exit Started × Config
  unfolding invoice_service new_rate_limiter_from_env or_memory started
  configure port storage c =
      let (endpoint, c1) = secret (codes "BTCPAY_ENDPOINT") [] c in
      let (api_key, c2) = secret (codes "BTCPAY_APIKEY") [] c1 in
      let (store_id, c3) = secret (codes "BTCPAY_STORE_ID") [] c2 in
      let (webhook_secret, c4) = secret (codes "BTCPAY_WEBHOOK_SECRET") [] c3 in
      let (metrics, c5) = secret (codes "METRICS_ENABLED") (codes "false") c4 in
      let (limiter, c6) = new_rate_limiter_from_env c5 in
      (
        started port storage (invoice_service endpoint api_key store_id webhook_secret)
            (bytes_eq metrics (codes "true")) (or_memory limiter) c6.env,
        c6,
      )

  unfoldable pub after_storage : Bytes → Result Exit Storage × Config → Result Exit Started × Config
  unfolding configure
  after_storage port (err e, c) = (err e, c)
  after_storage port (ok storage, c) = configure port storage c

  abbrev flag_or : Option Bytes → Bytes → Bytes
  flag_or none default = default
  flag_or (some port) default = port

  -- main up to the start of the server, with the flag -port if it is given.
  unfoldable pub main : Option Bytes → Config → Result Exit Started × Config
  unfolding after_storage open_storage
  main flag c =
      let (default, c1) = secret (codes "PORT") (codes "8080") (initialize files parent c) in
      let (backend, c2) = secret (codes "STORAGE_BACKEND") (codes "sqlite") c1 in
      after_storage (flag_or flag default) (open_storage backend c2)
