-- ===== src/Server/StartupExamples.antt =====
-- main of src/main.go in an environment with the settings of BTCPay.
use mathlib.Core.List.{Memᴰ}
use mathlib.Core.List.Memᴰ.{head, tail}
use bincrypt.Prelude.{
  ◌≡◌, refl, true, false, List, [], ◌∷◌, none, some, Bytes, codes, bytes_eq, pos, find_by, All,
}
use bincrypt.Storage.{ok}
use bincrypt.Secrets.{File, absent, Variable, Config, get_env, initialize, get_secret_or_default}
use bincrypt.ClientIp.{Net, load_trusted_proxy_config, disabled}
use bincrypt.DeletionQueue.{new_deletion_queue}
use bincrypt.Server.{Route, routes, payment_webhook}
use bincrypt.Server.Startup.{
  Machine, memory, sqlite, BtcpayClient, new_btcpay_client, invoice_service, trim_slashes, Started,
  has_service, new_rate_limiter_from_env, or_memory, deletion_workers, open_storage, started,
  configure, after_storage, main,
}
use bincrypt.Server.Info.{get_client_config}
use bincrypt.Server.Disclosed.{disclosed, loaded, Agree, get_client_config-Agree}
use bincrypt.Server.Guarded.{IsConfigured, main-IsConfigured}

abbrev files : Bytes → File
files name = absent

abbrev parent : Bytes → Bytes
parent name = name

abbrev net : Net
net = record {
  parse_ip = λ s. none;
  is_v4 = λ s. true;
  parse_cidr = λ s. none;
  cidr_mask = λ ones bits. [];
  contains = λ network s. false;
  split_host = λ s. none;
}

abbrev machine : Machine
machine = record {
  atoi = λ s. some (pos 4);
  sqlite_opens = λ s. true;
  postgres_opens = λ s. true;
  redis_opens = λ s. true;
}

abbrev variable : Bytes → Bytes → Variable
variable name value = record { name = name; value = value }

abbrev settings : Config
settings = record {
  provider = none;
  env =
      variable (codes "BTCPAY_ENDPOINT") (codes "https://pay.example//")
      ∷ variable (codes "BTCPAY_APIKEY") (codes "k")
      ∷ variable (codes "BTCPAY_STORE_ID") (codes "s")
      ∷ variable (codes "BTCPAY_WEBHOOK_SECRET") (codes "w")
      ∷ variable (codes "DELETION_WORKERS") (codes "4")
      ∷ [];
}

abbrev running : Started
running = record {
  port = codes "8080";
  storage = sqlite (codes "./bincrypt.db");
  invoices = some (record {
    endpoint = codes "https://pay.example";
    store_id = codes "s";
    api_key = codes "k";
    webhook_secret = codes "w";
  });
  enable_metrics = false;
  limiter = memory;
  queue = new_deletion_queue 4;
  proxy_config = disabled;
}

starts : (main files parent net machine none settings).0 ≡ ok running
unfolding main after_storage configure started open_storage deletion_workers or_memory
    new_rate_limiter_from_env trim_slashes invoice_service new_btcpay_client
    load_trusted_proxy_config new_deletion_queue initialize get_secret_or_default bytes_eq find_by
    get_env
starts = refl

abbrev webhook_route : Route
webhook_route = record {
  method = some (codes "POST");
  path = codes "/api/payhook";
  is_prefix = false;
  limit = none;
  handler = payment_webhook;
}

webhook_listed : Memᴰ webhook_route (routes false (has_service running.invoices))
unfolding routes has_service
webhook_listed = tail (tail (tail (tail (tail (head refl)))))

main-IsConfigured_example :
    (client : BtcpayClient) × (running.invoices ≡ some client) × IsConfigured client
main-IsConfigured_example =
    main-IsConfigured files parent net machine none settings running webhook_route starts
      webhook_listed refl

abbrev public_env : List Variable
public_env = variable (codes "TURNSTILE_SITE_KEY") (codes "t") ∷ []

abbrev secret_env : List Variable
secret_env = variable (codes "TURNSTILE_SECRET_KEY") (codes "x") ∷ public_env

envs-Agree : All (Agree files parent [] public_env secret_env) disclosed
unfolding get_env find_by bytes_eq
envs-Agree = (refl, (refl, (refl, (refl, (refl, (refl, (refl, (refl, tt))))))))

get_client_config-Agree_example :
    (get_client_config files parent (loaded [] public_env)).0
    ≡ (get_client_config files parent (loaded [] secret_env)).0
get_client_config-Agree_example =
    get_client_config-Agree files parent [] public_env secret_env envs-Agree
