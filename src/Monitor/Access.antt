-- ===== src/Monitor/Access.antt =====
-- Who is sent the counts of src/logger/monitor.go.
use bincrypt.Prelude.{◌≡◌, ◌↔◌, false, ◌++◌, Bytes, codes, arith, is_empty, bytes_eq_iff, []}
use bincrypt.Secrets.{File, Config, get_secret_or_default}
use bincrypt.Monitor.{Collector, served, bearer, metrics_handler}

-- MetricsHandler sends the counts exactly if the secret METRICS_TOKEN can be had and is not empty,
-- and the Authorization header is "Bearer " with that secret behind it.
pub metrics_handler-served_iff :
    (files : Bytes → File) (parent : Bytes → Bytes) (header : Bytes) (secrets : Config)
    (c : Collector)
    → let token = (get_secret_or_default files parent (codes "METRICS_TOKEN") [] secrets).0 in
      ((metrics_handler files parent header secrets c).0 ≡ served c)
      ↔ ((is_empty token ≡ false) × (header ≡ bearer ++ token))
unfolding metrics_handler
metrics_handler-served_iff files parent header secrets c =
    let token = (get_secret_or_default files parent (codes "METRICS_TOKEN") [] secrets).0 in
    (
      (λ h. (ground (arith, h), ground (arith, h, bytes_eq_iff header (bearer ++ token)))),
      (λ h. ground (arith, h.0, h.1, bytes_eq_iff header (bearer ++ token))),
    )
