-- ===== src/Server/Info.antt =====
-- HealthCheck of src/handlers_paste.go and GetClientConfig of src/config_handlers.go.
use bincrypt.Prelude.{
  ℕ, ◌/◌, ◌&&◌, ◌||◌, Bool, not, [], Option, none, some, Bytes, bytes_eq, codes, is_empty,
  if◌then◌else◌,
}
use bincrypt.Secrets.{File, Config, get_secret_or_default}
use bincrypt.Validation.{max_ciphertext_size_encrypted, max_ciphertext_size_unencrypted}

pub record Health : Type 0 where
  pub status : ℕ
  pub overall : Bytes
  pub storage : Bytes

-- HealthCheck, for whether the storage's Ping succeeds.
unfoldable pub health_check : Bool → Health
health_check alive =
    let storage = if alive then codes "healthy" else codes "unhealthy" in
    let overall =
      if not (bytes_eq storage (codes "healthy")) then codes "degraded" else codes "healthy" in
    record {
      status = if not (bytes_eq overall (codes "healthy")) then 503 else 200;
      overall = overall;
      storage = storage;
    }

pub record Limits : Type 0 where
  pub max_encrypted : ℕ
  pub max_unencrypted : ℕ
  pub max_encrypted_kb : ℕ
  pub max_unencrypted_kb : ℕ

pub record FirebaseConfig : Type 0 where
  pub api_key : Bytes
  pub auth_domain : Bytes
  pub project_id : Bytes
  pub storage_bucket : Bytes
  pub messaging_sender_id : Bytes
  pub app_id : Bytes

-- The answer; a part that is left out is `none`.
pub record ClientConfig : Type 0 where
  pub limits : Limits
  pub firebase : Option FirebaseConfig
  pub turnstile : Option Bytes

unfoldable pub some_firebase : FirebaseConfig → Option FirebaseConfig
some_firebase f =
    if not (is_empty f.api_key)
      || not (is_empty f.auth_domain)
      || not (is_empty f.project_id)
      || not (is_empty f.storage_bucket)
      || not (is_empty f.messaging_sender_id)
      || not (is_empty f.app_id)
    then some f
    else none

unfoldable pub some_turnstile : Bytes → Bytes → Option Bytes
some_turnstile site_key dev_bypass =
    if not (is_empty site_key) && not (bytes_eq dev_bypass (codes "true"))
    then some site_key
    else none

abbrev pub client_limits : Limits
client_limits = record {
  max_encrypted = max_ciphertext_size_encrypted;
  max_unencrypted = max_ciphertext_size_unencrypted;
  max_encrypted_kb = max_ciphertext_size_encrypted / 1024;
  max_unencrypted_kb = max_ciphertext_size_unencrypted / 1024;
}

module _ (files : Bytes → File) (parent : Bytes → Bytes) where
  abbrev setting : Bytes → Bytes → Config → Bytes × Config
  setting key default c = get_secret_or_default files parent key default c

  unfoldable pub get_client_config : Config → ClientConfig × Config
  unfolding some_firebase some_turnstile
  get_client_config c =
      let (api_key, c1) = setting (codes "FIREBASE_API_KEY") [] c in
      let (auth_domain, c2) = setting (codes "FIREBASE_AUTH_DOMAIN") [] c1 in
      let (project_id, c3) = setting (codes "FIREBASE_PROJECT_ID") [] c2 in
      let (storage_bucket, c4) = setting (codes "FIREBASE_STORAGE_BUCKET") [] c3 in
      let (sender_id, c5) = setting (codes "FIREBASE_MESSAGING_SENDER_ID") [] c4 in
      let (app_id, c6) = setting (codes "FIREBASE_APP_ID") [] c5 in
      let (site_key, c7) = setting (codes "TURNSTILE_SITE_KEY") [] c6 in
      let (dev_bypass, c8) = setting (codes "TURNSTILE_DEV_BYPASS") (codes "false") c7 in
      (
        record {
          limits = client_limits;
          firebase = some_firebase (record {
            api_key = api_key;
            auth_domain = auth_domain;
            project_id = project_id;
            storage_bucket = storage_bucket;
            messaging_sender_id = sender_id;
            app_id = app_id;
          });
          turnstile = some_turnstile site_key dev_bypass;
        },
        c8,
      )
