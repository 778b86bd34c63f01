-- ===== src/Server/Disclosed.antt =====
-- Which settings GetClientConfig of src/config_handlers.go tells a client.
use bincrypt.Prelude.{
  ◌≡◌, refl, true, List, [], ◌∷◌, some, Bytes, codes, All, is_empty, Bool-cases, inl, inr,
  if◌then◌else◌,
}
use bincrypt.Secrets.{
  File, Config, Variable, get_env, load_secrets, secret_of, provider_secret, get_secret,
  get_secret_or_default,
}
use bincrypt.Server.Info.{get_client_config}

-- The settings that the handler reads.
abbrev pub disclosed : List Bytes
disclosed =
    codes "FIREBASE_API_KEY"
    ∷ codes "FIREBASE_AUTH_DOMAIN"
    ∷ codes "FIREBASE_PROJECT_ID"
    ∷ codes "FIREBASE_STORAGE_BUCKET"
    ∷ codes "FIREBASE_MESSAGING_SENDER_ID"
    ∷ codes "FIREBASE_APP_ID"
    ∷ codes "TURNSTILE_SITE_KEY"
    ∷ codes "TURNSTILE_DEV_BYPASS"
    ∷ []

abbrev pub loaded : Bytes → List Variable → Config
loaded env_file env = record {
  provider = some (record { env_file = env_file; loaded = true });
  env = env;
}

module _ (files : Bytes → File) (parent : Bytes → Bytes) (env_file : Bytes) where
  -- What a setting is once the provider is loaded: no file is read again.
  abbrev value_in : Bytes → Bytes → List Variable → Bytes
  value_in key default env = if is_empty (get_env key env) then default else get_env key env

  loaded-setting :
      (key default : Bytes) (env : List Variable)
      → get_secret_or_default files parent key default (loaded env_file env)
        ≡ (value_in key default env, loaded env_file env)
  unfolding get_secret_or_default get_secret provider_secret load_secrets secret_of
  loaded-setting key default env = elim (Bool-cases (is_empty (get_env key env))) [
    | inl missing ↦ rw missing refl
    | inr there ↦ rw there refl
  ]

  -- Both environments have the same value under the name.
  abbrev pub Agree : List Variable → List Variable → Bytes → Type 0
  Agree env env' name = get_env name env ≡ get_env name env'

  -- Once the settings are loaded, GetClientConfig tells a client nothing that depends on any setting
  -- but the eight of the Firebase project and of Turnstile: with environments that agree on those,
  -- the answers are the same, whatever else the environments hold.
  pub get_client_config-Agree :
      (env env' : List Variable)
      → All (Agree env env') disclosed
      → (get_client_config files parent (loaded env_file env)).0
        ≡ (get_client_config files parent (loaded env_file env')).0
  unfolding get_client_config
  get_client_config-Agree env env' (a, (b, (c, (d, (e, (f, (g, (h, _)))))))) =
      simp (loaded-setting, a, b, c, d, e, f, g, h) refl
