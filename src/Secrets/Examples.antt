-- ===== src/Secrets/Examples.antt =====
-- Runs of src/config/secrets.go with a small environment file.
use bincrypt.Prelude.{
  ◌≡◌, refl, false, [], ◌∷◌, none, Bytes, codes, bytes_eq, is_empty, if◌then◌else◌, find_by,
}
use bincrypt.Storage.{ok, err}
use bincrypt.Base64.Identifier.{is_id_char}
use bincrypt.Secrets.{
  Variable, get_env, File, absent, file, SecretError, Config, choose_env_file, initialize,
  get_secret,
}
use bincrypt.Secrets.Loaded.{IsEntry, print_env, set_all, initialize-get_secret}

abbrev token : Variable
token = record { name = codes "METRICS_TOKEN"; value = codes "a = 'b' \"c\"" }

abbrev port : Variable
port = record { name = codes "PORT"; value = [] }

abbrev files : Bytes → File
files name = if bytes_eq name (codes ".env") then file (print_env (token ∷ port ∷ [])) else absent

abbrev up : Bytes → Bytes
up name = codes "../.env"

settles : choose_env_file files up [] ≡ codes ".env"
unfolding choose_env_file get_env find_by bytes_eq
settles = refl

readable : files (choose_env_file files up []) ≡ file (print_env (token ∷ port ∷ []))
unfolding bytes_eq
readable = rw settles refl

named : is_empty (choose_env_file files up []) ≡ false
named = rw settles refl

token-IsEntry : IsEntry token
unfolding is_id_char
token-IsEntry = record { named = refl; plain = refl; one_line = refl }

port-IsEntry : IsEntry port
unfolding is_id_char
port-IsEntry = record { named = refl; plain = refl; one_line = refl }

abbrev started : Config
started = initialize files up (record { provider = none; env = [] })

initialize-get_secret_example :
    (started.env ≡ set_all (token ∷ port ∷ []) [])
    × (get_secret files up (codes "PORT") started ≡ (
      (if is_empty (get_env (codes "PORT") (set_all (token ∷ port ∷ []) []))
          then err SecretError.not_in_environment
          else ok (get_env (codes "PORT") (set_all (token ∷ port ∷ []) []))),
      started,
    ))
    × (initialize files up started ≡ started)
initialize-get_secret_example =
    initialize-get_secret files up token (port ∷ []) [] (codes "PORT")
      (token-IsEntry, (port-IsEntry, tt)) readable named
