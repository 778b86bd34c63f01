-- ===== src/Secrets.antt =====
-- src/config/secrets.go, in the build without Google's Secret Manager (src/config/secrets_nogcp.go).
-- The mutexes make each call one step; log lines are left out.
pub mod Loaded
mod Examples
use bincrypt.Prelude.{
  ℕ, ◌==◌, ◌&&◌, ◌||◌, Bool, true, false, not, List, [], ◌∷◌, ◌++◌, Option, none, some, Bytes,
  codes, is_empty, if◌then◌else◌, find_by, remove_by, all,
}
use bincrypt.Storage.{Result, ok, err}
use bincrypt.Text.{trim_space, has_prefix, split, cut}

-- The environment of the process.
pub record Variable : Type 0 where
  pub name : Bytes
  pub value : Bytes

abbrev pub variable_name : Variable → Bytes
variable_name v = v.name

-- os.Setenv fails for an empty name, a name with `=` or a zero byte, and a value with a zero byte.
unfoldable pub is_settable : Bytes → Bytes → Bool
is_settable name value =
    not (is_empty name)
    && all (λ c. not (c == b'=') && not (c == 0)) name
    && all (λ c. not (c == 0)) value

-- The error of os.Setenv is dropped.
unfoldable pub set_env : Bytes → Bytes → List Variable → List Variable
unfolding is_settable
set_env name value env =
    if is_settable name value
    then record { name = name; value = value } ∷ remove_by variable_name name env
    else env

abbrev value_of : Option Variable → Bytes
value_of none = []
value_of (some v) = v.value

-- os.Getenv
unfoldable pub get_env : Bytes → List Variable → Bytes
get_env name env = value_of (find_by variable_name name env)

-- The last byte of c ∷ s, and what stands before it.
unfoldable pub last_byte : ℕ → Bytes → ℕ
last_byte c [] = c
last_byte c (d ∷ s) = last_byte d s

unfoldable pub but_last : ℕ → Bytes → Bytes
but_last c [] = []
but_last c (d ∷ s) = c ∷ but_last d s

-- Quotes of one kind around a value of two bytes or more are dropped.
unfoldable pub unquote : Bytes → Bytes
unfolding last_byte but_last
unquote [] = []
unquote (c ∷ []) = c ∷ []
unquote (c ∷ d ∷ s) =
    if (c == b'"' && last_byte d s == b'"') || (c == b'\'' && last_byte d s == b'\'')
    then but_last d s
    else c ∷ d ∷ s

-- What a line sets, if it sets anything.
unfoldable pub assignment : Bytes × Option Bytes → Option (Bytes × Bytes)
unfolding unquote
assignment (before, none) = none
assignment (before, some after) = some (trim_space before, unquote (trim_space after))

unfoldable pub parse_line : Bytes → Option (Bytes × Bytes)
unfolding assignment
parse_line line =
    let text = trim_space line in
    if is_empty text || has_prefix text (b'#' ∷ []) then none else assignment (cut b'=' text)

unfoldable pub set_parsed : Option (Bytes × Bytes) → List Variable → List Variable
set_parsed none env = env
set_parsed (some (name, value)) env = set_env name value env

unfoldable pub load_lines : List Bytes → List Variable → List Variable
unfolding set_parsed
load_lines [] env = env
load_lines (line ∷ lines) env = load_lines lines (set_parsed (parse_line line) env)

-- loadEnvFile, for a file that can be read.
unfoldable pub load_env_file : Bytes → List Variable → List Variable
load_env_file text env = load_lines (split b'\n' text) env

-- os.Stat and os.ReadFile of a name: `absent` is an error of Stat, `unreadable` one of ReadFile.
pub data File : Type 0 where
  absent unreadable : File
  file : Bytes → File

pub record EnvSecretProvider : Type 0 where
  pub env_file : Bytes
  pub loaded : Bool

pub data SecretError : Type 0 where
  load_failed not_in_environment not_initialized : SecretError

-- The provider of the package, and the environment.
pub record Config : Type 0 where
  pub provider : Option EnvSecretProvider
  pub env : List Variable

-- The file system, and filepath.Join("..", name).
module _ (files : Bytes → File) (parent : Bytes → Bytes) where
  unfoldable pub load_file :
      File → EnvSecretProvider → List Variable → Bool × EnvSecretProvider × List Variable
  load_file absent p env = (true, record p { loaded = true }, env)
  load_file unreadable p env = (false, p, env)
  load_file (file text) p env = (true, record p { loaded = true }, load_env_file text env)

  -- EnvSecretProvider.LoadSecrets; `false` is an error.
  unfoldable pub load_secrets :
      EnvSecretProvider → List Variable → Bool × EnvSecretProvider × List Variable
  unfolding load_file
  load_secrets p env =
      if p.loaded
      then (true, p, env)
      else if is_empty p.env_file
      then (true, record p { loaded = true }, env)
      else load_file (files p.env_file) p env

  is_absent : File → Bool
  is_absent absent = true
  is_absent unreadable = false
  is_absent (file text) = false

  -- The file that Initialize settles on.
  unfoldable pub choose_env_file : List Variable → Bytes
  unfolding is_absent
  choose_env_file env =
      let custom = get_env (codes "ENV_FILE") env in
      let chosen = if is_empty custom then codes ".env" else custom in
      if is_absent (files chosen) && not (is_absent (files (parent chosen)))
      then parent chosen
      else chosen

  -- Whether USE_SECRET_MANAGER is set or not: initGCPProvider fails in this build, and an error of
  -- LoadSecrets is only logged.
  unfoldable pub initialize : Config → Config
  unfolding load_secrets choose_env_file
  initialize c = elim c.provider [
    | some p ↦ c
    | none ↦
        let (fine, p, env) =
          load_secrets (record { env_file = choose_env_file c.env; loaded = false }) c.env in
        record { provider = some p; env = env }
  ]

  unfoldable pub secret_of : Bytes → Result SecretError Bytes
  secret_of value = if is_empty value then err not_in_environment else ok value

  -- EnvSecretProvider.GetSecret
  unfoldable pub provider_secret :
      Bytes → EnvSecretProvider → List Variable → Result SecretError Bytes × Config
  unfolding load_secrets secret_of
  provider_secret key p env =
      let (fine, p', env') = load_secrets p env in
      let after : Config = record { provider = some p'; env = env' } in
      if fine then (secret_of (get_env key env'), after) else (err load_failed, after)

  unfoldable pub get_secret : Bytes → Config → Result SecretError Bytes × Config
  unfolding provider_secret
  get_secret key c = elim c.provider [
    | none ↦ (err not_initialized, c)
    | some p ↦ provider_secret key p c.env
  ]

  abbrev or_else : Bytes → Result SecretError Bytes → Bytes
  or_else default (ok value) = value
  or_else default (err e) = default

  unfoldable pub get_secret_or_default : Bytes → Bytes → Config → Bytes × Config
  unfolding get_secret
  get_secret_or_default key default c =
      let (out, c') = get_secret key c in (or_else default out, c')

  abbrev or_exit : Result SecretError Bytes → Option Bytes
  or_exit (ok value) = some value
  or_exit (err e) = none

  -- `none` ends the process.
  unfoldable pub must_get_secret : Bytes → Config → Option Bytes × Config
  unfolding get_secret
  must_get_secret key c = let (out, c') = get_secret key c in (or_exit out, c')
