-- ===== src/Logger/Redacted.antt =====
-- What LogSystemStart of src/logger/audit.go tells of the configuration.
use mathlib.Core.List.{map}
use mathlib.Core.Path.{subst}
use bincrypt.Prelude.{
  ◌≡◌, refl, true, false, List, [], ◌∷◌, none, some, Bytes, codes, arith, Bool-cases, inl, inr,
  bytes_eq, find_by, ℕ, ◌∙◌,
}
use bincrypt.Logger.{
  text, settings, Field, lookup, set_some, Context, audit_level, StructuredLogger, Entry,
  with_context,
}
use bincrypt.Logger.Lookup.{lookup-merge, is_reserved, fields_of, entry_of-lookup}
use bincrypt.Logger.Audit.{
  field, is_sensitive_config_key, redacted, sanitize_setting, system_start, event_fields,
  context_fields, audit_fields, log_event,
}

-- The keys, in order, are those of the configuration, with the values that may be told.
abbrev pub IsSanitized : List (Bytes × Bytes) → List (Bytes × Bytes) → Type 0
IsSanitized [] [] = Unit
IsSanitized ((key, value) ∷ config) ((key', value') ∷ told) =
    (key' ≡ key)
    × (is_sensitive_config_key key ≡ true → value' ≡ redacted)
    × (is_sensitive_config_key key ≡ false → value' ≡ value)
    × IsSanitized config told
IsSanitized _ _ = ⊥

map-IsSanitized : (config : List (Bytes × Bytes)) → IsSanitized config (map sanitize_setting config)
unfolding sanitize_setting
map-IsSanitized [] = tt
map-IsSanitized ((key, value) ∷ config) = elim (Bool-cases (is_sensitive_config_key key)) [
  | inl secret ↦ rw secret (refl, λ h. refl, λ h. absurd (ground arith), map-IsSanitized config)
  | inr public ↦ rw public (refl, λ h. absurd (ground arith), λ h. refl, map-IsSanitized config)
]

config_is_free : is_reserved (codes "config") ≡ false
unfolding bytes_eq
config_is_free = refl

-- The context of context.Background().
abbrev pub background : Context
background = record {
  request_id = none;
  trace_id = none;
  span_id = none;
  user_id = none;
  client_ip = none;
  user_agent = none;
}

-- The fields of LogSystemStart.
abbrev start_fields : Bytes → List (Bytes × Bytes) → List Field
start_fields version config =
    field (codes "version") (text version)
    ∷ field (codes "config") (settings (map sanitize_setting config))
    ∷ []

start_fields-config :
    (version : Bytes) (config : List (Bytes × Bytes))
    → lookup (codes "config") (start_fields version config)
      ≡ some (settings (map sanitize_setting config))
unfolding find_by bytes_eq
start_fields-config version config = refl

given-config :
    (written version : Bytes) (config : List (Bytes × Bytes))
    → lookup (codes "config") (
        audit_fields written (some background) (codes "SYSTEM_START") (start_fields version config))
      ≡ some (settings (map sanitize_setting config))
unfolding audit_fields context_fields set_some
given-config written version config =
    lookup-merge (codes "config") _ (start_fields version config)
    ∙ rw (start_fields-config version config) refl

-- The entry that LogSystemStart logs holds each setting of the configuration under its key, with
-- its value if the key is not sensitive and with "<redacted>" if it is.
pub log_system_start-IsSanitized :
    (sha256 : Bytes → Bytes) (written caller version : Bytes) (now : ℕ)
    (config : List (Bytes × Bytes)) (fields : List Field) (l : StructuredLogger) (entry : Entry)
    → event_fields sha256 (system_start version config) ≡ some fields
    → log_event written now caller (some background) (codes "SYSTEM_START") fields l ≡ some entry
    → (told : List (Bytes × Bytes)) × (lookup (codes "config") (fields_of entry)
        ≡ some (settings told))
      × IsSanitized config told
unfolding log_event event_fields
log_system_start-IsSanitized sha256 written caller version now config fields l entry own e =
    let same : start_fields version config ≡ fields = ground arith in
    let given = audit_fields written (some background) (codes "SYSTEM_START") fields in
    let at_config : lookup (codes "config") given ≡ some (settings (map sanitize_setting config)) =
      subst
        (λ (fs : List Field).
          lookup (codes "config") (audit_fields written (some background) (codes "SYSTEM_START") fs)
          ≡ some (settings (map sanitize_setting config)))
        same (given-config written version config) in
    (
      map sanitize_setting config,
      entry_of-lookup (codes "config") now caller audit_level (codes "SYSTEM_START") given
            (with_context (some background) l) entry config_is_free e
          ∙ rw at_config refl,
      map-IsSanitized config,
    )
