-- ===== src/Logger/Examples.antt =====
-- Entries of src/logger/logger.go and events of src/logger/audit.go on small inputs.
use bincrypt.Prelude.{
  ◌≡◌, refl, true, List, [], ◌∷◌, Option, none, some, Bytes, bytes_eq, codes, find_by, remove_by,
  if◌then◌else◌,
}
use bincrypt.ClientIp.{Net, remote_ip}
use bincrypt.Text.{contains, has_prefix, to_lower}
use bincrypt.Logger.{
  text, number, settings, Field, lookup, set_field, taken, take_trace, info_level, error_level,
  StructuredLogger, Entry, with_context, entry_of,
}
use bincrypt.Logger.Audit.{
  field, log_event, event_fields, system_start, sanitize_setting, contains_some,
  is_sensitive_config_key,
}
use bincrypt.Logger.Lookup.{fields_of}
use bincrypt.Logger.Origin.{request_context, log_event-peer}
use bincrypt.Logger.Redacted.{background, IsSanitized, log_system_start-IsSanitized}

abbrev logger : StructuredLogger
logger = record {
  level = info_level;
  fields = field (codes "request_id") (text (codes "r1")) ∷ field (codes "a") (number 1) ∷ [];
  with_caller = true;
}

abbrev given : List Field
given = field (codes "a") (number 2) ∷ field (codes "stack_trace") (text (codes "main.go")) ∷ []

abbrev entry : Entry
entry = record {
  timestamp = 7;
  level = codes "ERROR";
  message = codes "failed";
  fields = some (field (codes "a") (number 2) ∷ []);
  caller = codes "here";
  request_id = codes "r1";
  trace_id = [];
  span_id = [];
  stack_trace = codes "main.go";
}

is_logged : entry_of 7 (codes "here") error_level (codes "failed") given logger ≡ some entry
unfolding entry_of set_field bytes_eq find_by remove_by taken take_trace
is_logged = refl

abbrev net : Net
net = record {
  parse_ip = λ s. some s;
  is_v4 = λ s. true;
  parse_cidr = λ s. none;
  cidr_mask = λ ones bits. [];
  contains = λ network s. true;
  split_host = λ s. some s;
}

-- Behind a proxy at 10.0.0.1, for a client at 1.2.3.4.
abbrev header : Bytes → Bytes
header name = if bytes_eq name (codes "X-Forwarded-For") then codes "1.2.3.4" else []

abbrev viewed : List Field
viewed = field (codes "client_ip") (text (codes "1.2.3.4")) ∷ []

abbrev or_entry : Option Entry → Entry
or_entry none = entry
or_entry (some e) = e

abbrev view_entry : Entry
view_entry = or_entry (
    log_event [] 7 [] (some (request_context net (codes "r2") (codes "10.0.0.1") header))
      (codes "PASTE_VIEWED") viewed logger)

view_is_logged :
    log_event [] 7 []
      (some (request_context net (codes "r2") (codes "10.0.0.1") header))
      (codes "PASTE_VIEWED")
      viewed
      logger
    ≡ some view_entry
unfolding log_event entry_of with_context
view_is_logged = refl

log_event-peer_example :
    lookup (codes "client_ip") (fields_of view_entry)
    ≡ some (text (remote_ip net (codes "10.0.0.1")))
log_event-peer_example =
    log_event-peer net (codes "r2") (codes "10.0.0.1") header [] [] (codes "PASTE_VIEWED") 7 viewed
      logger view_entry view_is_logged

abbrev config : List (Bytes × Bytes)
config = (codes "PORT", codes "8080") ∷ (codes "Btcpay_ApiKey", codes "k") ∷ []

abbrev sha256 : Bytes → Bytes
sha256 s = s

abbrev start_fields : List Field
start_fields =
    field (codes "version") (text (codes "dev"))
    ∷ field (codes "config")
        (settings ((codes "PORT", codes "8080") ∷ (codes "Btcpay_ApiKey", codes "<redacted>") ∷ []))
    ∷ []

are_start_fields : event_fields sha256 (system_start (codes "dev") config) ≡ some start_fields
unfolding event_fields sanitize_setting is_sensitive_config_key contains_some contains has_prefix
    to_lower
are_start_fields = refl

abbrev start_entry : Entry
start_entry =
    or_entry (log_event [] 7 [] (some background) (codes "SYSTEM_START") start_fields logger)

start_is_logged :
    log_event [] 7 [] (some background) (codes "SYSTEM_START") start_fields logger
    ≡ some start_entry
unfolding log_event entry_of with_context
start_is_logged = refl

log_system_start-IsSanitized_example :
    (told : List (Bytes × Bytes)) × (lookup (codes "config") (fields_of start_entry)
      ≡ some (settings told))
    × IsSanitized config told
log_system_start-IsSanitized_example =
    log_system_start-IsSanitized sha256 [] [] (codes "dev") 7 config start_fields logger start_entry
      are_start_fields start_is_logged
