-- ===== src/Logger/Origin.antt =====
-- Which client an audit event of src/logger/audit.go names, with the context that Logging of
-- src/middleware.go makes.
use bincrypt.Prelude.{
  ℕ, ◌≡◌, refl, ◌∙◌, false, List, none, some, Bytes, bytes_eq, codes, is_empty, bytes_eq_refl,
  if◌then◌else◌,
}
use bincrypt.ClientIp.{Net, get_client_ip, remote_ip}
use bincrypt.Monitor.{trace_ids}
use bincrypt.Logger.{
  text, Field, lookup, set_some, Context, audit_level, StructuredLogger, Entry, with_context,
}
use bincrypt.Logger.Audit.{audit_fields, context_fields, log_event}
use bincrypt.Logger.Lookup.{
  lookup-set_field, lookup-set_some, is_reserved, fields_of, entry_of-lookup,
}

-- The context of a request: its identifier, the header X-Cloud-Trace-Context, and r.Header.Get.
unfoldable pub request_context : Net → Bytes → Bytes → (Bytes → Bytes) → Context
request_context net request_id remote_addr header =
    let (trace, span) = trace_ids (header (codes "X-Cloud-Trace-Context")) in
    record {
      request_id = some request_id;
      trace_id = if is_empty trace then none else some trace;
      span_id = if is_empty span then none else some span;
      user_id = none;
      client_ip = some (get_client_ip net none remote_addr header);
      user_agent = some (header (codes "User-Agent"));
    }

-- A text in the context stands over what the event gives.
lookup-own :
    (name s : Bytes) (fields : List Field)
    → lookup name (set_some name (some s) fields) ≡ some (text s)
unfolding set_some
lookup-own name s fields = rw (lookup-set_field name name (text s) fields, bytes_eq_refl name) refl

agent_is_other : bytes_eq (codes "user_agent") (codes "client_ip") ≡ false
unfolding bytes_eq
agent_is_other = refl

ip_is_free : is_reserved (codes "client_ip") ≡ false
unfolding bytes_eq
ip_is_free = refl

audit_fields-client_ip :
    (written event ip : Bytes) (c : Context) (fields : List Field)
    → c.client_ip ≡ some ip
    → lookup (codes "client_ip") (audit_fields written (some c) event fields) ≡ some (text ip)
unfolding audit_fields context_fields
audit_fields-client_ip written event ip c fields e =
    lookup-set_some (codes "client_ip") (codes "user_agent") c.user_agent _ agent_is_other
    ∙ rw e (lookup-own (codes "client_ip") ip _)

-- Every audit event that is logged with the context that Logging makes of a request names as its
-- client the peer of the connection, as GetClientIP does without trusted proxies, whatever client
-- the event's fields name.
pub log_event-peer :
    (net : Net) (request_id remote_addr : Bytes) (header : Bytes → Bytes)
    (written caller event : Bytes) (now : ℕ) (fields : List Field) (l : StructuredLogger)
    (entry : Entry)
    → let ctx = request_context net request_id remote_addr header in
      (log_event written now caller (some ctx) event fields l ≡ some entry)
      → lookup (codes "client_ip") (fields_of entry) ≡ some (text (remote_ip net remote_addr))
unfolding log_event request_context get_client_ip
log_event-peer net request_id remote_addr header written caller event now fields l entry e =
    let ctx = request_context net request_id remote_addr header in
    let given = audit_fields written (some ctx) event fields in
    let at_ip : lookup (codes "client_ip") given ≡ some (text (remote_ip net remote_addr)) =
      audit_fields-client_ip written event (remote_ip net remote_addr) ctx fields refl in
    entry_of-lookup (codes "client_ip") now caller audit_level event given
      (with_context (some ctx) l) entry ip_is_free e
    ∙ rw at_ip refl
