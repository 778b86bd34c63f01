-- ===== src/Logger.antt =====
-- The structured logger of src/logger/logger.go. A map of fields is the list of its entries, of which
-- the first with a name counts; encoding/json writes them in the order of their names.
pub mod Audit
pub mod Lookup
pub mod Origin
pub mod Redacted
mod Examples
use bincrypt.Prelude.{
  ℕ, ◌&&◌, Bool, true, false, List, [], ◌∷◌, ◌++◌, Option, none, some, Bytes, codes, leb, ltb,
  is_empty, if◌then◌else◌, find_by, remove_by,
}

-- A value of a field: a string, a number, a truth value, an error with its text, a time, or a map
-- of strings that are text.
pub data Value : Type 0 where
  text : Bytes → Value
  number : ℕ → Value
  flag : Bool → Value
  error_of : Bytes → Value
  time : ℕ → Value
  settings : List (Bytes × Bytes) → Value

pub record Field : Type 0 where
  pub name : Bytes
  pub value : Value

abbrev pub field_name : Field → Bytes
field_name f = f.name

abbrev pub value_in : Option Field → Option Value
value_in none = none
value_in (some f) = some f.value

abbrev pub lookup : Bytes → List Field → Option Value
lookup name fields = value_in (find_by field_name name fields)

-- fields[name] = value
unfoldable pub set_field : Bytes → Value → List Field → List Field
set_field name value fields =
    record { name = name; value = value } ∷ remove_by field_name name fields

-- The loop that copies each entry of a map; a later one of the same name is not in the map.
unfoldable pub merge : List Field → List Field → List Field
unfolding set_field
merge base [] = base
merge base (f ∷ fields) = set_field f.name f.value (merge base fields)

-- .(string)
abbrev pub as_text : Option Value → Option Bytes
as_text (some (text s)) = some s
as_text _ = none

abbrev pub as_error : Option Value → Option Bytes
as_error (some (error_of s)) = some s
as_error _ = none

unfoldable pub set_some : Bytes → Option Bytes → List Field → List Field
unfolding set_field
set_some name none fields = fields
set_some name (some s) fields = set_field name (text s) fields

-- The values of this package's keys in a context.
pub record Context : Type 0 where
  pub request_id : Option Bytes
  pub trace_id : Option Bytes
  pub span_id : Option Bytes
  pub user_id : Option Bytes
  pub client_ip : Option Bytes
  pub user_agent : Option Bytes

pub data LogLevel : Type 0 where
  debug_level info_level warn_level error_level audit_level : LogLevel

abbrev pub rank : LogLevel → ℕ
rank debug_level = 0
rank info_level = 1
rank warn_level = 2
rank error_level = 3
rank audit_level = 4

abbrev pub level_string : LogLevel → Bytes
level_string debug_level = codes "DEBUG"
level_string info_level = codes "INFO"
level_string warn_level = codes "WARN"
level_string error_level = codes "ERROR"
level_string audit_level = codes "AUDIT"

pub record StructuredLogger : Type 0 where
  pub level : LogLevel
  pub fields : List Field
  pub with_caller : Bool

-- An empty string is left out of the JSON text, and so are absent fields.
pub record Entry : Type 0 where
  pub timestamp : ℕ
  pub level : Bytes
  pub message : Bytes
  pub fields : Option (List Field)
  pub caller : Bytes
  pub request_id : Bytes
  pub trace_id : Bytes
  pub span_id : Bytes
  pub stack_trace : Bytes

-- WithContext; a nil context is `none`.
unfoldable pub with_context : Option Context → StructuredLogger → StructuredLogger
unfolding set_some merge
with_context none l = record l { fields = merge [] l.fields }
with_context (some c) l = record l {
  fields = set_some (codes "client_ip") c.client_ip (
      set_some (codes "user_id") c.user_id (
        set_some (codes "span_id") c.span_id (
          set_some (codes "trace_id") c.trace_id
            (set_some (codes "request_id") c.request_id (merge [] l.fields)))));
}

unfoldable pub with_fields : List Field → StructuredLogger → StructuredLogger
unfolding merge
with_fields fields l = record l { fields = merge (merge [] l.fields) fields }

-- A text taken out of the map, and the map without it.
unfoldable pub taken : Bytes → Option Bytes → List Field → Bytes × List Field
taken name none fields = ([], fields)
taken name (some s) fields = (s, remove_by field_name name fields)

unfoldable pub take_text : Bytes → List Field → Bytes × List Field
unfolding taken
take_text name fields = taken name (as_text (lookup name fields)) fields

unfoldable pub take_stack : Option Bytes → Option Bytes → List Field → Bytes × List Field
unfolding set_field
take_stack (some trace) e fields = (trace, remove_by field_name (codes "stack_trace") fields)
take_stack none (some e) fields = ([], set_field (codes "error") (text e) fields)
take_stack none none fields = ([], fields)

-- What ERROR does with the fields of the call: `given` are those, `fields` the entry's.
unfoldable pub take_trace : LogLevel → List Field → List Field → Bytes × List Field
unfolding take_stack
take_trace error_level given fields =
    take_stack (as_text (lookup (codes "stack_trace") given))
      (as_error (lookup (codes "error") given)) fields
take_trace _ given fields = ([], fields)

abbrev pub nil_if_empty : List Field → Option (List Field)
nil_if_empty [] = none
nil_if_empty (f ∷ fields) = some (f ∷ fields)

-- log up to the entry, which is `none` below the logger's level; `now` is the clock, and `caller` what
-- package runtime tells of the caller, empty if it knows nothing.
unfoldable pub entry_of :
    ℕ → Bytes → LogLevel → Bytes → List Field → StructuredLogger → Option Entry
unfolding merge take_text take_trace
entry_of now caller level msg given l =
    let merged = merge (merge [] l.fields) given in
    let request = take_text (codes "request_id") merged in
    let trace = take_text (codes "trace_id") request.1 in
    let span = take_text (codes "span_id") trace.1 in
    let stack = take_trace level given span.1 in
    if ltb (rank level) (rank l.level)
    then none
    else some (record {
      timestamp = now;
      level = level_string level;
      message = msg;
      fields = nil_if_empty stack.1;
      caller = if l.with_caller && leb 2 (rank level) then caller else [];
      request_id = request.0;
      trace_id = trace.0;
      span_id = span.0;
      stack_trace = stack.0;
    })

-- json.Marshal of an entry, and the line that is written if that fails.
pub record Encoder : Type 0 where
  pub marshal : Entry → Option Bytes
  pub failure_line : ℕ → Bytes

written_line : Encoder → ℕ → Option Bytes → Bytes
written_line e now none = e.failure_line now
written_line e now (some line) = line ++ codes "\n"

-- What a call of log appends to the output.
unfoldable pub log : Encoder → ℕ → Bytes → LogLevel → Bytes → List Field → StructuredLogger → Bytes
unfolding entry_of written_line
log e now caller level msg given l = elim (entry_of now caller level msg given l) [
  | none ↦ []
  | some entry ↦ written_line e now (e.marshal entry)
]
