-- ===== src/Logger/Lookup.antt =====
-- What stands under a name in the entries of src/logger/logger.go.
use bincrypt.Prelude.{
  ℕ, ◌≡◌, refl, ◌∙◌, ap, Bool, false, ◌||◌, List, [], ◌∷◌, Option, none, some, Bytes, bytes_eq,
  codes, arith, if◌then◌else◌, find_by, remove_by, find_by-remove_by,
}
use bincrypt.Logger.{
  Value, text, Field, field_name, lookup, set_field, merge, as_text, as_error, set_some, LogLevel,
  debug_level, info_level, warn_level, error_level, audit_level, StructuredLogger, Entry, taken,
  take_text, take_stack, take_trace, nil_if_empty, entry_of,
}

abbrev pub or_else : Option Value → Option Value → Option Value
or_else (some v) o = some v
or_else none o = o

pub lookup-set_field :
    (k name : Bytes) (v : Value) (fields : List Field)
    → lookup k (set_field name v fields) ≡ (if bytes_eq name k then some v else lookup k fields)
unfolding set_field find_by
lookup-set_field k name v fields = ground (arith, find_by-remove_by field_name k name fields)

pub lookup-remove :
    (k name : Bytes) (fields : List Field)
    → bytes_eq name k ≡ false
    → lookup k (remove_by field_name name fields) ≡ lookup k fields
lookup-remove k name fields h = ground (arith, find_by-remove_by field_name k name fields)

lookup-cons :
    (k : Bytes) (f : Field) (fields : List Field)
    → lookup k (f ∷ fields) ≡ (if bytes_eq f.name k then some f.value else lookup k fields)
unfolding find_by
lookup-cons k f fields = ground arith

-- In a merged map a name has the value that the second map gives it, or else that of the first.
pub lookup-merge :
    (k : Bytes) (base fields : List Field)
    → lookup k (merge base fields) ≡ or_else (lookup k fields) (lookup k base)
unfolding merge find_by
lookup-merge k base [] = refl
lookup-merge k base (f ∷ fields) = ground (
  arith,
  lookup-set_field k f.name f.value (merge base fields),
  lookup-cons k f fields,
  lookup-merge k base fields,
)

-- A copy of a map.
lookup-copy : (k : Bytes) (fields : List Field) → lookup k (merge [] fields) ≡ lookup k fields
unfolding find_by
lookup-copy k fields = lookup-merge k [] fields ∙ or_nothing k (lookup k fields)
  where
    or_nothing : (k : Bytes) (o : Option Value) → or_else o (lookup k []) ≡ o
    or_nothing k none = refl
    or_nothing k (some v) = refl

pub lookup-set_some :
    (k name : Bytes) (o : Option Bytes) (fields : List Field)
    → bytes_eq name k ≡ false
    → lookup k (set_some name o fields) ≡ lookup k fields
unfolding set_some
lookup-set_some k name none fields h = refl
lookup-set_some k name (some s) fields h = rw (lookup-set_field k name (text s) fields, h) refl

lookup-taken :
    (k name : Bytes) (o : Option Bytes) (fields : List Field)
    → bytes_eq name k ≡ false
    → lookup k (taken name o fields).1 ≡ lookup k fields
unfolding taken
lookup-taken k name none fields h = refl
lookup-taken k name (some s) fields h = lookup-remove k name fields h

lookup-take_text :
    (k name : Bytes) (fields : List Field)
    → bytes_eq name k ≡ false
    → lookup k (take_text name fields).1 ≡ lookup k fields
unfolding take_text
lookup-take_text k name fields h = lookup-taken k name (as_text (lookup name fields)) fields h

lookup-take_stack :
    (k : Bytes) (trace e : Option Bytes) (fields : List Field)
    → bytes_eq (codes "stack_trace") k ≡ false
    → bytes_eq (codes "error") k ≡ false
    → lookup k (take_stack trace e fields).1 ≡ lookup k fields
unfolding take_stack
lookup-take_stack k (some trace) e fields h h' = lookup-remove k (codes "stack_trace") fields h
lookup-take_stack k none (some e) fields h h' =
    rw (lookup-set_field k (codes "error") (text e) fields, h') refl
lookup-take_stack k none none fields h h' = refl

lookup-take_trace :
    (k : Bytes) (level : LogLevel) (given fields : List Field)
    → bytes_eq (codes "stack_trace") k ≡ false
    → bytes_eq (codes "error") k ≡ false
    → lookup k (take_trace level given fields).1 ≡ lookup k fields
unfolding take_trace
lookup-take_trace k error_level given fields h h' =
    lookup-take_stack k (as_text (lookup (codes "stack_trace") given))
      (as_error (lookup (codes "error") given)) fields h h'
lookup-take_trace k debug_level given fields h h' = refl
lookup-take_trace k info_level given fields h h' = refl
lookup-take_trace k warn_level given fields h h' = refl
lookup-take_trace k audit_level given fields h h' = refl

abbrev or_empty : Option (List Field) → List Field
or_empty none = []
or_empty (some fields) = fields

abbrev pub fields_of : Entry → List Field
fields_of e = or_empty e.fields

or_empty-nil : (fields : List Field) → or_empty (nil_if_empty fields) ≡ fields
or_empty-nil [] = refl
or_empty-nil (f ∷ fields) = refl

-- The names that log moves out of the fields or writes itself.
abbrev pub is_reserved : Bytes → Bool
is_reserved k =
    bytes_eq (codes "request_id") k
    || bytes_eq (codes "trace_id") k
    || bytes_eq (codes "span_id") k
    || bytes_eq (codes "stack_trace") k
    || bytes_eq (codes "error") k

-- The fields of an entry that is logged.
entry_of-fields :
    (now : ℕ) (caller : Bytes) (level : LogLevel) (msg : Bytes) (given : List Field)
    (l : StructuredLogger) (entry : Entry)
    → entry_of now caller level msg given l ≡ some entry
    → let merged = merge (merge [] l.fields) given in
      let span =
        take_text
          (codes "span_id")
          ((take_text (codes "trace_id") (take_text (codes "request_id") merged).1).1) in
      (fields_of entry ≡ (take_trace level given span.1).1)
unfolding entry_of
entry_of-fields now caller level msg given l entry e =
    let out =
      (take_trace level given
        (take_text (codes "span_id") (
          (take_text (codes "trace_id")
            (take_text (codes "request_id") (merge (merge [] l.fields) given)).1).1)).1).1 in
    let at_entry : entry.fields ≡ nil_if_empty out = ground arith in
    ap or_empty at_entry ∙ or_empty-nil out

-- In an entry that is logged, a name has the value that the call gives it, or else the one that the
-- logger was given with WithContext or WithFields, except for the identifiers of the request, the
-- trace and the span, which stand outside the fields, and for error and stack_trace.
pub entry_of-lookup :
    (k : Bytes) (now : ℕ) (caller : Bytes) (level : LogLevel) (msg : Bytes) (given : List Field)
    (l : StructuredLogger) (entry : Entry)
    → is_reserved k ≡ false
    → entry_of now caller level msg given l ≡ some entry
    → lookup k (fields_of entry) ≡ or_else (lookup k given) (lookup k l.fields)
entry_of-lookup k now caller level msg given l entry free e =
    let merged = merge (merge [] l.fields) given in
    let request = (take_text (codes "request_id") merged).1 in
    let trace = (take_text (codes "trace_id") request).1 in
    let span = (take_text (codes "span_id") trace).1 in
    ap (lookup k) (entry_of-fields now caller level msg given l entry e)
    ∙ lookup-take_trace k level given span (ground arith) (ground arith)
    ∙ lookup-take_text k (codes "span_id") trace (ground arith)
    ∙ lookup-take_text k (codes "trace_id") request (ground arith)
    ∙ lookup-take_text k (codes "request_id") merged (ground arith)
    ∙ lookup-merge k (merge [] l.fields) given
    ∙ ap (or_else (lookup k given)) (lookup-copy k l.fields)
