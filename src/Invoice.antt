-- ===== src/Invoice.antt =====
-- CreateInvoice of src/handlers_invoice.go and validateCreateInvoiceRequest of src/validation.go,
-- over the invoice service. The amount is a float64, of which the code asks two things.
pub mod Billable
mod Examples
use bincrypt.Prelude.{
  ℕ, zero, ◌*◌, Bool, true, false, not, ◌==◌, ◌||◌, List, [], ◌∷◌, ◌++◌, Option, none, some, Bytes,
  ℤ, pos, is_below, is_above, ltb, if◌then◌else◌, is_empty, length,
}
use bincrypt.Text.{trim_space, to_upper}

-- `amount <= 0` and `amount > 1000000`.
pub record Amounts (A : Type 0) : Type 0 where
  pub is_not_positive : A → Bool
  pub is_too_large : A → Bool

-- The fields of CreateInvoiceRequest that the handler reads; the metadata is a JSON text.
pub record CreateInvoiceRequest (A : Type 0) : Type 0 where
  pub amount : A
  pub currency : Bytes
  pub metadata : Option Bytes
  pub expiration_minutes : ℤ

pub data InvoiceError : Type 0 where
  amount_not_positive amount_too_large currency_required currency_not_iso : InvoiceError
  expiration_out_of_range metadata_not_serializable metadata_too_large : InvoiceError

abbrev pub default_invoice_expiration_minutes : ℕ
default_invoice_expiration_minutes = 30

abbrev pub min_invoice_expiration_minutes : ℕ
min_invoice_expiration_minutes = 5

abbrev pub max_invoice_expiration_minutes : ℕ
max_invoice_expiration_minutes = 24 * 60

abbrev pub max_invoice_metadata_bytes : ℕ
max_invoice_metadata_bytes = 2048

abbrev pub error_if : Bool → InvoiceError → List InvoiceError
error_if true e = e ∷ []
error_if false e = []

unfoldable pub check_currency : Bytes → List InvoiceError
check_currency currency =
    if is_empty currency
    then currency_required ∷ []
    else error_if (not (length currency == 3)) currency_not_iso

marshalled : Option Bytes → List InvoiceError
marshalled none = metadata_not_serializable ∷ []
marshalled (some json) = error_if (ltb max_invoice_metadata_bytes (length json)) metadata_too_large

-- `marshal` is json.Marshal of the metadata.
unfoldable pub check_metadata : (Bytes → Option Bytes) → Option Bytes → List InvoiceError
unfolding marshalled
check_metadata marshal none = []
check_metadata marshal (some metadata) = marshalled (marshal metadata)

pub data InvoiceReply (I : Type 0) : Type 0 where
  created : I → InvoiceReply I
  unavailable bad_json failed : InvoiceReply I
  rejected : List InvoiceError → InvoiceReply I

abbrev pub invoice_status : {I : Type 0} → InvoiceReply I → ℕ
invoice_status (created invoice) = 200
invoice_status unavailable = 503
invoice_status bad_json = 400
invoice_status failed = 502
invoice_status (rejected errors) = 400

abbrev pub default_minutes : ℤ → ℤ
default_minutes (pos zero) = pos default_invoice_expiration_minutes
default_minutes minutes = minutes

module _ {A : Type 0} (amounts : Amounts A) (marshal : Bytes → Option Bytes) where
  unfoldable pub validate_create_invoice_request : CreateInvoiceRequest A → List InvoiceError
  validate_create_invoice_request r =
      error_if (amounts.is_not_positive r.amount) amount_not_positive
      ++ error_if (amounts.is_too_large r.amount) amount_too_large
      ++ check_currency r.currency
      ++ error_if
          (is_below r.expiration_minutes min_invoice_expiration_minutes
            || is_above r.expiration_minutes max_invoice_expiration_minutes)
          expiration_out_of_range
      ++ check_metadata marshal r.metadata

  -- The default expiry, and the currency in upper case.
  abbrev pub normalized : CreateInvoiceRequest A → CreateInvoiceRequest A
  normalized r = record r {
    expiration_minutes = default_minutes r.expiration_minutes;
    currency = to_upper (trim_space r.currency);
  }

  module _ {S I : Type 0} where
    answer_invoice : Option I × S → InvoiceReply I × S
    answer_invoice (some invoice, s) = (created invoice, s)
    answer_invoice (none, s) = (failed, s)

    submit :
        (CreateInvoiceRequest A → S → Option I × S)
        → CreateInvoiceRequest A
        → List InvoiceError
        → S
        → InvoiceReply I × S
    unfolding answer_invoice
    submit service r [] s = answer_invoice (service r s)
    submit service r (e ∷ es) s = (rejected (e ∷ es), s)

    -- CreateInvoice: the service's CreateInvoice over its state, `none` for an error of it or for no
    -- service; `none` is also a body that does not decode.
    unfoldable pub create_invoice :
        Option (CreateInvoiceRequest A → S → Option I × S)
        → Option (CreateInvoiceRequest A)
        → S
        → InvoiceReply I × S
    unfolding submit
    create_invoice none request s = (unavailable, s)
    create_invoice (some service) none s = (bad_json, s)
    create_invoice (some service) (some r) s =
        submit service (normalized r) (validate_create_invoice_request (normalized r)) s
