-- ===== src/Invoice/Examples.antt =====
-- One invoice, with amounts as numbers and a service that counts them.
use bincrypt.Prelude.{ℕ, ◌+◌, ◌≡◌, refl, Option, some, Bytes, pos, codes, ltb}
use bincrypt.Text.{trim_space, to_upper}
use bincrypt.Invoice.{
  Amounts, CreateInvoiceRequest, validate_create_invoice_request, normalized, create_invoice,
  created, check_currency, check_metadata,
}
use bincrypt.Invoice.Billable.{IsBillable, create_invoice-created}

abbrev amounts : Amounts ℕ
amounts = record { is_not_positive = λ n. ltb n 1; is_too_large = λ n. ltb 1000000 n }

abbrev marshal : Bytes → Option Bytes
marshal metadata = some metadata

abbrev request : CreateInvoiceRequest ℕ
request = record {
  amount = 5;
  currency = codes " usd ";
  metadata = some (codes "{}");
  expiration_minutes = pos 0;
}

abbrev service : CreateInvoiceRequest ℕ → ℕ → Option ℕ × ℕ
service r made = (some r.amount, made + 1)

makes : create_invoice amounts marshal (some service) (some request) 0 ≡ (created 5, 1)
unfolding create_invoice validate_create_invoice_request check_currency check_metadata trim_space
    to_upper
makes = refl

create_invoice-created_example :
    IsBillable amounts marshal (normalized amounts marshal request)
    × (service (normalized amounts marshal request) 0 ≡ (some 5, 1))
create_invoice-created_example = create_invoice-created amounts marshal service request 5 0 1 makes
