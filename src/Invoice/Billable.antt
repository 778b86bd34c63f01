-- ===== src/Invoice/Billable.antt =====
-- What the invoice service is asked for.
use bincrypt.Prelude.{
  ◌≤◌, ◌≡◌, refl, ◌↔◌, Bool, true, false, List, [], ◌∷◌, Option, none, some, Bytes, ℤ, ◌||◌, ◌++◌,
  is_below, is_above, pos, negsuc, arith, length, Option-cases, inl, inr,
}
use bincrypt.Invoice.{
  error_if, amount_not_positive, amount_too_large, expiration_out_of_range, Amounts,
  CreateInvoiceRequest, InvoiceError, created, min_invoice_expiration_minutes,
  max_invoice_expiration_minutes, max_invoice_metadata_bytes, validate_create_invoice_request,
  check_currency, check_metadata, normalized, create_invoice,
}

-- The metadata that fits.
abbrev pub IsFitting : (Bytes → Option Bytes) → Option Bytes → Type 0
IsFitting marshal none = Unit
IsFitting marshal (some metadata) =
    (json : Bytes) × (marshal metadata ≡ some json) × (length json ≤ max_invoice_metadata_bytes)

abbrev pub InMinutes : ℤ → Type 0
InMinutes (pos n) = (min_invoice_expiration_minutes ≤ n) × (n ≤ max_invoice_expiration_minutes)
InMinutes (negsuc n) = ⊥

-- No error from two checks.
append-nil_iff : {E : Type 0} (xs ys : List E) → (xs ++ ys ≡ []) ↔ ((xs ≡ []) × (ys ≡ []))
append-nil_iff [] ys = (λ h. (refl, h), λ h. h.1)
append-nil_iff (x ∷ xs) ys = (λ h. cc, λ h. cc (h.0))

error_if_iff : (b : Bool) (e : InvoiceError) → (error_if b e ≡ []) ↔ (b ≡ false)
error_if_iff true e = (λ h. cc, λ h. cc)
error_if_iff false e = (λ h. refl, λ h. refl)

minutes_iff :
    (m : ℤ)
    → ((is_below m min_invoice_expiration_minutes || is_above m max_invoice_expiration_minutes)
        ≡ false)
      ↔ InMinutes m
minutes_iff (pos n) = (λ h. (ground arith, ground arith), λ h. ground arith)
minutes_iff (negsuc n) = (λ h. cc, λ h. absurd h)

module _ {A : Type 0} (amounts : Amounts A) (marshal : Bytes → Option Bytes) where
  -- An amount above 0 and up to 1000000, a currency of three letters, 5 minutes to 24 hours, and
  -- metadata of at most 2048 bytes.
  abbrev pub IsBillable : CreateInvoiceRequest A → Type 0
  IsBillable r =
      (amounts.is_not_positive r.amount ≡ false)
      × (amounts.is_too_large r.amount ≡ false)
      × (length r.currency ≡ 3)
      × InMinutes r.expiration_minutes
      × IsFitting marshal r.metadata

  currency-length : (currency : Bytes) → check_currency currency ≡ [] → length currency ≡ 3
  unfolding check_currency
  currency-length [] h = cc
  currency-length (c ∷ s) h = ground arith

  length-currency : (currency : Bytes) → length currency ≡ 3 → check_currency currency ≡ []
  unfolding check_currency
  length-currency [] h = absurd (omega arith)
  length-currency (c ∷ s) h = ground arith

  metadata-IsFitting :
      (metadata : Option Bytes) → check_metadata marshal metadata ≡ [] → IsFitting marshal metadata
  unfolding check_metadata
  metadata-IsFitting none h = tt
  metadata-IsFitting (some m) h = elim (Option-cases (marshal m)) [
    | inl bad ↦ absurd (ground arith)
    | inr (json, good) ↦ (json, good, ground arith)
  ]

  IsFitting-metadata :
      (metadata : Option Bytes) → IsFitting marshal metadata → check_metadata marshal metadata ≡ []
  unfolding check_metadata
  IsFitting-metadata none h = refl
  IsFitting-metadata (some m) (json, good, short) = ground arith

  -- validateCreateInvoiceRequest reports no error exactly for a request with an amount above 0 and
  -- up to 1000000, a currency of three bytes, an expiry of 5 to 1440 minutes, and metadata, if there
  -- is any, whose JSON has at most 2048 bytes.
  pub validate_create_invoice_request_iff :
      (r : CreateInvoiceRequest A)
      → (validate_create_invoice_request amounts marshal r ≡ []) ↔ IsBillable r
  unfolding validate_create_invoice_request
  validate_create_invoice_request_iff r =
      let low = error_if (amounts.is_not_positive r.amount) amount_not_positive in
      let high = error_if (amounts.is_too_large r.amount) amount_too_large in
      let late =
        is_below r.expiration_minutes min_invoice_expiration_minutes
        || is_above r.expiration_minutes max_invoice_expiration_minutes in
      let minutes = error_if late expiration_out_of_range in
      let four =
        append-nil_iff (low ++ high ++ check_currency r.currency ++ minutes)
          (check_metadata marshal r.metadata) in
      let three = append-nil_iff (low ++ high ++ check_currency r.currency) minutes in
      let two = append-nil_iff (low ++ high) (check_currency r.currency) in
      let one = append-nil_iff low high in
      let range = minutes_iff r.expiration_minutes in
      let off = error_if_iff late expiration_out_of_range in
      let small = error_if_iff (amounts.is_not_positive r.amount) amount_not_positive in
      let large = error_if_iff (amounts.is_too_large r.amount) amount_too_large in
      (
        λ h.
            let (rest3, metadata) = four.0 h in
            let (rest2, m) = three.0 rest3 in
            let (rest1, currency) = two.0 rest2 in
            let (l, g) = one.0 rest1 in
            (
              small.0 l,
              large.0 g,
              currency-length r.currency currency,
              range.0 (off.0 m),
              metadata-IsFitting r.metadata metadata,
            ),
        λ (l, g, c, m, d). four.1 (
          three.1 (
            two.1 (one.1 (small.1 l, large.1 g), length-currency r.currency c),
            off.1 (range.1 m),
          ),
          IsFitting-metadata r.metadata d,
        ),
      )

  -- If CreateInvoice answers with an invoice, then the service was asked for the request with its
  -- default expiry and its currency in upper case, that request is within the limits, and the
  -- service made this invoice.
  pub create_invoice-created :
      {S I : Type 0} (service : CreateInvoiceRequest A → S → Option I × S)
      (r : CreateInvoiceRequest A) (invoice : I) (s s' : S)
      → create_invoice amounts marshal (some service) (some r) s ≡ (created invoice, s')
      → IsBillable (normalized amounts marshal r)
        × (service (normalized amounts marshal r) s ≡ (some invoice, s'))
  unfolding create_invoice
  create_invoice-created service r invoice s s' h =
      let r' = normalized amounts marshal r in
      let valid : validate_create_invoice_request amounts marshal r' ≡ [] = ground arith in
      ((validate_create_invoice_request_iff r').0 valid, ground arith)
