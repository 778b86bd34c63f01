-- ===== src/Server/Guarded.antt =====
-- When the server of src/main.go and src/server.go takes payments.
use mathlib.Core.List.{Memᴰ}
use bincrypt.Prelude.{
  ◌≡◌, ◌≢◌, refl, sym, ◌∙◌, Bool, true, false, not, List, [], ◌∷◌, Option, none, some, Bytes, arith,
  all, is_empty,
}
use bincrypt.Storage.{Result, ok, err}
use bincrypt.Secrets.{File, Variable, Config}
use bincrypt.ClientIp.{Net}
use bincrypt.Server.{Handler, create_invoice, payment_webhook, Route, routes}
use bincrypt.Server.Startup.{
  Machine, Limiter, Storage, Exit, BtcpayClient, new_btcpay_client, invoice_service, Started,
  has_service, started, configure, after_storage, main,
}
use bincrypt.Server.Gates.{all-Memᴰ}

abbrev pub is_payment : Handler → Bool
is_payment create_invoice = true
is_payment payment_webhook = true
is_payment _ = false

routes-free : (m : Bool) → all (λ r. not (is_payment r.handler)) (routes m false) ≡ true
unfolding routes
routes-free true = refl
routes-free false = refl

-- A client with all that it needs.
abbrev pub IsConfigured : BtcpayClient → Type 0
IsConfigured client = (client.webhook_secret ≢ []) × (client.api_key ≢ []) × (client.store_id ≢ [])

not_empty : (s : Bytes) → is_empty s ≡ false → s ≢ []
not_empty (c ∷ s) e h = ground arith
not_empty [] e h = ground arith

invoice_service-IsConfigured :
    (endpoint api_key store_id webhook_secret : Bytes) (client : BtcpayClient)
    → invoice_service endpoint api_key store_id webhook_secret ≡ some client
    → IsConfigured client
unfolding invoice_service new_btcpay_client
invoice_service-IsConfigured endpoint api_key store_id webhook_secret client e = (
  ground (arith, not_empty webhook_secret),
  ground (arith, not_empty api_key),
  ground (arith, not_empty store_id),
)

-- The invoice service of a server comes from four settings.
abbrev IsFromSettings : Started → Type 0
IsFromSettings s =
    (endpoint : Bytes) × (api_key : Bytes) × (store_id : Bytes) × (webhook_secret : Bytes)
    × (s.invoices ≡ invoice_service endpoint api_key store_id webhook_secret)

module _ (files : Bytes → File) (parent : Bytes → Bytes) (net : Net) (m : Machine) where
  started-invoices :
      (port : Bytes) (storage : Storage) (invoices : Option BtcpayClient) (metrics : Bool)
      (limiter : Limiter) (env : List Variable) (s : Started)
      → started files parent net m port storage invoices metrics limiter env ≡ ok s
      → s.invoices ≡ invoices
  unfolding started
  started-invoices port storage invoices metrics limiter env s e = ground arith

  configure-IsFromSettings :
      (port : Bytes) (storage : Storage) (c : Config) (s : Started)
      → (configure files parent net m port storage c).0 ≡ ok s
      → IsFromSettings s
  unfolding configure
  configure-IsFromSettings port storage c s e =
      (_, _, _, _, started-invoices port storage _ _ _ _ s e)

  after_storage-IsFromSettings :
      (port : Bytes) (opened : Result Exit Storage × Config) (s : Started)
      → (after_storage files parent net m port opened).0 ≡ ok s
      → IsFromSettings s
  unfolding after_storage
  after_storage-IsFromSettings port (err x, c) s e = absurd (ground arith)
  after_storage-IsFromSettings port (ok storage, c) s e =
      configure-IsFromSettings port storage c s e

  main-IsFromSettings :
      (flag : Option Bytes) (c : Config) (s : Started)
      → (main files parent net m flag c).0 ≡ ok s
      → IsFromSettings s
  unfolding main
  main-IsFromSettings flag c s e = after_storage-IsFromSettings _ _ s e

payment_listed :
    (metrics : Bool) (o : Option BtcpayClient) (route : Route)
    → ((client : BtcpayClient) → o ≡ some client → IsConfigured client)
    → Memᴰ route (routes metrics (has_service o))
    → is_payment route.handler ≡ true
    → (client : BtcpayClient) × (o ≡ some client) × IsConfigured client
unfolding has_service
payment_listed metrics (some client) route sure listed pays = (client, refl, sure client refl)
payment_listed metrics none route sure listed pays =
    let free =
      all-Memᴰ (λ r. not (is_payment r.handler)) route (routes metrics false) (routes-free metrics)
        listed in
    absurd (ground arith)

-- Once main has started the server, there is a route for invoices or for the payment webhook only
-- if a client for BTCPay was made, whose webhook secret, API key and store are not empty.
pub main-IsConfigured :
    (files : Bytes → File) (parent : Bytes → Bytes) (net : Net) (m : Machine) (flag : Option Bytes)
    (c : Config) (s : Started) (route : Route)
    → (main files parent net m flag c).0 ≡ ok s
    → Memᴰ route (routes s.enable_metrics (has_service s.invoices))
    → is_payment route.handler ≡ true
    → (client : BtcpayClient) × (s.invoices ≡ some client) × IsConfigured client
main-IsConfigured files parent net m flag c s route e listed pays =
    let (endpoint, api_key, store_id, webhook_secret, from) =
      main-IsFromSettings files parent net m flag c s e in
    payment_listed s.enable_metrics s.invoices route
      (λ client made.
        invoice_service-IsConfigured endpoint api_key store_id webhook_secret client
          (sym from ∙ made))
      listed pays
