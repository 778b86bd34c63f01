-- ===== src/Middleware/Nonce.antt =====
-- CSP, InjectNonceMiddleware and CSPResponseWriter of src/middleware.go, and the pages that
-- servePage of src/server.go and ViewPaste of src/handlers_paste.go write through them.
use bincrypt.Prelude.{
  ℕ, zero, suc, ◌-◌, ◌||◌, [], ◌∷◌, ◌++◌, Option, none, some, Bytes, bytes_eq, codes, if◌then◌else◌,
  is_empty, length,
}
use bincrypt.Text.{has_prefix}
use bincrypt.Base64.{encode}
use bincrypt.Base64.Alphabet.{std_encoding}

-- generateCSPNonce: the 16 bytes that rand.Read gives, `none` for its error.
unfoldable pub generate_csp_nonce : Option Bytes → Option Bytes
generate_csp_nonce none = none
generate_csp_nonce (some entropy) = some (encode std_encoding entropy)

-- The secret FIREBASE_AUTH_DOMAIN is the argument.
unfoldable pub connect_sources : Bytes → Bytes
connect_sources firebase_domain =
    (if is_empty firebase_domain
      then codes "'self' "
      else codes "'self' https://" ++ firebase_domain)
    ++ codes " https://firebasestorage.googleapis.com https://challenges.cloudflare.com"

-- Content-Security-Policy
unfoldable pub policy : Bytes → Bytes → Bytes
unfolding connect_sources
policy nonce firebase_domain =
    codes "default-src 'self'; script-src 'self' 'nonce-"
    ++ nonce
    ++ codes "' https://challenges.cloudflare.com; style-src 'self' 'nonce-"
    ++ nonce
    ++ codes "'; font-src 'self'; img-src 'self' data:; connect-src "
    ++ connect_sources firebase_domain
    ++ codes "; frame-src https://challenges.cloudflare.com; object-src 'none'; base-uri 'self'; "
    ++ codes "form-action 'self'; frame-ancestors 'none'; block-all-mixed-content; "
    ++ codes "upgrade-insecure-requests"

-- What CSP puts into the request's context and into the header; `none` is answered with status 500.
unfoldable pub csp : Option Bytes → Bytes → Option (Bytes × Bytes)
unfolding generate_csp_nonce
csp entropy firebase_domain = elim (generate_csp_nonce entropy) [
  | none ↦ none
  | some nonce ↦ some (nonce, policy nonce firebase_domain)
]

abbrev pub placeholder : Bytes
placeholder = codes "{{CSP_NONCE}}"

-- strings.ReplaceAll of the placeholder, where the first `skip` bytes belong to one that has been
-- replaced.
unfoldable pub replace_from : Bytes → ℕ → Bytes → Bytes
replace_from nonce skip [] = []
replace_from nonce (suc skip) (c ∷ s) = replace_from nonce skip s
replace_from nonce zero (c ∷ s) =
    let replaced = replace_from nonce (length placeholder - 1) s in
    let kept = replace_from nonce zero s in
    if has_prefix (c ∷ s) placeholder then nonce ++ replaced else c ∷ kept

unfoldable pub inject_nonce : Bytes → Bytes → Bytes
unfolding replace_from
inject_nonce html nonce = replace_from nonce zero html

-- CSPResponseWriter.Write: what one call passes on.
unfoldable pub csp_write : Bytes → Bytes → Bytes → Bytes
unfolding inject_nonce
csp_write nonce content_type chunk =
    if bytes_eq content_type (codes "text/html; charset=utf-8")
      || bytes_eq content_type (codes "text/html")
    then inject_nonce chunk nonce
    else chunk

-- InjectNonceMiddleware: without a nonce in the context the writer is not wrapped.
unfoldable pub written : Bytes → Bytes → Bytes → Bytes
unfolding csp_write
written nonce content_type chunk =
    if is_empty nonce then chunk else csp_write nonce content_type chunk

-- A status and a body.
pub record Page : Type 0 where
  pub status : ℕ
  pub body : Bytes

abbrev html_type : Bytes
html_type = codes "text/html; charset=utf-8"

-- servePage, for what the embedded file holds, `none` if there is no such file. http.Error adds a
-- line feed.
unfoldable pub serve_page : Bytes → Option Bytes → Page
serve_page nonce none = record { status = 404; body = codes "Page not found\n" }
serve_page nonce (some content) = record { status = 200; body = written nonce html_type content }

-- ViewPaste, for static/viewer.html.
unfoldable pub view_paste : Bytes → Option Bytes → Page
view_paste nonce none = record { status = 500; body = codes "Viewer page not found\n" }
view_paste nonce (some content) = record { status = 200; body = written nonce html_type content }
