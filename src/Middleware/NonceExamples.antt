-- ===== src/Middleware/NonceExamples.antt =====
-- Nonces of src/middleware.go on small inputs.
use bincrypt.Prelude.{
  ◌+◌, ◌*◌, ◌≡◌, refl, true, List, [], ◌∷◌, ◌++◌, some, Bytes, codes, arith, All, all, length,
  replicate,
}
use bincrypt.Text.{has_prefix, contains}
use bincrypt.Middleware.Nonce.{csp, placeholder, inject_nonce, serve_page, view_paste}
use bincrypt.Middleware.Injection.{between, IsPiece, gaps, written-between}
use bincrypt.Middleware.Policy.{is_nonce_char, nonce_source, csp-nonce}

abbrev entropy : Bytes
entropy = replicate 16 7

csp-nonce_example :
    (nonce : Bytes) × (header : Bytes) × (csp (some entropy) (codes "a.org") ≡ some (nonce, header))
    × (length nonce ≡ 24)
    × (all is_nonce_char nonce ≡ true)
    × (contains header (nonce_source nonce) ≡ true)
csp-nonce_example = csp-nonce entropy (codes "a.org") refl (
  omega arith,
  (
    omega arith,
    (
      omega arith,
      (
        omega arith,
        (
          omega arith,
          (
            omega arith,
            (
              omega arith,
              (
                omega arith,
                (
                  omega arith,
                  (
                    omega arith,
                    (
                      omega arith,
                      (omega arith, (omega arith, (omega arith, (omega arith, (omega arith, tt))))),
                    ),
                  ),
                ),
              ),
            ),
          ),
        ),
      ),
    ),
  ),
)

abbrev pieces : List Bytes
pieces = codes "<style nonce=\"" ∷ codes "\">{{x}}" ∷ codes "{" ∷ []

pieces-IsPiece : All IsPiece pieces
unfolding contains has_prefix
pieces-IsPiece = (refl, (refl, (refl, tt)))

written-between_example :
    let page = between placeholder pieces in
    let nonce = codes "abc" in
    (serve_page nonce (some page) ≡ record { status = 200; body = between nonce pieces })
    × (view_paste nonce (some page) ≡ record { status = 200; body = between nonce pieces })
    × (length (between nonce pieces) + gaps pieces * length placeholder
        ≡ length page + gaps pieces * length nonce)
written-between_example = written-between (codes "abc") pieces pieces-IsPiece refl

-- A placeholder that two calls of Write share stays.
shared_stays :
    inject_nonce (codes "{{CSP_") (codes "abc") ++ inject_nonce (codes "NONCE}}") (codes "abc")
    ≡ placeholder
unfolding inject_nonce has_prefix
shared_stays = refl
