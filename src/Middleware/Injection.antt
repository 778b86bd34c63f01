-- ===== src/Middleware/Injection.antt =====
-- What a page becomes on its way through CSPResponseWriter of src/middleware.go.
use bincrypt.Prelude.{
  ℕ, ◌==◌, ◌&&◌, ◌+◌, ◌*◌, ◌≤◌, ◌≡◌, refl, ◌∙◌, ap, Bool, false, List, [], ◌∷◌, ◌++◌, some, Bytes,
  bytes_eq, codes, arith, length, length-append, All, is_empty,
}
use bincrypt.Text.{has_prefix, contains}
use bincrypt.Middleware.Nonce.{
  placeholder, replace_from, inject_nonce, csp_write, written, serve_page, view_paste,
}

-- The pieces of a page, with a text between them.
abbrev pub between : Bytes → List Bytes → Bytes
between text [] = []
between text (piece ∷ []) = piece
between text (piece ∷ next ∷ pieces) = piece ++ text ++ between text (next ∷ pieces)

-- All of the placeholder but its last byte.
abbrev open_placeholder : Bytes
open_placeholder = codes "{{CSP_NONCE}"

-- No placeholder begins in the piece, even if one follows it.
abbrev pub IsPiece : Bytes → Type 0
IsPiece piece = contains (piece ++ open_placeholder) placeholder ≡ false

has_prefix-append :
    (s t needle : Bytes)
    → length needle ≤ length s
    → has_prefix (s ++ t) needle ≡ has_prefix s needle
unfolding has_prefix
has_prefix-append s t [] h = ground arith
has_prefix-append [] t (n ∷ needle) h = absurd (ground arith)
has_prefix-append (c ∷ s) t (n ∷ needle) h =
    ap (λ (b : Bool). c == n && b) (has_prefix-append s t needle (omega arith))

has_prefix-more :
    (s t needle : Bytes) → has_prefix (s ++ t) needle ≡ false → has_prefix s needle ≡ false
unfolding has_prefix
has_prefix-more s t [] h = ground arith
has_prefix-more [] t (n ∷ needle) h = refl
has_prefix-more (c ∷ s) t (n ∷ needle) h = ground (arith, has_prefix-more s t needle)

IsPiece-cons :
    (c : ℕ) (p : Bytes)
    → IsPiece (c ∷ p)
    → (has_prefix (c ∷ p ++ open_placeholder) placeholder ≡ false) × IsPiece p
unfolding contains
IsPiece-cons c p h = (ground arith, ground arith)

split_placeholder :
    (p rest : Bytes) → p ++ placeholder ++ rest ≡ (p ++ open_placeholder) ++ b'}' ∷ rest
split_placeholder [] rest = refl
split_placeholder (c ∷ p) rest = ap (λ (s : Bytes). c ∷ s) (split_placeholder p rest)

no_placeholder :
    (c : ℕ) (p rest : Bytes)
    → IsPiece (c ∷ p)
    → has_prefix (c ∷ p ++ placeholder ++ rest) placeholder ≡ false
no_placeholder c p rest h = rw (split_placeholder (c ∷ p) rest) (
    has_prefix-append (c ∷ p ++ open_placeholder) (b'}' ∷ rest) placeholder
      (omega (arith, length-append p open_placeholder))
    ∙ (IsPiece-cons c p h).0)

replace-next :
    (nonce : Bytes) (c : ℕ) (s : Bytes)
    → has_prefix (c ∷ s) placeholder ≡ false
    → replace_from nonce 0 (c ∷ s) ≡ c ∷ replace_from nonce 0 s
unfolding replace_from
replace-next nonce c s h = ground arith

replace-placeholder :
    (nonce rest : Bytes)
    → replace_from nonce 0 (placeholder ++ rest) ≡ nonce ++ replace_from nonce 0 rest
unfolding replace_from has_prefix
replace-placeholder nonce rest = refl

replace-piece :
    (nonce p rest : Bytes)
    → IsPiece p
    → replace_from nonce 0 (p ++ placeholder ++ rest) ≡ p ++ nonce ++ replace_from nonce 0 rest
replace-piece nonce [] rest h = replace-placeholder nonce rest
replace-piece nonce (c ∷ p) rest h =
    replace-next nonce c (p ++ placeholder ++ rest) (no_placeholder c p rest h)
    ∙ ap (λ (s : Bytes). c ∷ s) (replace-piece nonce p rest (IsPiece-cons c p h).1)

replace-last : (nonce p : Bytes) → IsPiece p → replace_from nonce 0 p ≡ p
unfolding replace_from
replace-last nonce [] h = refl
replace-last nonce (c ∷ p) h =
    let (other, rest) = IsPiece-cons c p h in
    replace-next nonce c p (has_prefix-more (c ∷ p) open_placeholder placeholder other)
    ∙ ap (λ (s : Bytes). c ∷ s) (replace-last nonce p rest)

replace-between :
    (nonce : Bytes) (pieces : List Bytes)
    → All IsPiece pieces
    → replace_from nonce 0 (between placeholder pieces) ≡ between nonce pieces
unfolding replace_from
replace-between nonce [] h = refl
replace-between nonce (p ∷ []) (h, _) = replace-last nonce p h
replace-between nonce (p ∷ next ∷ pieces) (h, k) =
    replace-piece nonce p (between placeholder (next ∷ pieces)) h
    ∙ ap (λ (s : Bytes). p ++ nonce ++ s) (replace-between nonce (next ∷ pieces) k)

-- How many placeholders stand between the pieces.
abbrev pub gaps : List Bytes → ℕ
gaps [] = 0
gaps (piece ∷ []) = 0
gaps (piece ∷ next ∷ pieces) = 1 + gaps (next ∷ pieces)

abbrev total : List Bytes → ℕ
total [] = 0
total (piece ∷ pieces) = length piece + total pieces

length-between :
    (text : Bytes) (pieces : List Bytes)
    → length (between text pieces) ≡ total pieces + gaps pieces * length text
length-between text [] = omega arith
length-between text (p ∷ []) = omega arith
length-between text (p ∷ next ∷ pieces) =
    let rest = between text (next ∷ pieces) in
    omega (
      arith,
      length-append (p ++ text) rest,
      length-append p text,
      length-between text (next ∷ pieces),
    )

-- A page written in one call, as servePage and ViewPaste do, gets the nonce of the request, if that
-- is not empty, in the place of each placeholder, and is otherwise unchanged; its length changes by
-- the difference between the nonce's and the placeholder's for each of them. The page is given by
-- the pieces between its placeholders, in none of which a placeholder begins.
pub written-between :
    (nonce : Bytes) (pieces : List Bytes)
    → All IsPiece pieces
    → is_empty nonce ≡ false
    → let page = between placeholder pieces in
      (serve_page nonce (some page) ≡ record { status = 200; body = between nonce pieces })
      × (view_paste nonce (some page) ≡ record { status = 200; body = between nonce pieces })
      × (length (between nonce pieces) + gaps pieces * length placeholder
          ≡ length page + gaps pieces * length nonce)
unfolding serve_page view_paste written csp_write inject_nonce bytes_eq
written-between nonce pieces h some_nonce = (
  rw (some_nonce, replace-between nonce pieces h) refl,
  rw (some_nonce, replace-between nonce pieces h) refl,
  omega (arith, length-between nonce pieces, length-between placeholder pieces),
)
