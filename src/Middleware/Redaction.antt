-- ===== src/Middleware/Redaction.antt =====
-- What sanitizeQuery and sanitizePathForLogs of src/middleware.go leave in a log line.
use mathlib.Core.List.{map}
use bincrypt.Prelude.{
  ℕ, ◌≡◌, refl, Bool, true, false, not, ◌==◌, List, [], ◌∷◌, ◌++◌, Option, none, some, Bytes, codes,
  arith, all, All, is_empty, Bool-cases, inl, inr, if◌then◌else◌,
}
use bincrypt.Text.Split.{lacks, lacks-append, split-whole, split-join}
use bincrypt.Text.{has_prefix, cons_first, split, join, cut}
use bincrypt.Base64.Identifier.{is_id_char, matches_id}
use bincrypt.Validation.{validate_paste_id}
use bincrypt.Validation.Bounds.{sanitize_string-id}
use bincrypt.Middleware.Redact.{redacted, is_sensitive, redact_part, sanitize_query, sanitize_path}

abbrev is_some_part : List Bytes → Bool
is_some_part parts = not (is_empty parts)

cons_first-lacks :
    (sep c : ℕ) (parts : List Bytes)
    → (c == sep) ≡ false
    → All (λ (part : Bytes). lacks sep part ≡ true) parts
    → (is_some_part (cons_first c parts) ≡ true)
      × All (λ (part : Bytes). lacks sep part ≡ true) (cons_first c parts)
unfolding cons_first
cons_first-lacks sep c [] other h = (refl, (ground arith, tt))
cons_first-lacks sep c (part ∷ parts) other (h, k) = (refl, (ground arith, k))

split-parts :
    (sep : ℕ) (s : Bytes)
    → (is_some_part (split sep s) ≡ true)
      × All (λ (part : Bytes). lacks sep part ≡ true) (split sep s)
unfolding split
split-parts sep [] = (refl, (refl, tt))
split-parts sep (c ∷ s) = elim (Bool-cases (c == sep)) [
  | inl same ↦ rw same (refl, (refl, (split-parts sep s).1))
  | inr other ↦ rw other (cons_first-lacks sep c (split sep s) other (split-parts sep s).1)
]

abbrev after_lacks : ℕ → Option Bytes → Bool
after_lacks sep none = true
after_lacks sep (some s) = lacks sep s

cut-lacks :
    (sep c : ℕ) (s : Bytes)
    → lacks sep s ≡ true
    → (lacks sep (cut c s).0 ≡ true) × (after_lacks sep (cut c s).1 ≡ true)
unfolding cut
cut-lacks sep c [] h = (refl, refl)
cut-lacks sep c (d ∷ s) h = (ground (arith, cut-lacks sep c s), ground (arith, cut-lacks sep c s))

cut-key : (c : ℕ) (s : Bytes) → lacks c (cut c s).0 ≡ true
unfolding cut
cut-key c [] = refl
cut-key c (d ∷ s) = ground (arith, cut-key c s)

cut-pair :
    (c : ℕ) (key value : Bytes) → lacks c key ≡ true → cut c (key ++ c ∷ value) ≡ (key, some value)
unfolding cut
cut-pair c [] value h = ground arith
cut-pair c (d ∷ key) value h = ground (arith, cut-pair c key value)

-- If the part is a pair with a sensitive key, its value is the placeholder.
abbrev pub IsRedacted : Bytes → Type 0
IsRedacted part =
    (key value : Bytes)
    → cut b'=' part ≡ (key, some value)
    → is_sensitive key ≡ true
    → value ≡ redacted

redact_part-IsRedacted : (part : Bytes) → IsRedacted (redact_part part)
unfolding redact_part
redact_part-IsRedacted part key value e h = of (cut b'=' part) refl
  where
    of : (c : Bytes × Option Bytes) → cut b'=' part ≡ c → value ≡ redacted
    of (k, none) same = ground arith
    of (k, some v) same =
        ground (arith, cut-pair b'=' k (if is_sensitive k then redacted else v), cut-key b'=' part)

redact_part-lacks : (part : Bytes) → lacks b'&' part ≡ true → lacks b'&' (redact_part part) ≡ true
unfolding redact_part
redact_part-lacks part h = of (cut b'=' part) refl
  where
    of : (c : Bytes × Option Bytes) → cut b'=' part ≡ c → lacks b'&' (redact_part part) ≡ true
    of (k, none) same = ground arith
    of (k, some v) same = ground (
      arith,
      cut-lacks b'&' b'=' part h,
      lacks-append b'&' k (b'=' ∷ (if is_sensitive k then redacted else v)),
    )

map-lacks :
    (parts : List Bytes)
    → All (λ (part : Bytes). lacks b'&' part ≡ true) parts
    → All (λ (part : Bytes). lacks b'&' part ≡ true) (map redact_part parts)
map-lacks [] h = tt
map-lacks (part ∷ parts) (h, k) = (redact_part-lacks part h, map-lacks parts k)

map-IsRedacted : (parts : List Bytes) → All IsRedacted (map redact_part parts)
map-IsRedacted [] = tt
map-IsRedacted (part ∷ parts) = (redact_part-IsRedacted part, map-IsRedacted parts)

split-join-map :
    (parts : List Bytes)
    → is_some_part parts ≡ true
    → All (λ (part : Bytes). lacks b'&' part ≡ true) parts
    → split b'&' (join b'&' (map redact_part parts)) ≡ map redact_part parts
split-join-map [] h k = cc
split-join-map (part ∷ parts) h k =
    split-join b'&' (redact_part part) (map redact_part parts) (map-lacks (part ∷ parts) k)

empty_part : split b'&' [] ≡ map redact_part (split b'&' [])
unfolding split redact_part cut
empty_part = refl

sanitized_parts :
    (query : Bytes) → split b'&' (sanitize_query query) ≡ map redact_part (split b'&' query)
unfolding sanitize_query
sanitized_parts [] = empty_part
sanitized_parts (c ∷ query) =
    let (some_part, plain) = split-parts b'&' (c ∷ query) in
    split-join-map (split b'&' (c ∷ query)) some_part plain

-- Each part of what sanitizeQuery logs, split at `&`, is redacted: if it is a pair whose key has one
-- of the sensitive words, in any case, then its value is the placeholder; and these parts are
-- those of the query, in order, each put through redact_part.
pub sanitize_query-IsRedacted :
    (query : Bytes)
    → All IsRedacted (split b'&' (sanitize_query query))
      × (split b'&' (sanitize_query query) ≡ map redact_part (split b'&' query))
sanitize_query-IsRedacted query =
    (rw (sanitized_parts query) (map-IsRedacted (split b'&' query)), sanitized_parts query)

id_lacks : (id : Bytes) → all is_id_char id ≡ true → lacks b'/' id ≡ true
unfolding is_id_char
id_lacks [] h = refl
id_lacks (c ∷ id) h = ground (arith, id_lacks id)

id_valid :
    (id : Bytes) → matches_id id ≡ true → (validate_paste_id id ≡ none) × (all is_id_char id ≡ true)
unfolding matches_id
id_valid id h = ((sanitize_string-id id h).1, ground arith)

-- For every identifier, sanitizePathForLogs turns the path of either route that has one into the
-- route with a placeholder.
pub sanitize_path-redacts :
    (id : Bytes)
    → matches_id id ≡ true
    → (sanitize_path (codes "/p/" ++ id) ≡ codes "/p/{paste_id}")
      × (sanitize_path (codes "/api/paste/" ++ id) ≡ codes "/api/paste/{paste_id}")
unfolding sanitize_path has_prefix split
sanitize_path-redacts id h =
    let (valid, plain) = id_valid id h in
    let whole = split-whole b'/' id (id_lacks id plain) in (ground arith, ground arith)
