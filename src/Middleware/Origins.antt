-- ===== src/Middleware/Origins.antt =====
-- Which origins CORS of src/middleware.go admits.
use mathlib.Core.List.{Memᴰ}
use mathlib.Core.List.Memᴰ.{head, tail}
use bincrypt.Prelude.{
  ◌≡◌, refl, ◌↔◌, ◌⊎◌, Bool, true, false, ◌||◌, List, [], ◌∷◌, some, Bytes, bytes_eq, bytes_eq_iff,
  codes, arith, is_empty, Bool-cases, inl, inr,
}
use bincrypt.Text.{trim_space, split}
use bincrypt.Middleware.Cors.{match_origin, cors}

-- An entry of the list is the origin or "*".
abbrev pub IsListed : Bytes → List Bytes → Type 0
IsListed origin entries =
    (entry : Bytes) × Memᴰ entry entries
    × ((origin ≡ trim_space entry) ⊎ (trim_space entry ≡ codes "*"))

is_match : Bytes → Bytes → Bool
is_match origin entry =
    bytes_eq origin (trim_space entry) || bytes_eq (trim_space entry) (codes "*")

match_sound :
    (origin entry : Bytes)
    → is_match origin entry ≡ true
    → (origin ≡ trim_space entry) ⊎ (trim_space entry ≡ codes "*")
unfolding is_match
match_sound origin entry h = elim (Bool-cases (bytes_eq origin (trim_space entry))) [
  | inl same ↦ inl ((bytes_eq_iff origin (trim_space entry)).0 same)
  | inr other ↦ inr ((bytes_eq_iff (trim_space entry) (codes "*")).0 (ground arith))
]

match_complete :
    (origin entry : Bytes)
    → (origin ≡ trim_space entry) ⊎ (trim_space entry ≡ codes "*")
    → is_match origin entry ≡ true
unfolding is_match
match_complete origin entry (inl same) =
    ground (arith, (bytes_eq_iff origin (trim_space entry)).1 same)
match_complete origin entry (inr star) =
    ground (arith, (bytes_eq_iff (trim_space entry) (codes "*")).1 star)

match_origin-IsListed :
    (origin : Bytes) (entries : List Bytes)
    → match_origin origin entries ≡ some origin
    → IsListed origin entries
unfolding match_origin is_match
match_origin-IsListed origin [] h = cc
match_origin-IsListed origin (entry ∷ entries) h = elim (Bool-cases (is_match origin entry)) [
  | inl hit ↦ (entry, head refl, match_sound origin entry hit)
  | inr miss ↦
      let (found, listed, how) = match_origin-IsListed origin entries (ground arith) in
      (found, tail listed, how)
]

IsListed-match_origin :
    (origin : Bytes) (entries : List Bytes) (entry : Bytes)
    → Memᴰ entry entries
    → is_match origin entry ≡ true
    → match_origin origin entries ≡ some origin
unfolding match_origin is_match
IsListed-match_origin origin [] entry m h = elim m [ ]
IsListed-match_origin origin (first ∷ entries) entry (head same) h =
    let k : is_match origin first ≡ true = rw (← same) h in ground arith
IsListed-match_origin origin (first ∷ entries) entry (tail m) h =
    let k = IsListed-match_origin origin entries entry m h in ground arith

-- With origins configured, CORS sends the request's origin back as allowed exactly if an entry of
-- the list, spaces at its ends aside, is that origin or "*".
pub cors-allow_origin_iff :
    (allowed_origins origin method : Bytes)
    → is_empty allowed_origins ≡ false
    → ((cors allowed_origins origin method).allow_origin ≡ some origin)
      ↔ IsListed origin (split b',' allowed_origins)
unfolding cors
cors-allow_origin_iff allowed_origins origin method set = (
  λ h. match_origin-IsListed origin (split b',' allowed_origins) (ground arith),
  λ h.
      let k =
        IsListed-match_origin origin (split b',' allowed_origins) h.0 h.1
          (match_complete origin h.0 h.2) in
      ground arith,
)
