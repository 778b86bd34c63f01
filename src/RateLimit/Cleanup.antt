-- ===== src/RateLimit/Cleanup.antt =====
-- Removing idle buckets changes no later decision.
use bincrypt.Prelude.{
  ℕ, ◌-◌, ◌≤◌, ◌<◌, ◌≡◌, refl, ◌∙◌, ap, Bool, true, false, ◌||◌, List, [], ◌∷◌, Option, none, some,
  Bytes, arith, Bool-cases, Option-cases, inl, inr, bytes_eq, bytes_eq_iff, find_by, remove_by,
  find_by-remove_by, if◌then◌else◌, ltb,
}
use bincrypt.RateLimit.{
  Floats, tokens_to_add, Entry, entry_key, bucket_for, check_rate_limit, expired_keys, delete_keys,
  cleanup, two_hours,
}
use bincrypt.RateLimit.Bound.{check_rate_limit-decision}

-- The map has one entry for a key.
abbrev pub IsUnique : List Entry → Type 0
IsUnique [] = Unit
IsUnique (e ∷ es) = (find_by entry_key e.key es ≡ none) × IsUnique es

-- Not accessed for more than two hours.
abbrev pub is_stale : ℕ → Entry → Bool
is_stale now e = ltb two_hours (now - e.bucket.last_accessed)

abbrev found_stale : ℕ → Option Entry → Bool
found_stale now none = false
found_stale now (some e) = is_stale now e

abbrev has_key : Bytes → List Bytes → Bool
has_key k [] = false
has_key k (x ∷ xs) = bytes_eq x k || has_key k xs

delete_keys-find :
    (k : Bytes) (ks : List Bytes) (es : List Entry)
    → find_by entry_key k (delete_keys ks es)
      ≡ (if has_key k ks then none else find_by entry_key k es)
unfolding delete_keys
delete_keys-find k [] es = refl
delete_keys-find k (x ∷ ks) es =
    ground
      (arith, delete_keys-find k ks (remove_by entry_key x es), find_by-remove_by entry_key k x es)

expired_keys-has_key :
    (now : ℕ) (k : Bytes) (es : List Entry)
    → IsUnique es
    → has_key k (expired_keys now es) ≡ found_stale now (find_by entry_key k es)
unfolding expired_keys find_by
expired_keys-has_key now k [] u = refl
expired_keys-has_key now k (e ∷ es) (fresh, u) = elim (Bool-cases (bytes_eq e.key k)) [
  | inl same ↦
      let named : e.key ≡ k = (bytes_eq_iff e.key k).0 same in
      let gone : has_key k (expired_keys now es) ≡ false =
        expired_keys-has_key now k es u ∙ ap (found_stale now) (rw named at fresh) in
      ground arith
  | inr other ↦ ground (arith, expired_keys-has_key now k es u)
]

-- cleanup drops the stale entries and no other.
cleanup-find :
    (now : ℕ) (k : Bytes) (es : List Entry)
    → IsUnique es
    → find_by entry_key k (cleanup now es)
      ≡ (if found_stale now (find_by entry_key k es) then none else find_by entry_key k es)
unfolding cleanup
cleanup-find now k es u =
    rw (← expired_keys-has_key now k es u) (delete_keys-find k (expired_keys now es) es)

-- A whole window fills a bucket, also in floats.
abbrev pub FillsUp : Floats → ℕ → ℕ → Type 0
FillsUp f limit window = (e : ℕ) → window ≤ e → limit ≤ tokens_to_add f e limit window

stale-bucket :
    (f : Floats) (limit window now later : ℕ) (e : Entry)
    → FillsUp f limit window
    → 0 < limit
    → window ≤ two_hours
    → now ≤ later
    → e.bucket.last_refill ≤ e.bucket.last_accessed
    → is_stale now e ≡ true
    → bucket_for f limit window later (some e) ≡ bucket_for f limit window later none
unfolding bucket_for
stale-bucket f limit window now later e full pos short order past stale =
    ground (arith, full (later - e.bucket.last_refill))

-- In a map with one entry for a key, for an entry that was refilled no later than accessed, a limit above 0 and a window of at most
-- two hours, in which a full window fills the bucket: whether or not cleanup ran before, a later
-- call of CheckRateLimit for the key gives the same answer.
pub check_rate_limit-cleanup :
    (f : Floats) (limit window now later : ℕ) (key : Bytes) (es : List Entry)
    → IsUnique es
    → FillsUp f limit window
    → 0 < limit
    → window ≤ two_hours
    → now ≤ later
    → ((e : Entry)
        → find_by entry_key key es ≡ some e
        → e.bucket.last_refill ≤ e.bucket.last_accessed)
    → (check_rate_limit f limit window later key (cleanup now es)).0
      ≡ (check_rate_limit f limit window later key es).0
check_rate_limit-cleanup f limit window now later key es u full pos short order past =
    rw
      (
        check_rate_limit-decision f limit window later key (cleanup now es),
        check_rate_limit-decision f limit window later key es,
        cleanup-find now key es u,
      )
      (elim (Option-cases (find_by entry_key key es)) [
        | inl missing ↦ rw missing refl
        | inr (e, found) ↦ elim (Bool-cases (is_stale now e)) [
          | inl stale ↦
              rw
                (
                  found,
                  stale,
                  stale-bucket f limit window now later e full pos short order (past e found) stale,
                )
                refl
          | inr used ↦ rw (found, used) refl
        ]
      ])
