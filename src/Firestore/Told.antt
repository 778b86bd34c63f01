-- ===== src/Firestore/Told.antt =====
-- What a caller that src/services/ratelimit_firestore.go refuses is told.
use mathlib.Core.List.{Memᴰ}
use mathlib.Core.Path.{subst}
use mathlib.Core.List.Memᴰ.{head, tail, cases_cons}
use bincrypt.Prelude.{
  ℕ, ◌+◌, ◌-◌, ◌≤◌, ◌<◌, ◌≡◌, refl, ◌∙◌, ap, ◌⊎◌, inl, inr, false, ◌==◌, ◌||◌, List, [], ◌∷◌,
  Option, some, arith, ltb, leb, length, Bool-cases,
}
use bincrypt.RateLimit.{Decision}
use bincrypt.Firestore.{
  Document, Transaction, commits, fails, unacknowledged, keep_after, oldest_of, valid_timestamps,
  refused, accepted, transact, run_transaction, check_document,
}
use bincrypt.Firestore.Members.{times_of, read-keep}

oldest_of-listed :
    (oldest : ℕ) (ts : List ℕ) → (oldest_of oldest ts ≡ oldest) ⊎ Memᴰ (oldest_of oldest ts) ts
unfolding oldest_of
oldest_of-listed oldest [] = inl refl
oldest_of-listed oldest (t ∷ ts) = elim (Bool-cases (ltb t oldest)) [
  | inl older ↦
      rw older (elim (oldest_of-listed t ts) [
        | inl same ↦ inr (head same)
        | inr listed ↦ inr (tail listed)
      ])
  | inr newer ↦
      rw newer
        (elim (oldest_of-listed oldest ts) [ inl same ↦ inl same | inr listed ↦ inr (tail listed) ])
]

oldest-listed : (t : ℕ) (ts : List ℕ) → Memᴰ (oldest_of t (t ∷ ts)) (t ∷ ts)
oldest-listed t ts = elim (oldest_of-listed t (t ∷ ts)) [
  | inl same ↦ head same
  | inr listed ↦ listed
]

keep_after-listed :
    (t start : ℕ) (ts : List ℕ) → Memᴰ t (keep_after start ts) → Memᴰ t ts × (start < t)
unfolding keep_after
keep_after-listed t start [] m = elim m [ ]
keep_after-listed t start (u ∷ ts) m = elim (Bool-cases (ltb start u)) [
  | inl new ↦ elim (cases_cons (rw new at m)) [
    | inl same ↦ (head same, ground (arith, same, new))
    | inr later ↦ let (listed, after) = keep_after-listed t start ts later in (tail listed, after)
  ]
  | inr old ↦
      let (listed, after) = keep_after-listed t start ts (rw old at m) in (tail listed, after)
]

oldest_of-le : (oldest : ℕ) (ts : List ℕ) → oldest_of oldest ts ≤ oldest
unfolding oldest_of
oldest_of-le oldest [] = omega arith
oldest_of-le oldest (t ∷ ts) = elim (Bool-cases (ltb t oldest)) [
  | inl older ↦
      let rest : oldest_of t ts ≤ t = oldest_of-le t ts in rw older (ground (arith, rest, older))
  | inr newer ↦ rw newer (oldest_of-le oldest ts)
]

oldest-least : (u oldest : ℕ) (ts : List ℕ) → Memᴰ u ts → oldest_of oldest ts ≤ u
unfolding oldest_of
oldest-least u oldest [] m = elim m [ ]
oldest-least u oldest (t ∷ ts) m = elim (Bool-cases (ltb t oldest)) [
  | inl older ↦ elim (cases_cons m) [
    | inl same ↦
        let rest : oldest_of t ts ≤ t = oldest_of-le t ts in rw older (omega (arith, rest, same))
    | inr later ↦ rw older (oldest-least u t ts later)
  ]
  | inr newer ↦ elim (cases_cons m) [
    | inl same ↦
        let rest : oldest_of oldest ts ≤ oldest = oldest_of-le oldest ts in
        let bound : oldest ≤ t = ground (arith, newer) in
        rw newer (omega (arith, rest, same, bound))
    | inr later ↦ rw newer (oldest-least u oldest ts later)
  ]
]

listed-keep_after :
    (t start : ℕ) (ts : List ℕ) → Memᴰ t ts → start < t → Memᴰ t (keep_after start ts)
unfolding keep_after
listed-keep_after t start [] m h = elim m [ ]
listed-keep_after t start (u ∷ ts) m h = elim (Bool-cases (ltb start u)) [
  | inl new ↦ elim (cases_cons m) [
    | inl same ↦ rw new (head same)
    | inr later ↦ rw new (tail (listed-keep_after t start ts later h))
  ]
  | inr old ↦ elim (cases_cons m) [
    | inl same ↦ absurd (ground (arith, same, old, h))
    | inr later ↦ rw old (listed-keep_after t start ts later h)
  ]
]

-- The oldest instant in the window of a document decides when the caller may come back.
abbrev pub IsTold : ℕ → ℕ → ℕ → Option Document → Decision → Type 0
IsTold window now later d answer =
    (t : ℕ) × Memᴰ t (times_of d)
    × ((u : ℕ) → Memᴰ u (times_of d) → now - window < u → t ≤ u)
    × (answer.reset_at ≡ t + window)
    × (now < answer.reset_at)
    × (answer.retry_after ≡ answer.reset_at - later)
    × (answer.remaining ≡ 0)

module _ (stored : ℕ → ℕ) (limit window now later : ℕ) (some_calls : 0 < limit) where
  refused-IsTold :
      (d : Option Document) (valid : List ℕ)
      → keep_after (now - window) (times_of d) ≡ valid
      → limit ≤ length valid
      → IsTold window now later d (refused stored limit window now later valid)
  unfolding refused
  refused-IsTold d [] e h = absurd (omega arith)
  refused-IsTold d (t ∷ ts) e h =
      let oldest = oldest_of t (t ∷ ts) in
      let (listed, after) =
        keep_after-listed oldest (now - window) (times_of d) (rw e (oldest-listed t ts)) in
      (
        oldest,
        listed,
        λ u m new.
            oldest-least u t (t ∷ ts)
              (subst (Memᴰ u) e (listed-keep_after u (now - window) (times_of d) m new)),
        refl,
        omega (arith, after),
        refl,
        refl,
      )

  transact-IsTold :
      (d : Option Document)
      → (transact stored limit window now later d).0.allowed ≡ false
      → IsTold window now later d (transact stored limit window now later d).0
  unfolding transact valid_timestamps accepted
  transact-IsTold d e =
      let valid = keep_after (now - window) (times_of d) in
      elim (Bool-cases (leb limit (length valid))) [
        | inl full ↦
            rw (read-keep (now - window) d, full) (refused-IsTold d valid refl (ground arith))
        | inr room ↦ absurd (ground (arith, rw (read-keep (now - window) d, room) at e))
      ]

-- A caller that is refused for a limit that is not 0 is told to come back when the oldest instant of
-- the document that is still in the window leaves it, which lies ahead, and has no calls remaining.
pub check_document-IsTold :
    (stored : ℕ → ℕ) (limit window now later : ℕ) (t : Transaction) (d : Option Document)
    (answer : Decision)
    → 0 < limit
    → (check_document stored limit window now later t d).0 ≡ some answer
    → answer.allowed ≡ false
    → IsTold window now later d answer
unfolding check_document run_transaction
check_document-IsTold stored limit window now later t d answer h e refusal =
    elim (Bool-cases (limit == 0 || window == 0)) [
      | inl bad ↦ absurd (ground (arith, rw bad at e))
      | inr fine ↦ ran t (rw fine at e)
    ]
  where
    ran :
        (t : Transaction)
        → (run_transaction stored limit window now later t d).0 ≡ some answer
        → IsTold window now later d answer
    ran commits e =
        let same : (transact stored limit window now later d).0 ≡ answer = ground arith in
        subst (IsTold window now later d) same (
          transact-IsTold stored limit window now later h d
            (ap (λ (a : Decision). a.allowed) same ∙ refusal))
    ran fails e = absurd (ground arith)
    ran unacknowledged e = absurd (ground arith)
