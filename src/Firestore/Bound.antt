-- ===== src/Firestore/Bound.antt =====
-- How many calls the sliding window of src/services/ratelimit_firestore.go lets through.
use bincrypt.Prelude.{
  ℕ, ◌-◌, ◌≤◌, ◌<◌, ◌≡◌, refl, Bool, true, false, ◌==◌, ◌||◌, List, [], ◌∷◌, Option, none, some,
  All, All-append, arith, leb, length, length-append, if◌then◌else◌, Bool-cases, inl, inr,
}
use bincrypt.Redis.Members.{count_above}
use bincrypt.Redis.Calls.{is_allowed}
use bincrypt.Firestore.{
  Document, Transaction, commits, fails, unacknowledged, keep_after, valid_timestamps, refused,
  accepted, Call, transact, set_to, run_transaction, check_document,
}
use bincrypt.Firestore.Members.{
  count_above-le-length, count_above-append, count_above-keep_after, times_of, read-keep, IsKept,
  keep_after-IsKept, IsKept-le, instants-map,
}

-- The clock does not run back and stays within `end`.
abbrev pub IsRun : ℕ → ℕ → List Call → Type 0
IsRun last end [] = last ≤ end
IsRun last end (c ∷ cs) = (last ≤ c.now) × IsRun c.now end cs

module _ (stored : ℕ → ℕ) (limit window : ℕ) where
  -- The calls that were let through, as they are stored, after `before`.
  unfoldable pub admitted : List Call → Option Document → List ℕ → List ℕ
  admitted [] d before = before
  admitted (c ∷ cs) d before =
      let (answer, d') = check_document stored limit window c.now c.later c.transaction d in
      admitted cs d' (if is_allowed answer then stored c.now ∷ before else before)

module _ (stored : ℕ → ℕ) (cuts : (t : ℕ) → stored t ≤ t)
    (again : (t : ℕ) → stored (stored t) ≡ stored t) (limit window : ℕ) where
  -- After calls until `last`, of which those that were let through are stored as `admitted`.
  pub record Covers (last : ℕ) (admitted : List ℕ) (d : Option Document) : Type 0 where
    pub small : length (times_of d) ≤ limit
    pub kept : All (IsKept stored last) (times_of d)
    pub counted : (x : ℕ) → last - window ≤ x → count_above x admitted ≤ count_above x (times_of d)

  Covers-le :
      (last now : ℕ) (admitted : List ℕ) (d : Option Document)
      → last ≤ now
      → Covers last admitted d
      → Covers now admitted d
  Covers-le last now admitted d h c = record {
    small = c.small;
    kept = IsKept-le stored last now (times_of d) h c.kept;
    counted = λ x k. c.counted x (omega arith);
  }

  abbrev valid : ℕ → Option Document → List ℕ
  valid now d = keep_after (now - window) (times_of d)

  valid-eq :
      (now later : ℕ) (d : Option Document)
      → valid_timestamps stored limit window now later d ≡ valid now d
  unfolding valid_timestamps
  valid-eq now later d = read-keep (now - window) d

  -- A call that fits.
  Covers-accepted :
      (last now later : ℕ) (admitted : List ℕ) (d : Option Document)
      → last ≤ now
      → length (valid now d) < limit
      → Covers last admitted d
      → Covers now
          (stored now ∷ admitted)
          (some (accepted stored limit window now later (valid now d)).1)
  unfolding accepted
  Covers-accepted last now later admitted d h room c =
      let c' = Covers-le last now admitted d h c in
      let kept = keep_after-IsKept stored now (now - window) (times_of d) c'.kept in
      let times = instants-map stored now (valid now d) (now ∷ []) kept in
      record {
        small = rw times (omega (arith, length-append (valid now d) (stored now ∷ [])));
        kept = rw times (
            All-append (IsKept stored now) (valid now d) (stored now ∷ []) kept
              ((again now, cuts now), tt));
        counted = λ x k. rw times (
            omega (
              arith,
              c'.counted x k,
              count_above-append x (valid now d) (stored now ∷ []),
              count_above-keep_after x (now - window) (times_of d) k,
            ));
      }

  Covers-drop :
      (last t : ℕ) (admitted : List ℕ) (d : Option Document)
      → Covers last (t ∷ admitted) d
      → Covers last admitted d
  Covers-drop last t admitted d c = record {
    small = c.small;
    kept = c.kept;
    counted = λ x k. omega (arith, c.counted x k);
  }

  abbrev with_call : Bool → ℕ → List ℕ → List ℕ
  with_call allowed now before = if allowed then stored now ∷ before else before

  refused-allowed :
      (now later : ℕ) (ts : List ℕ) → (refused stored limit window now later ts).allowed ≡ false
  unfolding refused
  refused-allowed now later [] = refl
  refused-allowed now later (t ∷ ts) = refl

  transact-Covers :
      (last now later : ℕ) (before : List ℕ) (d : Option Document)
      → last ≤ now
      → Covers last before d
      → let out = transact stored limit window now later d in
        Covers now (with_call out.0.allowed now before) (set_to out.1 d)
  unfolding transact accepted
  transact-Covers last now later before d h c =
      rw (valid-eq now later d) (elim (Bool-cases (leb limit (length (valid now d)))) [
        | inl full ↦
            rw (full, refused-allowed now later (valid now d)) (Covers-le last now before d h c)
        | inr room ↦ rw room (Covers-accepted last now later before d h (ground arith) c)
      ])

  run-Covers :
      (t : Transaction) (last now later : ℕ) (before : List ℕ) (d : Option Document)
      → last ≤ now
      → Covers last before d
      → let out = run_transaction stored limit window now later t d in
        Covers now (with_call (is_allowed out.0) now before) out.1
  unfolding run_transaction
  run-Covers commits last now later before d h c = transact-Covers last now later before d h c
  run-Covers fails last now later before d h c = Covers-le last now before d h c
  run-Covers unacknowledged last now later before d h c =
      let out = transact stored limit window now later d in
      undo out.0.allowed out.1 (transact-Covers last now later before d h c)
    where
      undo :
          (allowed : Bool) (new : Option Document)
          → Covers now (with_call allowed now before) (set_to new d)
          → Covers now before (set_to new d)
      undo true new k = Covers-drop now (stored now) before _ k
      undo false new k = k

  check-Covers :
      (t : Transaction) (last now later : ℕ) (before : List ℕ) (d : Option Document)
      → last ≤ now
      → Covers last before d
      → let out = check_document stored limit window now later t d in
        Covers now (with_call (is_allowed out.0) now before) out.1
  unfolding check_document
  check-Covers t last now later before d h c = elim (Bool-cases (limit == 0 || window == 0)) [
    | inl bad ↦ rw bad (Covers-le last now before d h c)
    | inr fine ↦ rw fine (run-Covers t last now later before d h c)
  ]

  admitted-Covers :
      (cs : List Call) (last end : ℕ) (before : List ℕ) (d : Option Document)
      → Covers last before d
      → IsRun last end cs
      → count_above (end - window) (admitted stored limit window cs d before) ≤ limit
  unfolding admitted
  admitted-Covers [] last end before d c h = omega (
    arith,
    c.counted (end - window) (omega arith),
    count_above-le-length (end - window) (times_of d),
    c.small,
  )
  admitted-Covers (call ∷ cs) last end before d c (h, rest) =
      admitted-Covers cs call.now end _ _
        (check-Covers call.transaction last call.now call.later before d h c) rest

-- If the document of a key is absent at first, no more than `limit` of the calls that a run lets
-- through are stored with instants in the window that ends where the run does, whichever
-- transactions fail and whichever answers are lost; if the callers' clocks, in the order of the
-- transactions, do not run back, and Firestore cuts instants, each the same when it is stored again.
pub firestore_admitted-le :
    (stored : ℕ → ℕ) (limit window start end : ℕ) (cs : List Call)
    → (cuts : (t : ℕ) → stored t ≤ t) → (again : (t : ℕ) → stored (stored t) ≡ stored t)
    → IsRun start end cs
    → count_above (end - window) (admitted stored limit window cs none []) ≤ limit
firestore_admitted-le stored limit window start end cs cuts again run =
    admitted-Covers stored cuts again limit window cs start end [] none
      (record { small = omega arith; kept = tt; counted = λ x h. omega arith }) run
