-- ===== src/Redis/Bound.antt =====
-- How many calls the sliding window of src/services/ratelimit_redis.go lets through.
use bincrypt.Prelude.{
  ℕ, Bool, true, false, leb, ◌-◌, ◌*◌, ◌≤◌, ◌<◌, ◌≡◌, ◌&&◌, List, [], ◌∷◌, ◌++◌, none, Bytes, arith,
  if◌then◌else◌, Bool-cases, inl, inr, bytes_eq, bytes_eq_iff,
}
use mathlib.Core.Path.{subst, sym}
use bincrypt.Storage.{second}
use bincrypt.Redis.{Key, find_set, Delivery, Run, ran, members_of}
use bincrypt.Redis.Check.{check_set, Call, check_rate_limit}
use bincrypt.Redis.Members.{above-le-length, count_above}
use bincrypt.Redis.Window.{Covers}
use bincrypt.Redis.Calls.{is_allowed, find_set-put, set-Covers, Covered}

module _ (to_double : ℕ → ℕ) (rises : (a b : ℕ) → a ≤ b → to_double a ≤ to_double b)
    (limit seconds : ℕ) (some_time : 0 < seconds) (some_calls : 0 < limit) where
  abbrev width : ℕ
  width = seconds * second

  module _ (prefix key : Bytes) where
    abbrev name : Bytes
    name = prefix ++ key

    -- The scores of the calls for the key that were let through, after `before`.
    unfoldable pub admitted : List Call → List Key → List ℕ → List ℕ
    admitted [] db before = before
    admitted (c ∷ cs) db before =
        let (d, db') = check_rate_limit to_double prefix c db in
        admitted cs db' (
          if bytes_eq (prefix ++ c.key) name && is_allowed d
          then to_double c.now ∷ before
          else before)

    -- The clocks agree and do not run back; the script answers, or fails; and the calls for the key
    -- have one limit and window, and each a later time, as a double, than the one before for the key.
    abbrev pub IsRun : ℕ → ℕ → ℕ → List Call → Type 0
    IsRun own last end [] = last ≤ end
    IsRun own last end (c ∷ cs) =
        (last ≤ c.now)
        × (c.clock ≡ c.now)
        × ((d : Delivery) × (c.run ≡ ran d))
        × (prefix ++ c.key ≡ name
            → (c.limit ≡ limit) × (c.window ≡ width) × (to_double own < to_double c.now))
        × IsRun (if bytes_eq (prefix ++ c.key) name then c.now else own) c.now end cs

    own-le : (own now : ℕ) (b : Bool) → own ≤ now → (if b then now else own) ≤ now
    own-le own now true h = omega arith
    own-le own now false h = h

    le-of_lt : (a b : ℕ) → to_double a < to_double b → a ≤ b
    le-of_lt a b h = elim (Bool-cases (leb a b)) [
      | inl le ↦ ground arith
      | inr gt ↦
          let back : to_double b ≤ to_double a = rises b a (ground arith) in
          absurd (omega (arith, back, h))
    ]

    -- What a call for the key does to its set.
    abbrev Steps :
        List Key → ℕ → List ℕ → ℕ → Delivery → Delivery → Bytes → ℕ → ℕ → ℕ → Run → Type 0
    Steps db now before later pipe removal n l win clock run =
        let out = check_set to_double l win now clock later run pipe removal (find_set n db) in
        Covered to_double rises limit seconds some_time some_calls now
          (if is_allowed out.0 then to_double now ∷ before else before) out.1

    step :
        (k : Bytes) (l win now clock later : ℕ) (run : Run) (pipe removal d : Delivery) (last : ℕ)
        (before : List ℕ) (db : List Key)
        → Covered to_double rises limit seconds some_time some_calls last before (find_set name db)
        → clock ≡ now
        → run ≡ ran d
        → (prefix ++ k ≡ name → (l ≡ limit) × (win ≡ width) × (to_double last < to_double now))
        → let c : Call = record {
          key = k;
          limit = l;
          window = win;
          now = now;
          clock = clock;
          later = later;
          run = run;
          pipe = pipe;
          removal = removal;
        } in
          let out = check_rate_limit to_double prefix c db in
          Covered to_double rises limit seconds some_time some_calls
            (if bytes_eq (prefix ++ k) name then now else last)
            (if bytes_eq (prefix ++ k) name && is_allowed out.0
              then to_double now ∷ before
              else before)
            (find_set name out.1)
    unfolding check_rate_limit
    step k l win now clock later run pipe removal d last before db covered at_now as_run same =
        let s =
          (check_set to_double l win now clock later run pipe removal
            (find_set (prefix ++ k) db)).1 in
        elim (Bool-cases (bytes_eq (prefix ++ k) name)) [
          | inl own ↦
              let named = (bytes_eq_iff (prefix ++ k) name).0 own in
              let (lim, wide, newer) = same named in
              let h : last ≤ now = le-of_lt last now newer in
              let here : Steps db now before later pipe removal name limit width now (ran d) =
                set-Covers to_double rises limit seconds some_time some_calls last now later before
                  (find_set name db) d pipe removal covered h newer in
              let steps = Steps db now before later pipe removal in
              rw (find_set-put (prefix ++ k) name s db, own)
                (subst (λ n. steps n l win clock run) (sym named)
                  (subst (λ x. steps name x win clock run) (sym lim)
                    (subst (λ x. steps name limit x clock run) (sym wide)
                      (subst (λ x. steps name limit width x run) (sym at_now)
                        (subst (λ x. steps name limit width now x) (sym as_run) here)))))
          | inr other ↦ rw (find_set-put (prefix ++ k) name s db, other) covered
        ]

    run-Covers :
        (cs : List Call) (own last end : ℕ) (before : List ℕ) (db : List Key)
        → Covered to_double rises limit seconds some_time some_calls own before (find_set name db)
        → own ≤ last
        → IsRun own last end cs
        → (x : ℕ) → to_double (end - width) ≤ x
        → count_above x (admitted cs db before) ≤ limit
    unfolding admitted
    run-Covers [] own last end before db c le h x k = omega (
      arith,
      c.counted x (omega (arith, k, rises (own - width) (end - width) (omega (arith, le, h)))),
      above-le-length x (members_of (find_set name db)),
      c.small,
    )
    run-Covers (c ∷ cs) own last end before db covered le (h, at_now, (d, as_run), same, rest) x k =
        run-Covers cs _ c.now end _ _
          (step c.key c.limit c.window c.now c.clock c.later c.run c.pipe c.removal d own before db
            covered at_now as_run same)
          (own-le own c.now (bytes_eq (prefix ++ c.key) name) (omega (arith, le, h))) rest x k

-- If a key is absent at first, no more than `limit` of the calls for it that a run lets through
-- have times within the window that ends where the run does, as doubles: of the calls, for this key
-- and others, the clock of Redis shows the caller's time, which does not run back; each script is
-- carried out and answers, or is not, or its answer is lost; the calls for the key have the same
-- limit and the same window, of whole seconds, both positive; their times are positive and differ
-- from one another, as doubles; and rounding to doubles keeps the order.
pub redis_admitted-le :
    (to_double : ℕ → ℕ) (limit seconds start end : ℕ) (prefix key : Bytes) (cs : List Call)
    (db : List Key)
    → (rises : (a b : ℕ) → a ≤ b → to_double a ≤ to_double b) → (some_time : 0 < seconds)
    → (some_calls : 0 < limit) → find_set (prefix ++ key) db ≡ none
    → IsRun to_double rises limit seconds some_time some_calls prefix key 0 start end cs
    → count_above
        (to_double (end - seconds * second))
        (admitted to_double rises limit seconds some_time some_calls prefix key cs db [])
      ≤ limit
redis_admitted-le to_double limit seconds start end prefix key cs db rises some_time some_calls
      fresh run =
    let empty : Covers to_double rises limit seconds some_time 0 [] (find_set (prefix ++ key) db) =
      rw fresh
        (record { small = omega arith; old = tt; dated = tt; counted = λ x h. omega arith }) in
    run-Covers to_double rises limit seconds some_time some_calls prefix key cs 0 start end [] db
      empty (omega arith) run (to_double (end - seconds * second)) (omega arith)
