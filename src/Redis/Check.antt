-- ===== src/Redis/Check.antt =====
-- CheckRateLimit of src/services/ratelimit_redis.go: the script, what is read of its reply, and the
-- fallback.
use bincrypt.Prelude.{
  ℕ, ◌+◌, ◌-◌, ◌==◌, ◌||◌, true, false, List, [], ◌∷◌, ◌++◌, Option, none, some, Bytes, ltb,
  if◌then◌else◌, length, remove_by,
}
use bincrypt.RateLimit.{Decision}
use bincrypt.Redis.{
  number, decimal, Scored, SortedSet, Key, key_name, find_set, remove_until, remove_member,
  add_member, Value, integer, text, oldest_value, ceil_seconds, whole_seconds, expire, alive,
  members_of, shrunk, grown, Delivery, answered, undelivered, unacknowledged, Run, ran, nil_reply,
}

-- `to_double` is tonumber of the decimal text of an integer, the nearest double.
module _ (to_double : ℕ → ℕ) (limit window now clock : ℕ) where
  -- The script: the members that are left are counted, and the call is added if it fits.
  unfoldable pub script : Option SortedSet → List Value × Option SortedSet
  unfolding expire
  script s =
      let left = remove_until (to_double (now - window)) (members_of s) in
      let x : Scored = record { score = to_double now; member = number (to_double now) } in
      if ltb (length left) limit
      then (
        integer 1 ∷ integer (limit - length left - 1) ∷ [],
        expire clock (ceil_seconds window) (grown (add_member x left) (shrunk left s)),
      )
      else (integer 0 ∷ integer 0 ∷ oldest_value left ∷ [], shrunk left s)

  abbrev pub integer_of : Value → Option ℕ
  integer_of (integer n) = some n
  integer_of (text n) = none

  -- vals[2].(int64), and what follows from it; `later` is the clock at time.Until.
  abbrev pub blocked : ℕ → Option ℕ → Decision
  blocked later none = record { allowed = false; remaining = 0; reset_at = 0; retry_after = 0 }
  blocked later (some oldest) =
      if oldest == 0
      then record { allowed = false; remaining = 0; reset_at = 0; retry_after = 0 }
      else record {
        allowed = false;
        remaining = 0;
        reset_at = oldest + window;
        retry_after = oldest + window - later;
      }

  abbrev pub or_zero : Option ℕ → ℕ
  or_zero none = 0
  or_zero (some n) = n

  -- The reply read: `none` is an error, a reply of fewer than two values.
  unfoldable pub read_reply : ℕ → List Value → Option Decision
  read_reply later [] = none
  read_reply later (v ∷ []) = none
  read_reply later (v ∷ u ∷ rest) =
      if or_zero (integer_of v) == 1
      then some (record {
        allowed = true;
        remaining = or_zero (integer_of u);
        reset_at = now + window;
        retry_after = 0;
      })
      else elim rest [
        | [] ↦ some (blocked later none)
        | oldest ∷ _ ↦ some (blocked later (integer_of oldest))
      ]

  -- The pipeline of checkRateLimitFallback: the call is added first.
  unfoldable pub pipeline : Option SortedSet → ℕ × Option SortedSet
  unfolding expire
  pipeline s =
      let left = remove_until (to_double (now - window)) (members_of s) in
      let x : Scored = record { score = to_double now; member = decimal now } in
      let added = add_member x left in
      (length added, expire clock (whole_seconds window) (grown added (shrunk left s)))

  -- An error of ZRem is dropped.
  unfoldable pub undo : Delivery → Option SortedSet → Option SortedSet
  undo undelivered s = s
  undo _ s = shrunk (remove_member (decimal now) (members_of s)) s

  unfoldable pub fall_back :
      Delivery → Delivery → Option SortedSet → Option Decision × Option SortedSet
  unfolding pipeline undo
  fall_back undelivered removal s = (none, s)
  fall_back unacknowledged removal s = (none, (pipeline s).1)
  fall_back answered removal s =
      let (count, s') = pipeline s in
      if ltb limit count
      then (
        some (record {
          allowed = false;
          remaining = 0;
          reset_at = now + window;
          retry_after = window;
        }),
        undo removal s',
      )
      else (
        some (record {
          allowed = true;
          remaining = limit - count;
          reset_at = now + window;
          retry_after = 0;
        }),
        s',
      )

  -- CheckRateLimit on the set of its key: `none` is an error.
  unfoldable pub check_valid :
      ℕ → Run → Delivery → Delivery → Option SortedSet → Option Decision × Option SortedSet
  unfolding script read_reply fall_back
  check_valid later nil_reply pipe removal s = fall_back pipe removal s
  check_valid later (ran undelivered) pipe removal s = (none, s)
  check_valid later (ran unacknowledged) pipe removal s = (none, (script s).1)
  check_valid later (ran answered) pipe removal s =
      let (values, s') = script s in (read_reply later values, s')

  unfoldable pub check_set :
      ℕ → Run → Delivery → Delivery → Option SortedSet → Option Decision × Option SortedSet
  unfolding check_valid alive
  check_set later run pipe removal s =
      if limit == 0 || window == 0
      then (none, s)
      else check_valid later run pipe removal (alive clock s)

abbrev pub put_set : Bytes → Option SortedSet → List Key → List Key
put_set name none db = remove_by key_name name db
put_set name (some s) db = record { name = name; set = s } ∷ remove_by key_name name db

-- One call: its key, what it asks for, the clocks, and what becomes of its commands.
pub record Call : Type 0 where
  pub key : Bytes
  pub limit : ℕ
  pub window : ℕ
  pub now : ℕ
  pub clock : ℕ
  pub later : ℕ
  pub run : Run
  pub pipe : Delivery
  pub removal : Delivery

-- CheckRateLimit of a service whose keys begin with `prefix`.
unfoldable pub check_rate_limit : (ℕ → ℕ) → Bytes → Call → List Key → Option Decision × List Key
unfolding check_set
check_rate_limit to_double prefix c db =
    let name = prefix ++ c.key in
    let (d, s) =
      check_set to_double c.limit c.window c.now c.clock c.later c.run c.pipe c.removal
        (find_set name db) in
    (d, put_set name s db)
