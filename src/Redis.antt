-- ===== src/Redis.antt =====
-- The sliding window of src/services/ratelimit_redis.go, with the commands of Redis that it uses.
-- Instants are nanoseconds of Unix time; one that lies before 1970 is taken as 0.
pub mod Check
pub mod Members
pub mod Window
pub mod Calls
pub mod Bound
pub mod Blocked
pub mod Limiter
mod Examples
use bincrypt.Prelude.{
  ℕ, suc, ◌+◌, ◌-◌, ◌*◌, ◌/◌, ◌==◌, ◌||◌, Bool, true, false, not, List, [], ◌∷◌, ◌++◌, Option, none,
  some, Bytes, ltb, leb, if◌then◌else◌, length, find_by, remove_by,
}
use bincrypt.Storage.{second}
use bincrypt.RateLimit.{Decision}

-- The text of a member: a number as Lua writes it, in 17 digits, or an integer as Go writes it; the
-- present time in nanoseconds takes 19, so that no text is both.
pub data Member : Type 0 where
  number decimal : ℕ → Member

abbrev pub same_member : Member → Member → Bool
same_member (number m) (number n) = m == n
same_member (decimal m) (decimal n) = m == n
same_member _ _ = false

pub record Scored : Type 0 where
  pub score : ℕ
  pub member : Member

-- The members stand in the order of their scores. Redis drops the set once its clock reaches
-- `expires`.
pub record SortedSet : Type 0 where
  pub members : List Scored
  pub expires : Option ℕ

pub record Key : Type 0 where
  pub name : Bytes
  pub set : SortedSet

abbrev pub key_name : Key → Bytes
key_name k = k.name

abbrev pub set_of : Option Key → Option SortedSet
set_of none = none
set_of (some k) = some k.set

abbrev pub find_set : Bytes → List Key → Option SortedSet
find_set name db = set_of (find_by key_name name db)

-- ZREMRANGEBYSCORE key 0 top
unfoldable pub remove_until : ℕ → List Scored → List Scored
remove_until top [] = []
remove_until top (m ∷ ms) = if leb m.score top then remove_until top ms else m ∷ remove_until top ms

-- ZREM
unfoldable pub remove_member : Member → List Scored → List Scored
remove_member x [] = []
remove_member x (m ∷ ms) =
    if same_member m.member x then remove_member x ms else m ∷ remove_member x ms

unfoldable pub insert : Scored → List Scored → List Scored
insert x [] = x ∷ []
insert x (m ∷ ms) = if ltb x.score m.score then x ∷ m ∷ ms else m ∷ insert x ms

-- ZADD
abbrev pub add_member : Scored → List Scored → List Scored
add_member x ms = insert x (remove_member x.member ms)

-- A value of a reply: an integer, or a text, here the number in it.
pub data Value : Type 0 where
  integer text : ℕ → Value

-- ZRANGE key 0 0 WITHSCORES, and the table that the script returns of it.
abbrev pub oldest_value : List Scored → Value
oldest_value [] = integer 0
oldest_value (m ∷ ms) = text m.score

abbrev pub ceil_seconds : ℕ → ℕ
ceil_seconds window = (window / 1000000 + 999) / 1000

-- The seconds that go-redis makes of the window.
abbrev pub whole_seconds : ℕ → ℕ
whole_seconds window = if ltb window second then 1 else window / second

-- EXPIRE, where Redis' clock shows `clock`; a time to live of zero deletes the key.
unfoldable pub expire : ℕ → ℕ → SortedSet → Option SortedSet
expire clock seconds s =
    if seconds == 0 then none else some (record s { expires = some (clock + seconds * second) })

-- The key as Redis sees it.
unfoldable pub alive : ℕ → Option SortedSet → Option SortedSet
alive clock none = none
alive clock (some s) = elim s.expires [
  | none ↦ some s
  | some t ↦ if leb t clock then none else some s
]

abbrev pub members_of : Option SortedSet → List Scored
members_of none = []
members_of (some s) = s.members

-- A set without members is no key.
abbrev pub shrunk : List Scored → Option SortedSet → Option SortedSet
shrunk [] s = none
shrunk (m ∷ ms) none = none
shrunk (m ∷ ms) (some s) = some (record s { members = m ∷ ms })

-- ZADD makes a key that has no time to live, and keeps that of an old one.
abbrev pub grown : List Scored → Option SortedSet → SortedSet
grown ms none = record { members = ms; expires = none }
grown ms (some s) = record s { members = ms }

-- What becomes of a command: an answer, none before it reached the server, or none after.
pub data Delivery : Type 0 where
  answered undelivered unacknowledged : Delivery

-- The script's run may also answer redis.Nil.
pub data Run : Type 0 where
  ran : Delivery → Run
  nil_reply : Run
