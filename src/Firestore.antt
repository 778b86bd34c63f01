-- ===== src/Firestore.antt =====
-- The sliding window of src/services/ratelimit_firestore.go: one document for each key, changed in a
-- transaction. Instants are nanoseconds of Unix time; one that lies before 1970 is taken as 0.
pub mod Members
pub mod Bound
pub mod Told
mod Examples
use bincrypt.Prelude.{
  ℕ, ◌+◌, ◌-◌, ◌*◌, ◌==◌, ◌||◌, true, false, List, [], ◌∷◌, ◌++◌, Option, none, some, Bytes, ltb,
  leb, if◌then◌else◌, length, find_by, remove_by,
}
use mathlib.Core.List.{map}
use bincrypt.RateLimit.{Decision}

-- An element of the array `timestamps`: an instant, or a value of another type.
pub data Element : Type 0 where
  instant : ℕ → Element
  other : Element

-- A document; `timestamps` is `none` if the field is missing or no array.
pub record Document : Type 0 where
  pub timestamps : Option (List Element)
  pub updated_at : ℕ
  pub expires_at : ℕ

-- What becomes of a transaction: it commits, it fails before that, or its answer is lost after.
pub data Transaction : Type 0 where
  commits fails unacknowledged : Transaction

-- The instants of the array after `start`.
unfoldable pub instants_after : ℕ → List Element → List ℕ
instants_after start [] = []
instants_after start (other ∷ es) = instants_after start es
instants_after start (instant t ∷ es) =
    let rest = instants_after start es in if ltb start t then t ∷ rest else rest

unfoldable pub keep_after : ℕ → List ℕ → List ℕ
keep_after start [] = []
keep_after start (t ∷ ts) = let rest = keep_after start ts in if ltb start t then t ∷ rest else rest

unfoldable pub read_array : ℕ → Option (List Element) → List ℕ
unfolding instants_after
read_array start none = []
read_array start (some es) = instants_after start es

unfoldable pub read_timestamps : ℕ → Option Document → List ℕ
unfolding read_array
read_timestamps start none = []
read_timestamps start (some d) = read_array start d.timestamps

-- The loop for the oldest, which starts at the first.
unfoldable pub oldest_of : ℕ → List ℕ → ℕ
oldest_of oldest [] = oldest
oldest_of oldest (t ∷ ts) = oldest_of (if ltb t oldest then t else oldest) ts

-- The document after a transaction that sets it, or does not.
abbrev pub set_to : Option Document → Option Document → Option Document
set_to none d = d
set_to (some new) d = some new

-- `stored` is what Firestore keeps of an instant, which it cuts to microseconds; `later` is the
-- clock at time.Until.
module _ (stored : ℕ → ℕ) (limit window now later : ℕ) where
  -- Both loops that drop what has left the window.
  unfoldable pub valid_timestamps : Option Document → List ℕ
  unfolding read_timestamps keep_after
  valid_timestamps d = keep_after (now - window) (read_timestamps (now - window) d)

  unfoldable pub refused : List ℕ → Decision
  refused [] = record { allowed = false; remaining = 0; reset_at = 0; retry_after = 0 }
  refused (t ∷ ts) =
      let reset = oldest_of t (t ∷ ts) + window in
      record { allowed = false; remaining = 0; reset_at = reset; retry_after = reset - later }

  unfoldable pub accepted : List ℕ → Decision × Document
  accepted valid = (
    record {
      allowed = true;
      remaining = limit - length (valid ++ now ∷ []);
      reset_at = now + window;
      retry_after = 0;
    },
    record {
      timestamps = some (map (λ t. instant (stored t)) (valid ++ now ∷ []));
      updated_at = stored now;
      expires_at = stored (now + window * 2);
    },
  )

  -- The body of the transaction: the answer and the document that it sets, if it sets one.
  unfoldable pub transact : Option Document → Decision × Option Document
  unfolding refused accepted oldest_of
  transact d =
      let valid = valid_timestamps d in
      let (decision, document) = accepted valid in
      if leb limit (length valid) then (refused valid, none) else (decision, some document)

  unfoldable pub run_transaction : Transaction → Option Document → Option Decision × Option Document
  unfolding transact
  run_transaction fails d = (none, d)
  run_transaction commits d = let (answer, new) = transact d in (some answer, set_to new d)
  run_transaction unacknowledged d = (none, set_to (transact d).1 d)

  -- CheckRateLimit on the document of its key: `none` is an error.
  unfoldable pub check_document : Transaction → Option Document → Option Decision × Option Document
  unfolding run_transaction
  check_document t d = if limit == 0 || window == 0 then (none, d) else run_transaction t d

-- A call: the clock, that at time.Until, and what becomes of the transaction.
pub record Call : Type 0 where
  pub now : ℕ
  pub later : ℕ
  pub transaction : Transaction

-- The documents of the collection.
pub record Entry : Type 0 where
  pub key : Bytes
  pub document : Document

abbrev pub entry_key : Entry → Bytes
entry_key e = e.key

abbrev pub document_of : Option Entry → Option Document
document_of none = none
document_of (some e) = some e.document

abbrev pub put_document : Bytes → Option Document → List Entry → List Entry
put_document key none db = remove_by entry_key key db
put_document key (some d) db = record { key = key; document = d } ∷ remove_by entry_key key db

unfoldable pub check_rate_limit :
    (ℕ → ℕ) → Bytes → ℕ → ℕ → ℕ → ℕ → Transaction → List Entry → Option Decision × List Entry
unfolding check_document
check_rate_limit stored key limit window now later t db =
    let (d, document) =
      check_document stored limit window now later t (document_of (find_by entry_key key db)) in
    (d, put_document key document db)
