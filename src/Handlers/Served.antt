-- ===== src/Handlers/Served.antt =====
-- When GetPasteAPI sends a paste, and what it does with a burned one.
use bincrypt.Prelude.{
  ℕ, ◌+◌, ◌≤◌, ◌≡◌, refl, ◌↔◌, true, false, [], ◌∷◌, ◌++◌, none, Bytes, arith, if◌then◌else◌, ◌&&◌,
  not, ltb, length,
}
use bincrypt.Storage.{ok, Paste, StorageBackend, Platform, burned_paste}
use bincrypt.DeletionQueue.{queue_deletion, buffer_size}
use bincrypt.Base64.Identifier.{matches_id}
use bincrypt.Validation.{validate_base64, validate_paste, validate_paste_id, sanitize_string}
use bincrypt.Validation.Bounds.{sanitize_string-id}
use bincrypt.Handlers.{World, Failure, Response, Body, simple_error}
use bincrypt.Handlers.Read.{Clocks, get_paste_api}
use bincrypt.Sqlite.{Db, is_burned}
use bincrypt.Sqlite.Transaction.{Faults, begin_tx, burned_query}
use bincrypt.Sqlite.Get.{get_paste}
use bincrypt.Sqlite.Backend.{sqlite_backend}

-- All that the handler checks before it sends a paste.
abbrev pub IsServable : Platform → Clocks → Bytes → Bytes → Paste → Type 0
IsServable p c id ciphertext paste =
    (validate_paste_id (sanitize_string id) ≡ none)
    × (validate_base64 ciphertext ≡ none)
    × (validate_paste p paste ≡ none)
    × (c.handled ≤ paste.expires_at)
    × (paste.is_burned ≡ true → paste.burn_after_read ≡ true)

module _ {S : Type 0} (p : Platform) (b : StorageBackend S) (c : Clocks) (id : Bytes)
    (w : World S) where
  abbrev reply : Response × World S
  reply = get_paste_api p b c id w

  module _ (ciphertext : Bytes) (paste : Paste) (store : S)
      (read : b.get_paste c.stored (sanitize_string id) w.store
        ≡ (ok (ciphertext, paste), store)) where
    -- When the store returns a paste, GetPasteAPI answers 200 exactly if the identifier, the stored
    -- text and the metadata are valid, the paste has not expired, and it is not burned unless it
    -- burns after reading.
    pub get_paste_api-ok_iff : (reply.0.status ≡ 200) ↔ IsServable p c id ciphertext paste
    unfolding get_paste_api
    get_paste_api-ok_iff = (
      λ h. (ground arith, ground arith, ground arith, ground arith, ground arith),
      λ s. ground (arith, s.4),
    )

    -- When the store returns a paste and GetPasteAPI answers 200, the body is that paste with its
    -- text; one view is counted; and a paste that was burned by this read, and no other, is counted
    -- as burned, and its identifier is appended to the tasks of the deletion queue if that is open and
    -- has room. Otherwise the queue is left as it was and the deletion is dropped.
    pub get_paste_api-served :
        reply.0.status ≡ 200
        → (reply.0.body ≡ Body.paste paste.id ciphertext paste.burn_after_read paste.expires_at)
          × (reply.1.store ≡ store)
          × (reply.1.metrics.pastes_viewed ≡ w.metrics.pastes_viewed + 1)
          × (reply.1.metrics.pastes_burned
              ≡ w.metrics.pastes_burned + (if paste.is_burned then 1 else 0))
          × (reply.1.queue ≡ (
              if paste.is_burned && not w.queue.closed && ltb (length w.queue.tasks) buffer_size
              then record (w.queue) {
                tasks = w.queue.tasks ++ sanitize_string id ∷ [];
                accepted = w.queue.accepted ++ sanitize_string id ∷ [];
              }
              else w.queue))
    unfolding get_paste_api queue_deletion
    get_paste_api-served h = (ground arith, ground arith, ground arith, ground arith, ground arith)

get_paste-marked :
    (fails : Faults) (now : ℕ) (id : Bytes) (db : Db)
    → fails begin_tx ≡ false
    → fails burned_query ≡ false
    → is_burned id db ≡ true
    → get_paste fails now id db ≡ (ok ([], burned_paste id), db)
unfolding get_paste
get_paste-marked fails now id db h k burned = ground arith

-- Over the SQLite backend, a request under a well-formed identifier for a paste that was burned before is answered with status 500
-- and the message for corrupted data, unless beginning the transaction or its first query fails;
-- the store, the counters, the deletion queue and the audit log are left as they were.
pub get_paste_api-burned :
    (p : Platform) (fails : Faults) (c : Clocks) (id : Bytes) (w : World Db)
    → matches_id id ≡ true
    → fails begin_tx ≡ false
    → fails burned_query ≡ false
    → is_burned id w.store ≡ true
    → get_paste_api p (sqlite_backend p fails) c id w ≡ simple_error Failure.data_corrupted 500 w
unfolding get_paste_api validate_base64
get_paste_api-burned p fails c id w m h k burned =
    let (same, valid) = sanitize_string-id id m in
    rw (same, valid, get_paste-marked fails c.stored id w.store h k burned) refl
