-- ===== src/Server/Drained.antt =====
-- What Shutdown of src/server.go leaves of the deletion queue.
use bincrypt.Prelude.{◌≡◌, true, [], ◌∷◌, none, some, Bytes, arith, if◌then◌else◌}
use bincrypt.DeletionQueue.{DeletionQueue}
use bincrypt.DeletionQueue.Steps.{queue}
use bincrypt.DeletionQueue.Accounts.{count}
use bincrypt.Server.Stop.{
  Server, Course, stop_http, stop_queue, stop_limiter, close_storage, http_error, storage_error,
  queue_timeout, stop_storage, stop_rest, shut_queue, stop_deletions, shutdown,
}

-- A queue that takes no more and has processed, of each identifier, what `q` had accepted.
abbrev pub IsDone : DeletionQueue → DeletionQueue → Type 0
IsDone q end_ =
    (end_.closed ≡ true)
    × (end_.tasks ≡ [])
    × (end_.busy ≡ [])
    × ((id : Bytes) → count id end_.processed ≡ count id q.accepted)

-- A server with all of its parts: if the HTTP server's shutdown fails, Shutdown returns that error
-- and leaves the queue as it is, the limiter running and the storage open; otherwise it stops the
-- queue, the limiter and the storage, in this order and even if the queue's workers do not return in
-- time, and returns the error of closing the storage and no other. The queue is given the time until
-- the deadline, or 1 second if that has passed, or 10 seconds if there is none.
pub shutdown-outcomes :
    (c : Course) (q : DeletionQueue)
    → let server : Server = record {
      has_http_server = true;
      deletion_queue = some q;
      has_limiter = true;
      has_storage = true;
    } in
      (shutdown server c ≡ (
        if c.http_fails
        then record { error = some http_error; calls = stop_http ∷ []; queue = some q }
        else record {
          error = if c.close_fails then some storage_error else none;
          calls =
              stop_http
              ∷ stop_queue (queue_timeout c.until_deadline)
              ∷ stop_limiter
              ∷ close_storage
              ∷ [];
          queue = some (shut_queue c q);
        }))
unfolding shutdown stop_deletions stop_rest stop_storage
shutdown-outcomes c q = ground arith
