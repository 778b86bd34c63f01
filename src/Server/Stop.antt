-- ===== src/Server/Stop.antt =====
-- Shutdown of src/server.go.
use bincrypt.Prelude.{
  ℕ, ◌*◌, Bool, true, false, List, [], ◌∷◌, Option, none, some, ℤ, pos, negsuc, if◌then◌else◌,
}
use bincrypt.Storage.{second}
use bincrypt.DeletionQueue.{DeletionQueue, close_tasks, finish_shutdown}

-- What the server holds; a part that is nil is `none` or `false`.
pub record Server : Type 0 where
  pub has_http_server : Bool
  pub deletion_queue : Option DeletionQueue
  pub has_limiter : Bool
  pub has_storage : Bool

-- What Shutdown meets: whether http.Server.Shutdown fails, the time until the context's deadline, in
-- nanoseconds, if it has one, what happens to the closed queue until the wait for its workers ends
-- and whether that is by the timeout, and whether the storage's Close fails.
pub record Course : Type 0 where
  pub http_fails : Bool
  pub until_deadline : Option ℤ
  pub wait : DeletionQueue → DeletionQueue
  pub times_out : Bool
  pub close_fails : Bool

-- The calls made, in order; that of the queue has its timeout.
pub data Call : Type 0 where
  stop_http : Call
  stop_queue : ℕ → Call
  stop_limiter close_storage : Call

pub data StopError : Type 0 where
  http_error storage_error : StopError

-- The error returned, the calls, and the queue afterwards.
pub record Stopped : Type 0 where
  pub error : Option StopError
  pub calls : List Call
  pub queue : Option DeletionQueue

unfoldable pub queue_timeout : Option ℤ → ℕ
queue_timeout none = 10 * second
queue_timeout (some (pos left)) = left
queue_timeout (some (negsuc _)) = second

unfoldable pub stop_storage : Bool → Course → Option DeletionQueue → Stopped
stop_storage false c q = record { error = none; calls = []; queue = q }
stop_storage true c q = record {
  error = if c.close_fails then some storage_error else none;
  calls = close_storage ∷ [];
  queue = q;
}

abbrev pub after : Call → Stopped → Stopped
after call s = record s { calls = call ∷ s.calls }

unfoldable pub stop_rest : Server → Course → Option DeletionQueue → Stopped
unfolding stop_storage
stop_rest server c q =
    if server.has_limiter
    then after stop_limiter (stop_storage server.has_storage c q)
    else stop_storage server.has_storage c q

-- DeletionQueue.Shutdown, whose error is only logged.
unfoldable pub shut_queue : Course → DeletionQueue → DeletionQueue
shut_queue c q = (finish_shutdown c.times_out (c.wait (close_tasks q))).1

unfoldable pub stop_deletions : Server → Course → Option DeletionQueue → Stopped
unfolding stop_rest shut_queue queue_timeout
stop_deletions server c none = stop_rest server c none
stop_deletions server c (some q) =
    after (stop_queue (queue_timeout c.until_deadline)) (stop_rest server c (some (shut_queue c q)))

unfoldable pub shutdown : Server → Course → Stopped
unfolding stop_deletions
shutdown server c =
    if server.has_http_server
    then (if c.http_fails
        then record {
          error = some http_error;
          calls = stop_http ∷ [];
          queue = server.deletion_queue;
        }
        else after stop_http (stop_deletions server c server.deletion_queue))
    else stop_deletions server c server.deletion_queue
