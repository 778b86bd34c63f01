-- ===== src/DeletionQueue.antt =====
-- The deletion queue of src/services/deletion_queue.go: a buffered channel of identifiers, a fixed
-- number of workers, and Shutdown. One step is a call under the mutex or an action of one worker.
pub mod Steps
pub mod Accounts
pub mod Progress
mod Examples
use bincrypt.Prelude.{
  ℕ, ◌+◌, ◌-◌, Bool, true, false, List, [], ◌∷◌, ◌++◌, Option, none, some, Bytes, length, ltb,
  if◌then◌else◌, ◌==◌,
}

abbrev pub buffer_size : ℕ
buffer_size = 1000

abbrev pub default_workers : ℕ
default_workers = 10

pub data QueueError : Type 0 where
  shutting_down full timeout_exceeded : QueueError

-- `tasks` is the channel's buffer, oldest first. Each worker is idle, at work on one identifier, or
-- has returned. The last three fields record what has happened: the identifiers accepted, those
-- handed to a worker, and those whose DeletePaste has returned, with or without an error.
pub record DeletionQueue : Type 0 where
  pub tasks : List Bytes
  pub workers : ℕ
  pub idle : ℕ
  pub busy : List Bytes
  pub returned : ℕ
  pub closed : Bool
  pub cancelled : Bool
  pub accepted : List Bytes
  pub received : List Bytes
  pub processed : List Bytes

-- NewDeletionQueue; `workers` is an int, so that 0 stands for every number that is not positive.
unfoldable pub new_deletion_queue : ℕ → DeletionQueue
new_deletion_queue workers =
    let n = if workers == 0 then default_workers else workers in
    record {
      tasks = [];
      workers = n;
      idle = n;
      busy = [];
      returned = 0;
      closed = false;
      cancelled = false;
      accepted = [];
      received = [];
      processed = [];
    }

-- QueueDeletion: the send succeeds if the buffer has room.
unfoldable pub queue_deletion : Bytes → DeletionQueue → Option QueueError × DeletionQueue
queue_deletion id q =
    if q.closed
    then (some shutting_down, q)
    else if ltb (length q.tasks) buffer_size
    then (none, record q { tasks = q.tasks ++ id ∷ []; accepted = q.accepted ++ id ∷ [] })
    else (some full, q)

-- The first part of Shutdown, under the mutex.
unfoldable pub close_tasks : DeletionQueue → DeletionQueue
close_tasks q = if q.closed then q else record q { closed = true }

-- The second part: all workers have returned, or the timeout is over. Both ways cancel the context.
unfoldable pub finish_shutdown : Bool → DeletionQueue → Option QueueError × DeletionQueue
finish_shutdown timed_out q =
    (if timed_out then some timeout_exceeded else none, record q { cancelled = true })
