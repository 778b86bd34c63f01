-- ===== src/DeletionQueue/Steps.antt =====
-- What can happen to a deletion queue, as a step relation, and the runs from a new queue.
use bincrypt.Prelude.{ℕ, ◌+◌, ◌-◌, ◌<◌, ◌≡◌, true, false, List, [], ◌∷◌, ◌++◌, Bytes}
use bincrypt.DeletionQueue.{
  DeletionQueue, new_deletion_queue, queue_deletion, close_tasks, finish_shutdown,
}

pub data Step (q : DeletionQueue) : DeletionQueue → Type 0 where
  -- A handler calls QueueDeletion.
  queue : (id : Bytes) → Step q (queue_deletion id q).1
  -- An idle worker receives the oldest task.
  receive :
      (id : Bytes) (rest : List Bytes)
      → q.tasks ≡ id ∷ rest
      → 0 < q.idle
      → Step q (record q {
        tasks = rest;
        idle = q.idle - 1;
        busy = id ∷ q.busy;
        received = q.received ++ id ∷ [];
      })
  -- A worker's DeletePaste returns.
  process :
      (id : Bytes) (before after : List Bytes)
      → q.busy ≡ before ++ id ∷ after
      → Step q
          (record q { idle = q.idle + 1; busy = before ++ after; processed = id ∷ q.processed })
  -- An idle worker sees the channel closed and empty, and returns.
  leave :
      q.closed ≡ true
      → q.tasks ≡ []
      → 0 < q.idle
      → Step q (record q { idle = q.idle - 1; returned = q.returned + 1 })
  -- Shutdown begins.
  close : Step q (close_tasks q)
  -- Shutdown ends: without an error only once every worker has returned.
  finish : q.closed ≡ true → q.returned ≡ q.workers → Step q (finish_shutdown false q).1
  give_up : q.closed ≡ true → Step q (finish_shutdown true q).1

pub data Reach (workers : ℕ) : DeletionQueue → Type 0 where
  start : Reach workers (new_deletion_queue workers)
  next : {q q' : DeletionQueue} → Reach workers q → Step q q' → Reach workers q'
