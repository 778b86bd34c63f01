-- ===== src/DeletionQueue/Examples.antt =====
-- A run of the queue of src/services/deletion_queue.go with one worker, shut down after one task.
use bincrypt.Prelude.{◌+◌, ◌<◌, ◌≡◌, refl, true, false, [], ◌∷◌, Bytes, arith, codes}
use bincrypt.DeletionQueue.{DeletionQueue, new_deletion_queue, queue_deletion, close_tasks}
use bincrypt.DeletionQueue.Steps.{queue, receive, process, leave, close, Reach, start, next}
use bincrypt.DeletionQueue.Progress.{is_worker, Run, here, more, CanWork, pending, closed-drains}
use bincrypt.DeletionQueue.Accounts.{count, IsConsistent, Reach-IsConsistent, drained}

abbrev id : Bytes
id = codes "a"

abbrev waiting : DeletionQueue
waiting = record {
  tasks = id ∷ [];
  workers = 1;
  idle = 1;
  busy = [];
  returned = 0;
  closed = false;
  cancelled = false;
  accepted = id ∷ [];
  received = [];
  processed = [];
}

abbrev working : DeletionQueue
working = record waiting { tasks = []; idle = 0; busy = id ∷ []; received = id ∷ [] }

abbrev closing : DeletionQueue
closing = record working { closed = true }

abbrev done : DeletionQueue
done = record closing { idle = 1; busy = []; processed = id ∷ [] }

abbrev gone : DeletionQueue
gone = record done { idle = 0; returned = 1 }

Reach-waiting : Reach 1 waiting
unfolding new_deletion_queue queue_deletion
Reach-waiting = next start (queue id)

Reach-closing : Reach 1 closing
unfolding close_tasks
Reach-closing = next (next Reach-waiting (receive id [] refl (omega arith))) close

Reach-gone : Reach 1 gone
Reach-gone = next (next Reach-closing (process id [] [] refl)) (leave refl refl (omega arith))

closing_run : Run closing done 1
unfolding is_worker
closing_run = more here (process id [] [] refl)

Reach-IsConsistent_example : IsConsistent closing
Reach-IsConsistent_example = Reach-IsConsistent 1 closing Reach-closing

drained_example :
    (gone.tasks ≡ [])
    × (gone.busy ≡ [])
    × ((k : Bytes) → count k gone.processed ≡ count k gone.accepted)
drained_example = drained 1 gone Reach-gone refl

closed-drains_example :
    (pending closing ≡ 1 + pending done)
    × (0 < pending done → CanWork done)
    × ((end_ : DeletionQueue) × Run done end_ (pending done)
        × (end_.returned ≡ end_.workers)
        × (end_.tasks ≡ [])
        × (end_.busy ≡ [])
        × ((k : Bytes) → count k end_.processed ≡ count k end_.accepted))
closed-drains_example = closed-drains 1 closing done 1 Reach-closing refl closing_run
