-- ===== src/DeletionQueue/Accounts.antt =====
-- What holds of every reachable deletion queue.
use mathlib.Core.List.{append_assoc}
use bincrypt.Prelude.{
  ℕ, suc, ◌+◌, ◌-◌, ◌≤◌, ◌<◌, ◌≡◌, refl, sym, ◌∙◌, ap, Bool, true, false, List, [], ◌∷◌, ◌++◌,
  Bytes, arith, length, length-append, bytes_eq, if◌then◌else◌,
}
use bincrypt.DeletionQueue.{
  DeletionQueue, buffer_size, new_deletion_queue, queue_deletion, close_tasks, finish_shutdown,
}
use bincrypt.DeletionQueue.Steps.{
  Step, queue, receive, process, leave, close, finish, give_up, Reach, start, next,
}

-- How often an identifier stands in a list.
abbrev pub count : Bytes → List Bytes → ℕ
count id [] = 0
count id (x ∷ xs) = (if bytes_eq x id then 1 else 0) + count id xs

-- The buffer is bounded; every worker is idle, busy or gone, and none is gone while the channel is
-- open; tasks are received in the order in which they were accepted; every received task is with
-- a worker or processed, once; and a worker has gone only when nothing was left to receive.
pub record IsConsistent (q : DeletionQueue) : Type 0 where
  pub bounded : length q.tasks ≤ buffer_size
  pub staffed : q.idle + length q.busy + q.returned ≡ q.workers
  pub some_worker : 0 < q.workers
  pub in_order : q.accepted ≡ q.received ++ q.tasks
  pub conserved : (id : Bytes) → count id q.received ≡ count id q.busy + count id q.processed
  pub open_staffed : q.closed ≡ false → q.returned ≡ 0
  pub gone_empty : 0 < q.returned → q.tasks ≡ []

new_deletion_queue-IsConsistent : (workers : ℕ) → IsConsistent (new_deletion_queue workers)
unfolding new_deletion_queue
new_deletion_queue-IsConsistent workers = record {
  bounded = omega arith;
  staffed = ground arith;
  some_worker = ground arith;
  in_order = refl;
  conserved = λ id. refl;
  open_staffed = λ _. refl;
  gone_empty = λ h. refl;
}

count-append : (k : Bytes) (xs ys : List Bytes) → count k (xs ++ ys) ≡ count k xs + count k ys
count-append k [] ys = omega arith
count-append k (x ∷ xs) ys = omega (arith, count-append k xs ys)

pub length-middle :
    (id : Bytes) (xs ys : List Bytes) → length (xs ++ id ∷ ys) ≡ suc (length (xs ++ ys))
length-middle id [] ys = refl
length-middle id (x ∷ xs) ys = ap suc (length-middle id xs ys)

queue-IsConsistent :
    (id : Bytes) (q : DeletionQueue) → IsConsistent q → IsConsistent (queue_deletion id q).1
unfolding queue_deletion
queue-IsConsistent id q c = record {
  bounded = ground (arith, length-append q.tasks (id ∷ []));
  staffed = ground arith;
  some_worker = ground arith;
  in_order = ground (arith, append_assoc q.received q.tasks (id ∷ []));
  conserved = λ k. ground (arith, c.conserved k);
  open_staffed = ground arith;
  gone_empty = ground arith;
}

receive-IsConsistent :
    (id : Bytes) (rest : List Bytes) (q : DeletionQueue)
    → q.tasks ≡ id ∷ rest
    → 0 < q.idle
    → IsConsistent q
    → IsConsistent (record q {
      tasks = rest;
      idle = q.idle - 1;
      busy = id ∷ q.busy;
      received = q.received ++ id ∷ [];
    })
receive-IsConsistent id rest q e h c = record {
  bounded = omega (arith, c.bounded, ap length e);
  staffed = omega (arith, c.staffed);
  some_worker = c.some_worker;
  in_order =
      c.in_order
      ∙ ap (λ (ts : List Bytes). q.received ++ ts) e
      ∙ sym (append_assoc q.received (id ∷ []) rest);
  conserved = λ k. omega (arith, c.conserved k, count-append k q.received (id ∷ []));
  open_staffed = c.open_staffed;
  gone_empty = λ g. absurd (cons_not_empty (sym e ∙ c.gone_empty g));
}
  where
    cons_not_empty : id ∷ rest ≡ [] → ⊥
    cons_not_empty e' = cc

process-IsConsistent :
    (id : Bytes) (before after : List Bytes) (q : DeletionQueue)
    → q.busy ≡ before ++ id ∷ after
    → IsConsistent q
    → IsConsistent
        (record q { idle = q.idle + 1; busy = before ++ after; processed = id ∷ q.processed })
process-IsConsistent id before after q e c = record {
  bounded = c.bounded;
  staffed = omega (arith, c.staffed, ap length e, length-middle id before after);
  some_worker = c.some_worker;
  in_order = c.in_order;
  conserved = λ k. omega (
    arith,
    c.conserved k,
    ap (count k) e,
    count-append k before (id ∷ after),
    count-append k before after,
  );
  open_staffed = c.open_staffed;
  gone_empty = c.gone_empty;
}

leave-IsConsistent :
    (q : DeletionQueue)
    → q.closed ≡ true
    → q.tasks ≡ []
    → 0 < q.idle
    → IsConsistent q
    → IsConsistent (record q { idle = q.idle - 1; returned = q.returned + 1 })
leave-IsConsistent q shut none_left h c = record {
  bounded = c.bounded;
  staffed = omega (arith, c.staffed);
  some_worker = c.some_worker;
  in_order = c.in_order;
  conserved = c.conserved;
  open_staffed = λ open_. ground arith;
  gone_empty = λ g. none_left;
}

close-IsConsistent : (q : DeletionQueue) → IsConsistent q → IsConsistent (close_tasks q)
unfolding close_tasks
close-IsConsistent q c = record {
  bounded = ground arith;
  staffed = ground arith;
  some_worker = ground arith;
  in_order = ground arith;
  conserved = λ k. ground (arith, c.conserved k);
  open_staffed = ground arith;
  gone_empty = ground arith;
}

finish-IsConsistent :
    (timed_out : Bool) (q : DeletionQueue)
    → IsConsistent q
    → IsConsistent (finish_shutdown timed_out q).1
unfolding finish_shutdown
finish-IsConsistent timed_out q c = record {
  bounded = c.bounded;
  staffed = c.staffed;
  some_worker = c.some_worker;
  in_order = c.in_order;
  conserved = c.conserved;
  open_staffed = c.open_staffed;
  gone_empty = c.gone_empty;
}

pub Step-IsConsistent : {q q' : DeletionQueue} → Step q q' → IsConsistent q → IsConsistent q'
Step-IsConsistent {q} (queue id) c = queue-IsConsistent id q c
Step-IsConsistent {q} (receive id rest e h) c = receive-IsConsistent id rest q e h c
Step-IsConsistent {q} (process id before after e) c = process-IsConsistent id before after q e c
Step-IsConsistent {q} (leave shut none_left h) c = leave-IsConsistent q shut none_left h c
Step-IsConsistent {q} close c = close-IsConsistent q c
Step-IsConsistent {q} (finish shut all) c = finish-IsConsistent false q c
Step-IsConsistent {q} (give_up shut) c = finish-IsConsistent true q c

-- In every queue that can be reached from a new one: at most 1000 tasks wait, every worker is idle,
-- busy or gone, the identifiers accepted are those received followed by those that wait, in order,
-- every identifier is processed or in progress as often as it was received, and no worker is gone
-- while the queue is open or a task waits.
pub Reach-IsConsistent : (workers : ℕ) (q : DeletionQueue) → Reach workers q → IsConsistent q
Reach-IsConsistent workers q start = new_deletion_queue-IsConsistent workers
Reach-IsConsistent workers q (next {q = before} r s) =
    Step-IsConsistent s (Reach-IsConsistent workers before r)

pub no_busy : (bs : List Bytes) → length bs ≡ 0 → bs ≡ []
no_busy [] h = refl
no_busy (b ∷ bs) h = absurd (omega arith)

-- When every worker has returned, which is when Shutdown returns no error, no task waits or is in
-- progress, and each identifier was processed exactly as often as it was accepted.
pub drained :
    (workers : ℕ) (q : DeletionQueue)
    → Reach workers q
    → q.returned ≡ q.workers
    → (q.tasks ≡ []) × (q.busy ≡ []) × ((id : Bytes) → count id q.processed ≡ count id q.accepted)
drained workers q r all =
    let c = Reach-IsConsistent workers q r in
    let waiting = c.gone_empty (omega (arith, c.some_worker)) in
    let busy = no_busy q.busy (omega (arith, c.staffed)) in
    (
      waiting,
      busy,
      λ id. omega (
        arith,
        c.conserved id,
        ap (count id) busy,
        ap (count id) c.in_order,
        count-append id q.received q.tasks,
        ap (count id) waiting,
      ),
    )
