-- ===== src/DeletionQueue/Progress.antt =====
-- Why Shutdown of src/services/deletion_queue.go comes to an end: what is left to the workers.
use mathlib.Core.Path.{subst}
use bincrypt.Prelude.{
  ℕ, zero, suc, ◌+◌, ◌*◌, ◌<◌, ◌≡◌, refl, sym, ◌∙◌, ap, Bool, true, false, List, [], ◌∷◌, Bytes,
  arith, length, if◌then◌else◌,
}
use bincrypt.DeletionQueue.{DeletionQueue, queue_deletion, close_tasks, finish_shutdown}
use bincrypt.DeletionQueue.Steps.{
  Step, queue, receive, process, leave, close, finish, give_up, Reach, next,
}
use bincrypt.DeletionQueue.Accounts.{
  IsConsistent, Reach-IsConsistent, length-middle, count, drained,
}

-- Whether a step is an action of a worker, as against one of a handler or of Shutdown.
unfoldable pub is_worker : {q q' : DeletionQueue} → Step q q' → Bool
is_worker (receive id rest e h) = true
is_worker (process id before after e) = true
is_worker (leave shut none_left h) = true
is_worker (queue id) = false
is_worker close = false
is_worker (finish shut all) = false
is_worker (give_up shut) = false

-- A sequence of steps, with the number of those that are a worker's.
pub data Run (q : DeletionQueue) : DeletionQueue → ℕ → Type 0 where
  here : Run q q 0
  more :
      {q' q'' : DeletionQueue} {n : ℕ}
      → Run q q' n
      → (s : Step q' q'') → Run q q'' ((if is_worker s then 1 else 0) + n)

-- What the workers have left to do: receive each task that waits, process each that was received,
-- and return, each worker once.
abbrev pub pending : DeletionQueue → ℕ
pending q = 2 * length q.tasks + 2 * length q.busy + q.idle

-- After a step of a closed queue it is closed, and a step of a worker leaves one action less.
pub Step-pending :
    {q q' : DeletionQueue}
    → (s : Step q q') → q.closed ≡ true
    → (q'.closed ≡ true) × (pending q ≡ (if is_worker s then 1 else 0) + pending q')
unfolding is_worker queue_deletion close_tasks finish_shutdown
Step-pending {q} (queue id) shut = (ground arith, ground arith)
Step-pending {q} (receive id rest e h) shut = (shut, omega (arith, ap length e))
Step-pending {q} (process id before after e) shut =
    (shut, omega (arith, ap length e, length-middle id before after))
Step-pending {q} (leave _ none_left h) shut = (shut, omega arith)
Step-pending {q} close shut = (ground arith, ground arith)
Step-pending {q} (finish _ all) shut = (shut, ground arith)
Step-pending {q} (give_up _) shut = (shut, ground arith)

pub Run-pending :
    {q q' : DeletionQueue} {n : ℕ}
    → Run q q' n
    → q.closed ≡ true
    → (q'.closed ≡ true) × (pending q ≡ n + pending q')
Run-pending here shut = (shut, omega arith)
Run-pending (more {n = n} r s) shut =
    let (shut', e) = Run-pending r shut in
    let (shut'', e') = Step-pending s shut' in (shut'', omega (arith, e, e'))

pub Reach-Run :
    {workers : ℕ} {q q' : DeletionQueue} {n : ℕ} → Reach workers q → Run q q' n → Reach workers q'
Reach-Run reached here = reached
Reach-Run reached (more r s) = next (Reach-Run reached r) s

-- One step of a worker, or with `n` steps before it.
abbrev pub CanWork : DeletionQueue → Type 0
CanWork q = (q' : DeletionQueue) × (s : Step q q') × (is_worker s ≡ true)

-- A worker of a closed queue with something left to do can do it: process what is in progress,
-- or else receive what waits, or else return.
can_work :
    (q : DeletionQueue)
    → q.closed ≡ true
    → IsConsistent q
    → 0 < pending q
    → (tasks busy : List Bytes) → q.tasks ≡ tasks
    → q.busy ≡ busy
    → CanWork q
unfolding is_worker
can_work q shut c h tasks (b ∷ bs) waiting working = (_, process b [] bs working, refl)
can_work q shut c h [] [] waiting working =
    (_, leave shut waiting (omega (arith, ap length waiting, ap length working)), refl)
can_work q shut c h (t ∷ ts) [] waiting working = (_, receive t ts waiting some_idle, refl)
  where
    not_empty : t ∷ ts ≡ [] → ⊥
    not_empty e = cc

    idle_or_gone : (i : ℕ) → q.idle ≡ i → 0 < q.idle
    idle_or_gone (suc i) e = omega (arith, e)
    idle_or_gone zero e =
        let gone : 0 < q.returned = omega (arith, e, ap length working, c.staffed, c.some_worker) in
        absurd (not_empty (sym waiting ∙ c.gone_empty gone))

    some_idle : 0 < q.idle
    some_idle = idle_or_gone q.idle refl

-- The workers of a closed queue can go on until nothing is left.
finish_work :
    {workers : ℕ} {q₀ : DeletionQueue}
    → (n m : ℕ) (q : DeletionQueue) → Reach workers q
    → q.closed ≡ true
    → pending q ≡ n
    → Run q₀ q m
    → (end_ : DeletionQueue) × Run q₀ end_ (n + m) × (pending end_ ≡ 0)
finish_work {q₀ = q₀} zero m q reached shut e r =
    (q, subst (λ (k : ℕ). Run q₀ q k) {x = m} (omega arith) r, e)
finish_work {q₀ = q₀} (suc n) m q reached shut e r =
    let c = Reach-IsConsistent _ q reached in
    let (q', s, w) = can_work q shut c (omega (arith, e)) q.tasks q.busy refl refl in
    let (shut', e') = Step-pending s shut in
    let (end_, r', done) =
      finish_work n _ q' (next reached s) shut' (ground (arith, e, e', w)) (more r s) in
    (
      end_,
      subst (λ (k : ℕ). Run q₀ end_ k) {x = n + ((if is_worker s then 1 else 0) + m)}
          (ground (arith, w)) r',
      done,
    )

-- Once a queue that a new one can come to is closed, the workers that go on taking steps come to an
-- end, whatever the handlers and Shutdown do in between: after any run, with n steps of the workers
-- among its own, 2 × (tasks that wait) + 2 × (tasks in progress) + (idle workers) has fallen by just
-- n; while it is not 0 a worker can take a step; and from the queue that the run has come to it can
-- be continued, by just as many steps of the workers as are left, to one in which every worker has
-- returned, no task waits or is in progress, and every identifier was processed as often as it was
-- accepted.
pub closed-drains :
    (workers : ℕ) (q q' : DeletionQueue) (n : ℕ)
    → Reach workers q
    → q.closed ≡ true
    → Run q q' n
    → (pending q ≡ n + pending q')
      × (0 < pending q' → CanWork q')
      × ((end_ : DeletionQueue) × Run q' end_ (pending q')
          × (end_.returned ≡ end_.workers)
          × (end_.tasks ≡ [])
          × (end_.busy ≡ [])
          × ((id : Bytes) → count id end_.processed ≡ count id end_.accepted))
closed-drains workers q q' n reached shut r =
    let (shut', left) = Run-pending r shut in
    let reached' = Reach-Run reached r in
    let c = Reach-IsConsistent workers q' reached' in
    let (end_, r', done) = finish_work (pending q') 0 q' reached' shut' refl here in
    let at_end = Reach-Run reached' r' in
    let all = Reach-IsConsistent workers end_ at_end in
    let gone : end_.returned ≡ end_.workers = omega (arith, done, all.staffed) in
    let counted = drained workers end_ at_end gone in
    (
      left,
      λ some_left. can_work q' shut' c some_left q'.tasks q'.busy refl refl,
      (
        end_,
        subst (λ (k : ℕ). Run q' end_ k) {x = pending q' + 0} (omega arith) r',
        gone,
        counted.0,
        counted.1,
        counted.2,
      ),
    )
