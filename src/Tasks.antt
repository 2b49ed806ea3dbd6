-- ===== src/Tasks.antt =====
-- actix-async/src/context_future.rs: `TaskRef`, the tasks of the messages that an actor handles
-- concurrently. A task is a future of the user's code: what a poll of it does is a parameter, and
-- so is the table, of the crate slab.
pub mod Slab
pub mod Kept
pub mod Polls
pub mod Rounds
pub mod Fair
pub mod Table
mod Tests
use actix_async.Prelude.{
  ℕ, zero, suc, ◌+◌, Bool, true, false, ◌==◌, if◌then◌else◌, Option, none, some, List, [], ◌∷◌,
  length, Poll, ready, pending,
}
use actix_async.Waker.{ActorWaker, WakeQueue, enqueue, wake_all}
use Slab.{SlabOps}

-- What a poll of a task does: its result, the task behind it, and the wakers that it wakes.
pub record TaskPoll {ℓ} (Fut : Type ℓ) : Type ℓ where
  pub result : Poll (Unit {0})
  pub after : Fut
  pub wakes : List ActorWaker

-- an entry of `task`, with the waker that its first poll made
pub record Task {ℓ} (Fut : Type ℓ) : Type ℓ where
  pub fut : Fut
  pub waker : Option ActorWaker

-- `TaskRef`, with the queue that it borrows
pub record TaskRef {ℓ} (Slab : Type ℓ) : Type ℓ where
  pub task : Slab
  pub queue : WakeQueue

-- the waker of a task at `idx`, made from the actor's waker `w` if it has none
abbrev pub waker_of : ℕ → ℕ → Option ActorWaker → ActorWaker
waker_of w idx none = record { idx = idx; waker = w }
waker_of w idx (some a) = a

-- `queue.try_lock().and_then(|mut l| l.pop_front())`, where the lock is free or not
unfoldable pub try_pop : Bool → List ℕ → Option (ℕ × List ℕ)
try_pop true (idx ∷ rest) = some (idx, rest)
try_pop _ _ = none

module _ {ℓ} {Fut : Type ℓ} (S : SlabOps (Task Fut))
    (poll_fut : ActorWaker → Fut → TaskPoll Fut) where
  abbrev pub Tasks : Type ℓ
  Tasks = TaskRef (S.Slab)

  -- `TaskRef::new`
  abbrev pub new : WakeQueue → Tasks
  new q = record { task = S.new; queue = q }

  -- `TaskRef::is_empty` and `TaskRef::len`
  abbrev pub len : Tasks → ℕ
  len t = S.len t.task

  abbrev pub is_empty : Tasks → Bool
  is_empty t = S.len t.task == 0

  -- `TaskRef::add_task`
  unfoldable pub add_task : Fut → Tasks → Tasks
  add_task fut t =
      let (idx, task) = S.insert (record { fut = fut; waker = none }) t.task in
      record { task = task; queue = enqueue idx t.queue }

  -- the poll of a task that stands in the table; a task that is done is removed
  unfoldable pub poll_found : ℕ → ℕ → Task Fut → Tasks → Tasks
  poll_found w idx x t =
      let a = waker_of w idx x.waker in
      let p = poll_fut a x.fut in
      let kept = S.set idx (record { fut = p.after; waker = some a }) t.task in
      record {
        task = elim p.result [ ready _ ↦ S.remove idx kept | pending ↦ kept ];
        queue = wake_all p.wakes t.queue;
      }

  -- the body of the loop of `poll_task`, for an index that was taken off the queue
  unfoldable pub poll_one : ℕ → ℕ → Tasks → Tasks
  poll_one w idx t = elim (S.get idx t.task) [ none ↦ t | some x ↦ poll_found w idx x t ]

  -- what `poll_task` returns when its loop ends by itself
  unfoldable pub finish : Tasks → Poll (Unit {0})
  finish t = if is_empty t then ready tt else pending

  -- The loop of `poll_task`, on fuel. `free n` says whether the lock of the queue is free at the
  -- n-th `try_lock`; `n` is the number of tasks polled, and `bound` the length at the start.
  unfoldable pub poll_loop : ℕ → ℕ → (ℕ → Bool) → ℕ → ℕ → Tasks → Option (Poll (Unit {0}) × Tasks)
  poll_loop zero w free bound n t = none
  poll_loop (suc fuel) w free bound n t = elim (try_pop (free n) t.queue.queued) [
    | none ↦ some (finish t, t)
    | some (idx, rest) ↦
        let t1 = poll_one w idx (record t { queue = record t.queue { queued = rest } }) in
        elim (n + 1 == bound) [
          | true ↦ some (ready tt, t1)
          | false ↦ poll_loop fuel w free bound (n + 1) t1
        ]
  ]

  -- the rounds that `poll_task` may take
  abbrev pub rounds : Tasks → ℕ
  rounds t = suc (S.len t.task + length t.queue.queued)

  -- One poll of `TaskRef::poll_task` with the waker `w`
  unfoldable pub poll_task : ℕ → (ℕ → Bool) → Tasks → Option (Poll (Unit {0}) × Tasks)
  poll_task w free t = poll_loop (rounds t) w free (S.len t.task) 0 t
