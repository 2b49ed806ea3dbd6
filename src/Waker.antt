-- ===== src/Waker.antt =====
-- actix-async/src/waker.rs: the wakers of an actor's tasks. A waker of the executor is a number; the
-- queue is a list, oldest index first, and every waker shares the queue of its actor.
use actix_async.Prelude.{ℕ, List, [], ◌∷◌, ◌++◌}

-- `ActorWaker`, less its handle of the queue
pub record ActorWaker : Type 0 where
  pub idx : ℕ
  pub waker : ℕ

-- `WakeQueue`, with the log of the wakers of the executor that were woken, newest first
pub record WakeQueue : Type 0 where
  pub queued : List ℕ
  pub woken : List ℕ

-- `WakeQueue::new`
abbrev pub new : WakeQueue
new = record { queued = []; woken = [] }

-- `WakeQueue::enqueue`
abbrev pub enqueue : ℕ → WakeQueue → WakeQueue
enqueue idx q = record q { queued = q.queued ++ idx ∷ [] }

-- `ActorWaker::wake_by_ref`, which is `wake`
abbrev pub wake_by_ref : ActorWaker → WakeQueue → WakeQueue
wake_by_ref a q =
    let q1 = enqueue a.idx q in record { queued = q1.queued; woken = a.waker ∷ q1.woken }

-- the calls of `wake` made while a task is polled
abbrev pub wake_all : List ActorWaker → WakeQueue → WakeQueue
wake_all [] q = q
wake_all (a ∷ rest) q = wake_all rest (wake_by_ref a q)
