-- ===== src/Tasks/Tests.antt =====
-- The theorems about the tasks at a concrete table, with tasks that are done after some polls.
use actix_async.Prelude.{
  ℕ, zero, suc, ◌≡◌, ◌<◌, refl, true, Option, none, some, List, [], ◌∷◌, ◌++◌, Poll, ready, pending,
  arith,
}
use actix_async.Waker
use actix_async.Waker.{ActorWaker}
use actix_async.Tasks.{
  TaskPoll, Task, TaskRef, len, add_task, poll_one, poll_found, poll_loop, poll_task, try_pop,
  finish,
}
use actix_async.Tasks.Table.{table}
use actix_async.Tasks.Kept.{Kept, add_task-Kept}
use actix_async.Tasks.Polls.{Polled, poll_task-Polled}
use actix_async.Tasks.Fair.{WasPolled, fut_at, poll_task-WasPolled}

-- A task is the number of polls until it is done; it wakes itself at each poll before the last.
abbrev countdown : ActorWaker → ℕ → TaskPoll ℕ
countdown a zero = record { result = ready tt; after = zero; wakes = [] }
countdown a (suc n) = record { result = pending; after = n; wakes = a ∷ [] }

abbrev no_tasks : TaskRef (List (Option (Task ℕ)))
no_tasks = record { task = []; queue = Waker.new }

abbrev two : TaskRef (List (Option (Task ℕ)))
two = add_task table countdown 1 (add_task table countdown 0 no_tasks)

no_tasks-Kept : Kept table countdown no_tasks
no_tasks-Kept k x e = absurd (ground arith)

two-Kept : Kept table countdown two
two-Kept =
    add_task-Kept table countdown 1 (add_task table countdown 0 no_tasks)
      (add_task-Kept table countdown 0 no_tasks no_tasks-Kept)

-- The first task is done at its first poll, the second wakes itself.
two-polls :
    poll_task table countdown 9 (λ _. true) two
    ≡ some (
      ready tt,
      record {
        task = none ∷ some (record { fut = 0; waker = some (record { idx = 1; waker = 9 }) }) ∷ [];
        queue = record { queued = 1 ∷ []; woken = 9 ∷ [] };
      },
    )
unfolding poll_task poll_loop poll_one poll_found try_pop finish add_task
two-polls = refl

add_task-Kept_example : Kept table countdown (add_task table countdown 5 two)
add_task-Kept_example = add_task-Kept table countdown 5 two two-Kept

poll_task-Polled_example :
    (r : Poll (Unit {0})) × (t : TaskRef (List (Option (Task ℕ)))) × (poll_task table countdown 9
        (λ _. true)
        two
      ≡ some (r, t))
    × Polled table countdown (λ _. true) r t
poll_task-Polled_example = poll_task-Polled table countdown 9 (λ _. true) two two-Kept

two-queued : two.queue.queued ≡ (0 ∷ []) ++ 1 ∷ []
unfolding add_task
two-queued = refl

two-room : 1 < len table countdown two
unfolding add_task
two-room = omega arith

two-there : table.get 1 two.task ≡ some (record { fut = 1; waker = none })
unfolding add_task
two-there = refl

poll_task-WasPolled_example :
    (r : Poll (Unit {0})) × (t : TaskRef (List (Option (Task ℕ)))) × (poll_task table countdown 9
        (λ _. true)
        two
      ≡ some (r, t))
    × WasPolled table countdown 1 (fut_at table countdown 1 t.task)
poll_task-WasPolled_example =
    poll_task-WasPolled table countdown 9 1 (0 ∷ []) [] (record { fut = 1; waker = none }) two
      two-Kept two-queued two-there two-room
