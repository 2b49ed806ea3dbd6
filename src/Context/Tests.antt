-- ===== src/Context/Tests.antt =====
-- The theorems about the context at a concrete actor, whose messages and tasks are numbers: how often
-- a future is polled until it is done.
use actix_async.Prelude.{
  ℕ, zero, suc, ◌≡◌, refl, true, false, Option, none, some, List, [], ◌∷◌, Option-cases, inl, inr,
  Poll, ready, pending, arith,
}
use actix_async.Cache
use actix_async.Tasks
use actix_async.Waker.{ActorWaker}
use actix_async.Tasks.{
  TaskPoll, Task, TaskRef, add_task, poll_one, poll_found, poll_loop, poll_task, try_pop,
}
use actix_async.Tasks.Table.{table}
use actix_async.Message.{ActorState, ActorMessage, by_ref, by_mut, set_state}
use actix_async.Context.{new}
use actix_async.Context.State.{Parts, exclusive, selecting, resolving, finished, Progress}
use actix_async.Context.Run.{
  Runs, await, finish, step, advance, on_taken, on_message, on_output, on_state, on_left,
  poll_select, fut_rx, fut_tasks, fut_streams, fut_futures,
}
use actix_async.Context.Select.{select, poll_arm}
use actix_async.Context.Room.{HasRoom}
use actix_async.Context.Bounds.{advance-HasRoom}
use actix_async.Context.PollRun.{Polls, poll_run-ends}
use actix_async.Context.Reach.{
  exclusive-alone, graceful-clean, Reached-Inv, begin, Reached, begins, goes_on, advances,
}

-- the mailbox, a list of messages; it is never closed
abbrev poll_list :
    ℕ → List (ActorMessage ℕ) → Poll (Option (ActorMessage ℕ)) × List (ActorMessage ℕ)
poll_list w [] = (pending, [])
poll_list w (m ∷ ms) = (ready (some m), ms)

-- A task is the number of polls until it is done; it wakes itself at each poll before the last.
abbrev countdown : ActorWaker → ℕ → TaskPoll ℕ
countdown a zero = record { result = ready tt; after = zero; wakes = [] }
countdown a (suc n) = record { result = pending; after = n; wakes = a ∷ [] }

abbrev poll_count : ℕ → ℕ → Poll (Unit {0}) × ℕ
poll_count w zero = (ready tt, zero)
poll_count w (suc n) = (pending, n)

abbrev parts : Parts ℕ ℕ (List (ActorMessage ℕ)) (List (ActorMessage ℕ)) (List (ActorMessage ℕ))
parts = record {
  handle = λ n. n;
  handle_wait = λ n. n;
  on_start = 0;
  on_stop = 0;
  size_hint = 2;
  poll_task = countdown;
  poll_fut = poll_count;
  poll_rx = poll_list;
  poll_str = poll_list;
  poll_del = poll_list;
}

abbrev Sample : Type 0
Sample = Runs table parts

abbrev started : List (ActorMessage ℕ) → Sample
started rx = begin table parts (new rx)

-- steps of `run`, one after the other, with a lock that is free
abbrev walk : ℕ → Sample → Sample
walk zero r = r
walk (suc n) r = elim (advance table parts 9 (λ _. true) r) [ none ↦ r | some (p, r') ↦ walk n r' ]

walk-Reached : (n : ℕ) (r : Sample) → Reached table parts r → Reached table parts (walk n r)
walk-Reached zero r h = h
walk-Reached (suc n) r h = elim (Option-cases (advance table parts 9 (λ _. true) r)) [
  | inl e ↦ rw (e, walk) h
  | inr ((p, r'), e) ↦
      rw (e, walk) (walk-Reached n r' (goes_on r r' h (advances 9 (λ _. true) p r r' e)))
]

abbrev stopped_late : Sample
stopped_late = started (by_ref 1 ∷ by_mut 1 ∷ set_state ActorState.stop_graceful 7 ∷ [])

abbrev stopped_soon : Sample
stopped_soon = started (by_ref 3 ∷ set_state ActorState.stop_graceful 7 ∷ by_ref 1 ∷ [])

-- The first is in an exclusive handler after 16 steps and has returned after 26; the second is to poll
-- its mailbox after 3, and has a task to resolve and a message left after 7.
walks :
    ((walk 16 stopped_late).pc ≡ exclusive 1)
    × ((walk 26 stopped_late).pc ≡ finished)
    × ((walk 26 stopped_late).forced ≡ false)
    × ((walk 3 stopped_soon).pc ≡ selecting true false true)
    × ((walk 7 stopped_soon).pc ≡ resolving)
    × ((walk 7 stopped_soon).board.ctx.rx ≡ by_ref 1 ∷ [])
unfolding advance step await finish on_taken on_message on_output on_state on_left poll_select
    select poll_arm fut_rx fut_tasks fut_streams fut_futures poll_task poll_loop poll_one poll_found
    try_pop Tasks.finish add_task Cache.poll_stream Cache.poll_future Cache.scan
walks = (refl, refl, refl, refl, refl, refl)

late : (n : ℕ) → Reached table parts (walk n stopped_late)
late n = walk-Reached n stopped_late (begins stopped_late.board.ctx)

soon : (n : ℕ) → Reached table parts (walk n stopped_soon)
soon n = walk-Reached n stopped_soon (begins stopped_soon.board.ctx)

exclusive-alone_example :
    (table.len (walk 16 stopped_late).board.tasks.task ≡ 0)
    × ((walk 16 stopped_late).task_mut ≡ none)
    × ((walk 16 stopped_late).dropped ≡ 0)
    × ((walk 16 stopped_late).lost ≡ 0)
exclusive-alone_example =
    exclusive-alone table parts (walk 16 stopped_late) 1 (late 16) (inl walks.0)

graceful-clean_example :
    ((walk 26 stopped_late).dropped ≡ 0)
    × ((walk 26 stopped_late).lost ≡ 0)
    × (table.len (walk 26 stopped_late).board.tasks.task ≡ 0)
graceful-clean_example = graceful-clean table parts (walk 26 stopped_late) (late 26) walks.1 walks.2

advance-HasRoom_example :
    (p : Progress) × (r : Sample) × (advance table parts 9 (λ _. true) (walk 3 stopped_soon)
      ≡ some (p, r))
    × HasRoom table parts r
unfolding advance step await finish on_taken on_message on_output on_state on_left poll_select
    select poll_arm fut_rx fut_tasks fut_streams fut_futures poll_task poll_loop poll_one poll_found
    try_pop Tasks.finish add_task Cache.poll_stream Cache.poll_future Cache.scan
advance-HasRoom_example =
    advance-HasRoom table parts 9 (λ _. true) (walk 3 stopped_soon)
      (Reached-Inv table parts (walk 3 stopped_soon) (soon 3)) tt (refl, refl) (ground arith)

poll_run-ends_example : Polls table parts 7 9 (λ _ _. true) (walk 7 stopped_soon)
poll_run-ends_example =
    poll_run-ends table parts 9 (λ _ _. true) (walk 7 stopped_soon)
      (Reached-Inv table parts (walk 7 stopped_soon) (soon 7)) (rw walks.4 tt) (rw walks.4 tt)
