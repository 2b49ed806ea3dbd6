-- ===== src/Supervisor/Tests.antt =====
-- The theorems about the supervisor at a concrete actor and a concrete worker, whose futures are numbers.
use actix_async.Prelude.{
  length, ℕ, ◌+◌, ◌-◌, ◌≡◌, refl, true, false, none, some, [], ◌∷◌, ready, arith,
}
use actix_async.Oneshot.Calls.{IsOpen}
use actix_async.Oneshot.Flags.{is_ready, is_closed}
use actix_async.Listener
use actix_async.Listener.Refine.{empty, notify_up_to}
use actix_async.Listener.{notified, usize_max}
use actix_async.Listener.View.{View}
use actix_async.Listener.Events.{new-Stands}
use actix_async.Unbounded
use actix_async.Unbounded.{Unbounded}
use actix_async.Unbounded.Ops
use actix_async.Unbounded.Ops.{unbounded, space}
use actix_async.Channel.{Chan, poll_next}
use actix_async.Channel.State.{Holds, do_send-open, close-open}
use actix_async.Channel.Receive.{Parked, joined_by, poll_next-empty}
use actix_async.Channel.Notified.{IsFree, told}
use actix_async.Supervisor.{
  build, builder, workers, supervised, rounds, launch, Supervisor, stopping, answered,
  stop_supervisor,
}
use actix_async.Supervisor.Starts.{poll_start, poll_start-open}
use actix_async.Supervisor.Builds.{build-workers}
use actix_async.Supervisor.Stops.{stop_supervisor-once}
use actix_async.Supervisor.Worker.{WorkerFuture, limit, new, poll, stop_worker}
use actix_async.Supervisor.Restarts.{rounds-panicked}
use actix_async.Supervisor.Drains.{drive, stop-drains}

-- An error is whether it is a panic: two panics, a normal end, and what would have come after.
rounds-panicked_example :
    rounds
      (supervised (λ e. e))
      ((some true, false) ∷ (some true, false) ∷ (none, false) ∷ (some true, false) ∷ [])
      launch
    ≡ record { launched = 3; over = true }
rounds-panicked_example =
    rounds-panicked (λ e. e) ((some true, false) ∷ (some true, false) ∷ [])
      ((some true, false) ∷ []) (none, false) 1 (refl, refl, (refl, refl, tt)) refl

abbrev open_channel : Chan (unbounded ℕ)
open_channel = record {
  queue = Unbounded.new;
  in_queue = 0;
  cap = 2;
  send_ops = Listener.new;
  stream_ops = Listener.new;
  sender_count = 1;
  receiver_count = 1;
}

open_channel-Holds : Holds (unbounded ℕ) open_channel [] false space empty empty
open_channel-Holds = record {
  queue = Ops.new-Stands;
  send_ops = new-Stands;
  stream_ops = new-Stands;
}

-- The worker has polled the empty channel with the waker 4, then a future was sent, and the channel
-- was closed.
parked : Parked (unbounded ℕ) 4 open_channel empty (poll_next (unbounded ℕ) 4 none open_channel)
parked = poll_next-empty (unbounded ℕ) 4 open_channel space empty empty open_channel-Holds

abbrev listened : Chan (unbounded ℕ)
listened = record open_channel { stream_ops = parked.ev }

abbrev told_view : View
told_view = notify_up_to usize_max (joined_by empty parked.entry 4)

filled : (c : Chan (unbounded ℕ)) × Holds (unbounded ℕ) c (7 ∷ []) false (space - 1) empty told_view
filled =
    let (q, ev, sent, holds, log) =
      do_send-open (unbounded ℕ) 7 listened [] (space - 1) empty (joined_by empty parked.entry 4)
        (record { queue = Ops.new-Stands; send_ops = new-Stands; stream_ops = parked.stands }) in
    (record listened { queue = q; stream_ops = ev }, holds)

abbrev shut_view : View
shut_view = notify_up_to usize_max told_view

left_over :
    (c : Chan (unbounded ℕ)) × Holds
      (unbounded ℕ)
      c
      (7 ∷ [])
      true
      (space - 1)
      (notify_up_to usize_max empty)
      shut_view
left_over =
    let (c, closed, holds, _, _, _, _, _, _) =
      close-open (unbounded ℕ) filled.0 (7 ∷ []) (space - 1) empty told_view filled.1 in
    (c, holds)

told-IsFree : IsFree (some parked.entry) shut_view empty
told-IsFree = told parked.entry (notified false) [] [] []

abbrev worker : WorkerFuture ℕ
worker = record (new (unbounded ℕ)) { listener = some parked.entry }

exit-IsOpen : IsOpen worker.exit
unfolding is_closed is_ready
exit-IsOpen = record { small = omega arith; not_closed = refl; not_ready = refl }

stop-drains_example :
    (f1 f2 f3 : WorkerFuture ℕ) × (c2 c3 : Chan (unbounded ℕ)) × (stop_worker
        (unbounded ℕ)
        true
        worker
      ≡ (ready tt, f1))
    × (drive (unbounded ℕ) 1 4 f1 left_over.0 ≡ some (f2, c2))
    × (f2.spawned ≡ 7 ∷ [])
    × (f2.permits + 1 ≡ limit)
    × (poll (unbounded ℕ) 4 f2 c2 ≡ some (ready tt, f3, c3))
stop-drains_example =
    stop-drains (unbounded ℕ) 4 worker left_over.0 (7 ∷ []) (space - 1)
      (notify_up_to usize_max empty) shut_view empty left_over.1 told-IsFree refl (omega arith)
      exit-IsOpen

-- two futures of an actor whose channel is like that of the supervisor
poll_start-open_example :
    (tx : Chan (unbounded ℕ)) × (se st : View) × (poll_start
        (unbounded ℕ)
        (unbounded ℕ)
        7
        4
        2
        none
        open_channel
        open_channel
      ≡ some (
        ready tt,
        record { left = 0; fut = none; tx = tx; rx = record open_channel { receiver_count = 2 } },
      ))
    × Holds (unbounded ℕ) tx (7 ∷ 7 ∷ []) false (space - 2) se st
poll_start-open_example =
    poll_start-open (unbounded ℕ) (unbounded ℕ) 7 4 1 (space - 2) open_channel [] open_channel empty
      empty open_channel-Holds (omega arith) refl (omega arith)

abbrev supervisor : Supervisor ℕ (Chan (unbounded ℕ))
supervisor = record { join_handles = 1 ∷ 2 ∷ []; tx = open_channel; shutdown_timeout = 30000 }

stop_supervisor-once_example :
    (s1 s2 : Supervisor ℕ (Chan (unbounded ℕ))) × (stop_supervisor (unbounded ℕ) supervisor
      ≡ some (stopping (1 ∷ 2 ∷ []), s1))
    × (stop_supervisor (unbounded ℕ) s1 ≡ some (answered false, s2))
    × (s2.join_handles ≡ [])
    × Holds
        (unbounded ℕ)
        s2.tx
        []
        true
        space
        (notify_up_to usize_max empty)
        (notify_up_to usize_max empty)
stop_supervisor-once_example =
    stop_supervisor-once (unbounded ℕ) supervisor [] space empty empty open_channel-Holds

build-workers_example :
    (build (unbounded ℕ) (λ n. n) (workers 0 builder) ≡ none)
    × (s : Supervisor ℕ (Chan (unbounded ℕ))) × (build (unbounded ℕ) (λ n. n) (workers 2 builder)
        ≡ some s)
    × (length s.join_handles ≡ 2)
    × (s.tx.receiver_count ≡ 2)
    × (s.tx.cap ≡ 2)
    × (s.tx.sender_count ≡ 1)
build-workers_example = build-workers (unbounded ℕ) (λ n. n) builder 1 (omega arith)
