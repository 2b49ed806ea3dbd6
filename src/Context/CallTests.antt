-- ===== src/Context/CallTests.antt =====
-- The theorems about the calls of a context at concrete channels, timers and streams.
use actix_async.Prelude.{
  ℕ, zero, suc, ◌≡◌, refl, Option, none, some, [], ◌∷◌, Poll, ready, pending, true, false, ok, ◌-◌,
  false, ok, ◌-◌,
}
use actix_async.Listener
use actix_async.Listener.{Event, notified, usize_max}
use actix_async.Listener.View.{View}
use actix_async.Listener.Refine.{empty, notify_up_to, woken_up_to}
use actix_async.Listener.Events.{new-Stands, woken}
use actix_async.Unbounded
use actix_async.Unbounded.{Unbounded}
use actix_async.Tasks.Table.{table}
use actix_async.Context.State.{selecting, goes}
use actix_async.Context.Run.{Runs, advance, on_message}
use actix_async.Context.Reach.{begin}
use actix_async.Context.Actor.{User, Receiver, actor, with_rx, takes-oldest}
use actix_async.Unbounded.Ops
use actix_async.Unbounded.Ops.{unbounded, space}
use actix_async.Channel.{Chan, do_send, poll_next}
use actix_async.Channel.Queue.{QueueOps}
use actix_async.Channel.State.{Holds, do_send-open, told_room}
use actix_async.Channel.Receive.{Parked, joined_by, poll_next-empty}
use actix_async.Channel.Notified.{IsFree, told}
use actix_async.Message.{
  ActorState, ActorMessage, MessageContainer, new_ref, new_mut, Runtime, StreamMessage,
}
use actix_async.Message
use actix_async.Context.{ContextInner, new}
use actix_async.Context.Calls.{
  Ctx, run_later, run_wait_later, add_stream, add_wait_stream, stop, address,
}
use actix_async.Context.Spawned.{
  drive_futures, drive_streams, poll_entry, stop-refuses, spawned-fires,
}

abbrev queue : QueueOps (ActorMessage (MessageContainer ℕ))
queue = unbounded (ActorMessage (MessageContainer ℕ))

abbrev open_channel : Chan queue
open_channel = record {
  queue = Unbounded.new;
  in_queue = 0;
  cap = 2;
  send_ops = Listener.new;
  stream_ops = Listener.new;
  sender_count = 1;
  receiver_count = 1;
}

stop-refuses_example :
    (ctx : ContextInner (Chan queue) ℕ ℕ) × (stop queue (new open_channel) ≡ some ctx)
    × (ctx.state ≡ ActorState.stop_graceful)
    × Holds queue ctx.rx [] true space (notify_up_to usize_max empty) (notify_up_to usize_max empty)
    × (address queue ctx ≡ some none)
stop-refuses_example =
    stop-refuses queue (new open_channel) [] space empty empty
      (record { queue = Ops.new-Stands; send_ops = new-Stands; stream_ops = new-Stands })

abbrev count_down : ℕ → ℕ → Poll (Unit {0}) × ℕ
count_down w zero = (ready tt, zero)
count_down w (suc n) = (pending, n)

abbrev clock : Runtime ℕ
clock = record { sleep = λ n. n; poll_sleep = count_down }

-- a stream that counts down from its next item
abbrev items : ℕ → ℕ → Poll (Option ℕ) × ℕ
items w zero = (ready none, zero)
items w (suc n) = (ready (some n), n)

-- a stream that is pending as often as it has items, with one item more at each poll
abbrev slow_items : ℕ → ℕ × ℕ → Poll (Option ℕ) × (ℕ × ℕ)
slow_items w (zero, item) = (ready (some item), (zero, suc item))
slow_items w (suc n, item) = (pending, (n, item))

-- a message is a number, and so is a closure: the ones of exclusive handling have a successor
abbrev ctx : Ctx ℕ ℕ (ℕ × ℕ) (Unit {0})
ctx = new tt

-- a timer of two units, and a stream that is pending once
spawned-fires_example :
    (drive_futures
        (Message.poll_future clock)
        (4 ∷ 4 ∷ [])
        4
        (run_later clock (λ f. f) suc 2 5 ctx).1.future_cache
      ≡ some (ready (new_ref 5 none), []))
    × (drive_futures
          (Message.poll_future clock)
          (4 ∷ 4 ∷ [])
          4
          (run_wait_later clock (λ f. f) suc 2 5 ctx).1.future_cache
        ≡ some (ready (new_mut 6 none), []))
    × (x y : StreamMessage ℕ ℕ (ℕ × ℕ)) × (drive_streams
          (poll_entry clock slow_items)
          (4 ∷ [])
          4
          (add_stream (1, 7) ctx).1.stream_cache
        ≡ some (ready (new_ref 7 none), x ∷ []))
    × (drive_streams
          (poll_entry clock slow_items)
          (4 ∷ [])
          4
          (add_wait_stream (1, 7) ctx).1.stream_cache
        ≡ some (ready (new_mut 7 none), y ∷ []))
spawned-fires_example =
    spawned-fires clock slow_items (λ f. f) suc (4 ∷ 4 ∷ []) (4 ∷ []) 4 2 5 5 (1, 7) 7 ctx refl refl
      (refl, (refl, refl)) (refl, refl)

abbrev five : ActorMessage (MessageContainer ℕ)
five = new_ref 5 none

open_channel-Holds : Holds queue open_channel [] false space empty empty
open_channel-Holds = record {
  queue = Ops.new-Stands;
  send_ops = new-Stands;
  stream_ops = new-Stands;
}

-- The receiver has polled the empty channel with the waker 4, and a message was sent since.
parked : Parked queue 4 open_channel empty (poll_next queue 4 none open_channel)
parked = poll_next-empty queue 4 open_channel space empty empty open_channel-Holds

abbrev listened : Chan queue
listened = record open_channel { stream_ops = parked.ev }

abbrev told_view : View
told_view = notify_up_to usize_max (joined_by empty parked.entry 4)

sent :
    (q : queue.Queue) × (ev : Event) × (do_send queue five listened
      ≡ some (ok tt, record listened { queue = q; stream_ops = ev }))
    × Holds queue
        (record listened { queue = q; stream_ops = ev })
        (five ∷ [])
        false
        (space - 1)
        empty
        told_view
    × (woken ev ≡ woken_up_to usize_max (joined_by empty parked.entry 4) (woken parked.ev))
sent =
    do_send-open queue five listened [] (space - 1) empty (joined_by empty parked.entry 4)
      (record { queue = Ops.new-Stands; send_ops = new-Stands; stream_ops = parked.stands })

told-IsFree : IsFree (some parked.entry) told_view empty
told-IsFree = told parked.entry (notified false) [] [] []

-- an actor whose futures are done at once
abbrev at_once : User ℕ ℕ
at_once = record {
  handle = λ c. 0;
  handle_wait = λ c. 0;
  on_start = 0;
  on_stop = 0;
  size_hint = 2;
  poll_task = λ a n. record { result = ready tt; after = n; wakes = [] };
  poll_fut = λ w n. (ready tt, n);
}

abbrev mailbox : Receiver (Chan queue)
mailbox = record {
  listener = some parked.entry;
  chan = record listened { queue = sent.0; stream_ops = sent.1 };
  panicked = false;
}

-- a run that polls its mailbox, which holds one message
abbrev waiting : Runs table (actor queue clock items at_once)
waiting = record (begin table (actor queue clock items at_once) (new mailbox)) {
  pc = selecting true false true;
}

takes-oldest_example :
    (rx : Receiver (Chan queue)) × (advance table
        (actor queue clock items at_once)
        4
        (λ _. true)
        waiting
      ≡ some (
        goes,
        on_message table
            (actor queue clock items at_once)
            five
            (with_rx queue clock items at_once table rx waiting),
      ))
    × Holds queue rx.chan [] false (space - 1) (told_room queue mailbox.chan empty) empty
    × (rx.listener ≡ none)
    × (rx.panicked ≡ false)
takes-oldest_example =
    takes-oldest queue clock items at_once table 4 (λ _. true) false true waiting five [] false
      (space - 1) empty told_view empty refl refl sent.3 told-IsFree
