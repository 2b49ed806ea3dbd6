-- ===== src/Address/Tests.antt =====
-- The theorems about addresses at the channel of the crate, with numbers for messages and answers.
use actix_async.Prelude.{
  ℕ, zero, suc, ◌-◌, ◌≡◌, refl, true, false, Option, none, some, ◌>>=◌, List, [], ◌∷◌, Poll, ready,
  pending, ok, err, arith,
}
use actix_async.Error.{ActixAsyncError}
use actix_async.Oneshot
use actix_async.Oneshot.{Inner}
use actix_async.Oneshot.Flags.{is_ready, is_closed}
use actix_async.Listener
use actix_async.Listener.{usize_max}
use actix_async.Listener.Refine.{empty, notify_up_to}
use actix_async.Listener.Events.{new-Stands}
use actix_async.Unbounded
use actix_async.Unbounded.{Unbounded}
use actix_async.Unbounded.Ops
use actix_async.Unbounded.Ops.{unbounded, space}
use actix_async.Channel.{Chan, send_poll, try_recv, drop_send, drop_sender}
use actix_async.Channel.Queue.{QueueOps}
use actix_async.Channel.State.{Holds}
use actix_async.Channel.Room.{told_next, Sent, send_poll-open}
use actix_async.Message.{Runtime, ActorMessage, MessageContainer, new_ref}
use actix_async.Handler.{Handling}
use actix_async.Request
use actix_async.Request.{MessageRequest, request, response}
use actix_async.Address.{
  Message, Sending, poll_sending, drop_sending, sending, WeakSending, unsent, poll_weak, do_weak_by,
}
use actix_async.Address.Shared.{
  Cells, Turn, handles, asks, start_handling, Requests, send_shared, poll_request,
}
use actix_async.Address.Turns.{message, container}
use actix_async.Address.Replies.{Replied, request-reply}
use actix_async.Address.Timeouts.{Tells, address_timeouts-tell}
use actix_async.Address.Weak.{last_drop-ends_weak, weak_send-open}

abbrev queue : QueueOps (ActorMessage (MessageContainer ℕ))
queue = unbounded (ActorMessage (MessageContainer ℕ))

abbrev left : ℕ
left = space - 1

abbrev count_down : ℕ → ℕ → Poll (Unit {0}) × ℕ
count_down w zero = (ready tt, zero)
count_down w (suc n) = (pending, n)

abbrev clock : Runtime ℕ
clock = record { sleep = λ n. n; poll_sleep = count_down }

-- the future of a handler, which is pending some times and done with 9
abbrev slow : ℕ → ℕ → Poll ℕ × ℕ
slow w zero = (ready 9, zero)
slow w (suc n) = (pending, n)

abbrev idle : Chan queue
idle = record {
  queue = Unbounded.new;
  in_queue = 0;
  cap = 2;
  send_ops = Listener.new;
  stream_ops = Listener.new;
  sender_count = 1;
  receiver_count = 1;
}

idle-Holds : Holds queue idle [] false space empty empty
idle-Holds = record { queue = Ops.new-Stands; send_ops = new-Stands; stream_ops = new-Stands }

abbrev by_request : ℕ → Message queue
by_request tx = new_ref 5 (some tx)

-- a handler that is pending once, and asked for its answer in between
abbrev turns : List Turn
turns = handles 6 ∷ asks 8 ∷ []

request-reply_example :
    let (m, k) = send_shared queue clock slow (message false 5) 1 idle (λ _. Oneshot.new {T = ℕ}) in
    (s : Sending queue) × (c2 : Chan queue) × (h : Handling ℕ) × (m1 : Requests queue clock slow)
    × (k1 : Cells ℕ) × (poll_request queue clock slow 4 1 m k ≡ some (pending, m1, k1, some s))
    × (try_recv queue s.1 ≡ some (ok (by_request 1), c2))
    × ((container (by_request 1) >>= λ b. start_handling (λ n. 1) b) ≡ some (h, some 1))
    × Replied queue clock slow turns 4 6 7 1 9 h m1 k1
request-reply_example =
    request-reply queue clock slow false 5 (λ n. 1) turns 4 6 7 1 9 idle (λ _. Oneshot.new) left
      empty empty idle-Holds (omega arith) (refl, refl)

-- a request whose answer must come at once; the drop of its `SendFuture` leaves no listener
abbrev late : MessageRequest ℕ (Sending queue) ℕ
late = request (sending queue idle (by_request 1)) Oneshot.new none (some 0)

late-Sent :
    Sent queue
      (by_request 1)
      none
      idle
      []
      left
      empty
      empty
      (send_poll queue 4 (record { listener = none; msg = some (by_request 1) }) idle)
late-Sent =
    send_poll-open queue 4 none (by_request 1) idle [] left empty empty idle-Holds (omega arith)

abbrev later : MessageRequest ℕ (Sending queue) ℕ
later = response (Oneshot.poll 4 (Oneshot.new {T = ℕ})).1 (some 0)

abbrev dropped : Option (Sending queue)
dropped = some (record { listener = none; msg = none }, late-Sent.next)

late-runs_out :
    Request.poll clock (poll_sending queue) (drop_sending queue) 4 late
    ≡ some (ready (err ActixAsyncError.receive_timeout), later, dropped)
unfolding Request.poll Request.poll_response Oneshot.poll Oneshot.handle_state
    Oneshot.after_register is_ready is_closed poll_sending drop_sending drop_send
    Listener.drop_listener
late-runs_out = rw (late-Sent.result, ◌>>=◌, drop_sending, drop_send, Listener.drop_listener) refl

address_timeouts-tell_example :
    Tells queue clock
      (by_request 1)
      []
      false
      left
      empty
      ActixAsyncError.receive_timeout
      later
      dropped
address_timeouts-tell_example =
    address_timeouts-tell queue clock 4 none (by_request 1) idle Oneshot.new none (some 0) [] false
      left empty empty later dropped ActixAsyncError.receive_timeout idle-Holds tt refl
      late-runs_out

last_drop-ends_weak_example :
    (c' : Chan queue) × (drop_sender queue idle ≡ some c')
    × (poll_weak queue true 4 (unsent (by_request 1), c')
        ≡ some (ready (err ActixAsyncError.closed), (WeakSending.finished, c')))
    × (do_weak_by queue (by_request 1) true c' ≡ none)
last_drop-ends_weak_example =
    last_drop-ends_weak queue true 4 (by_request 1) idle [] space empty empty idle-Holds refl

weak_send-open_example :
    (c' : Chan queue) × (poll_weak queue true 4 (unsent (by_request 1), idle)
      ≡ some (ready (ok tt), (WeakSending.finished, c')))
    × Holds queue c'
        (by_request 1 ∷ [])
        false
        left
        (told_next 2 0 empty)
        (notify_up_to usize_max empty)
    × (c'.sender_count ≡ 1)
weak_send-open_example =
    weak_send-open queue 4 0 (by_request 1) idle [] left empty empty idle-Holds (omega arith) refl
      (omega arith)
