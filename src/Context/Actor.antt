-- ===== src/Context/Actor.antt =====
-- actix-async/src/context_future.rs: `ContextFuture::run` over the channel, the delayed messages and
-- the streams of the crate. Only the futures of the user's code and the timers are parameters.
use actix_async.Prelude.{
  ℕ, ◌≡◌, refl, ap, Bool, true, false, Option, none, some, List, ◌∷◌, Poll, ready, pending, ◌>>=◌,
}
use actix_async.Waker.{ActorWaker}
use actix_async.Tasks.{TaskPoll, Task}
use actix_async.Tasks.Slab.{SlabOps}
use actix_async.Listener.View.{View}
use actix_async.Channel.{Chan, poll_next}
use actix_async.Channel.Queue.{QueueOps}
use actix_async.Channel.State.{Holds, told_room}
use actix_async.Channel.Notified.{IsFree, free_receives}
use actix_async.Message.{
  ActorMessage, MessageContainer, Runtime, FutureMessage, StreamMessage, poll_stream_message,
}
use actix_async.Message
use actix_async.Context.Select.{select, poll_arm}
use actix_async.Context.State.{Parts, selecting, goes}
use actix_async.Context.Run.{Runs, fut_rx, poll_select, on_message, on_output, step, advance}

-- the code of the user: its handlers and hooks, and the polls of their futures
pub record User {ℓ} (M Fut : Type ℓ) : Type ℓ where
  pub handle : MessageContainer M → Fut
  pub handle_wait : MessageContainer M → Fut
  pub on_start : Fut
  pub on_stop : Fut
  pub size_hint : ℕ
  pub poll_task : ActorWaker → Fut → TaskPoll Fut
  pub poll_fut : ℕ → Fut → Poll (Unit {0}) × Fut

-- `Receiver`, with its listener, and whether a poll of it has panicked
pub record Receiver {ℓ} (C : Type ℓ) : Type ℓ where
  pub listener : Option ℕ
  pub chan : C
  pub panicked : Bool

module _ {ℓ} {M Fut Sleep St : Type ℓ} (Q : QueueOps (ActorMessage (MessageContainer M)))
    (R : Runtime Sleep) (poll_item : ℕ → St → Poll (Option M) × St) (U : User M Fut) where
  -- `Receiver::poll_next`. A panic or a fault of the channel, which would end `run`, is kept as such:
  -- the receiver is pending from then on.
  unfoldable pub poll_receiver :
      ℕ → Receiver (Chan Q) → Poll (Option (ActorMessage (MessageContainer M))) × Receiver (Chan Q)
  poll_receiver w r = elim r.panicked [
    | true ↦ (pending, r)
    | false ↦ elim (poll_next Q w r.listener r.chan) [
      | none ↦ (pending, record r { panicked = true })
      | some (p, l, c) ↦ (p, record { listener = l; chan = c; panicked = false })
    ]
  ]

  -- the parts of `run`; an interval's wake of the task itself is left out, since the steps of `run`
  -- may come at any time
  abbrev pub actor :
      Parts
        (MessageContainer M)
        Fut
        (Receiver (Chan Q))
        (StreamMessage Sleep M St)
        (FutureMessage Sleep (MessageContainer M))
  actor = record {
    handle = U.handle;
    handle_wait = U.handle_wait;
    on_start = U.on_start;
    on_stop = U.on_stop;
    size_hint = U.size_hint;
    poll_task = U.poll_task;
    poll_fut = U.poll_fut;
    poll_rx = poll_receiver;
    poll_str = λ w s. let (p, s', wakes) = poll_stream_message R poll_item w s in (p, s');
    poll_del = λ w f. Message.poll_future R w f;
  }

  receives :
      (w : ℕ) (m : ActorMessage (MessageContainer M)) (rx : Receiver (Chan Q)) (c : Chan Q)
      → rx.panicked ≡ false
      → poll_next Q w rx.listener rx.chan ≡ some (ready (some m), none, c)
      → poll_receiver w rx
        ≡ (ready (some m), record { listener = none; chan = c; panicked = false })
  unfolding poll_receiver
  receives w m rx c well took = rw (well, took, poll_receiver) refl

  module _ (S : SlabOps (Task Fut)) where
    -- a run whose receiver is `rx`
    abbrev pub with_rx : Receiver (Chan Q) → Runs S actor → Runs S actor
    with_rx rx r = record r { board = record r.board { ctx = record r.board.ctx { rx = rx } } }

    -- Where `run` polls its mailbox, no poll of its receiver has panicked before, and the receiver does
    -- not listen or its listener has been notified, the oldest message of the channel is taken out,
    -- ahead of the tasks, the streams and the delayed messages, and goes to the match on a message;
    -- the receiver listens no more, and has not panicked.
    pub takes-oldest :
        (w : ℕ) (free : ℕ → Bool) (fut2 fut34 : Bool) (r : Runs S actor)
        (m : ActorMessage (MessageContainer M)) (xs : List (ActorMessage (MessageContainer M)))
        (closed : Bool) (n : ℕ) (se st st' : View)
        → r.pc ≡ selecting true fut2 fut34
        → r.board.ctx.rx.panicked ≡ false
        → Holds Q r.board.ctx.rx.chan (m ∷ xs) closed n se st
        → IsFree r.board.ctx.rx.listener st st'
        → (rx : Receiver (Chan Q)) × (advance S actor w free r
            ≡ some (goes, on_message S actor m (with_rx rx r)))
          × Holds Q rx.chan xs closed n (told_room Q r.board.ctx.rx.chan se) st'
          × (rx.listener ≡ none)
          × (rx.panicked ≡ false)
    unfolding advance step poll_select select poll_arm fut_rx on_output
    takes-oldest w free fut2 fut34 r m xs closed n se st st' at well h free_rx =
        let (c, took, holds) =
          free_receives Q w r.board.ctx.rx.listener m r.board.ctx.rx.chan xs closed n se st st' h
            free_rx in
        let got = receives w m r.board.ctx.rx c well took in
        (
          record { listener = none; chan = c; panicked = false },
          rw (at, step, ap (λ p. p.0) got, poll_select, select, poll_arm, fut_rx, ◌>>=◌)
              (λ i. some (
                goes,
                on_message S actor m
                    (record (with_rx (got i).1 r) { pc = selecting true fut2 fut34 }),
              )),
          holds,
          refl,
          refl,
        )
