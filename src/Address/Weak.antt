-- ===== src/Address/Weak.antt =====
-- actix-async/src/address.rs: a weak address, which holds the actor's channel only while it sends.
use actix_async.Prelude.{
  ℕ, suc, ◌+◌, ◌<◌, ◌≡◌, refl, ◌∙◌, Bool, true, false, ◌==◌, none, some, List, [], ◌∷◌, ◌++◌, ready,
  ok, err, ◌>>=◌, arith,
}
use actix_async.Error.{ActixAsyncError}
use actix_async.Listener
use actix_async.Listener.{usize_max}
use actix_async.Listener.View.{View}
use actix_async.Channel
use actix_async.Channel.{
  Chan, SendFuture, do_send, send_counted, send_loop, send_poll, drop_send, drop_sender,
  poll_listener,
}
use actix_async.Channel.Queue.{QueueOps}
use actix_async.Channel.State.{Holds}
use actix_async.Channel.Room.{send_poll-open, told_next}
use actix_async.Channel.Counts.{senders_are_counted, drop_one_of_many}
use actix_async.Listener.Refine.{notify_up_to}
use actix_async.Message.{ActorMessage, MessageContainer}
use actix_async.Address.{
  Message, unsent, finished, poll_weak, poll_flight, after_send, do_weak_by, upgrade,
}

module _ {ℓ} {M : Type ℓ} (Q : QueueOps (ActorMessage (MessageContainer M))) where
  -- When the last address of an actor is dropped, a weak address can no longer send: `send` fails with
  -- `Closed` and leaves the channel alone, and `do_send` panics.
  pub last_drop-ends_weak :
      (alive : Bool) (w : ℕ) (msg : Message Q) (c : Chan Q) (xs : List (Message Q)) (n : ℕ)
      (se st : View)
      → Holds Q c xs false n se st
      → c.sender_count ≡ 1
      → (c' : Chan Q) × (drop_sender Q c ≡ some c')
        × (poll_weak Q alive w (unsent msg, c')
            ≡ some (ready (err ActixAsyncError.closed), (finished, c')))
        × (do_weak_by Q msg alive c' ≡ none)
  unfolding poll_weak do_weak_by
  last_drop-ends_weak alive w msg c xs n se st h counted =
      let shut = (senders_are_counted Q c xs n 0 se st h counted (omega arith)).0 refl in
      (
        shut.next,
        shut.result,
        rw (shut.dead alive, poll_weak) refl,
        rw (shut.dead alive, ◌>>=◌) refl,
      )

  -- A weak address of a live actor whose channel is open and has room sends at its first poll: the
  -- message is put behind all others, and the address that it was upgraded to is given back.
  pub weak_send-open :
      (w k : ℕ) (msg : Message Q) (c : Chan Q) (xs : List (Message Q)) (n : ℕ) (se st : View)
      → Holds Q c xs false (suc n) se st
      → c.in_queue < c.cap
      → c.sender_count ≡ suc k
      → c.sender_count < usize_max
      → (c' : Chan Q) × (poll_weak Q true w (unsent msg, c) ≡ some (ready (ok tt), (finished, c')))
        × Holds Q c'
            (xs ++ msg ∷ [])
            false
            n
            (told_next c.cap c.in_queue se)
            (notify_up_to usize_max st)
        × (c'.sender_count ≡ c.sender_count)
  unfolding poll_weak poll_flight after_send Channel.upgrade drop_send Listener.drop_listener
  weak_send-open w k msg c xs n se st h room counted few =
      let more : Chan Q = record c { sender_count = c.sender_count + 1 } in
      let up : upgrade Q true c ≡ some more =
        rw (let e : (c.sender_count == 0) ≡ false = ground arith in e) refl in
      let sent =
        send_poll-open Q w none msg more xs n se st
          (record { queue = h.queue; send_ops = h.send_ops; stream_ops = h.stream_ops }) room in
      let back =
        drop_one_of_many Q sent.next c.sender_count (sent.senders ∙ omega arith) (omega arith)
          few in
      (
        record sent.next { sender_count = c.sender_count },
        rw (up, poll_weak, sent.result, ◌>>=◌, back) refl,
        record {
          queue = sent.holds.queue;
          send_ops = sent.holds.send_ops;
          stream_ops = sent.holds.stream_ops;
        },
        refl,
      )
