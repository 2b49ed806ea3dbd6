-- ===== src/Address/Replies.antt =====
-- actix-async/src/address.rs: a request through an address, from the message that it sends to the
-- answer that it gets.
use actix_async.Prelude.{
  contains, ℕ, suc, ◌<◌, ◌≡◌, refl, sym, ◌∙◌, ap, subst, Bool, true, false, none, some, List, [],
  ◌∷◌, Poll, ready, pending, ok, ◌>>=◌, arith,
}
use actix_async.Oneshot
use actix_async.Oneshot.{Inner, drop_tx}
use actix_async.Oneshot.Calls.{IsOpen, poll-IsOpen, poll-send}
use actix_async.Listener.{drop_listener}
use actix_async.Listener.View.{View}
use actix_async.Channel.{Chan, drop_send, try_recv}
use actix_async.Channel.Queue.{QueueOps}
use actix_async.Channel.State.{Holds, try_recv-some}
use actix_async.Channel.Room.{send_poll-open}
use actix_async.Message.{Runtime, ActorMessage, MessageContainer}
use actix_async.Handler.{Handling, unstarted, waiting, finished, answer}
use actix_async.Request
use actix_async.Request.{response}
use actix_async.Address
use actix_async.Address.{Sending, poll_sending, drop_sending}
use actix_async.Address.Shared.{
  Cells, put_cell, start_handling, Requests, send_shared, poll_request, poll_handler, Turn, handles,
  asks, play, DoneAfter, last_waker,
}
use actix_async.Address.Turns.{
  new-IsOpen, put_cell-same, Waits, polled-Waits, message, container, starts, IsAt, fresh, going,
  handler-pends, handler-ends, request-pends, request-ends,
}

module _ {ℓ κ μ ν} {M : Type ℓ} {Sleep : Type κ} {R : Type μ} {Fut : Type ν}
    (Q : QueueOps (ActorMessage (MessageContainer M))) (T : Runtime Sleep)
    (poll_fut : ℕ → Fut → Poll R × Fut) where
  -- The turns of the two sides go through, the handler ends, and the request is answered.
  pub record Replied (turns : List Turn) (w v w' tx : ℕ) (res : R) (h : Handling Fut)
      (m : Requests Q T poll_fut) (cells : Cells R) : Type (ℓ ⊔ κ ⊔ μ ⊔ ν) where
    pub handler : Handling Fut
    pub asker : Requests Q T poll_fut
    pub answered : Requests Q T poll_fut
    pub before : Cells R
    pub after : Cells R
    pub last : Cells R
    pub played : play Q T poll_fut turns tx (h, m, cells) ≡ some (handler, asker, before)
    pub ended :
        poll_handler Q T poll_fut v (some tx) handler before ≡ some (ready tt, finished, after)
    pub woken : contains (after tx).woken (last_waker w turns) ≡ true
    pub replied :
        poll_request Q T poll_fut w' tx asker after
        ≡ some (ready (ok (some res)), answered, last, none)

  plays :
      (turns : List Turn) (w v w' tx : ℕ) (res : R) (fut : Fut) (h : Handling Fut) (rx : Inner R)
      (k : Cells R)
      → Waits w (k tx)
      → IsAt Q T poll_fut h fut
      → DoneAfter Q T poll_fut turns v res fut
      → Replied turns w v w' tx res h (response rx none) k
  unfolding play drop_tx
  plays [] w v w' tx res fut h rx k waits at done =
      let sent = poll-send res w' (k tx) waits.opened in
      let i = answer poll_fut true res (k tx) in
      let same = put_cell-same tx i k in
      record {
        handler = h;
        asker = response rx none;
        answered = response (Oneshot.poll w' (put_cell tx i k tx)).1 none;
        before = k;
        after = put_cell tx i k;
        last = put_cell tx (Oneshot.poll w' (put_cell tx i k tx)).1 (put_cell tx i k);
        played = refl;
        ended = handler-ends Q T poll_fut tx k v h fut res at waits.opened.not_closed done;
        woken =
            ap (λ j. contains j.woken w) same ∙ rw (sent.1, waits.flag, waits.waker) (ground arith);
        replied =
            request-ends Q T poll_fut tx (put_cell tx i k) w' rx res
              (ap (λ j. (Oneshot.poll w' j).0) same ∙ sent.2);
      }
  plays (handles u ∷ turns) w v w' tx res fut h rx k waits at done =
      let turn = handler-pends Q T poll_fut tx k u h fut at waits.opened.not_closed done.0 in
      let rest =
        plays turns w v w' tx res (poll_fut u fut).1 (waiting true (poll_fut u fut).1) rx
          (put_cell tx (k tx) k) (subst (Waits w) (sym (put_cell-same tx (k tx) k)) waits)
          (going (poll_fut u fut).1) done.1 in
      record {
        handler = rest.handler;
        asker = rest.asker;
        answered = rest.answered;
        before = rest.before;
        after = rest.after;
        last = rest.last;
        played = rw (turn, play, ◌>>=◌) rest.played;
        ended = rest.ended;
        woken = rest.woken;
        replied = rest.replied;
      }
  plays (asks u ∷ turns) w v w' tx res fut h rx k waits at done =
      let i = (Oneshot.poll u (k tx)).1 in
      let turn = request-pends Q T poll_fut tx k u rx waits.opened in
      let rest =
        plays turns u v w' tx res fut h i (put_cell tx i k)
          (subst (Waits u) (sym (put_cell-same tx i k)) (polled-Waits u (k tx) waits.opened)) at
          done in
      record {
        handler = rest.handler;
        asker = rest.asker;
        answered = rest.answered;
        before = rest.before;
        after = rest.after;
        last = rest.last;
        played = rw (turn, play, ◌>>=◌) rest.played;
        ended = rest.ended;
        woken = rest.woken;
        replied = rest.replied;
      }

  -- The first poll of a request whose message finds room: the message is sent, the future that sent
  -- it is dropped, and the requester waits on the new cell.
  asked :
      (w tx : ℕ) (f : ℕ → ActorMessage (MessageContainer M)) (c next : Chan Q) (k : Cells R)
      → poll_sending Q w (Address.sending Q c (f tx))
        ≡ some (ready (ok tt), (record { listener = none; msg = none }, next))
      → IsOpen (k tx)
      → poll_request Q T poll_fut w tx (send_shared Q T poll_fut f tx c k).0 k
        ≡ some (
          pending,
          response (Oneshot.poll w (k tx)).1 none,
          put_cell tx (Oneshot.poll w (k tx)).1 k,
          some (record { listener = none; msg = none }, next),
        )
  unfolding poll_request Request.poll Request.poll_response drop_sending drop_send drop_listener
  asked w tx f c next k sent o =
      rw
        (
          sent,
          ◌>>=◌,
          (poll-IsOpen w (k tx) o).0,
          poll_request,
          Request.poll,
          Request.poll_response,
          drop_sending,
          drop_send,
          drop_listener,
        )
        refl

  -- A request by `send` or `wait` through an address of an open channel that is empty and has room:
  -- its first poll sends the message and is pending, and the receiver takes exactly that message out,
  -- which carries the number of the request's cell. The handler that the message then starts and the
  -- requester are polled in any order, however often the handler is pending, until it is done with
  -- `res`. Then the task that polled the request last is woken, and the next poll of the request is
  -- ready with `res`.
  pub request-reply :
      (exclusive : Bool) (msg : M) (handle : M → Fut) (turns : List Turn) (w v w' tx : ℕ) (res : R)
      (c : Chan Q) (cells : Cells R) (n : ℕ) (se st : View)
      → Holds Q c [] false (suc n) se st
      → c.in_queue < c.cap
      → DoneAfter Q T poll_fut turns v res (handle msg)
      → let (m, k) = send_shared Q T poll_fut (message exclusive msg) tx c cells in
        (s : Sending Q) × (c2 : Chan Q) × (h : Handling Fut) × (m1 : Requests Q T poll_fut)
        × (k1 : Cells R) × (poll_request Q T poll_fut w tx m k ≡ some (pending, m1, k1, some s))
        × (try_recv Q s.1 ≡ some (ok (message exclusive msg tx), c2))
        × ((container (message exclusive msg tx) >>= λ b. start_handling handle b)
            ≡ some (h, some tx))
        × Replied turns w v w' tx res h m1 k1
  unfolding poll_sending
  request-reply exclusive msg handle turns w v w' tx res c cells n se st h room done =
      let f = message exclusive msg in
      let k = put_cell tx Oneshot.new cells in
      let sent = send_poll-open Q w none (f tx) c [] n se st h room in
      let (q, ev, took, holds) = try_recv-some Q (f tx) sent.next [] false n _ _ sent.holds in
      let o : IsOpen (k tx) = subst IsOpen (sym (put_cell-same tx Oneshot.new cells)) new-IsOpen in
      let i = (Oneshot.poll w (k tx)).1 in
      (
        (record { listener = none; msg = none }, sent.next),
        _,
        unstarted true (handle msg),
        response i none,
        put_cell tx i k,
        asked w tx f c sent.next k (rw (sent.result, ◌>>=◌) refl) o,
        took,
        starts handle exclusive msg tx,
        plays turns w v w' tx res (handle msg) (unstarted true (handle msg)) i (put_cell tx i k)
            (subst (Waits w) (sym (put_cell-same tx i k)) (polled-Waits w (k tx) o))
            (fresh (handle msg)) done,
      )
